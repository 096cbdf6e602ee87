-- ===== src/Auth/Scopes.antt =====
-- Scopes of API keys (axontask-shared/src/auth/api_key.rs). A text is the bytes of its UTF-8.
use axon_task.Prelude.{
  ◌-◌, Text, text, text_eq, starts_with, Bool, true, false, ◌||◌, List, [], ◌∷◌, length, take,
  if◌then◌else◌,
}

unfoldable pub ends_with : Text → Text → Bool
ends_with [] suffix = text_eq [] suffix
ends_with (x ∷ xs) suffix = text_eq (x ∷ xs) suffix || ends_with xs suffix

-- What one granted scope gives: everything, itself, or all that begins as it does before its `*`.
abbrev pub grants : Text → Text → Bool
grants required scope =
    if text_eq scope (text "*")
    then true
    else if text_eq scope required
    then true
    else if ends_with scope (text ":*")
    then starts_with required (take (length scope - 1) scope)
    else false

unfoldable pub has_scope : List Text → Text → Bool
has_scope [] required = false
has_scope (scope ∷ scopes) required =
    let rest = has_scope scopes required in if grants required scope then true else rest
