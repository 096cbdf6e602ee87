-- ===== src/Auth/ScopeRules.antt =====
-- What a list of scopes grants (`has_scope` of axontask-shared/src/auth/api_key.rs).
use axon_task.Prelude.{
  ℕ, zero, suc, ◌-◌, ◌<◌, ◌≡◌, refl, sym, ap, ◌∙◌, inl, inr, ◌⊎◌, ◌↔◌, Text, text, text_eq,
  starts_with, eq_of_text_eq, text_eq_refl, text_eq_of_eq, true, List, [], ◌∷◌, ◌++◌, length, take,
  In, Bool-cases, arith,
}
use mathlib.Core.Path.{subst}
use axon_task.Auth.Scopes.{ends_with, grants, has_scope}

-- A scope covers what is required: all of it, itself, or all that begins as it does before its `*`.
abbrev pub Covers : Text → Text → Type 0
Covers required scope =
    (scope ≡ text "*")
    ⊎ (scope ≡ required)
    ⊎ ((family : Text) × (rest : Text) × (scope ≡ family ++ text ":*")
        × (required ≡ (family ++ text ":") ++ rest))

starts_with-split : (s p : Text) → starts_with s p ≡ true → (rest : Text) × (s ≡ p ++ rest)
unfolding starts_with
starts_with-split s [] h = (s, refl)
starts_with-split [] (p ∷ ps) h = cc
starts_with-split (x ∷ xs) (p ∷ ps) h =
    let (rest, e) = starts_with-split xs ps (ground arith) in (rest, ground (arith, e))

starts_with-append : (p rest : Text) → starts_with (p ++ rest) p ≡ true
unfolding starts_with
starts_with-append [] rest = refl
starts_with-append (x ∷ p) rest = ground (arith, starts_with-append p rest)

ends_with-split : (s suffix : Text) → ends_with s suffix ≡ true → (p : Text) × (s ≡ p ++ suffix)
unfolding ends_with
ends_with-split [] suffix h = ([], eq_of_text_eq [] suffix h)
ends_with-split (x ∷ xs) suffix h = elim (Bool-cases (text_eq (x ∷ xs) suffix)) [
  | inl e ↦ ([], eq_of_text_eq (x ∷ xs) suffix e)
  | inr e ↦ let (p, q) = ends_with-split xs suffix (ground arith) in (x ∷ p, ap (λ ys. x ∷ ys) q)
]

ends_with_self : (s : Text) → ends_with s s ≡ true
unfolding ends_with
ends_with_self [] = text_eq_refl []
ends_with_self (x ∷ xs) = ground (arith, text_eq_refl (x ∷ xs))

ends_with-append : (p suffix : Text) → ends_with (p ++ suffix) suffix ≡ true
unfolding ends_with
ends_with-append [] suffix = ends_with_self suffix
ends_with-append (x ∷ p) suffix = ground (arith, ends_with-append p suffix)

keep_head : (n x : ℕ) (s r : Text) → 0 < n → take (n - 1) s ≡ r → take (suc n - 1) (x ∷ s) ≡ x ∷ r
keep_head zero x s r l h = absurd (omega arith)
keep_head (suc n) x s r l h =
    let q : suc (suc n) - 1 ≡ suc (suc n - 1) = omega arith in
    ap (λ k. take k (x ∷ s)) q ∙ ap (λ ys. x ∷ ys) h

star_length : (p : Text) → 0 < length (p ++ text ":*")
unfolding text
star_length [] = omega arith
star_length (x ∷ p) = omega arith

-- The family of a scope that ends in `:*`, with its `:`.
without_star : (p : Text) → take (length (p ++ text ":*") - 1) (p ++ text ":*") ≡ p ++ text ":"
unfolding text
without_star [] = refl
without_star (x ∷ p) =
    keep_head (length (p ++ text ":*")) x (p ++ text ":*") (p ++ text ":") (star_length p)
      (without_star p)

in_family :
    (required scope : Text)
    → ends_with scope (text ":*") ≡ true
    → starts_with required (take (length scope - 1) scope) ≡ true
    → Covers required scope
in_family required scope e s =
    let (p, q) = ends_with-split scope (text ":*") e in
    let (rest, r) = starts_with-split required (take (length scope - 1) scope) s in
    inr (
      inr (
        p,
        rest,
        q,
        r ∙ ap (λ ys. ys ++ rest) (ap (λ xs. take (length xs - 1) xs) q ∙ without_star p),
      ))

granted_from : (required scope : Text) → Covers required scope → grants required scope ≡ true
granted_from required scope (inl e) = ground (arith, text_eq_of_eq scope (text "*") e)
granted_from required scope (inr (inl e)) = ground (arith, text_eq_of_eq scope required e)
granted_from required scope (inr (inr (p, rest, q, r))) =
    let ends : ends_with scope (text ":*") ≡ true =
      subst (λ xs. ends_with xs (text ":*") ≡ true) (sym q) (ends_with-append p (text ":*")) in
    let begins : starts_with required (take (length scope - 1) scope) ≡ true =
      subst (λ xs. starts_with required (take (length xs - 1) xs) ≡ true) (sym q)
        (subst (λ xs. starts_with required xs ≡ true) (sym (without_star p))
          (subst (λ xs. starts_with xs (p ++ text ":") ≡ true) (sym r)
            (starts_with-append (p ++ text ":") rest))) in
    ground (arith, ends, begins)

granted_to : (required scope : Text) → grants required scope ≡ true → Covers required scope
granted_to required scope h = elim (Bool-cases (text_eq scope (text "*"))) [
  | inl e ↦ inl (eq_of_text_eq scope (text "*") e)
  | inr e ↦ elim (Bool-cases (text_eq scope required)) [
    | inl f ↦ inr (inl (eq_of_text_eq scope required f))
    | inr f ↦ in_family required scope (ground arith) (ground arith)
  ]
]

-- `has_scope` grants what some scope of the list covers, and nothing else: `*` covers everything, `family:*` what
-- begins with `family:`, and any other scope, `admin` among them, itself alone.
pub has_scope_iff :
    (scopes : List Text) (required : Text)
    → (has_scope scopes required ≡ true)
      ↔ ((scope : Text) × In scope scopes × Covers required scope)
unfolding has_scope
has_scope_iff [] required = ((λ h. cc), (λ (scope, i, c). absurd i))
has_scope_iff (x ∷ xs) required =
    let (to, from) = has_scope_iff xs required in
    (
      (λ h. elim (Bool-cases (grants required x)) [
        | inl e ↦ (x, inl refl, granted_to required x e)
        | inr e ↦ let (scope, i, c) = to (rw e at h) in (scope, inr i, c)
      ]),
      (λ (scope, i, c). elim i [
        | inl e ↦ rw (granted_from required x (subst (Covers required) e c)) refl
        | inr i' ↦ ground (arith, from (scope, i', c))
      ]),
    )
