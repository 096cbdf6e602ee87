-- ===== src/Auth/ApiKeys.antt =====
-- API keys as texts (axontask-shared/src/auth/api_key.rs). The SHA-256 digest in hexadecimal, the numbers that are drawn, the
-- decoding of UTF-8 and `char::is_alphanumeric` are parameters.
use axon_task.Prelude.{
  ℕ, Text, text, starts_with, Bool, false, none, some, List, [], ◌∷◌, ◌++◌, all, drop, length,
  get_elem?, ◌==◌, if◌then◌else◌,
}
use axon_task.Auth.Compare.{constant_time_compare}

abbrev pub key_random_length : ℕ
key_random_length = 32

abbrev pub key_prefix : Text
key_prefix = text "axon_"

abbrev pub api_key_length : ℕ
api_key_length = 37

abbrev pub charset : Text
charset = text "ABCDEFGHIJKLMNOPQRSTUVWXYZabcdefghijklmnopqrstuvwxyz0123456789"

-- The characters at the places that were drawn, each below the length of the set.
unfoldable pub generate_random_string : List ℕ → Text
generate_random_string [] = []
generate_random_string (i ∷ is) =
    let rest = generate_random_string is in
    elim (get_elem? charset i) [ none ↦ rest | some c ↦ c ∷ rest ]

module _ (hash_api_key : Text → Text) where
  unfoldable pub generate_api_key : List ℕ → Text × Text
  generate_api_key indices =
      let key = key_prefix ++ generate_random_string indices in (key, hash_api_key key)

  unfoldable pub verify_api_key : Text → Text → Bool
  verify_api_key key stored_hash = constant_time_compare (hash_api_key key) stored_hash

module _ (chars : Text → List ℕ) (is_alphanumeric : ℕ → Bool) where
  unfoldable pub validate_api_key_format : Text → Bool
  validate_api_key_format key =
      if length key == api_key_length
      then if starts_with key key_prefix
        then all is_alphanumeric (chars (drop (length key_prefix) key))
        else false
      else false
