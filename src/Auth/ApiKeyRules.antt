-- ===== src/Auth/ApiKeyRules.antt =====
-- That API keys which are generated are accepted (axontask-shared/src/auth/api_key.rs).
use axon_task.Prelude.{
  ℕ, zero, suc, ◌<◌, ◌≡◌, refl, ap, ◌∙◌, Text, text, starts_with, Bool, true, ◌&&◌, ◌||◌, some,
  List, [], ◌∷◌, all, length, get_elem?, leb, ◌↔◌, All, All-mono, arith,
}
use axon_task.Auth.Compare.{AreBytes, constant_time_compare_iff}
use axon_task.Auth.ApiKeys.{
  charset, generate_random_string, generate_api_key, verify_api_key, validate_api_key_format,
}

-- Letters and digits of ASCII.
abbrev pub is_plain : ℕ → Bool
is_plain c = leb 48 c && leb c 57 || leb 65 c && leb c 90 || leb 97 c && leb c 122

-- What is documented of `str::chars` and `char::is_alphanumeric`, on ASCII.
pub record OnAscii (chars : Text → List ℕ) (is_alphanumeric : ℕ → Bool) : Type 0 where
  pub one_byte_each : (t : Text) → All (λ c. c < 128) t → chars t ≡ t
  pub plain_passes : (c : ℕ) → is_plain c ≡ true → is_alphanumeric c ≡ true

found :
    (p : ℕ → Bool) (xs : Text) (i : ℕ)
    → all p xs ≡ true
    → i < length xs
    → (c : ℕ) × (get_elem? xs i ≡ some c) × (p c ≡ true)
found p [] i h lt = absurd (omega arith)
found p (x ∷ xs) zero h lt = (x, refl, ground arith)
found p (x ∷ xs) (suc i) h lt = found p xs i (ground arith) (omega arith)

charset_plain : all is_plain charset ≡ true
unfolding text
charset_plain = refl

length-charset : length charset ≡ 62
unfolding text
length-charset = refl

drawn :
    (is : List ℕ)
    → All (λ i. i < 62) is
    → (length (generate_random_string is) ≡ length is)
      × All (λ c. is_plain c ≡ true) (generate_random_string is)
unfolding generate_random_string text
drawn [] h = (refl, tt)
drawn (i ∷ is) h =
    let (c, e, p) = found is_plain charset i charset_plain (omega (arith, length-charset, h.0)) in
    let (l, a) = drawn is h.1 in rw e (ap suc l, (p, a))

plain-ascii : (t : Text) → All (λ c. is_plain c ≡ true) t → All (λ c. c < 128) t
plain-ascii [] h = tt
plain-ascii (c ∷ t) h = (ground (arith, h.0), plain-ascii t h.1)

all_of_All : (p : ℕ → Bool) (t : Text) → All (λ c. p c ≡ true) t → all p t ≡ true
all_of_All p [] h = refl
all_of_All p (c ∷ t) h = rw (h.0, all_of_All p t h.1) refl

passes :
    (chars : Text → List ℕ) (is_alphanumeric : ℕ → Bool) (t : Text)
    → OnAscii chars is_alphanumeric
    → All (λ c. is_plain c ≡ true) t
    → all is_alphanumeric (chars t) ≡ true
passes chars is_alphanumeric t std h =
    ap (all is_alphanumeric) (std.one_byte_each t (plain-ascii t h))
    ∙ all_of_All is_alphanumeric t (All-mono _ _ t (λ c p. std.plain_passes c p) h)

-- Let 32 numbers be drawn, each below 62. The key that `generate_api_key` makes of them passes
-- `validate_api_key_format`, and `verify_api_key` accepts with its hash the keys that have the same digest, and no
-- other. The digests are bytes, and ASCII characters are single bytes whose letters and digits are alphanumeric.
pub validate_api_key_format-generate_api_key :
    (hash_api_key : Text → Text) (chars : Text → List ℕ) (is_alphanumeric : ℕ → Bool)
    (indices : List ℕ)
    → OnAscii chars is_alphanumeric
    → ((t : Text) → AreBytes (hash_api_key t))
    → length indices ≡ 32
    → All (λ i. i < 62) indices
    → let (key, hash) = generate_api_key hash_api_key indices in
      (validate_api_key_format chars is_alphanumeric key ≡ true)
      × ((other : Text)
          → (verify_api_key hash_api_key other hash ≡ true)
            ↔ (hash_api_key other ≡ hash_api_key key))
unfolding generate_api_key verify_api_key validate_api_key_format text starts_with
validate_api_key_format-generate_api_key hash_api_key chars is_alphanumeric indices std bytes n h =
    let (l, plain) = drawn indices h in
    let long : length (generate_random_string indices) ≡ 32 = l ∙ n in
    (
      rw (long, passes chars is_alphanumeric (generate_random_string indices) std plain) refl,
      (λ other. constant_time_compare_iff _ _ (bytes other) (bytes _)),
    )
