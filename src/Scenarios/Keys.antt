-- ===== src/Scenarios/Keys.antt =====
-- A generated API key (axontask-shared/src/auth/api_key.rs).
use axon_task.Prelude.{
  ℕ, ◌≡◌, ◌↔◌, refl, Text, text, true, false, List, [], ◌∷◌, All, arith, ◌<◌, ◌%◌, suc, zero,
  length,
}
use axon_task.Auth.ApiKeys.{generate_api_key, verify_api_key, validate_api_key_format}
use axon_task.Auth.Compare.{AreBytes}
use axon_task.Auth.ApiKeyRules.{is_plain, OnAscii, validate_api_key_format-generate_api_key}

-- Decoding byte by byte, with the letters and digits of ASCII.
plain-OnAscii : OnAscii (λ t. t) is_plain
plain-OnAscii = record { one_byte_each = λ t h. refl; plain_passes = λ c h. h }

abbrev repeat : ℕ → ℕ → List ℕ
repeat zero i = []
repeat (suc n) i = i ∷ repeat n i

abbrev indices : List ℕ
indices = 61 ∷ repeat 31 0

abbrev digest : Text → Text
digest t = (length t % 256) ∷ []

digest-bytes : (t : Text) → AreBytes (digest t)
digest-bytes t = (omega arith, tt)

validate_api_key_format-generate_api_key_example :
    let (key, hash) = generate_api_key digest indices in
    (validate_api_key_format (λ t. t) is_plain key ≡ true)
    × ((other : Text) → (verify_api_key digest other hash ≡ true) ↔ (digest other ≡ digest key))
validate_api_key_format-generate_api_key_example =
    validate_api_key_format-generate_api_key digest (λ t. t) is_plain indices plain-OnAscii
      digest-bytes refl (omega arith, within 31)
  where
    within : (n : ℕ) → All (λ i. i < 62) (repeat n 0)
    within zero = tt
    within (suc n) = (omega arith, within n)

-- A key without its prefix.
not_a_key : validate_api_key_format (λ t. t) is_plain (text "0123456789") ≡ false
unfolding validate_api_key_format text
not_a_key = refl
