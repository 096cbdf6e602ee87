-- ===== src/Redis/Decimals.antt =====
-- Numbers as the fields of a stream entry print and parse them (axontask-shared/src/events/serialization.rs).
use axon_task.Prelude.{
  ℕ, zero, suc, ◌+◌, ◌-◌, ◌*◌, ◌/◌, ◌%◌, ◌^◌, ◌≤◌, ◌<◌, ◌≡◌, refl, sym, ap, ◌∙◌, inl, inr, ℤ, pos,
  negsuc, i64_max, Text, Option, none, some, [], ◌∷◌, ◌++◌, ltb, Bool-cases, arith,
}
use native.Mathlib.Numerals.{unary_clauses}
use axon_task.Redis.StreamId.{digits, unsigned, at_most_max, at_least_min, parse_i64, is_digit}
use axon_task.Redis.Serialization.{decimal, i64_to_string}

abbrev push_digit : ℕ → Option ℕ → Option ℕ
push_digit d none = none
push_digit d (some m) = some (m * 10 + d)

digits-append :
    (s : Text) (acc d : ℕ)
    → d < 10
    → digits acc (s ++ ((48 + d) ∷ [])) ≡ push_digit d (digits acc s)
unfolding digits
digits-append [] acc d h = ground arith
digits-append (c ∷ cs) acc d h = elim (Bool-cases (is_digit c)) [
  | inl e ↦ rw e (digits-append cs (acc * 10 + (c - 48)) d h)
  | inr e ↦ rw e refl
]

ten_pow : (k : ℕ) → 10 ^ suc k ≡ 10 * 10 ^ k
ten_pow k = simp unary_clauses (omega arith)

tenth-below : (k n : ℕ) → n < 10 ^ suc k → n / 10 < 10 ^ k
tenth-below k n h = omega (arith, ten_pow k)

digits-decimal : (k n : ℕ) → n < 10 ^ k → digits 0 (decimal k n) ≡ some n
unfolding decimal digits
digits-decimal zero n h = ground arith
digits-decimal (suc k) n h = elim (Bool-cases (ltb n 10)) [
  | inl e ↦ rw e (ground arith)
  | inr e ↦ rw e (
      digits-append (decimal k (n / 10)) 0 (n % 10) (omega arith)
      ∙ ap (push_digit (n % 10)) (digits-decimal k (n / 10) (tenth-below k n h))
      ∙ ap some (omega arith))
]

-- The first byte is a digit.
abbrev Starts : Text → Type 0
Starts s = (c : ℕ) × (cs : Text) × (s ≡ c ∷ cs) × (48 ≤ c) × (c ≤ 57)

append-Starts : (s t : Text) → Starts s → Starts (s ++ t)
append-Starts s t (c, cs, e, lo, hi) = (c, cs ++ t, ap (λ p. p ++ t) e, lo, hi)

first_digit : (k n : ℕ) → Starts (decimal (suc k) n)
unfolding decimal
first_digit zero n = elim (Bool-cases (ltb n 10)) [
  | inl e ↦ rw e (48 + n, [], refl, omega arith, ground arith)
  | inr e ↦ rw e (48 + n % 10, [], refl, omega arith, omega arith)
]
first_digit (suc k) n = elim (Bool-cases (ltb n 10)) [
  | inl e ↦ rw e (48 + n, [], refl, omega arith, ground arith)
  | inr e ↦
      rw e (append-Starts (decimal (suc k) (n / 10)) ((48 + n % 10) ∷ []) (first_digit k (n / 10)))
]

-- The numbers of `i64`.
abbrev pub IsI64 : ℤ → Type 0
IsI64 (pos n) = n ≤ i64_max
IsI64 (negsuc n) = n ≤ i64_max

unsigned-decimal : (n : ℕ) → n < 10 ^ 20 → unsigned (decimal 20 n) ≡ some n
unsigned-decimal n h =
    let (c, cs, e, _, _) = first_digit 19 n in
    ap unsigned e ∙ (sym (ap (digits 0) e) ∙ digits-decimal 20 n h)

unsigned_digit : (s : Text) → Starts s → parse_i64 s ≡ at_most_max (unsigned s)
unfolding parse_i64
unsigned_digit s (c, cs, e, lo, hi) = rw e (ground arith)

pub parse_i64-i64_to_string : (z : ℤ) → IsI64 z → parse_i64 (i64_to_string z) ≡ some z
unfolding i64_to_string parse_i64
parse_i64-i64_to_string (pos n) h =
    unsigned_digit (decimal 20 n) (first_digit 19 n)
    ∙ ap at_most_max (unsigned-decimal n (omega arith))
    ∙ ground arith
parse_i64-i64_to_string (negsuc n) h =
    ap at_least_min (unsigned-decimal (n + 1) (omega arith)) ∙ ground arith
