-- ===== src/Auth/Compare.antt =====
-- Comparison without an early exit (`constant_time_compare` of axontask-shared/src/auth/api_key.rs).
use axon_task.Prelude.{
  ℕ, zero, suc, ◌+◌, ◌*◌, ◌/◌, ◌%◌, ◌<◌, ◌≡◌, refl, ap, ◌↔◌, Text, Bool, true, false, [], ◌∷◌,
  length, All, ◌==◌, if◌then◌else◌, arith,
}

-- `^` and `|` on numbers of a count of bits.
unfoldable pub xor : ℕ → ℕ → ℕ → ℕ
xor zero a b = 0
xor (suc k) a b = (a % 2 + b % 2) % 2 + 2 * xor k (a / 2) (b / 2)

abbrev pub bit_or : ℕ → ℕ → ℕ
bit_or a b = if a + b == 0 then 0 else 1

unfoldable pub or : ℕ → ℕ → ℕ → ℕ
or zero a b = 0
or (suc k) a b = bit_or (a % 2) (b % 2) + 2 * or k (a / 2) (b / 2)

-- The loop, over the accumulated differences.
unfoldable pub accumulate : ℕ → Text → Text → ℕ
accumulate result [] bs = result
accumulate result (a ∷ xs) [] = result
accumulate result (a ∷ xs) (b ∷ bs) = accumulate (or 8 result (xor 8 a b)) xs bs

unfoldable pub constant_time_compare : Text → Text → Bool
constant_time_compare a b = if length a == length b then accumulate 0 a b == 0 else false

-- Halving, as `xor` and `or` go through the bits.
abbrev span : ℕ → ℕ
span zero = 1
span (suc k) = 2 * span k

xor-zero : (k a b : ℕ) → a < span k → b < span k → (xor k a b ≡ 0) ↔ (a ≡ b)
unfolding xor
xor-zero zero a b ha hb = ((λ _. omega arith), (λ _. refl))
xor-zero (suc k) a b ha hb =
    let (to, from) = xor-zero k (a / 2) (b / 2) (omega arith) (omega arith) in
    (
      (λ h. let e = to (omega arith) in omega arith),
      (λ h. let e = from (ap (λ n. n / 2) h) in omega arith),
    )

or-zero : (k a b : ℕ) → a < span k → b < span k → (or k a b ≡ 0) ↔ ((a ≡ 0) × (b ≡ 0))
unfolding or
or-zero zero a b ha hb = ((λ _. (omega arith, omega arith)), (λ _. refl))
or-zero (suc k) a b ha hb =
    let (to, from) = or-zero k (a / 2) (b / 2) (omega arith) (omega arith) in
    (
      (λ h. let high = to (ground arith) in (ground (arith, high), ground (arith, high))),
      (λ h. let e = from (omega (arith, h.0), omega (arith, h.1)) in ground (arith, h.0, h.1, e)),
    )

or-bound : (k a b : ℕ) → or k a b < span k
unfolding or
or-bound zero a b = omega arith
or-bound (suc k) a b = ground (arith, or-bound k (a / 2) (b / 2))

xor-bound : (k a b : ℕ) → xor k a b < span k
unfolding xor
xor-bound zero a b = omega arith
xor-bound (suc k) a b = omega (arith, xor-bound k (a / 2) (b / 2))

abbrev pub AreBytes : Text → Type 0
AreBytes a = All (λ x. x < 256) a

accumulate-zero :
    (r : ℕ) (a b : Text)
    → r < 256
    → length a ≡ length b
    → AreBytes a
    → AreBytes b
    → (accumulate r a b ≡ 0) ↔ ((r ≡ 0) × (a ≡ b))
unfolding accumulate
accumulate-zero r [] [] hr l ha hb = ((λ h. (h, refl)), (λ h. h.0))
accumulate-zero r [] (y ∷ b) hr l ha hb = absurd (omega arith)
accumulate-zero r (x ∷ a) [] hr l ha hb = absurd (omega arith)
accumulate-zero r (x ∷ a) (y ∷ b) hr l ha hb =
    let (to, from) =
      accumulate-zero (or 8 r (xor 8 x y)) a b (or-bound 8 r (xor 8 x y)) (omega arith) ha.1 hb.1 in
    let (or_to, or_from) = or-zero 8 r (xor 8 x y) hr (xor-bound 8 x y) in
    let (xor_to, xor_from) = xor-zero 8 x y ha.0 hb.0 in
    (
      (λ h.
          let (o, rest) = to h in
          let (zero_before, same) = or_to o in (zero_before, cc (xor_to same, rest))),
      (λ h. from (or_from (h.0, xor_from (cc h.1)), cc h.1)),
    )

compared :
    (a b : Text) → constant_time_compare a b ≡ true → (length a ≡ length b) × (accumulate 0 a b ≡ 0)
unfolding constant_time_compare
compared a b h = ground arith

compared_from :
    (a b : Text) → length a ≡ length b → accumulate 0 a b ≡ 0 → constant_time_compare a b ≡ true
unfolding constant_time_compare
compared_from a b l h = ground (arith, l, h)

pub constant_time_compare_iff :
    (a b : Text) → AreBytes a → AreBytes b → (constant_time_compare a b ≡ true) ↔ (a ≡ b)
constant_time_compare_iff a b ha hb = (
  (λ h. let (l, z) = compared a b h in ((accumulate-zero 0 a b (omega arith) l ha hb).0 z).1),
  (λ e.
      compared_from a b (ap length e)
        ((accumulate-zero 0 a b (omega arith) (ap length e) ha hb).1 (refl, e))),
)
