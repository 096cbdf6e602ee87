-- ===== src/Worker/Places.antt =====
-- Replacing and appending elements of a list (the calls of axontask-worker/src/events.rs that are under way).
use mathlib.Core.Option.{some-injective}
use axon_task.Prelude.{
  ℕ, zero, suc, ◌≡◌, ◌≢◌, refl, ap, inl, inr, ◌⊎◌, some, List, [], ◌∷◌, ◌++◌, length, get_elem?,
}
use axon_task.Worker.Overlap.{put}

module _ {A : Type 0} where
  pub put-here :
      (n : ℕ) (a c : A) (xs : List A) → get_elem? xs n ≡ some c → get_elem? (put n a xs) n ≡ some a
  put-here n a c [] h = absurd cc
  put-here zero a c (x ∷ xs) h = refl
  put-here (suc n) a c (x ∷ xs) h = put-here n a c xs h

  pub put-elsewhere :
      (n i : ℕ) (a : A) (xs : List A) → i ≢ n → get_elem? (put n a xs) i ≡ get_elem? xs i
  put-elsewhere n i a [] h = refl
  put-elsewhere zero zero a (x ∷ xs) h = absurd (h refl)
  put-elsewhere zero (suc i) a (x ∷ xs) h = refl
  put-elsewhere (suc n) zero a (x ∷ xs) h = refl
  put-elsewhere (suc n) (suc i) a (x ∷ xs) h = put-elsewhere n i a xs (λ e. h (ap suc e))

  pub length-put : (n : ℕ) (a : A) (xs : List A) → length (put n a xs) ≡ length xs
  length-put n a [] = refl
  length-put zero a (x ∷ xs) = refl
  length-put (suc n) a (x ∷ xs) = ap suc (length-put n a xs)

  pub in_front :
      (xs ys : List A) (i : ℕ) (c : A) → get_elem? xs i ≡ some c → get_elem? (xs ++ ys) i ≡ some c
  in_front [] ys i c h = absurd cc
  in_front (x ∷ xs) ys zero c h = h
  in_front (x ∷ xs) ys (suc i) c h = in_front xs ys i c h

  pub found_in :
      (xs : List A) (a : A) (i : ℕ) (c : A)
      → get_elem? (xs ++ a ∷ []) i ≡ some c
      → (get_elem? xs i ≡ some c) ⊎ ((i ≡ length xs) × (a ≡ c))
  found_in [] a zero c h = inr (refl, some-injective _ _ h)
  found_in [] a (suc i) c h = absurd cc
  found_in (x ∷ xs) a zero c h = inl h
  found_in (x ∷ xs) a (suc i) c h = elim (found_in xs a i c h) [
    | inl k ↦ inl k
    | inr (e, q) ↦ inr (ap suc e, q)
  ]
