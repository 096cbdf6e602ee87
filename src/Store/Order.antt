-- ===== src/Store/Order.antt =====
-- `ORDER BY created_at ASC`, with a limit (`Store/Rows.antt`): the rows are the same ones, in order.
use axon_task.Prelude.{
  ℕ, zero, suc, ◌≤◌, ◌≡◌, ◌≢◌, refl, ◌⊎◌, inl, inr, [], ◌∷◌, take, length, All, All-take, All-mono,
  In, In-All, Bool-cases, leb, leb→le, arith,
}
use axon_task.Task.{Task}
use axon_task.Store.{Table}
use axon_task.Store.Rows.{oldest_first, insert_by_age}
use axon_task.Store.Evolution.{Distinct}

module _ {J : Type 0} where
  module _ (P : Task J → Type 0) where
    insert_by_age-All : (t : Task J) (ts : Table J) → P t → All P ts → All P (insert_by_age t ts)
    unfolding insert_by_age
    insert_by_age-All t [] p h = (p, tt)
    insert_by_age-All t (u ∷ us) p h = elim (Bool-cases (leb t.created_at u.created_at)) [
      | inl e ↦ rw e (p, h)
      | inr e ↦ rw e (h.0, insert_by_age-All t us p h.1)
    ]

    pub oldest_first-All : (ts : Table J) → All P ts → All P (oldest_first ts)
    unfolding oldest_first
    oldest_first-All [] h = tt
    oldest_first-All (t ∷ ts) h =
        insert_by_age-All t (oldest_first ts) h.0 (oldest_first-All ts h.1)

  abbrev IsOldestFirst : Table J → Type 0
  IsOldestFirst [] = Unit
  IsOldestFirst (t ∷ ts) = All (λ u. t.created_at ≤ u.created_at) ts × IsOldestFirst ts

  insert_by_age-IsOldestFirst :
      (t : Task J) (ts : Table J) → IsOldestFirst ts → IsOldestFirst (insert_by_age t ts)
  unfolding insert_by_age
  insert_by_age-IsOldestFirst t [] h = (tt, tt)
  insert_by_age-IsOldestFirst t (u ∷ us) h = elim (Bool-cases (leb t.created_at u.created_at)) [
    | inl e ↦ rw e (
      (
        leb→le _ _ e,
        All-mono _ (λ v. t.created_at ≤ v.created_at) us
            (λ v k. omega (arith, leb→le t.created_at u.created_at e)) h.0,
      ),
      h,
    )
    | inr e ↦ rw e (
      insert_by_age-All (λ v. u.created_at ≤ v.created_at) t us (ground arith) h.0,
      insert_by_age-IsOldestFirst t us h.1,
    )
  ]

  oldest_first-IsOldestFirst : (ts : Table J) → IsOldestFirst (oldest_first ts)
  unfolding oldest_first
  oldest_first-IsOldestFirst [] = tt
  oldest_first-IsOldestFirst (t ∷ ts) =
      insert_by_age-IsOldestFirst t (oldest_first ts) (oldest_first-IsOldestFirst ts)

  step_past :
      (u t x : Task J) (ts us : Table J)
      → (In u (t ∷ ts) → In u us)
      → In u (t ∷ x ∷ ts)
      → In u (x ∷ us)
  step_past u t x ts us k (inl p) = inr (k (inl p))
  step_past u t x ts us k (inr (inl p)) = inl p
  step_past u t x ts us k (inr (inr h)) = inr (k (inr h))

  insert_by_age-In : (u t : Task J) (ts : Table J) → In u (t ∷ ts) → In u (insert_by_age t ts)
  unfolding insert_by_age
  insert_by_age-In u t [] h = h
  insert_by_age-In u t (x ∷ ts) h = elim (Bool-cases (leb t.created_at x.created_at)) [
    | inl e ↦ rw e h
    | inr e ↦ rw e (step_past u t x ts (insert_by_age t ts) (insert_by_age-In u t ts) h)
  ]

  pub oldest_first-In : (u : Task J) (ts : Table J) → In u ts → In u (oldest_first ts)
  unfolding oldest_first
  oldest_first-In u [] h = h
  oldest_first-In u (t ∷ ts) (inl p) = insert_by_age-In u t (oldest_first ts) (inl p)
  oldest_first-In u (t ∷ ts) (inr h) =
      insert_by_age-In u t (oldest_first ts) (inr (oldest_first-In u ts h))

  length-insert_by_age : (t : Task J) (ts : Table J) → length (insert_by_age t ts) ≡ suc (length ts)
  unfolding insert_by_age
  length-insert_by_age t [] = refl
  length-insert_by_age t (u ∷ us) = ground (arith, length-insert_by_age t us)

  pub length-oldest_first : (ts : Table J) → length (oldest_first ts) ≡ length ts
  unfolding oldest_first
  length-oldest_first [] = refl
  length-oldest_first (t ∷ ts) =
      omega (arith, length-insert_by_age t (oldest_first ts), length-oldest_first ts)

  -- A row is among the first `n` or none of those is younger.
  take-IsOldestFirst :
      (n : ℕ) (u : Task J) (ts : Table J)
      → IsOldestFirst ts
      → In u ts
      → In u (take n ts) ⊎ All (λ t. t.created_at ≤ u.created_at) (take n ts)
  take-IsOldestFirst zero u ts s h = inr tt
  take-IsOldestFirst (suc n) u [] s h = absurd h
  take-IsOldestFirst (suc n) u (x ∷ ts) s (inl p) = inl (inl p)
  take-IsOldestFirst (suc n) u (x ∷ ts) s (inr h) = elim (take-IsOldestFirst n u ts s.1 h) [
    | inl k ↦ inl (inr k)
    | inr a ↦ inr (In-All (λ v. x.created_at ≤ v.created_at) u ts h s.0, a)
  ]

  pub take-oldest_first :
      (n : ℕ) (u : Task J) (ts : Table J)
      → In u ts
      → In u (take n (oldest_first ts))
        ⊎ All (λ t. t.created_at ≤ u.created_at) (take n (oldest_first ts))
  take-oldest_first n u ts h =
      take-IsOldestFirst n u (oldest_first ts) (oldest_first-IsOldestFirst ts)
        (oldest_first-In u ts h)

  insert_by_age-Distinct :
      (t : Task J) (ts : Table J)
      → All (λ u. u.id ≢ t.id) ts
      → Distinct ts
      → Distinct (insert_by_age t ts)
  unfolding insert_by_age
  insert_by_age-Distinct t [] h d = (tt, tt)
  insert_by_age-Distinct t (u ∷ us) h d = elim (Bool-cases (leb t.created_at u.created_at)) [
    | inl e ↦ rw e (h, d)
    | inr e ↦ rw e (
      insert_by_age-All (λ v. v.id ≢ u.id) t us (λ p. h.0 (cc)) d.0,
      insert_by_age-Distinct t us h.1 d.1,
    )
  ]

  pub oldest_first-Distinct : (ts : Table J) → Distinct ts → Distinct (oldest_first ts)
  unfolding oldest_first
  oldest_first-Distinct [] d = tt
  oldest_first-Distinct (t ∷ ts) d =
      insert_by_age-Distinct t (oldest_first ts) (oldest_first-All (λ u. u.id ≢ t.id) ts d.0)
        (oldest_first-Distinct ts d.1)

  pub take-Distinct : (n : ℕ) (ts : Table J) → Distinct ts → Distinct (take n ts)
  take-Distinct zero ts d = tt
  take-Distinct (suc n) [] d = tt
  take-Distinct (suc n) (t ∷ ts) d = (All-take _ n ts d.0, take-Distinct n ts d.1)
