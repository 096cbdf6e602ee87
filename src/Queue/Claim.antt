-- ===== src/Queue/Claim.antt =====
-- What `claim_tasks` takes (axontask-worker/src/queue.rs): pending rows alone, at most as many as it
-- may, the oldest first.
use axon_task.Prelude.{
  ℕ, ◌+◌, ◌≤◌, ◌≡◌, ◌≢◌, refl, sym, ap, ◌∙◌, inl, inr, Bool, true, false, not, ◌&&◌, ◌||◌, List, [],
  ◌∷◌, keep, length, All, All-of, All-take, All-keep, All-mono, All-both, In, All-In, In-All,
  keep-passes, In-keep, min, length-take, Bool-cases, not_both, ◌==◌, ==_iff, arith,
}
use axon_task.Task.{Uuid, Task, pending, same_state}
use axon_task.Queue.{pending_tasks, is_among}
use axon_task.Store.{Table}
use axon_task.Store.Order.{
  oldest_first-All, length-oldest_first, take-oldest_first, oldest_first-Distinct, take-Distinct,
}
use axon_task.Store.Rows.{oldest_first}
use axon_task.Store.Evolution.{Distinct, Distinct-unique, keep-Distinct}

module _ {J : Type 0} where
  abbrev pub claimable : (Uuid → Bool) → Task J → Bool
  claimable locked t = same_state t.state pending && not (locked t.id)

  pub pending_tasks-All :
      (P : Task J → Type 0) (locked : Uuid → Bool) (n : ℕ) (ts : Table J)
      → All P ts
      → All (λ t. P t × (claimable locked t ≡ true)) (pending_tasks locked n ts)
  unfolding pending_tasks
  pending_tasks-All P locked n ts h = All-take _ n _ (
      oldest_first-All _ _ (
        All-both P _ (keep (claimable locked) ts) (All-keep P (claimable locked) ts h)
          (keep-passes (claimable locked) ts)))

  pub is_among-In :
      (ps : List (Task J)) (t : Task J)
      → is_among ps t ≡ true
      → (u : Task J) × In u ps × (t.id ≡ u.id)
  is_among-In [] t h = cc
  is_among-In (p ∷ ps) t h = elim (Bool-cases (t.id == p.id)) [
    | inl e ↦ (p, inl refl, (==_iff _ _).0 e)
    | inr e ↦ let (u, k, q) = is_among-In ps t (ground arith) in (u, inr k, q)
  ]

  pub In-is_among : (ps : List (Task J)) (t : Task J) → In t ps → is_among ps t ≡ true
  In-is_among [] t h = absurd h
  In-is_among (p ∷ ps) t (inl e) = rw (e, (==_iff p.id p.id).1 refl)
  In-is_among (p ∷ ps) t (inr h) = ground (arith, In-is_among ps t h)

  -- In a table without repeated ids the rows that the statement hits are pending and free.
  pub claimed-claimable :
      (locked : Uuid → Bool) (n : ℕ) (ts : Table J)
      → Distinct ts
      → All (λ t. is_among (pending_tasks locked n ts) t ≡ true → claimable locked t ≡ true) ts
  claimed-claimable locked n ts d =
      All-mono (λ t. In t ts) _ ts
        (λ t k h.
          let (u, m, e) = is_among-In (pending_tasks locked n ts) t h in
          let (v, c) =
            In-All (λ x. In x ts × (claimable locked x ≡ true)) u _ m
              (pending_tasks-All (λ x. In x ts) locked n ts (All-In ts)) in
          rw (Distinct-unique t u ts d k v e) c)
        (All-In ts)

  count_or :
      (p q : Task J → Bool) (ts : Table J)
      → All (λ t. p t ≡ true → q t ≡ false) ts
      → length (keep (λ t. p t || q t) ts) ≡ length (keep p ts) + length (keep q ts)
  count_or p q [] h = omega arith
  count_or p q (t ∷ ts) h = ground (arith, h.0, count_or p q ts h.1)

  count_id_none :
      (k : Uuid) (ts : Table J) → All (λ u. u.id ≢ k) ts → length (keep (λ t. t.id == k) ts) ≡ 0
  count_id_none k [] h = refl
  count_id_none k (t ∷ ts) h = ground (arith, count_id_none k ts h.1)

  count_id :
      (k : Uuid) (p : Task J) (ts : Table J)
      → p.id ≡ k
      → Distinct ts
      → In p ts
      → length (keep (λ t. t.id == k) ts) ≡ 1
  count_id k p [] q d h = absurd h
  count_id k p (t ∷ ts) q d (inl e) =
      let q' : t.id ≡ k = sym (ap (λ x. x.id) e) ∙ q in
      let none_left = count_id_none k ts (rw (← q') d.0) in ground (arith, none_left)
  count_id k p (t ∷ ts) q d (inr h) =
      ground (arith, count_id k p ts q d.1 h, In-All (λ u. u.id ≢ t.id) p ts h d.0)

  among_ne :
      (k : Uuid) (t : Task J) (ps : Table J)
      → t.id ≡ k
      → All (λ u. u.id ≢ k) ps
      → is_among ps t ≡ false
  among_ne k t [] e h = refl
  among_ne k t (p ∷ ps) e h = ground (arith, among_ne k t ps e h.1, h.0)

  length-is_among :
      (ps ts : Table J)
      → Distinct ps
      → Distinct ts
      → All (λ u. In u ts) ps
      → length (keep (is_among ps) ts) ≡ length ps
  length-is_among [] ts dp d h = none_kept ts
    where
      none_kept : (ts : Table J) → length (keep (is_among []) ts) ≡ 0
      none_kept [] = refl
      none_kept (t ∷ ts) = none_kept ts
  length-is_among (p ∷ ps) ts dp d h =
      count_or (λ t. t.id == p.id) (is_among ps) ts
        (All-of _ (λ t e. among_ne p.id t ps ((==_iff _ _).0 e) dp.0) ts)
      ∙ omega (arith, count_id p.id p ts refl d h.0, length-is_among ps ts dp.1 d h.1)

  module _ (locked : Uuid → Bool) (n : ℕ) (ts : Table J) (d : Distinct ts) where
    pending_tasks-Distinct : Distinct (pending_tasks locked n ts)
    unfolding pending_tasks
    pending_tasks-Distinct =
        take-Distinct n _ (oldest_first-Distinct _ (keep-Distinct (claimable locked) ts d))

    length-pending_tasks :
        length (pending_tasks locked n ts) ≡ min n (length (keep (claimable locked) ts))
    unfolding pending_tasks
    length-pending_tasks =
        length-take n (oldest_first (keep (claimable locked) ts))
        ∙ ap (min n) (length-oldest_first (keep (claimable locked) ts))

    -- As many rows are hit as there are free pending ones, up to the limit.
    pub claimed_count :
        length (keep (is_among (pending_tasks locked n ts)) ts)
        ≡ min n (length (keep (claimable locked) ts))
    claimed_count =
        length-is_among (pending_tasks locked n ts) ts pending_tasks-Distinct d (
          All-mono _ _ (pending_tasks locked n ts) (λ t h. h.0)
            (pending_tasks-All (λ t. In t ts) locked n ts (All-In ts)))
        ∙ length-pending_tasks

    -- A free pending row that is passed over is no older than any that is taken.
    pub passed_over :
        (u : Task J)
        → In u ts
        → claimable locked u ≡ true
        → is_among (pending_tasks locked n ts) u ≡ false
        → All (λ t. t.created_at ≤ u.created_at) (pending_tasks locked n ts)
    unfolding pending_tasks
    passed_over u h c out = elim (take-oldest_first n u _ (In-keep (claimable locked) u ts h c)) [
      | inl k ↦ absurd (not_both (In-is_among (pending_tasks locked n ts) u k) out)
      | inr a ↦ a
    ]
