-- ===== src/Queue/Claimed.antt =====
-- What a claim returns and leaves behind, row by row (axontask-worker/src/queue.rs).
use axon_task.Prelude.{
  ℕ, ◌≤◌, ◌≡◌, refl, sym, ap, ◌∙◌, inl, inr, Bool, true, false, Option, List, [], ◌∷◌, All,
  All-mono, All-map, All-both, All-keep, All-In, In, In-All, any, keep, keep-passes, length,
  length-map, min, ok, ◌==◌, Bool-cases, not_both, arith,
}
use axon_task.Task.{Uuid, DateTime, Task}
use axon_task.Queue.{
  TaskQueue, database, claim_tasks, claim_rows, pending_tasks, is_among, mark_running, limit_or,
}
use axon_task.Queue.Claim.{
  claimable, claimed-claimable, claimed_count, passed_over, is_among-In, pending_tasks-All,
}
use axon_task.Store.{Table}
use axon_task.Db.{Store}
use axon_task.Store.Rows.{update_rows, returning}
use axon_task.Store.Evolution.{Distinct, Distinct-unique}
use axon_task.Db.Laws.{statement-eq-ok}

module _ {J : Type 0} where
  -- A row that an update hits is among those that it returns.
  among_returned :
      (hit : Task J → Bool) (now : DateTime) (ts : Table J) (u : Task J)
      → In u ts
      → hit u ≡ true
      → is_among (returning hit (mark_running now) ts) u ≡ true
  among_returned hit now [] u h e = absurd h
  among_returned hit now (t ∷ ts) u (inl p) e = rw (ap hit (sym p) ∙ e) (rw (← p) (ground arith))
  among_returned hit now (t ∷ ts) u (inr h) e = elim (Bool-cases (hit t)) [
    | inl k ↦ rw k (ground (arith, among_returned hit now ts u h e))
    | inr k ↦ rw k (among_returned hit now ts u h e)
  ]

  -- And the other way round, where the test looks at the id alone.
  among_id : (ps : List (Task J)) (t u : Task J) → u.id ≡ t.id → is_among ps u ≡ is_among ps t
  among_id ps t u e = ap (λ i. any (λ v. i == v.id) ps) e

  returned_hit :
      (ps : List (Task J)) (now : DateTime) (ts : Table J) (u : Task J)
      → is_among (returning (is_among ps) (mark_running now) ts) u ≡ true
      → is_among ps u ≡ true
  returned_hit ps now [] u h = cc
  returned_hit ps now (t ∷ ts) u h = elim (Bool-cases (is_among ps t)) [
    | inl k ↦ elim (Bool-cases (u.id == t.id)) [
      | inl e ↦ among_id ps t u (ground arith) ∙ k
      | inr e ↦ returned_hit ps now ts u (rw e at rw k at h)
    ]
    | inr k ↦ returned_hit ps now ts u (rw k at h)
  ]

  returned-hit :
      (ps : List (Task J)) (now : DateTime) (ts : Table J) (u : Task J)
      → In u ts
      → is_among ps u ≡ is_among (returning (is_among ps) (mark_running now) ts) u
  returned-hit ps now ts u m = elim (Bool-cases (is_among ps u)) [
    | inl e ↦ e ∙ sym (among_returned (is_among ps) now ts u m e)
    | inr e ↦ elim (Bool-cases (is_among (returning (is_among ps) (mark_running now) ts) u)) [
      | inl k ↦ absurd (not_both (returned_hit ps now ts u k) e)
      | inr k ↦ e ∙ sym k
    ]
  ]

  update_rows-eq :
      (p q : Task J → Bool) (f : Task J → Task J) (ts : Table J)
      → All (λ t. p t ≡ q t) ts
      → update_rows p f ts ≡ update_rows q f ts
  update_rows-eq p q f [] h = refl
  update_rows-eq p q f (t ∷ ts) h = rw (h.0, update_rows-eq p q f ts h.1) refl

  module _ (locked : Uuid → Bool) (n : ℕ) (s : Store (Task J)) (d : Distinct s.rows) where
    abbrev hit : Task J → Bool
    hit = is_among (pending_tasks locked n s.rows)

    -- A free pending row that is not returned is no older than those that are.
    older :
        (u : Task J)
        → In u s.rows
        → claimable locked u ≡ true
        → is_among (returning hit (mark_running s.now) s.rows) u ≡ false
        → All (λ t. t.created_at ≤ u.created_at) (returning hit (mark_running s.now) s.rows)
    older u k c out = elim (Bool-cases (hit u)) [
      | inl e ↦ absurd (not_both (among_returned hit s.now s.rows u k e) out)
      | inr e ↦
          let none_younger = passed_over locked n s.rows d u k c e in
          All-map (mark_running s.now) _ (keep hit s.rows) (
            All-mono (λ t. In t s.rows × (hit t ≡ true)) _ (keep hit s.rows)
              (λ t m.
                let (p, in_p, same) = is_among-In (pending_tasks locked n s.rows) t m.1 in
                let in_table =
                  In-All (λ x. In x s.rows × (claimable locked x ≡ true)) p _ in_p
                    (pending_tasks-All (λ x. In x s.rows) locked n s.rows (All-In s.rows)) in
                let p_is_t = Distinct-unique t p s.rows d m.0 in_table.0 same in
                rw p_is_t (In-All (λ x. x.created_at ≤ u.created_at) p _ in_p none_younger))
              (All-both _ _ (keep hit s.rows) (All-keep _ hit s.rows (All-In s.rows))
                (keep-passes hit s.rows)))
    ]

  -- A row that a claim returns, by the row of the table that it was.
  abbrev pub WasFree : (Uuid → Bool) → Store (Task J) → Task J → Type 0
  WasFree locked s t =
      (u : Task J) × In u s.rows × (claimable locked u ≡ true) × (t ≡ mark_running s.now u)

  -- When `claim_tasks` succeeds and no id is twice in the table, it returns as many rows as there are
  -- pending ones that no other transaction holds, up to the limit given, or the queue's batch size if none
  -- is given. Every row that it returns was such a row of the table, and is as it was but for its state,
  -- `running`, and the times of its start and its update, now. A pending row that is not held and is not
  -- returned is no older than any that is. In the table the rows that are returned are set so, and all
  -- others are as they were.
  pub claim_tasks_lem :
      (q : TaskQueue) (locked : Uuid → Bool) (limit : Option ℕ) (s : Store (Task J))
      {xs : List (Task J)}
      → Distinct s.rows
      → (claim_tasks q locked limit s).0 ≡ ok xs
      → (length xs ≡ min (limit_or limit q.batch_size) (length (keep (claimable locked) s.rows)))
        × All (WasFree locked s) xs
        × ((u : Task J)
            → In u s.rows
            → claimable locked u ≡ true
            → is_among xs u ≡ false
            → All (λ t. t.created_at ≤ u.created_at) xs)
        × ((claim_tasks q locked limit s).1.rows
            ≡ update_rows (is_among xs) (mark_running s.now) s.rows)
  unfolding claim_tasks
  claim_tasks_lem q locked limit s {xs} d h =
      let n = limit_or limit q.batch_size in
      let ps = pending_tasks locked n s.rows in
      let (e, left) = statement-eq-ok database (claim_rows locked n) s h in
      (
        ap length e ∙ length-map _ _ ∙ claimed_count locked n s.rows d,
        rw e (
            All-map (mark_running s.now) _ (keep (is_among ps) s.rows) (
              All-mono
                (λ t.
                  (In t s.rows × (is_among ps t ≡ true → claimable locked t ≡ true))
                  × (is_among ps t ≡ true))
                _ (keep (is_among ps) s.rows) (λ t m. (t, m.0.0, m.0.1 m.1, refl))
                (All-both _ _ (keep (is_among ps) s.rows)
                  (All-keep _ (is_among ps) s.rows
                    (All-both _ _ s.rows (All-In s.rows) (claimed-claimable locked n s.rows d)))
                  (keep-passes (is_among ps) s.rows)))),
        λ u k c out. rw e (older locked n s d u k c (rw e at out)),
        left
            ∙ update_rows-eq (is_among ps)
                (is_among (returning (is_among ps) (mark_running s.now) s.rows))
                (mark_running s.now) s.rows
                (All-mono _ _ s.rows (λ u m. returned-hit ps s.now s.rows u m) (All-In s.rows))
            ∙ ap (λ r. update_rows (is_among r) (mark_running s.now) s.rows) (sym e),
      )
