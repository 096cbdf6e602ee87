-- ===== src/Schedule/Exclusive.antt =====
-- No task is given to two workers (`claim_tasks` of axontask-worker/src/queue.rs).
use axon_task.Prelude.{
  ℕ, ◌≡◌, ◌≢◌, refl, sym, ◌∙◌, ap, inl, inr, Bool, true, false, Option, List, [], ◌∷◌, All, All-of,
  All-mono, All-map, All-both, All-keep, All-In, In, keep, keep-passes, ok, Bool-cases, arith,
}
use axon_task.Task.{Uuid, Task, TaskState, pending, running, can_transition_to}
use axon_task.Task.Lifecycle.{Run, here, step}
use axon_task.Queue.{
  TaskQueue, claim_tasks, claim_rows, pending_tasks, is_among, mark_running, limit_or, database,
}
use axon_task.Store.{Table}
use axon_task.Db.{Store}
use axon_task.Store.Rows.{update_rows, returning}
use axon_task.Store.Evolution.{Distinct-unique}
use axon_task.Db.Laws.{statement-eq-ok}
use axon_task.Schedule.{Operation, perform, perform_all}
use axon_task.Schedule.Safety.{IsSound, claimed-pending}
use axon_task.Schedule.History.{is_delete, perform_all-IsSound, perform-IsSound}
use axon_task.Schedule.Lives.{Live-In, perform_all-Live}

into_pending : (s : TaskState) → can_transition_to s pending ≡ false
unfolding can_transition_to
into_pending s = ground arith

Run-ne-pending : {n : ℕ} {s t : TaskState} → Run n s t → s ≢ pending → t ≢ pending
Run-ne-pending (here) h = h
Run-ne-pending (step {s} {t} e r) h = Run-ne-pending r (λ p. cc (into_pending s))

module _ {J : Type 0} where
  -- The rows that an update returns are those of the table after it.
  returning-In :
      (hit : Task J → Bool) (f : Task J → Task J) (ts : Table J)
      → All (λ a. In a (update_rows hit f ts)) (returning hit f ts)
  returning-In hit f [] = tt
  returning-In hit f (t ∷ ts) = elim (Bool-cases (hit t)) [
    | inl e ↦ rw e (
      inl refl,
      All-mono (λ a. In a (update_rows hit f ts)) _ (returning hit f ts) (λ a h. inr h)
          (returning-In hit f ts),
    )
    | inr e ↦ rw e (
        All-mono (λ a. In a (update_rows hit f ts)) _ (returning hit f ts) (λ a h. inr h)
          (returning-In hit f ts))
  ]

  -- What a claim returns: rows that are running now, and that stand in the table afterwards.
  module _ (q : TaskQueue) (locked : Uuid → Bool) (limit : Option ℕ) (s : Store (Task J)) where
    claimed_rows :
        {xs : List (Task J)}
        → (claim_tasks q locked limit s).0 ≡ ok xs
        → All (λ a. In a (claim_tasks q locked limit s).1.rows × (a.state ≡ running)) xs
    unfolding claim_tasks
    claimed_rows {xs} h =
        let n = limit_or limit q.batch_size in
        let hit : Task J → Bool = is_among (pending_tasks locked n s.rows) in
        let (e, e') = statement-eq-ok database (claim_rows locked n) s h in
        rw (e, e')
          (All-both (λ a. In a (update_rows hit (mark_running s.now) s.rows))
            (λ a. a.state ≡ running) (returning hit (mark_running s.now) s.rows)
            (returning-In hit (mark_running s.now) s.rows)
            (All-map (mark_running s.now) (λ a. a.state ≡ running) (keep hit s.rows)
              (All-of (λ t. (mark_running s.now t).state ≡ running) (λ t. refl) (keep hit s.rows))))

    -- Each of them comes of a row of the table before that was pending.
    claimed_from :
        IsSound s
        → {xs : List (Task J)} → (claim_tasks q locked limit s).0 ≡ ok xs
        → All (λ a. (t : Task J) × In t s.rows × (t.state ≡ pending) × (t.id ≡ a.id)) xs
    unfolding claim_tasks
    claimed_from sound {xs} h =
        let n = limit_or limit q.batch_size in
        let hit : Task J → Bool = is_among (pending_tasks locked n s.rows) in
        let (e, e') = statement-eq-ok database (claim_rows locked n) s h in
        rw e (
          All-map (mark_running s.now) _ (keep hit s.rows) (
            All-mono (λ t. (In t s.rows × (hit t ≡ true → t.state ≡ pending)) × (hit t ≡ true)) _
              (keep hit s.rows) (λ t k. (t, k.0.0, k.0.1 k.1, refl))
              (All-both _ _ (keep hit s.rows)
                (All-keep _ hit s.rows (
                  All-both (λ t. In t s.rows) _ s.rows (All-In s.rows)
                    (claimed-pending s sound locked n)))
                (keep-passes hit s.rows))))

  perform_claim-IsSound :
      (q : TaskQueue) (locked : Uuid → Bool) (limit : Option ℕ) (s : Store (Task J))
      → IsSound s
      → IsSound (claim_tasks q locked limit s).1
  unfolding perform
  perform_claim-IsSound q locked limit s h =
      perform-IsSound (Operation.claim_tasks q locked limit) s h

  -- Take a sound table. If a worker's claim returns `xs`, then operations of any kind but deletions run
  -- in any order, and then a worker's claim, the same one's or another's, returns `ys`, then no task of
  -- `ys` is one of `xs`.
  pub claim_tasks_exclusive :
      (q r : TaskQueue) (locked locked' : Uuid → Bool) (limit limit' : Option ℕ)
      (ops : List (Operation J)) (s : Store (Task J)) (xs ys : List (Task J))
      → IsSound s
      → All (λ op. is_delete op ≡ false) ops
      → (claim_tasks q locked limit s).0 ≡ ok xs
      → (claim_tasks r locked' limit' (perform_all ops (claim_tasks q locked limit s).1)).0 ≡ ok ys
      → All (λ b. All (λ a. a.id ≢ b.id) xs) ys
  claim_tasks_exclusive q r locked locked' limit limit' ops s xs ys sound nd h k =
      All-mono _ _ ys
        (λ b (t, in_t, p, e).
          All-mono _ _ xs
            (λ a m e'.
              let (v, in_v, l) =
                Live-In a s1.rows s2.rows (perform_all-Live ops s1 sound1 nd) m.0 in
              let same = Distinct-unique v t s2.rows sound2.1 in_v in_t (l.same_id ∙ e' ∙ sym e) in
              Run-ne-pending l.path (λ x. cc m.1) (ap (λ y. y.state) same ∙ p))
            (claimed_rows q locked limit s h))
        (claimed_from r locked' limit' s2 sound2 k)
    where
      s1 : Store (Task J)
      s1 = (claim_tasks q locked limit s).1

      s2 : Store (Task J)
      s2 = perform_all ops s1

      sound1 : IsSound s1
      sound1 = perform_claim-IsSound q locked limit s sound

      sound2 : IsSound s2
      sound2 = perform_all-IsSound ops s1 sound1
