-- ===== src/Worker/Capacity.antt =====
-- How many tasks a worker holds (`run` of axontask-worker/src/orchestrator.rs).
use axon_task.Prelude.{
  ℕ, zero, suc, ◌+◌, ◌≤◌, ◌≡◌, refl, sym, ap, ◌∙◌, inl, inr, Text, text_eq, Bool, true, not, some,
  List, [], ◌∷◌, length, length-keep, any, Result, ok, err, ◌==◌, Bool-cases, arith,
}
use mathlib.Core.Path.{subst}
use axon_task.Task.{Uuid, Task}
use axon_task.Queue.{QueueError, claim_tasks, mark_failed}
use axon_task.Queue.Claimed.{claim_tasks_lem}
use axon_task.Db.{Store}
use axon_task.Schedule.{Operation, perform}
use axon_task.Schedule.Safety.{IsSound}
use axon_task.Schedule.History.{perform-IsSound}
use axon_task.Worker.Loop.{
  Tokens, insert, retain_live, cancel_where, WorkerOrchestrator, dispatch_task, dispatch_all,
  claimed, available_slots, turn, wait_for, shut_down, Event, turn_of, cancel, elsewhere, happen,
  run,
}

length-insert : (id : Uuid) (ts : Tokens) → length (insert id ts) ≤ suc (length ts)
length-insert id [] = omega arith
length-insert id ((j, c) ∷ ts) = ground (arith, length-insert id ts)

length-cancel_where : (c : Uuid → Bool) (ts : Tokens) → length (cancel_where c ts) ≡ length ts
length-cancel_where c [] = refl
length-cancel_where c (t ∷ ts) = ap suc (length-cancel_where c ts)

retain_cancelled : (ts : Tokens) → retain_live (cancel_where (λ _. true) ts) ≡ []
retain_cancelled [] = refl
retain_cancelled (t ∷ ts) = retain_cancelled ts

wait_empty : (n : ℕ) → wait_for n [] ≡ (0, [])
unfolding wait_for
wait_empty zero = refl
wait_empty (suc n) = refl

wait_cancelled :
    (n : ℕ) (ts : Tokens)
    → let (seconds, left) = wait_for (suc n) (cancel_where (λ _. true) ts) in
      (seconds ≤ 1) × (left ≡ [])
unfolding wait_for
wait_cancelled n [] = (omega arith, refl)
wait_cancelled n (t ∷ ts) =
    let done = ap (wait_for n) (retain_cancelled ts) ∙ wait_empty n in
    (omega (arith, ap (λ p. p.0) done), ap (λ p. p.1) done)

module _ {J : Type 0} where
  -- A worker within its limits, over a sound table.
  abbrev pub IsWithin : WorkerOrchestrator J × Store (Task J) → Type 0
  IsWithin (w, s) = (length w.active_tasks ≤ w.config.max_concurrent_tasks) × IsSound s

  failed-IsSound :
      (id : Uuid) (m : Text) (s : Store (Task J)) → IsSound s → IsSound (mark_failed id m s).1
  unfolding perform
  failed-IsSound id m s h = perform-IsSound (Operation.mark_failed id m) s h

  claim-IsSound :
      (w : WorkerOrchestrator J) (locked : Uuid → Bool) (n : ℕ) (s : Store (Task J))
      → IsSound s
      → IsSound (claim_tasks w.queue locked (some n) s).1
  unfolding perform
  claim-IsSound w locked n s h = perform-IsSound (Operation.claim_tasks w.queue locked (some n)) s h

  dispatch-keeps :
      (t : Task J) (w : WorkerOrchestrator J) (s : Store (Task J))
      → IsSound s
      → let q = dispatch_task t (w, s) in
        (q.0.active_tasks ≡ w.active_tasks) × (q.0.config ≡ w.config) × IsSound q.1
  unfolding dispatch_task
  dispatch-keeps t w s h = elim (Bool-cases (any (text_eq t.adapter) w.adapters)) [
    | inl e ↦ rw e (refl, refl, h)
    | inr e ↦ rw e (refl, refl, failed-IsSound t.id _ s h)
  ]

  dispatch_all-keeps :
      (ts : List (Task J)) (p : WorkerOrchestrator J × Store (Task J))
      → IsSound p.1
      → let q = dispatch_all ts p in
        (length q.0.active_tasks ≤ length p.0.active_tasks + length ts)
        × (q.0.config ≡ p.0.config)
        × IsSound q.1
  unfolding dispatch_all
  dispatch_all-keeps [] p h = (omega arith, refl, h)
  dispatch_all-keeps (t ∷ ts) (w, s) h =
      let w' = record w { active_tasks = insert t.id w.active_tasks } in
      let (same, config, sound) = dispatch-keeps t w' s h in
      let (bound, config', sound') = dispatch_all-keeps ts (dispatch_task t (w', s)) sound in
      (omega (arith, ap length same, length-insert t.id w.active_tasks), config' ∙ config, sound')

  claimed-IsWithin :
      (w : WorkerOrchestrator J) (r : Result QueueError (List (Task J))) (s : Store (Task J))
      → IsWithin (w, s)
      → ((xs : List (Task J)) → r ≡ ok xs → length xs ≤ available_slots w)
      → IsWithin (claimed w (r, s)) × ((claimed w (r, s)).0.config ≡ w.config)
  claimed-IsWithin w (err e) s h k = (h, refl)
  claimed-IsWithin w (ok []) s h k = (h, refl)
  claimed-IsWithin w (ok (t ∷ ts)) s h k =
      let (bound, config, sound) = dispatch_all-keeps (t ∷ ts) (w, s) h.1 in
      (
        (
          omega (
            arith,
            k (t ∷ ts) refl,
            h.0,
            ap (λ c. c.max_concurrent_tasks) config,
            length-keep (λ x. not x.1) (dispatch_all (t ∷ ts) (w, s)).0.active_tasks,
          ),
          sound,
        ),
        config,
      )

  turn-IsWithin :
      (locked : Uuid → Bool) (w : WorkerOrchestrator J) (s : Store (Task J))
      → IsWithin (w, s)
      → IsWithin (turn locked (w, s)) × ((turn locked (w, s)).0.config ≡ w.config)
  unfolding turn
  turn-IsWithin locked w s h = elim (Bool-cases (available_slots w == 0)) [
    | inl e ↦ rw e (h, refl)
    | inr e ↦
        let claim = claim_tasks w.queue locked (some (available_slots w)) s in
        rw e (
          claimed-IsWithin w claim.0 claim.1 (h.0, claim-IsSound w locked (available_slots w) s h.1)
            (λ xs q.
              omega
                (arith, (claim_tasks_lem w.queue locked (some (available_slots w)) s h.1.1 q).0)))
  ]

  happen-IsWithin :
      (e : Event J) (p : WorkerOrchestrator J × Store (Task J))
      → IsWithin p
      → IsWithin (happen e p) × ((happen e p).0.config ≡ p.0.config)
  unfolding happen
  happen-IsWithin (turn_of locked) (w, s) h = turn-IsWithin locked w s h
  happen-IsWithin (cancel c) (w, s) h =
      ((omega (arith, h.0, length-cancel_where c w.active_tasks), h.1), refl)
  happen-IsWithin (elsewhere op) (w, s) h = ((h.0, perform-IsSound op s h.1), refl)

  -- Start within the limits, over a sound table, and let the worker take turns while tokens are cancelled
  -- and others run any statements, in any order. Then the worker never has more tasks active than
  -- `max_concurrent_tasks`, its configuration is the one it started with, and the table is sound.
  pub run-IsWithin :
      (es : List (Event J)) (p : WorkerOrchestrator J × Store (Task J))
      → IsWithin p
      → IsWithin (run es p) × ((run es p).0.config ≡ p.0.config)
  unfolding run
  run-IsWithin [] p h = (h, refl)
  run-IsWithin (e ∷ es) p h =
      let (within, config) = happen-IsWithin e p h in
      let (within', config') = run-IsWithin es (happen e p) within in (within', config' ∙ config)

  turn_full :
      (locked : Uuid → Bool) (w : WorkerOrchestrator J) (s : Store (Task J))
      → available_slots w ≡ 0
      → turn locked (w, s) ≡ (w, s)
  unfolding turn
  turn_full locked w s h = rw h refl

  -- A worker whose slots are taken takes no further task, ever: whatever happens, cancellations of its
  -- tasks included, nothing more is spawned, and no task leaves the active ones.
  pub run_full :
      (es : List (Event J)) (p : WorkerOrchestrator J × Store (Task J))
      → p.0.config.max_concurrent_tasks ≤ length p.0.active_tasks
      → ((run es p).0.spawned ≡ p.0.spawned)
        × (length (run es p).0.active_tasks ≡ length p.0.active_tasks)
  unfolding run happen
  run_full [] p h = (refl, refl)
  run_full (turn_of locked ∷ es) (w, s) h =
      subst
        (λ q.
          ((run es q).0.spawned ≡ w.spawned)
          × (length (run es q).0.active_tasks ≡ length w.active_tasks))
        (sym (turn_full locked w s (omega arith))) (run_full es (w, s) h)
  run_full (cancel c ∷ es) (w, s) h =
      let same = length-cancel_where c w.active_tasks in
      let (spawned, n) =
        run_full es (record w { active_tasks = cancel_where c w.active_tasks }, s) (omega arith) in
      (spawned, n ∙ same)
  run_full (elsewhere op ∷ es) (w, s) h = run_full es (w, perform op s) h

  -- However many tasks are active, a shutdown waits for a second at most and is left with no token.
  pub shut_down_lem : (w : WorkerOrchestrator J) → ((shut_down w).0 ≤ 1) × ((shut_down w).1 ≡ [])
  unfolding shut_down
  shut_down_lem w = wait_cancelled 29 w.active_tasks
