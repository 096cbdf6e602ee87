-- ===== src/Schedule/History.antt =====
-- Whole schedules (`Schedule.antt`): the invariant of the table over any list of operations, and the
-- history of each task.
use axon_task.Prelude.{
  ℕ, ◌+◌, ◌≡◌, refl, Text, text, Bool, true, false, not, none, List, [], ◌∷◌, All-mono, All-keep,
  ◌==◌, arith,
}
use axon_task.Task.{Uuid, DateTime, Task, pending, running}
use axon_task.Task.Queries
use axon_task.Task.Queries.{
  in_state, cancelable, start, succeed, fail, cancel, time_out, apply_stats, update_one,
  delete_rows,
}
use axon_task.Queue
use axon_task.Queue.{limit_or, claim_rows, set_succeeded, set_failed, set_timeout}
use axon_task.Db.{Store}
use axon_task.Store.Rows.{returning_one}
use axon_task.Store.Evolution.{IsWellFormed, Evolves-refl, keep-Distinct}
use axon_task.Db.Laws.{statement-keeps, try_statement-keeps}
use axon_task.Schedule.{Operation, perform, perform_all}
use axon_task.Schedule.Steps.{
  IsSafe, start-IsSafe, succeed-IsSafe, fail-IsSafe, cancel-IsSafe, time_out-IsSafe,
  apply_stats-IsSafe, set_succeeded-IsSafe, set_failed-IsSafe, set_timeout-IsSafe,
}
use axon_task.Schedule.Safety.{
  IsSoundAt, IsSound, Follows, same-Follows, update_statement-Follows, mark-Follows, claim-Follows,
  create-Follows,
}

module _ {J : Type 0} where
  abbrev pub is_delete : Operation J → Bool
  is_delete (Operation.delete id) = true
  is_delete (Operation.tick n) = false
  is_delete _ = false

  later-IsWellFormed : (now n : ℕ) (t : Task J) → IsWellFormed now t → IsWellFormed (now + n) t
  later-IsWellFormed now n t w = ground arith

  tick-Follows : (n : ℕ) (s : Store (Task J)) → IsSound s → Follows (s.now + n) s.rows s.rows
  tick-Follows n s (w, d) =
      ((All-mono _ _ s.rows (λ t. later-IsWellFormed s.now n t) w, d), Evolves-refl s.rows)

  -- The statements that `models/task.rs` sends by an `UPDATE … RETURNING` of one task.
  module _ (s : Store (Task J)) (sound : IsSound s) where
    one-Follows :
        (hit : Task J → Bool) (f : DateTime → Task J → Task J)
        → IsSafe s.now hit (f s.now)
        → let s' = (update_one hit f s).1 in Follows s'.now s.rows s'.rows
    one-Follows hit f safe =
        update_statement-Follows s sound Queries.database hit f
          (λ now ts. returning_one hit (f now) ts) safe

    delete-IsSound : (id : Uuid) → IsSound (Queries.delete id s).1
    unfolding Queries.delete
    delete-IsSound id = statement-keeps IsSoundAt Queries.database (delete_rows id) s sound (
      All-keep (IsWellFormed s.now) (λ t. not (t.id == id)) s.rows sound.0,
      keep-Distinct (λ t. not (t.id == id)) s.rows sound.1,
    )

  -- Every statement but a deletion keeps the table sound and moves each of its rows legally.
  pub perform-Follows :
      (op : Operation J) (s : Store (Task J))
      → IsSound s
      → is_delete op ≡ false
      → Follows (perform op s).now s.rows (perform op s).rows
  unfolding perform Queries.transition_to_running Queries.transition_to_succeeded
      Queries.transition_to_failed Queries.transition_to_canceled Queries.transition_to_timeout
      Queries.update_stats Queue.claim_tasks Queue.mark_succeeded Queue.mark_failed
      Queue.mark_timeout Queue.update_last_seq
  perform-Follows (Operation.tick n) s h nd = tick-Follows n s h
  perform-Follows (Operation.create id d) s h nd = create-Follows s h id d
  perform-Follows (Operation.transition_to_running id) s h nd =
      one-Follows s h (in_state id pending) start (start-IsSafe s.now id)
  perform-Follows (Operation.transition_to_succeeded id code) s h nd =
      one-Follows s h (in_state id running) (succeed code) (succeed-IsSafe s.now id code)
  perform-Follows (Operation.transition_to_failed id message code) s h nd =
      one-Follows s h (in_state id running) (fail message code) (fail-IsSafe s.now id message code)
  perform-Follows (Operation.transition_to_canceled id) s h nd =
      one-Follows s h (cancelable id) cancel (cancel-IsSafe s.now id)
  perform-Follows (Operation.transition_to_timeout id) s h nd =
      one-Follows s h (in_state id running) (time_out late) (time_out-IsSafe s.now id late)
    where
      late : Text
      late = text "Task exceeded timeout limit"
  perform-Follows (Operation.delete id) s h nd = cc
  perform-Follows (Operation.update_stats id d) s h nd =
      one-Follows s h (λ t. t.id == id) (apply_stats d) (apply_stats-IsSafe s.now id d)
  perform-Follows (Operation.claim_tasks q locked limit) s h nd =
      statement-keeps (λ now us. Follows now s.rows us) Queue.database
        (claim_rows locked (limit_or limit q.batch_size)) s (same-Follows s h)
        (claim-Follows s h locked (limit_or limit q.batch_size))
  perform-Follows (Operation.mark_succeeded id code) s h nd =
      mark-Follows s h (set_succeeded code) id (set_succeeded-IsSafe s.now id code)
  perform-Follows (Operation.mark_failed id message) s h nd =
      mark-Follows s h (set_failed message) id (set_failed-IsSafe s.now id message)
  perform-Follows (Operation.mark_timeout id) s h nd =
      mark-Follows s h (set_timeout (text "Task timed out")) id (set_timeout-IsSafe s.now id _)
  perform-Follows (Operation.update_last_seq id seq event) s h nd =
      try_statement-keeps (λ now us. Follows now s.rows us) Queue.database (λ now ts. none) s
        (same-Follows s h) (λ a ts e. cc)

  pub perform-IsSound : (op : Operation J) (s : Store (Task J)) → IsSound s → IsSound (perform op s)
  unfolding perform
  perform-IsSound (Operation.delete id) s h = delete-IsSound s h id
  perform-IsSound op s h = (perform-Follows op s h refl).0

  -- Whatever the operations, their order and the statements that fail: a sound table stays sound. Every
  -- row agrees with its state on when it started and ended, its times are in order, and no two rows
  -- have one id.
  pub perform_all-IsSound :
      (ops : List (Operation J)) (s : Store (Task J)) → IsSound s → IsSound (perform_all ops s)
  unfolding perform_all
  perform_all-IsSound [] s h = h
  perform_all-IsSound (op ∷ ops) s h =
      perform_all-IsSound ops (perform op s) (perform-IsSound op s h)
