-- ===== src/Queue.antt =====
-- The worker's queue over the table (axontask-worker/src/queue.rs).
pub mod Claim
pub mod Laws
pub mod Claimed
use axon_task.Prelude.{
  ℕ, ℤ, pos, Text, text, Bool, true, false, not, ◌&&◌, Option, none, some, List, [], ◌∷◌, keep, any,
  take, length, ◌==◌, if◌then◌else◌,
}
use axon_task.Task.{
  Uuid, DateTime, Task, TaskState, pending, running, succeeded, failed, timeout, same_state,
}
use axon_task.Task.Queries.{in_state}
use axon_task.Store.{Table}
use axon_task.Db.{Query, ◌>>=◌, ◌>>◌, pure, raise, try_statement, statement}
use axon_task.Store.Rows.{update_rows, returning, rows_affected, oldest_first}

pub data QueueError : Type 0 where
  database : QueueError
  task_not_found : Uuid → QueueError
  invalid_state_transition : Text → QueueError

-- `TaskQueue`, less its pool.
pub record TaskQueue : Type 0 where
  pub batch_size : ℕ

abbrev pub new : TaskQueue
new = record { batch_size = 10 }

abbrev pub limit_or : Option ℕ → ℕ → ℕ
limit_or none d = d
limit_or (some n) d = n

module _ {J : Type 0} where
  -- The common table expression `pending_tasks`: the rows that are claimed. `locked` tells which
  -- rows other transactions hold, which `SKIP LOCKED` passes over.
  unfoldable pub pending_tasks : (Uuid → Bool) → ℕ → Table J → List (Task J)
  pending_tasks locked limit ts =
      take limit (oldest_first (keep (λ t. same_state t.state pending && not (locked t.id)) ts))

  abbrev pub is_among : List (Task J) → Task J → Bool
  is_among ps t = any (λ u. t.id == u.id) ps

  abbrev pub mark_running : DateTime → Task J → Task J
  mark_running now t = record t { state = running; started_at = some now; updated_at = now }

  abbrev pub claim_rows : (Uuid → Bool) → ℕ → DateTime → Table J → List (Task J) × Table J
  claim_rows locked limit now ts =
      let claimed = is_among (pending_tasks locked limit ts) in
      (returning claimed (mark_running now) ts, update_rows claimed (mark_running now) ts)

  -- The limit is within `i64`, as which the code binds it.
  unfoldable pub claim_tasks :
      TaskQueue → (Uuid → Bool) → Option ℕ → Query (Task J) QueueError (List (Task J))
  claim_tasks q locked limit = statement database (claim_rows locked (limit_or limit q.batch_size))

  count_in : TaskState → Query (Task J) QueueError ℕ
  count_in st = statement database (λ now ts. (rows_affected (λ t. same_state t.state st) ts, ts))

  unfoldable pub pending_count : Query (Task J) QueueError ℕ
  unfolding count_in
  pending_count = count_in pending

  unfoldable pub running_count : Query (Task J) QueueError ℕ
  unfolding count_in
  running_count = count_in running

  -- The `UPDATE` of the row of a running task, and the error if no row was affected.
  abbrev pub mark_rows : (DateTime → Task J → Task J) → Uuid → Query (Task J) QueueError ℕ
  mark_rows f id = statement database (λ now ts.
      (rows_affected (in_state id running) ts, update_rows (in_state id running) (f now) ts))

  abbrev pub affected_or_error : Uuid → ℕ → Query (Task J) QueueError (Unit {0})
  affected_or_error id affected = if affected == 0 then raise (task_not_found id) else pure tt

  abbrev pub mark : (DateTime → Task J → Task J) → Uuid → Query (Task J) QueueError (Unit {0})
  mark f id = do affected ← mark_rows f id; affected_or_error id affected

  abbrev pub set_succeeded : Option ℤ → DateTime → Task J → Task J
  set_succeeded code now t = record t {
    state = succeeded;
    ended_at = some now;
    updated_at = now;
    exit_code = code;
  }

  unfoldable pub mark_succeeded : Uuid → Option ℤ → Query (Task J) QueueError (Unit {0})
  mark_succeeded id code = mark (set_succeeded code) id

  abbrev pub set_failed : Text → DateTime → Task J → Task J
  set_failed error now t = record t {
    state = failed;
    ended_at = some now;
    updated_at = now;
    error_message = some error;
  }

  unfoldable pub mark_failed : Uuid → Text → Query (Task J) QueueError (Unit {0})
  mark_failed id error = mark (set_failed error) id

  abbrev pub set_timeout : Text → DateTime → Task J → Task J
  set_timeout message now t = record t {
    state = timeout;
    ended_at = some now;
    updated_at = now;
    error_message = some message;
  }

  unfoldable pub mark_timeout : Uuid → Query (Task J) QueueError (Unit {0})
  mark_timeout id = mark (set_timeout (text "Task timed out")) id

  -- The statement sets the columns `last_seq` and `last_event_id`, which no migration creates: the
  -- database refuses it.
  unfoldable pub update_last_seq : Uuid → ℤ → Text → Query (Task J) QueueError (Unit {0})
  update_last_seq id seq event_id = try_statement database (λ now ts. none)
