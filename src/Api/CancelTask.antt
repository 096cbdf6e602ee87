-- ===== src/Api/CancelTask.antt =====
-- `cancel_task` (axontask-api/src/routes/mcp/cancel_task.rs). Between its two statements other processes
-- run theirs: `meanwhile`.
use axon_task.Prelude.{Text, text, Bool, true, false, Option, none, some, ◌++◌}
use axon_task.Task.{Uuid, Task, TaskState, pending, running, as_str}
use axon_task.Task.Queries.{SqlError, find_by_id_and_tenant, transition_to_canceled}
use axon_task.Db.{Store, Query, ◌>>=◌, pure, map_err, or_raise}

pub data ApiError : Type 0 where
  internal_error not_found : Text → ApiError

pub record CancelTaskResponse : Type 0 where
  pub task_id : Uuid
  pub canceled : Bool
  pub state : Text
  pub message : Text

abbrev pub as_internal : Text → SqlError → ApiError
as_internal m e = internal_error m

abbrev pub already : Uuid → TaskState → CancelTaskResponse
already id st = record {
  task_id = id;
  canceled = false;
  state = as_str st;
  message = text "Task already in terminal state: " ++ as_str st;
}

abbrev pub requested : Uuid → TaskState → CancelTaskResponse
requested id st = record {
  task_id = id;
  canceled = true;
  state = as_str st;
  message = text "Task cancellation requested";
}

module _ {J : Type 0} where
  abbrev pub state_or_pending : Option (Task J) → TaskState
  state_or_pending none = pending
  state_or_pending (some t) = t.state

  abbrev pub look_up : Uuid → Uuid → Query (Task J) ApiError (Task J)
  look_up tenant id = do
    found ← map_err (as_internal (text "Failed to query task")) (find_by_id_and_tenant id tenant)
    or_raise (not_found (text "Task not found")) found

  abbrev pub update : Uuid → Query (Task J) ApiError CancelTaskResponse
  update id = do
    updated ← map_err (as_internal (text "Failed to cancel task")) (transition_to_canceled id)
    pure (requested id (state_or_pending updated))

  abbrev pub on_state :
      Uuid
      → (Store (Task J) → Store (Task J))
      → TaskState
      → Query (Task J) ApiError CancelTaskResponse
  on_state id meanwhile pending s = update id (meanwhile s)
  on_state id meanwhile running s = update id (meanwhile s)
  on_state id meanwhile st s = pure (already id st) s

  unfoldable pub cancel_task :
      Uuid → Uuid → (Store (Task J) → Store (Task J)) → Query (Task J) ApiError CancelTaskResponse
  cancel_task tenant id meanwhile = do t ← look_up tenant id; on_state id meanwhile t.state
