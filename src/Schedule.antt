-- ===== src/Schedule.antt =====
-- Statements on the table in any order, as the API and any number of workers make them
-- (axontask-shared/src/models/task.rs, axontask-worker/src/queue.rs). Each is one transaction, so
-- an interleaving of the processes is a list of operations.
use axon_task.Prelude.{ℕ, ℤ, ◌+◌, Text, Bool, true, false, Option, List, [], ◌∷◌}
use axon_task.Task.{Uuid, Task, CreateTask, UpdateTask}
use axon_task.Task.Queries
use axon_task.Queue
use axon_task.Queue.{TaskQueue}
use axon_task.Db.{Store}
pub mod Steps
pub mod Safety
pub mod History
pub mod Lives
pub mod Exclusive

pub data Operation (J : Type 0) : Type 0 where
  -- Time passes between two statements.
  tick : ℕ → Operation J
  create : Uuid → CreateTask J → Operation J
  transition_to_running : Uuid → Operation J
  transition_to_succeeded : Uuid → Option ℤ → Operation J
  transition_to_failed : Uuid → Text → Option ℤ → Operation J
  transition_to_canceled transition_to_timeout delete : Uuid → Operation J
  update_stats : Uuid → UpdateTask → Operation J
  claim_tasks : TaskQueue → (Uuid → Bool) → Option ℕ → Operation J
  mark_succeeded : Uuid → Option ℤ → Operation J
  mark_failed : Uuid → Text → Operation J
  mark_timeout : Uuid → Operation J
  update_last_seq : Uuid → ℤ → Text → Operation J

module _ {J : Type 0} where
  unfoldable pub perform : Operation J → Store (Task J) → Store (Task J)
  perform (tick n) s = record s { now = s.now + n }
  perform (create id d) s = (Queries.create id d s).1
  perform (transition_to_running id) s = (Queries.transition_to_running id s).1
  perform (transition_to_succeeded id code) s = (Queries.transition_to_succeeded id code s).1
  perform (transition_to_failed id message code) s =
      (Queries.transition_to_failed id message code s).1
  perform (transition_to_canceled id) s = (Queries.transition_to_canceled id s).1
  perform (transition_to_timeout id) s = (Queries.transition_to_timeout id s).1
  perform (delete id) s = (Queries.delete id s).1
  perform (update_stats id d) s = (Queries.update_stats id d s).1
  perform (claim_tasks q locked limit) s = (Queue.claim_tasks q locked limit s).1
  perform (mark_succeeded id code) s = (Queue.mark_succeeded id code s).1
  perform (mark_failed id message) s = (Queue.mark_failed id message s).1
  perform (mark_timeout id) s = (Queue.mark_timeout id s).1
  perform (update_last_seq id seq event) s = (Queue.update_last_seq id seq event s).1

  unfoldable pub perform_all : List (Operation J) → Store (Task J) → Store (Task J)
  perform_all [] s = s
  perform_all (op ∷ ops) s = perform_all ops (perform op s)
