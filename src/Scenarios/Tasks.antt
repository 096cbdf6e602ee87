-- ===== src/Scenarios/Tasks.antt =====
-- A small `tasks` table on which the statements of models/task.rs and of the worker's queue.rs run.
use axon_task.Prelude.{
  ℕ, ◌≡◌, ◌≢◌, ◌≤◌, ◌<◌, refl, pos, text, true, false, none, some, List, [], ◌∷◌, All, In, ok, keep,
  length, min, arith,
}
use axon_task.Task.{
  Task, CreateTask, TaskState, pending, running, succeeded, canceled, is_active, is_terminal,
  can_transition_to,
}
use axon_task.Task.Lifecycle.{Run, here, step, Run-bounded}
use axon_task.Task.Queries
use axon_task.Task.Queries.{new_row}
use axon_task.Queue.{
  new, claim_tasks, pending_tasks, mark_succeeded, mark_failed, mark_timeout, set_succeeded,
  set_failed, set_timeout, is_among, mark_running,
}
use axon_task.Queue.Claim.{claimable}
use axon_task.Queue.Laws.{Marked, marks_lem}
use axon_task.Queue.Claimed.{WasFree, claim_tasks_lem}
use axon_task.Store.Rows.{oldest_first, update_rows}
use axon_task.Db.{Store}
use axon_task.Schedule.{Operation, perform, perform_all}
use axon_task.Schedule.Safety.{IsSound}
use axon_task.Schedule.History.{perform_all-IsSound}
use axon_task.Schedule.Lives.{Live, perform_all-Live}
use axon_task.Schedule.Exclusive.{claim_tasks_exclusive}

abbrev pub request : ℕ → CreateTask ℕ
request n = record {
  tenant_id = 7;
  created_by = none;
  name = text "t";
  adapter = text "mock";
  args = n;
  timeout_seconds = pos 60;
}

abbrev empty : Store (Task ℕ)
empty = record { rows = []; now = 5; faults = [] }

-- Three tasks are made a moment apart; the first is claimed and succeeds, the second is canceled.
abbrev day : List (Operation ℕ)
day =
    Operation.create 1 (request 10)
    ∷ Operation.tick 1
    ∷ Operation.create 2 (request 20)
    ∷ Operation.tick 1
    ∷ Operation.create 3 (request 30)
    ∷ Operation.claim_tasks new (λ _. false) (some 1)
    ∷ Operation.mark_succeeded 1 (some (pos 0))
    ∷ Operation.transition_to_canceled 2
    ∷ Operation.mark_failed 1 (text "late")
    ∷ []

states : List (Task ℕ) → List TaskState
states [] = []
states (t ∷ ts) = t.state ∷ states ts

day-states : states (perform_all day empty).rows ≡ succeeded ∷ canceled ∷ pending ∷ []
unfolding states perform_all perform Queries.create Queries.transition_to_canceled claim_tasks
    pending_tasks mark_succeeded mark_failed oldest_first
day-states = refl

perform_all-IsSound_example : IsSound (perform_all day empty)
perform_all-IsSound_example = perform_all-IsSound day empty (tt, tt)

-- Two tasks wait.
abbrev pub waiting : Store (Task ℕ)
waiting = record {
  rows = new_row 1 5 (request 10) ∷ new_row 2 6 (request 20) ∷ [];
  now = 9;
  faults = [];
}

pub waiting-IsSound : IsSound waiting
unfolding is_terminal is_active
waiting-IsSound = ground arith

abbrev rest_of_day : List (Operation ℕ)
rest_of_day =
    Operation.transition_to_canceled 2 ∷ Operation.tick 3 ∷ Operation.mark_succeeded 1 none ∷ []

perform_all-Live_example : Live waiting.rows (perform_all rest_of_day waiting).rows
perform_all-Live_example =
    perform_all-Live rest_of_day waiting waiting-IsSound (refl, (refl, (refl, tt)))

abbrev first : Task ℕ
first = record (new_row 1 5 (request 10)) { state = running; started_at = some 9; updated_at = 9 }

first_claim : (claim_tasks new (λ _. false) (some 1) waiting).0 ≡ ok (first ∷ [])
unfolding claim_tasks pending_tasks oldest_first
first_claim = refl

claim_tasks_lem_example :
    (length (first ∷ []) ≡ min 1 (length (keep (claimable (λ _. false)) waiting.rows)))
    × All (WasFree (λ _. false) waiting) (first ∷ [])
    × ((u : Task ℕ)
        → In u waiting.rows
        → claimable (λ _. false) u ≡ true
        → is_among (first ∷ []) u ≡ false
        → All (λ t. t.created_at ≤ u.created_at) (first ∷ []))
    × ((claim_tasks new (λ _. false) (some 1) waiting).1.rows
        ≡ update_rows (is_among (first ∷ [])) (mark_running 9) waiting.rows)
claim_tasks_lem_example =
    claim_tasks_lem new (λ _. false) (some 1) waiting waiting-IsSound.1 first_claim

-- A second worker asks for all that is left, after the first task is done.
abbrev later : Store (Task ℕ)
later =
    perform_all (Operation.mark_succeeded 1 none ∷ [])
      (claim_tasks new (λ _. false) (some 1) waiting).1

abbrev second : Task ℕ
second = record (new_row 2 6 (request 20)) { state = running; started_at = some 9; updated_at = 9 }

second_claim : (claim_tasks new (λ _. false) none later).0 ≡ ok (second ∷ [])
unfolding claim_tasks pending_tasks oldest_first perform_all perform mark_succeeded
second_claim = refl

claim_tasks_exclusive_example : All (λ b. All (λ a. a.id ≢ b.id) (first ∷ [])) (second ∷ [])
claim_tasks_exclusive_example =
    claim_tasks_exclusive new new (λ _. false) (λ _. false) (some 1) none
      (Operation.mark_succeeded 1 none ∷ []) waiting (first ∷ []) (second ∷ []) waiting-IsSound
      (refl, tt) first_claim second_claim

marks_lem_example :
    Marked (set_succeeded none) 1 waiting (mark_succeeded 1 none waiting)
    × Marked (set_failed (text "e")) 1 waiting (mark_failed 1 (text "e") waiting)
    × Marked (set_timeout (text "Task timed out")) 1 waiting (mark_timeout 1 waiting)
marks_lem_example = marks_lem 1 none (text "e") waiting refl waiting-IsSound.1

two_transitions : Run 2 pending succeeded
unfolding can_transition_to
two_transitions = step {t = running} refl (step {t = succeeded} refl here)

Run-bounded_example : (2 ≤ 2) × (0 < 2 → pending ≢ succeeded)
Run-bounded_example = Run-bounded two_transitions
