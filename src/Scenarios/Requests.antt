-- ===== src/Scenarios/Requests.antt =====
-- Requests to the API (axontask-api/src/routes/mcp).
use axon_task.Prelude.{
  ℕ, ◌+◌, ◌-◌, ◌≡◌, ◌≤◌, refl, Text, text, true, false, Option, none, some, List, [], ◌∷◌, Result,
  ok, err, arith,
}
use axon_task.Task.{Uuid, Task, canceled, is_active, is_terminal}
use axon_task.Task.Queries.{SqlError}
use axon_task.Schedule.{Operation, perform_all}
use axon_task.Api.CancelTask.{not_found, already, requested, cancel_task}
use axon_task.Api.Isolation.{visible, Spares, cancel_task_isolated}
use axon_task.Api.Answers.{canceled_rows, cancel_task_answers}
use axon_task.Quota.{concurrent_tasks, daily_tasks, limits_of}
use axon_task.Quota.Start.{StartTaskRequest, Requester, forbidden, insert, start_task}
use axon_task.Quota.Checks.{used, is_full}
use axon_task.Quota.Limits.{start_task_limits}
use axon_task.Scenarios.Tasks.{waiting, waiting-IsSound}

abbrev meanwhile : List (Operation ℕ)
meanwhile = Operation.tick 2 ∷ Operation.transition_to_running 1 ∷ []

cancel_task_isolated_example :
    Spares 7 1 waiting refl meanwhile (cancel_task 7 1 (perform_all meanwhile) waiting).1
cancel_task_isolated_example =
    cancel_task_isolated 7 1 waiting refl meanwhile waiting-IsSound (refl, (refl, tt))

cancel_task_answers_example :
    (visible 7 1 waiting refl ≡ none
      → cancel_task 7 1 (λ x. x) waiting ≡ (err (not_found (text "Task not found")), waiting))
    × ((u : Task ℕ)
        → visible 7 1 waiting refl ≡ some u
        → is_terminal u.state ≡ true
        → cancel_task 7 1 (λ x. x) waiting ≡ (ok (already 1 u.state), waiting))
    × ((u : Task ℕ)
        → visible 7 1 waiting refl ≡ some u
        → is_active u.state ≡ true
        → cancel_task 7 1 (λ x. x) waiting
          ≡ (ok (requested 1 canceled), canceled_rows 7 1 waiting refl))
cancel_task_answers_example = cancel_task_answers 7 1 waiting refl

abbrev find_plan : Uuid → Result SqlError (Option Text)
find_plan id = ok (some (text "entry"))

abbrev no_print : Uuid → Text
no_print id = []

abbrev requester : Requester
requester = record { tenant_id = 7; user_id = some 1 }

abbrev new_request : StartTaskRequest ℕ
new_request = record {
  name = text "t";
  adapter = text "mock";
  args = 5;
  timeout_s = none;
  tags = [];
}

-- The second check passes; before the insertion others go on.
start_task_limits_example :
    let result =
      start_task find_plan no_print true 9 20
        (λ x. x)
        (perform_all meanwhile)
        requester
        new_request
        waiting in
    let s2 = perform_all meanwhile waiting in
    let limits = limits_of (text "entry") in
    let full = is_full find_plan no_print requester 20 (text "entry") in
    let uses = used find_plan no_print 7 20 in
    (full waiting.rows concurrent_tasks ≡ true
      → result ≡ (
        err (forbidden concurrent_tasks (uses waiting.rows concurrent_tasks) limits.concurrent),
        waiting,
      ))
    × (full waiting.rows concurrent_tasks ≡ false
        → full waiting.rows daily_tasks ≡ true
        → result
          ≡ (err (forbidden daily_tasks (uses waiting.rows daily_tasks) limits.daily), waiting))
    × (full waiting.rows concurrent_tasks ≡ false
        → full waiting.rows daily_tasks ≡ false
        → (result ≡ insert find_plan no_print 9 requester new_request s2)
          × (uses result.1.rows daily_tasks
              ≤ limits.daily + (uses s2.rows daily_tasks - uses waiting.rows daily_tasks))
          × (uses result.1.rows concurrent_tasks ≡ uses s2.rows concurrent_tasks))
start_task_limits_example =
    start_task_limits find_plan no_print requester 20 (λ x. x) (perform_all meanwhile) waiting
      (text "entry") 9 new_request refl (refl, omega arith) (refl, omega arith)
