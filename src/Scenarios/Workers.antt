-- ===== src/Scenarios/Workers.antt =====
-- A worker that takes and runs a task (axontask-worker/src/orchestrator.rs and adapters/mock.rs).
use axon_task.Prelude.{
  ℕ, ◌≡◌, ◌≤◌, refl, Text, text, true, false, Option, none, some, List, [], ◌∷◌, length, ok, arith,
}
use axon_task.Task.{Task, running}
use axon_task.Task.Queries.{new_row}
use axon_task.Db.{Store}
use axon_task.Schedule.{Operation}
use axon_task.Worker.Adapter.{AdapterContext}
use axon_task.Worker.Mock.{MockConfig, execute}
use axon_task.Worker.MockRuns.{EndsIn, Told, execute_lem}
use axon_task.Worker.Execute.{Attempt, execute_task}
use axon_task.Worker.Outcome.{Ended, verdict, execute_task-ends}
use axon_task.Event.{Bytes}
use axon_task.Worker.Emitter.{Emission, new, emit_all}
use axon_task.Worker.Emitted.{IsEmitted, emit_all-IsEmitted}
use axon_task.Worker.Loop
use axon_task.Worker.Loop.{WorkerOrchestrator, Event, turn_of, cancel, elsewhere, run, shut_down}
use axon_task.Worker.Capacity.{IsWithin, run-IsWithin, run_full, shut_down_lem}
use axon_task.Scenarios.Tasks.{request, waiting, waiting-IsSound}

abbrev worker : WorkerOrchestrator ℕ
worker =
    Loop.with_config (record { poll_interval_secs = 1; max_concurrent_tasks = 1; batch_size = 5 })

abbrev two_turns : List (Event ℕ)
two_turns =
    turn_of (λ _. false)
    ∷ elsewhere (Operation.mark_succeeded 1 none)
    ∷ cancel (λ _. true)
    ∷ turn_of (λ _. false)
    ∷ []

run-IsWithin_example :
    IsWithin (run two_turns (worker, waiting))
    × ((run two_turns (worker, waiting)).0.config ≡ worker.config)
run-IsWithin_example = run-IsWithin two_turns (worker, waiting) (omega arith, waiting-IsSound)

abbrev busy : WorkerOrchestrator ℕ
busy = record worker { active_tasks = (1, false) ∷ [] }

run_full_example :
    ((run two_turns (busy, waiting)).0.spawned ≡ [])
    × (length (run two_turns (busy, waiting)).0.active_tasks ≡ 1)
run_full_example = run_full two_turns (busy, waiting) (omega arith)

shut_down_lem_example : ((shut_down busy).0 ≤ 1) × ((shut_down busy).1 ≡ [])
shut_down_lem_example = shut_down_lem busy

abbrev task : Task ℕ
task = record (new_row 1 5 (request 10)) { state = running; started_at = some 9; updated_at = 9 }

abbrev table : Store (Task ℕ)
table = record { rows = task ∷ []; now = 20; faults = [] }

abbrev attempt : Attempt ℕ
attempt = record {
  validated = ok tt;
  listens = true;
  joined = some (ok tt);
  cancelled = false;
  clock = 20;
  meanwhile = λ s. s;
}

execute_task-ends_example :
    Ended (verdict task attempt (ok tt) (some 9)) 1 table (execute_task task attempt table)
execute_task-ends_example =
    execute_task-ends task attempt table (ok tt) task refl refl refl refl (tt, tt) refl

abbrev read_config : ℕ → Option MockConfig
read_config n = some (record { duration_ms = n; should_fail = true; failure_percent = 75 })

abbrev context : AdapterContext ℕ
context = record { task_id = 1; args = 10; cancelled_at = λ _. false; received = λ _. true }

execute_lem_example :
    let (r, trace) = execute read_config (λ _. []) context (record { events = []; slept = 0 }) in
    EndsIn (Told r) trace.events × (trace.slept ≤ 10)
execute_lem_example = execute_lem read_config (λ _. []) context (λ _. refl)

abbrev emission : ℕ → Emission ℕ
emission id = record { task_id = id; kind = text "started"; payload = 3; ts = 7 }

-- Events of two tasks, by one emitter.
abbrev two_tasks : List (Emission ℕ)
two_tasks = emission 1 ∷ emission 2 ∷ []

abbrev same_bytes : Bytes → Bytes
same_bytes bs = bs

abbrev one_byte : ℕ → Text
one_byte n = n ∷ []

emit_all-IsEmitted_example :
    let s =
      (emit_all same_bytes one_byte one_byte two_tasks
        (new, record { rows = []; now = 9; faults = [] })).1 in
    (length s.rows ≡ 2) × IsEmitted same_bytes one_byte one_byte none 0 s.rows
emit_all-IsEmitted_example =
    emit_all-IsEmitted same_bytes one_byte one_byte two_tasks 9 (omega arith)
