-- ===== src/Worker/Loop.antt =====
-- The worker's loop (`WorkerOrchestrator` of axontask-worker/src/orchestrator.rs). A cancellation token is
-- its flag. What is spawned is listed; how it runs is `Worker/Execute.antt`.
use axon_task.Prelude.{
  ℕ, zero, suc, ◌-◌, Text, text, text_eq, Bool, true, false, not, ◌||◌, some, List, [], ◌∷◌, ◌++◌,
  length, keep, any, map, Result, ok, err, ◌==◌, if◌then◌else◌,
}
use axon_task.Task.{Uuid, Task}
use axon_task.Queue
use axon_task.Queue.{QueueError, TaskQueue, claim_tasks, mark_failed}
use axon_task.Db.{Store}
use axon_task.Schedule.{Operation, perform}

pub record OrchestratorConfig : Type 0 where
  pub poll_interval_secs : ℕ
  pub max_concurrent_tasks : ℕ
  pub batch_size : ℕ

abbrev pub default_config : OrchestratorConfig
default_config = record { poll_interval_secs = 1; max_concurrent_tasks = 10; batch_size = 5 }

-- `HashMap<Uuid, CancellationToken>`
abbrev pub Tokens : Type 0
Tokens = List (Uuid × Bool)

abbrev pub insert : Uuid → Tokens → Tokens
insert id [] = (id, false) ∷ []
insert id ((j, c) ∷ ts) = if j == id then (id, false) ∷ ts else (j, c) ∷ insert id ts

abbrev pub retain_live : Tokens → Tokens
retain_live ts = keep (λ t. not t.1) ts

abbrev pub cancel_where : (Uuid → Bool) → Tokens → Tokens
cancel_where p ts = map (λ t. (t.0, p t.0 || t.1)) ts

-- The wait at a shutdown: the seconds that it sleeps, and the tokens it is left with.
unfoldable pub wait_for : ℕ → Tokens → ℕ × Tokens
wait_for zero ts = (0, ts)
wait_for (suc remaining) [] = (0, [])
wait_for (suc remaining) (t ∷ ts) =
    let (n, left) = wait_for remaining (retain_live (t ∷ ts)) in (suc n, left)

pub record WorkerOrchestrator (J : Type 0) : Type 0 where
  pub queue : TaskQueue
  pub config : OrchestratorConfig
  pub adapters : List Text  -- the names that are registered
  pub active_tasks : Tokens
  pub spawned : List (Task J)

module _ {J : Type 0} where
  abbrev pub new : WorkerOrchestrator J
  new = record {
    queue = Queue.new;
    config = default_config;
    adapters = text "mock" ∷ [];
    active_tasks = [];
    spawned = [];
  }

  abbrev pub with_config : OrchestratorConfig → WorkerOrchestrator J
  with_config c = record new { queue = record { batch_size = c.batch_size }; config = c }

  abbrev pub register_adapter : Text → WorkerOrchestrator J → WorkerOrchestrator J
  register_adapter name w = record w {
    adapters = if any (text_eq name) w.adapters then w.adapters else w.adapters ++ name ∷ [];
  }

  -- An error of `mark_failed` is only logged.
  unfoldable pub dispatch_task :
      Task J → WorkerOrchestrator J × Store (Task J) → WorkerOrchestrator J × Store (Task J)
  dispatch_task t (w, s) =
      if any (text_eq t.adapter) w.adapters
      then (record w { spawned = t ∷ w.spawned }, s)
      else (w, (mark_failed t.id (text "Adapter not found: " ++ t.adapter) s).1)

  unfoldable pub dispatch_all :
      List (Task J) → WorkerOrchestrator J × Store (Task J) → WorkerOrchestrator J × Store (Task J)
  dispatch_all [] p = p
  dispatch_all (t ∷ ts) (w, s) =
      dispatch_all ts (dispatch_task t (record w { active_tasks = insert t.id w.active_tasks }, s))

  abbrev pub clean_up :
      WorkerOrchestrator J × Store (Task J) → WorkerOrchestrator J × Store (Task J)
  clean_up (w, s) = (record w { active_tasks = retain_live w.active_tasks }, s)

  abbrev pub claimed :
      WorkerOrchestrator J
      → Result QueueError (List (Task J)) × Store (Task J)
      → WorkerOrchestrator J × Store (Task J)
  claimed w (err e, s) = (w, s)
  claimed w (ok [], s) = (w, s)
  claimed w (ok (t ∷ ts), s) = clean_up (dispatch_all (t ∷ ts) (w, s))

  -- `saturating_sub`
  abbrev pub available_slots : WorkerOrchestrator J → ℕ
  available_slots w = w.config.max_concurrent_tasks - length w.active_tasks

  -- One turn of the loop, less its sleeps, while no shutdown is asked for.
  unfoldable pub turn :
      (Uuid → Bool) → WorkerOrchestrator J × Store (Task J) → WorkerOrchestrator J × Store (Task J)
  turn locked (w, s) =
      if available_slots w == 0
      then (w, s)
      else claimed w (claim_tasks w.queue locked (some (available_slots w)) s)

  unfoldable pub shut_down : WorkerOrchestrator J → ℕ × Tokens
  shut_down w = wait_for 30 (cancel_where (λ _. true) w.active_tasks)

-- What happens, one thing after another, while the worker runs: its own turns, tokens that listeners and
-- timeouts cancel, and statements of others.
pub data Event (J : Type 0) : Type 0 where
  turn_of : (Uuid → Bool) → Event J
  cancel : (Uuid → Bool) → Event J
  elsewhere : Operation J → Event J

module _ {J : Type 0} where
  unfoldable pub happen :
      Event J → WorkerOrchestrator J × Store (Task J) → WorkerOrchestrator J × Store (Task J)
  happen (turn_of locked) p = turn locked p
  happen (cancel p) (w, s) = (record w { active_tasks = cancel_where p w.active_tasks }, s)
  happen (elsewhere op) (w, s) = (w, perform op s)

  unfoldable pub run :
      List (Event J) → WorkerOrchestrator J × Store (Task J) → WorkerOrchestrator J × Store (Task J)
  run [] p = p
  run (e ∷ es) p = run es (happen e p)
