-- ===== src/Worker/Execute.antt =====
-- The execution of one task (`execute_task` of axontask-worker/src/orchestrator.rs), as a query on the
-- `tasks` table. What the adapter, the listener and the clock answer is an argument; so is all that other
-- processes, and the task that emits the events, do to the table while the adapter runs. Nothing comes between
-- the look at the row of a canceled task and the statement that marks it.
use axon_task.Prelude.{
  ℕ, zero, suc, ◌-◌, ◌/◌, ℤ, pos, negsuc, leb_ℤ, leb, text, Bool, Option, none, some, ◌++◌, Result,
  ok, err, if◌then◌else◌,
}
use axon_task.Task.{DateTime, Task}
use axon_task.Task.Queries.{SqlError, find_by_id}
use axon_task.Queue.{QueueError, mark_succeeded, mark_failed, mark_timeout}
use axon_task.Db.{Store, Query, pure, raise, map_err}
use axon_task.Worker.AdapterError.{AdapterError, to_string}

-- The `anyhow::Error` that `execute_task` returns, by where it comes from.
pub data ExecuteError : Type 0 where
  queue : QueueError → ExecuteError
  listener join : ExecuteError

pub record Attempt (J : Type 0) : Type 0 where
  pub validated : Result AdapterError (Unit {0})  -- what `validate_args` answers
  pub listens : Bool  -- whether the control listener starts
  pub joined : Option (Result AdapterError (Unit {0}))  -- the adapter's result; `none`: it panicked
  pub cancelled : Bool  -- the token, when the adapter is done
  pub clock : DateTime  -- the worker's clock then
  pub meanwhile : Store (Task J) → Store (Task J)

-- `signed_duration_since` in whole seconds, towards zero.
abbrev negated : ℕ → ℤ
negated zero = pos 0
negated (suc n) = negsuc n

abbrev pub elapsed_seconds : DateTime → DateTime → ℤ
elapsed_seconds clock started =
    if leb started clock
    then pos ((clock - started) / 1000000)
    else negated ((started - clock) / 1000000)

module _ {J : Type 0} where
  abbrev pub stop : Task J → DateTime → Option DateTime → Query (Task J) QueueError (Unit {0})
  stop t clock (some started) =
      if leb_ℤ t.timeout_seconds (elapsed_seconds clock started)
      then mark_timeout t.id
      else mark_failed t.id (text "Task cancelled by user")
  stop t clock none = mark_failed t.id (text "Task cancelled")

  abbrev pub looked_up :
      Task J → DateTime → Result SqlError (Option (Task J)) → Query (Task J) QueueError (Unit {0})
  looked_up t clock (ok (some current)) = stop t clock current.started_at
  looked_up t clock (ok none) = pure tt
  looked_up t clock (err e) = pure tt

  abbrev pub after_cancellation : Task J → DateTime → Query (Task J) QueueError (Unit {0})
  after_cancellation t clock s = let (r, s') = find_by_id t.id s in looked_up t clock r s'

  unfoldable pub conclude :
      Task J → Attempt J → Result AdapterError (Unit {0}) → Query (Task J) QueueError (Unit {0})
  conclude t a (ok u) =
      if a.cancelled then after_cancellation t a.clock else mark_succeeded t.id (some (pos 0))
  conclude t a (err e) = mark_failed t.id (to_string e)

  abbrev pub await :
      Task J
      → Attempt J
      → Option (Result AdapterError (Unit {0}))
      → Query (Task J) ExecuteError (Unit {0})
  await t a none = raise join
  await t a (some r) = map_err queue (conclude t a r)

  abbrev pub start :
      Task J → Attempt J → Result AdapterError (Unit {0}) → Query (Task J) ExecuteError (Unit {0})
  start t a (err e) = map_err queue (mark_failed t.id (text "Invalid arguments: " ++ to_string e))
  start t a (ok u) = if a.listens then (λ s. await t a a.joined (a.meanwhile s)) else raise listener

  unfoldable pub execute_task : Task J → Attempt J → Query (Task J) ExecuteError (Unit {0})
  execute_task t a = start t a a.validated
