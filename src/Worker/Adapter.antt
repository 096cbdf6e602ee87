-- ===== src/Worker/Adapter.antt =====
-- What an adapter's run is given and leaves behind (axontask-worker/src/adapters/adapter_trait.rs).
use axon_task.Prelude.{ℕ, text, Bool, List, [], ◌∷◌, ◌++◌, length, Result, ok, err, if◌then◌else◌}
use axon_task.Task.{Uuid}
use axon_task.Worker.AdapterError.{AdapterError, event_emission_failed}
use axon_task.Worker.AdapterEvent.{AdapterEvent}

-- `AdapterContext`, as far as an adapter's run depends on it: what the cancellation token says at each
-- check, and whether the receiver of the channel still takes an event, by the number sent before.
pub record AdapterContext (J : Type 0) : Type 0 where
  pub task_id : Uuid
  pub args : J
  pub cancelled_at : ℕ → Bool
  pub received : ℕ → Bool

-- What an adapter leaves behind: the events that it sent, and the milliseconds that it slept.
pub record Trace : Type 0 where
  pub events : List AdapterEvent
  pub slept : ℕ

abbrev pub Run : Type 0 → Type 0
Run A = Trace → Result AdapterError A × Trace

infixl 5 ◌>>=◌ ◌>>◌
abbrev pub ◌>>=◌ : {A B : Type 0} → Run A → (A → Run B) → Run B
◌>>=◌ m f s = let (r, s') = m s in elim r [ ok a ↦ f a s' | err e ↦ (err e, s') ]

abbrev pub ◌>>◌ : {A B : Type 0} → Run A → Run B → Run B
m >> k = m >>= λ _. k

unfoldable pub emit : {J : Type 0} → AdapterContext J → AdapterEvent → Run (Unit {0})
emit c e s =
    if c.received (length s.events)
    then (ok tt, record s { events = s.events ++ e ∷ [] })
    else (err (event_emission_failed (text "Event channel closed")), s)
