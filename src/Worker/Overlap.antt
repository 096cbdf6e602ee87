-- ===== src/Worker/Overlap.antt =====
-- Calls of `emit` that overlap (axontask-worker/src/events.rs): each takes its number, reads the previous hash and
-- sets it, each under a lock of its own, and then writes. The steps of all calls come in any order.
use axon_task.Prelude.{
  ℕ, zero, suc, ℤ, add_one_i64, Text, Bool, true, false, Option, none, some, List, [], ◌∷◌, ◌++◌,
  get_elem?,
}
use axon_task.Task.{DateTime}
use axon_task.Event.{Bytes, TaskEvent}
use axon_task.Worker.Emitter.{EmitterState, new, Emission, task_event}

-- How far a call has come; calls stay in the list, in the order in which they began.
pub data Call (J : Type 0) : Type 0 where
  numbered : ℤ → Emission J → Call J
  linked : TaskEvent J → Call J
  ready : TaskEvent J → Call J
  written : TaskEvent J → Call J
  failed : TaskEvent J → Call J

pub record World (J : Type 0) : Type 0 where
  pub state : EmitterState
  pub calls : List (Call J)
  pub rows : List (TaskEvent J)

-- What happens next: a call begins, or that of a place goes on; its write answers.
pub data Step (J : Type 0) : Type 0 where
  begin : Emission J → Step J
  go_on : ℕ → Bool → Step J

abbrev pub put : {A : Type 0} → ℕ → A → List A → List A
put n a [] = []
put zero a (x ∷ xs) = a ∷ xs
put (suc n) a (x ∷ xs) = x ∷ put n a xs

module _ {J : Type 0} (sha256 : Bytes → Bytes) (to_json : J → Text)
    (to_rfc3339 : DateTime → Text) where
  -- The event of a number, with the hash that is the previous one now.
  abbrev pub event_of : ℤ → EmitterState → Emission J → TaskEvent J
  event_of seq st x = task_event sha256 to_json to_rfc3339 (record st { seq = seq }) x

  abbrev pub resume : ℕ → Bool → Option (Call J) → World J → World J
  resume n answers none w = w
  resume n answers (some (numbered seq x)) w = record w {
    calls = put n (linked (event_of seq w.state x)) w.calls;
  }
  resume n answers (some (linked e)) w = record w {
    state = record w.state { prev_hash = some e.hash_curr };
    calls = put n (ready e) w.calls;
  }
  resume n true (some (ready e)) w = record w {
    calls = put n (written e) w.calls;
    rows = w.rows ++ e ∷ [];
  }
  resume n false (some (ready e)) w = record w { calls = put n (failed e) w.calls }
  resume n answers (some (written e)) w = w
  resume n answers (some (failed e)) w = w

  abbrev pub take_step : Step J → World J → World J
  take_step (begin x) w = record w {
    state = record w.state { seq = add_one_i64 w.state.seq };
    calls = w.calls ++ numbered w.state.seq x ∷ [];
  }
  take_step (go_on n answers) w = resume n answers (get_elem? w.calls n) w

  unfoldable pub take_steps : List (Step J) → World J → World J
  take_steps [] w = w
  take_steps (t ∷ ts) w = take_steps ts (take_step t w)

abbrev pub idle : {J : Type 0} → World J
idle = record { state = new; calls = []; rows = [] }
