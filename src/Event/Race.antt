-- ===== src/Event/Race.antt =====
-- Any number of writers that call `append` at once (models/task_event.rs): each of its two statements is
-- atomic, and between them the others' run. A schedule is a list of moves.
use axon_task.Prelude.{
  ℕ, zero, suc, ◌+◌, ℤ, Bool, Option, none, some, List, [], ◌∷◌, All, Result, ok, err,
}
use axon_task.Db.{DateTime, Store}
use axon_task.Task.Queries.{SqlError}
use axon_task.Event.{Bytes, TaskEvent, AppendEvent}
use axon_task.Event.Log.{next_link, last_link, insert_linked}
use axon_task.Event.Appends.{Writer, IsChained, Fits}

pub record Race (J : Type 0) : Type 0 where
  pub store : Store (TaskEvent J)
  pub writers : List (Writer J)

pub data Move (J : Type 0) : Type 0 where
  -- The first statement of a call of `append`, the second of the call at a place in the list of those
  -- that are under way, and time that passes.
  read : AppendEvent J → Move J
  write : ℕ → Move J
  wait : ℕ → Move J

module _ {J : Type 0} where
  abbrev pub pick : ℕ → List (Writer J) → Option (Writer J × List (Writer J))
  pick i [] = none
  pick zero (w ∷ ws) = some (w, ws)
  pick (suc i) (w ∷ ws) = elim (pick i ws) [ none ↦ none | some (v, rest) ↦ some (v, w ∷ rest) ]

  abbrev pub has_read :
      AppendEvent J
      → Race J
      → Result SqlError (Option (ℤ × Option Bytes)) × Store (TaskEvent J)
      → Race J
  has_read d r (ok last, s) = record r {
    store = s;
    writers = record { event = d; link = next_link last } ∷ r.writers;
  }
  has_read d r (err e, s) = record r { store = s }

  abbrev pub idle : DateTime → List Bool → Race J
  idle now faults = record {
    store = record { rows = []; now = now; faults = faults };
    writers = [];
  }

module _ {J : Type 0} (sha256 : Bytes → Bytes) (to_vec : J → Option Bytes) where
  abbrev pub writes : Race J → Option (Writer J × List (Writer J)) → Race J
  writes r none = r
  writes r (some (w, rest)) = record {
    store = (insert_linked sha256 to_vec w.event w.link r.store).1;
    writers = rest;
  }

  unfoldable pub move : Move J → Race J → Race J
  move (read d) r = has_read d r (last_link d.task_id r.store)
  move (write i) r = writes r (pick i r.writers)
  move (wait n) r = record r { store = record (r.store) { now = r.store.now + n } }

  unfoldable pub moves : List (Move J) → Race J → Race J
  moves [] r = r
  moves (m ∷ ms) r = moves ms (move m r)

  abbrev IsSafe : List (TaskEvent J) → List (Writer J) → Type 0
  IsSafe es ws = IsChained sha256 to_vec es × All (Fits sha256 to_vec es) ws

  abbrev Picked : (Writer J → Type 0) → Option (Writer J × List (Writer J)) → Type 0
  Picked P none = Unit
  Picked P (some (w, rest)) = P w × All P rest

  abbrev IsSafeRace : Race J → Type 0
  IsSafeRace r = IsSafe r.store.rows r.writers
