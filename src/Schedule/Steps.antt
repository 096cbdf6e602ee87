-- ===== src/Schedule/Steps.antt =====
-- One statement on a row: every `UPDATE` of the code makes a legal move and keeps the row well formed.
use axon_task.Prelude.{ℤ, ◌≡◌, refl, Text, Bool, true, Option, ◌==◌, arith}
use axon_task.Task.{
  Uuid, DateTime, Task, UpdateTask, pending, running, is_terminal, is_active, can_transition_to,
}
use axon_task.Task.Queries.{
  in_state, cancelable, start, succeed, fail, cancel, time_out, apply_stats,
}
use axon_task.Queue.{mark_running, set_succeeded, set_failed, set_timeout}
use axon_task.Store.Evolution.{Moves, IsWellFormed}

-- What an update of the rows that pass `hit` needs: a move of the machine, and a well-formed row.
pub record IsSafe {J : Type 0} (now : DateTime) (hit : Task J → Bool) (f : Task J → Task J)
    : Type 0 where
  pub moves : (t : Task J) → hit t ≡ true → Moves t (f t)
  pub keeps : (t : Task J) → hit t ≡ true → IsWellFormed now t → IsWellFormed now (f t)
  pub same_id : (t : Task J) → (f t).id ≡ t.id

module _ {J : Type 0} (now : DateTime) (id : Uuid) where
  pub start-IsSafe : IsSafe {J = J} now (in_state id pending) (start now)
  unfolding can_transition_to is_terminal is_active
  start-IsSafe = record {
    moves = λ t h. ground arith;
    keeps = λ t h w. ground arith;
    same_id = λ t. refl;
  }

  pub succeed-IsSafe :
      (code : Option ℤ) → IsSafe {J = J} now (in_state id running) (succeed code now)
  unfolding can_transition_to is_terminal is_active
  succeed-IsSafe code = record {
    moves = λ t h. ground arith;
    keeps = λ t h w. ground arith;
    same_id = λ t. refl;
  }

  pub fail-IsSafe :
      (message : Text) (code : Option ℤ)
      → IsSafe {J = J} now (in_state id running) (fail message code now)
  unfolding can_transition_to is_terminal is_active
  fail-IsSafe message code = record {
    moves = λ t h. ground arith;
    keeps = λ t h w. ground arith;
    same_id = λ t. refl;
  }

  pub cancel-IsSafe : IsSafe {J = J} now (cancelable id) (cancel now)
  unfolding can_transition_to is_terminal is_active
  cancel-IsSafe = record {
    moves = λ t h. ground arith;
    keeps = λ t h w. ground arith;
    same_id = λ t. refl;
  }

  pub time_out-IsSafe :
      (message : Text) → IsSafe {J = J} now (in_state id running) (time_out message now)
  unfolding can_transition_to is_terminal is_active
  time_out-IsSafe message = record {
    moves = λ t h. ground arith;
    keeps = λ t h w. ground arith;
    same_id = λ t. refl;
  }

  pub apply_stats-IsSafe :
      (d : UpdateTask) → IsSafe {J = J} now (λ t. t.id == id) (apply_stats d now)
  unfolding can_transition_to is_terminal is_active
  apply_stats-IsSafe d = record {
    moves = λ t h. ground arith;
    keeps = λ t h w. ground arith;
    same_id = λ t. refl;
  }

  pub set_succeeded-IsSafe :
      (code : Option ℤ) → IsSafe {J = J} now (in_state id running) (set_succeeded code now)
  unfolding can_transition_to is_terminal is_active
  set_succeeded-IsSafe code = record {
    moves = λ t h. ground arith;
    keeps = λ t h w. ground arith;
    same_id = λ t. refl;
  }

  pub set_failed-IsSafe :
      (message : Text) → IsSafe {J = J} now (in_state id running) (set_failed message now)
  unfolding can_transition_to is_terminal is_active
  set_failed-IsSafe message = record {
    moves = λ t h. ground arith;
    keeps = λ t h w. ground arith;
    same_id = λ t. refl;
  }

  pub set_timeout-IsSafe :
      (message : Text) → IsSafe {J = J} now (in_state id running) (set_timeout message now)
  unfolding can_transition_to is_terminal is_active
  set_timeout-IsSafe message = record {
    moves = λ t h. ground arith;
    keeps = λ t h w. ground arith;
    same_id = λ t. refl;
  }

  -- A row that a worker claims is pending, which takes the whole table to see.
  pub mark_running-Moves : (t : Task J) → t.state ≡ pending → Moves t (mark_running now t)
  unfolding can_transition_to is_terminal
  mark_running-Moves t h = ground arith

  pub mark_running-IsWellFormed :
      (t : Task J) → t.state ≡ pending → IsWellFormed now t → IsWellFormed now (mark_running now t)
  unfolding can_transition_to is_terminal is_active
  mark_running-IsWellFormed t h w = ground arith
