-- ===== src/Task/Queries.antt =====
-- The statements on a task of axontask-shared/src/models/task.rs (`impl Task`).
use axon_task.Prelude.{
  ℤ, pos, ltb_ℤ, Text, text, Bool, not, ◌&&◌, ◌||◌, Option, none, some, [], ◌∷◌, ◌++◌, keep, any,
  head?, ltb, ◌==◌, if◌then◌else◌,
}
use axon_task.Task.{
  Uuid, DateTime, Task, CreateTask, UpdateTask, TaskState, pending, running, succeeded, failed,
  canceled, timeout, same_state,
}
use axon_task.Store.{Table}
use axon_task.Db.{Query, try_statement, statement}
use axon_task.Store.Rows.{update_rows, returning_one, rows_affected}

-- What an `sqlx::Error` tells the code, which looks no further into it.
pub data SqlError : Type 0 where
  database : SqlError

-- `CHECK (timeout_seconds BETWEEN 1 AND 86400)`
abbrev pub timeout_in_range : ℤ → Bool
timeout_in_range s = not (ltb_ℤ s (pos 1)) && not (ltb_ℤ (pos 86400) s)

abbrev pub or_else : Option ℤ → ℤ → ℤ
or_else none old = old
or_else (some new) old = new

module _ {J : Type 0} where
  -- The row that an `INSERT` makes, with the defaults of the schema.
  abbrev pub new_row : Uuid → DateTime → CreateTask J → Task J
  new_row id now d = record {
    id = id;
    tenant_id = d.tenant_id;
    created_by = d.created_by;
    name = d.name;
    adapter = d.adapter;
    args = d.args;
    state = pending;
    started_at = none;
    ended_at = none;
    cursor = pos 0;
    bytes_streamed = pos 0;
    minutes_used = pos 0;
    timeout_seconds = d.timeout_seconds;
    error_message = none;
    exit_code = none;
    created_at = now;
    updated_at = now;
  }

  abbrev pub id_taken : Uuid → Table J → Bool
  id_taken id ts = any (λ t. t.id == id) ts

  abbrev pub insert_row : Uuid → CreateTask J → DateTime → Table J → Option (Task J × Table J)
  insert_row id d now ts =
      if not (id_taken id ts) && timeout_in_range d.timeout_seconds
      then some (new_row id now d, ts ++ new_row id now d ∷ [])
      else none

  -- `id` is what `gen_random_uuid()` gives. A taken primary key and the check on the timeout stop it.
  -- One that the foreign keys or the lengths of the columns stop is a statement that fails.
  unfoldable pub create : Uuid → CreateTask J → Query (Task J) SqlError (Task J)
  create id d = try_statement database (insert_row id d)

  unfoldable pub find_by_id : Uuid → Query (Task J) SqlError (Option (Task J))
  find_by_id id = statement database (λ now ts. (head? (keep (λ t. t.id == id) ts), ts))

  unfoldable pub find_by_id_and_tenant : Uuid → Uuid → Query (Task J) SqlError (Option (Task J))
  find_by_id_and_tenant id tenant =
      statement database
        (λ now ts. (head? (keep (λ t. t.id == id && t.tenant_id == tenant) ts), ts))

  -- `UPDATE tasks SET … WHERE … RETURNING …`, read by `fetch_optional`.
  abbrev pub update_one :
      (Task J → Bool) → (DateTime → Task J → Task J) → Query (Task J) SqlError (Option (Task J))
  update_one hit f =
      statement database (λ now ts. (returning_one hit (f now) ts, update_rows hit (f now) ts))

  abbrev pub in_state : Uuid → TaskState → Task J → Bool
  in_state id s t = t.id == id && same_state t.state s

  abbrev pub start : DateTime → Task J → Task J
  start now t = record t { state = running; started_at = some now; updated_at = now }

  unfoldable pub transition_to_running : Uuid → Query (Task J) SqlError (Option (Task J))
  transition_to_running id = update_one (in_state id pending) start

  abbrev pub succeed : Option ℤ → DateTime → Task J → Task J
  succeed code now t = record t {
    state = succeeded;
    ended_at = some now;
    exit_code = code;
    updated_at = now;
  }

  unfoldable pub transition_to_succeeded :
      Uuid → Option ℤ → Query (Task J) SqlError (Option (Task J))
  transition_to_succeeded id code = update_one (in_state id running) (succeed code)

  abbrev pub fail : Text → Option ℤ → DateTime → Task J → Task J
  fail message code now t = record t {
    state = failed;
    ended_at = some now;
    error_message = some message;
    exit_code = code;
    updated_at = now;
  }

  unfoldable pub transition_to_failed :
      Uuid → Text → Option ℤ → Query (Task J) SqlError (Option (Task J))
  transition_to_failed id message code = update_one (in_state id running) (fail message code)

  abbrev pub cancel : DateTime → Task J → Task J
  cancel now t = record t { state = canceled; ended_at = some now; updated_at = now }

  abbrev pub cancelable : Uuid → Task J → Bool
  cancelable id t = t.id == id && (same_state t.state pending || same_state t.state running)

  unfoldable pub transition_to_canceled : Uuid → Query (Task J) SqlError (Option (Task J))
  transition_to_canceled id = update_one (cancelable id) cancel

  abbrev pub time_out : Text → DateTime → Task J → Task J
  time_out message now t = record t {
    state = timeout;
    ended_at = some now;
    error_message = some message;
    updated_at = now;
  }

  unfoldable pub transition_to_timeout : Uuid → Query (Task J) SqlError (Option (Task J))
  transition_to_timeout id =
      update_one (in_state id running) (time_out (text "Task exceeded timeout limit"))

  -- Only the columns that are given are set; the message and the exit code are not looked at.
  abbrev pub apply_stats : UpdateTask → DateTime → Task J → Task J
  apply_stats d now t = record t {
    cursor = or_else d.cursor t.cursor;
    bytes_streamed = or_else d.bytes_streamed t.bytes_streamed;
    minutes_used = or_else d.minutes_used t.minutes_used;
    updated_at = now;
  }

  unfoldable pub update_stats : Uuid → UpdateTask → Query (Task J) SqlError (Option (Task J))
  update_stats id d = update_one (λ t. t.id == id) (apply_stats d)

  abbrev pub delete_rows : Uuid → DateTime → Table J → Bool × Table J
  delete_rows id now ts =
      (ltb 0 (rows_affected (λ t. t.id == id) ts), keep (λ t. not (t.id == id)) ts)

  unfoldable pub delete : Uuid → Query (Task J) SqlError Bool
  delete id = statement database (delete_rows id)
