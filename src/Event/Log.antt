-- ===== src/Event/Log.antt =====
-- The statements on `task_events` (`impl TaskEvent` of axontask-shared/src/models/task_event.rs).
use axon_task.Prelude.{
  ℕ, ℤ, pos, leb_ℤ, ltb_ℤ, add_one_i64, Bool, true, false, not, ◌&&◌, ◌||◌, Option, none, some,
  List, [], ◌∷◌, ◌++◌, keep, any, length, ◌==◌, if◌then◌else◌,
}
use axon_task.Db.{DateTime, Query, ◌>>=◌, pure, try_statement, statement}
use axon_task.Task.{Uuid}
use axon_task.Task.Queries.{SqlError, database}
use axon_task.Event.{Bytes, as_str, TaskEvent, AppendEvent, compute_hash, verify_from}

abbrev pub seq_eq : ℤ → ℤ → Bool
seq_eq a b = leb_ℤ a b && leb_ℤ b a

abbrev pub is_null : Option Bytes → Bool
is_null none = true
is_null (some b) = false

-- The sequence number and the hash that the next event of a task takes, from the last event's.
abbrev pub next_link : Option (ℤ × Option Bytes) → ℤ × Option Bytes
next_link (some (last_seq, some last_hash)) = (add_one_i64 last_seq, some last_hash)
next_link (some (last_seq, none)) = (add_one_i64 last_seq, none)
next_link none = (pos 0, none)

abbrev pub up_to : Option ℤ → ℤ → Bool
up_to none seq = true
up_to (some last) seq = leb_ℤ seq last

module _ {J : Type 0} where
  abbrev pub of_task : Uuid → List (TaskEvent J) → List (TaskEvent J)
  of_task id es = keep (λ e. e.task_id == id) es

  -- `ORDER BY seq DESC LIMIT 1`
  unfoldable pub newest : List (TaskEvent J) → Option (TaskEvent J)
  newest [] = none
  newest (e ∷ es) = elim (newest es) [
    | none ↦ some e
    | some f ↦ if leb_ℤ e.seq f.seq then some f else some e
  ]

  -- `ORDER BY seq ASC`
  unfoldable pub insert_by_seq : TaskEvent J → List (TaskEvent J) → List (TaskEvent J)
  insert_by_seq e [] = e ∷ []
  insert_by_seq e (f ∷ fs) = if leb_ℤ e.seq f.seq then e ∷ f ∷ fs else f ∷ insert_by_seq e fs

  unfoldable pub by_seq : List (TaskEvent J) → List (TaskEvent J)
  unfolding insert_by_seq
  by_seq [] = []
  by_seq (e ∷ es) = insert_by_seq e (by_seq es)

  abbrev pub seq_and_hash : Option (TaskEvent J) → Option (ℤ × Option Bytes)
  seq_and_hash none = none
  seq_and_hash (some e) = some (e.seq, some e.hash_curr)

  -- The first statement of `append`.
  unfoldable pub last_link : Uuid → Query (TaskEvent J) SqlError (Option (ℤ × Option Bytes))
  last_link id = statement database (λ now es. (seq_and_hash (newest (of_task id es)), es))

  -- What the schema asks of a new row: its key is free, its number is not negative, and the first event
  -- has no previous hash.
  abbrev pub key_taken : Uuid → ℤ → List (TaskEvent J) → Bool
  key_taken id seq es = any (λ e. e.task_id == id && seq_eq e.seq seq) es

  abbrev pub admits : TaskEvent J → List (TaskEvent J) → Bool
  admits e es =
      not (key_taken e.task_id e.seq es)
      && leb_ℤ (pos 0) e.seq
      && (is_null e.hash_prev || ltb_ℤ (pos 0) e.seq)

  abbrev pub insert_event :
      TaskEvent J → DateTime → List (TaskEvent J) → Option (TaskEvent J × List (TaskEvent J))
  insert_event e now es = if admits e es then some (e, es ++ e ∷ []) else none

  unfoldable pub in_range : Uuid → ℤ → Option ℤ → List (TaskEvent J) → List (TaskEvent J)
  in_range id first last es =
      by_seq (keep (λ e. e.task_id == id && leb_ℤ first e.seq && up_to last e.seq) es)

  unfoldable pub query_range :
      Uuid → ℤ → Option ℤ → Query (TaskEvent J) SqlError (List (TaskEvent J))
  query_range id first last = statement database (λ now es. (in_range id first last es, es))

  unfoldable pub get_latest : Uuid → Query (TaskEvent J) SqlError (Option (TaskEvent J))
  get_latest id = statement database (λ now es. (newest (of_task id es), es))

  unfoldable pub count : Uuid → Query (TaskEvent J) SqlError ℕ
  count id = statement database (λ now es. (length (of_task id es), es))

  unfoldable pub delete_for_task : Uuid → Query (TaskEvent J) SqlError ℕ
  delete_for_task id =
      statement database (λ now es. (length (of_task id es), keep (λ e. not (e.task_id == id)) es))

  module _ (sha256 : Bytes → Bytes) (to_vec : J → Option Bytes) where
    -- The event that `append` inserts; `ts` is the column's default.
    abbrev pub linked_event : AppendEvent J → ℤ × Option Bytes → DateTime → TaskEvent J
    linked_event d (seq, prev) now = record {
      task_id = d.task_id;
      seq = seq;
      ts = now;
      kind = as_str d.kind;
      payload = d.payload;
      hash_prev = prev;
      hash_curr = compute_hash sha256 to_vec prev seq (as_str d.kind) d.payload;
    }

    -- The second statement of `append`.
    unfoldable pub insert_linked :
        AppendEvent J → ℤ × Option Bytes → Query (TaskEvent J) SqlError (TaskEvent J)
    insert_linked d link =
        try_statement database (λ now es. insert_event (linked_event d link now) now es)

    unfoldable pub append : AppendEvent J → Query (TaskEvent J) SqlError (TaskEvent J)
    append d = do last ← last_link d.task_id; insert_linked d (next_link last)

    abbrev pub verify_all : List (TaskEvent J) → Bool
    verify_all [] = true
    verify_all (e ∷ es) = verify_from sha256 to_vec none (e ∷ es)

    unfoldable pub verify_chain : Uuid → Query (TaskEvent J) SqlError Bool
    verify_chain id = do events ← query_range id (pos 0) none; pure (verify_all events)
