-- ===== src/Redis/Reader.antt =====
-- The reader of event streams (axontask-shared/src/redis/stream_reader.rs). What the server answers to `XREAD`,
-- `XREVRANGE` and `XLEN` is a parameter, as is `from_redis_value`; `V` are the values of the redis crate, and an
-- error of the crate is its message.
use axon_task.Prelude.{
  ℕ, zero, suc, min, Text, text, Option, none, some, List, [], ◌∷◌, ◌++◌, map, Result, ok, err,
}
use axon_task.Prelude.Results.{◌>>=◌}
use axon_task.Task.{Uuid}
use axon_task.Event.{TaskEvent}
use axon_task.Redis.Serialization.{
  SerializationError, Fields, Formats, deserialize_event, event_stream_key,
}

pub data StreamReaderError : Type 0 where
  redis_error : Text → StreamReaderError
  deserialization_error : SerializationError → StreamReaderError
  redis_command_error : Text → StreamReaderError
  invalid_stream_id : Text → StreamReaderError

pub record StreamReaderConfig : Type 0 where
  pub default_batch_size : ℕ
  pub default_live_timeout_ms : ℕ
  pub max_batch_size : ℕ

abbrev pub default_config : StreamReaderConfig
default_config = record {
  default_batch_size = 1000;
  default_live_timeout_ms = 5000;
  max_batch_size = 10000;
}

-- `StreamReadReply`: for each stream its key and its entries; an entry has an id and a map of values.
abbrev pub Entry : Type 0 → Type 0
Entry V = Text × List (Text × V)

abbrev pub Reply : Type 0 → Type 0
Reply V = List (Text × List (Entry V))

-- The commands that read.
pub record Commands (V : Type 0) : Type 0 where
  pub xread : Text → Text → ℕ → Result Text (Reply V)  -- key, id, COUNT
  pub xread_block : Text → Text → ℕ → ℕ → Result Text (Reply V)  -- key, id, COUNT, BLOCK
  pub xrevrange_count : Text → ℕ → Result Text (Reply V)
  pub xlen : Text → Result Text ℕ
  pub from_redis_value : V → Result Text Text

-- `.await?` on a command.
abbrev pub command : {A : Type 0} → Result Text A → Result StreamReaderError A
command (ok a) = ok a
command (err e) = err (redis_command_error e)

-- `slice::last`
unfoldable pub last : {A : Type 0} → List A → Option A
last [] = none
last (x ∷ []) = some x
last (x ∷ y ∷ ys) = last (y ∷ ys)

module _ {V J : Type 0} (redis : Commands V) (formats : Formats J)
    (config : StreamReaderConfig) where
  -- The values that are not text are left out.
  abbrev pub with_value : Text → Result Text Text → Fields → Fields
  with_value k (ok value) fields = (k, value) ∷ fields
  with_value k (err e) fields = fields

  unfoldable pub fields_of : List (Text × V) → Fields
  fields_of [] = []
  fields_of ((k, v) ∷ values) = with_value k (redis.from_redis_value v) (fields_of values)

  -- An entry that is no event is logged and skipped.
  abbrev pub push_event :
      Text
      → Result SerializationError (TaskEvent J)
      → List (Text × TaskEvent J)
      → List (Text × TaskEvent J)
  push_event id (ok event) events = (id, event) ∷ events
  push_event id (err e) events = events

  unfoldable pub events_of : List (Entry V) → List (Text × TaskEvent J)
  events_of [] = []
  events_of ((id, values) ∷ entries) =
      push_event id (deserialize_event formats (fields_of values)) (events_of entries)

  unfoldable pub of_reply : Reply V → List (Text × TaskEvent J)
  of_reply [] = []
  of_reply ((key, entries) ∷ streams) = events_of entries ++ of_reply streams

  unfoldable pub read_backfill :
      Uuid → Text → ℕ → Result StreamReaderError (List (Text × TaskEvent J))
  read_backfill task_id since_id count = do
    let safe_count = min count config.max_batch_size
    reply ← command (redis.xread (event_stream_key formats task_id) since_id safe_count)
    ok (of_reply reply)

  unfoldable pub read_live : Uuid → Text → ℕ → Result StreamReaderError (List (Text × TaskEvent J))
  read_live task_id after_id timeout_ms = do
    reply ← command (
        redis.xread_block (event_stream_key formats task_id) after_id config.default_batch_size
          timeout_ms)
    ok (of_reply reply)

  -- The loop of `read_all`, on fuel; `none` where it has not ended.
  abbrev pub next_id : Text → List (Text × TaskEvent J) → Text
  next_id last_id batch = elim (last batch) [ none ↦ last_id | some (id, event) ↦ id ]

  -- What a turn of the loop does with its batch; `again` is the next turn.
  abbrev pub on_batch :
      (Text → List (TaskEvent J) → Option (Result StreamReaderError (List (TaskEvent J))))
      → Text
      → List (TaskEvent J)
      → Result StreamReaderError (List (Text × TaskEvent J))
      → Option (Result StreamReaderError (List (TaskEvent J)))
  on_batch again last_id all_events (err e) = some (err e)
  on_batch again last_id all_events (ok []) = some (ok all_events)
  on_batch again last_id all_events (ok (item ∷ items)) =
      again (next_id last_id (item ∷ items)) (all_events ++ map (λ p. p.1) (item ∷ items))

  unfoldable pub read_loop :
      ℕ → Uuid → Text → List (TaskEvent J) → Option (Result StreamReaderError (List (TaskEvent J)))
  read_loop zero task_id last_id all_events = none
  read_loop (suc fuel) task_id last_id all_events =
      on_batch (read_loop fuel task_id) last_id all_events
        (read_backfill task_id last_id config.default_batch_size)

  unfoldable pub read_all : ℕ → Uuid → Option (Result StreamReaderError (List (TaskEvent J)))
  unfolding text
  read_all fuel task_id = read_loop fuel task_id (text "0") []

  -- `read_last`: the first entry of the reply, which must be an event.
  abbrev pub first_entry : Reply V → Option (Entry V)
  first_entry [] = none
  first_entry ((key, []) ∷ streams) = first_entry streams
  first_entry ((key, entry ∷ entries) ∷ streams) = some entry

  abbrev pub event_or_fail :
      Text
      → Result SerializationError (TaskEvent J)
      → Result StreamReaderError (Option (Text × TaskEvent J))
  event_or_fail id (ok event) = ok (some (id, event))
  event_or_fail id (err e) = err (deserialization_error e)

  unfoldable pub read_last : Uuid → Result StreamReaderError (Option (Text × TaskEvent J))
  read_last task_id = do
    reply ← command (redis.xrevrange_count (event_stream_key formats task_id) 1)
    elim (first_entry reply) [
      | none ↦ ok none
      | some (id, values) ↦ event_or_fail id (deserialize_event formats (fields_of values))
    ]

  unfoldable pub count_entries : Uuid → Result StreamReaderError ℕ
  count_entries task_id = command (redis.xlen (event_stream_key formats task_id))
