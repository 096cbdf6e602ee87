-- ===== src/Redis/Lag.antt =====
-- What the lag of a consumer says (axontask-shared/src/redis/metrics.rs and stream_reader.rs).
use axon_task.Prelude.{
  ℕ, suc, ◌+◌, ◌-◌, ◌≤◌, ◌≡◌, ap, ◌∙◌, min, Text, text, List, [], ◌∷◌, ◌++◌, length, length-append,
  take, take_all, Result, ok, err, arith,
}
use axon_task.Prelude.Results.{◌>>=◌}
use axon_task.Task.{Uuid}
use axon_task.Event.{TaskEvent}
use axon_task.Redis.Serialization.{SerializationError, Formats, deserialize_event, event_stream_key}
use axon_task.Redis.Batches.{answer, of-answer}
use axon_task.Redis.Reader.{
  StreamReaderConfig, Entry, Reply, Commands, command, fields_of, push_event, events_of, of_reply,
  read_backfill,
}
use axon_task.Redis.Readings.{Serves}
use axon_task.Redis.Metrics.{Value, MetricsCommands, calculate_lag}

-- `XLEN` counts the entries, and `XRANGE` from "-" gives those up to an id, that one included.
pub record Counts {V : Type 0} (metrics : MetricsCommands) (key : Text) (entries : List (Entry V))
    : Type 0 where
  pub all_counted : metrics.xlen key ≡ ok (length entries)
  pub up_to :
      (before rest : List (Entry V)) (entry : Entry V)
      → entries ≡ before ++ (entry ∷ rest)
      → (found : List Value) × (metrics.xrange key (text "-") entry.0 ≡ ok found)
        × (length found ≡ length before + 1)

module _ {V J : Type 0} (redis : Commands V) (metrics : MetricsCommands) (formats : Formats J)
    (config : StreamReaderConfig) (task_id : Uuid) where
  -- An entry holds one event at most.
  pushed :
      (id : Text) (r : Result SerializationError (TaskEvent J)) (events : List (Text × TaskEvent J))
      → length (push_event redis formats config id r events) ≤ suc (length events)
  pushed id (ok event) events = omega arith
  pushed id (err e) events = omega arith

  length-events_of :
      (entries : List (Entry V)) → length (events_of redis formats config entries) ≤ length entries
  unfolding events_of
  length-events_of [] = omega arith
  length-events_of ((id, values) ∷ entries) = omega (
    arith,
    length-events_of entries,
    pushed id (deserialize_event formats (fields_of redis formats config values))
        (events_of redis formats config entries),
  )

  lag_of :
      (entries before rest : List (Entry V)) (entry : Entry V) (found : List Value)
      → entries ≡ before ++ (entry ∷ rest)
      → length found ≡ length before + 1
      → length entries - length found ≡ length rest
  lag_of entries before rest entry found q f =
      omega (arith, ap length q, length-append before (entry ∷ rest), f)

  read_rest :
      (rest : List (Entry V)) (id : Text) (count : ℕ)
      → redis.xread (event_stream_key formats task_id) id count
        ≡ ok (answer (event_stream_key formats task_id) (take count rest))
      → length rest ≤ count
      → count ≤ config.max_batch_size
      → read_backfill redis formats config task_id id count
        ≡ ok (events_of redis formats config rest)
  unfolding read_backfill
  read_rest rest id count h le within =
      let key = event_stream_key formats task_id in
      let after = λ (r : Result Text (Reply V)).
        command r >>= λ reply. ok (of_reply redis formats config reply) in
      let whole : min count config.max_batch_size ≡ count = omega (arith, within) in
      ap (λ n. after (redis.xread key id n)) whole
      ∙ ap after h
      ∙ ap ok (of-answer redis formats config key (take count rest))
      ∙ ap (λ es. ok (events_of redis formats config es)) (take_all count rest le)

  -- For a consumer that stands at an entry of the stream, `calculate_lag` is the number of entries after it. A
  -- backfill from there that asks for so many entries, within the largest batch, gives their events and leaves none, and
  -- these are at most as many as the lag says.
  pub calculate_lag_lem :
      (entries before rest : List (Entry V)) (entry : Entry V) (count : ℕ)
      → Serves redis (event_stream_key formats task_id) entries
      → Counts metrics (event_stream_key formats task_id) entries
      → entries ≡ before ++ (entry ∷ rest)
      → length rest ≤ count
      → count ≤ config.max_batch_size
      → (calculate_lag metrics (event_stream_key formats) task_id entry.0 ≡ ok (length rest))
        × (read_backfill redis formats config task_id entry.0 count
            ≡ ok (events_of redis formats config rest))
        × (length (events_of redis formats config rest) ≤ length rest)
  unfolding calculate_lag text
  calculate_lag_lem entries before rest entry count serves counts q le within =
      let (found, x, f) = counts.up_to before rest entry q in
      (
        rw (counts.all_counted, x) (ap ok (lag_of entries before rest entry found q f)),
        read_rest rest entry.0 count (serves.from_entry before rest entry count q) le within,
        length-events_of rest,
      )
