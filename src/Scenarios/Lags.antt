-- ===== src/Scenarios/Lags.antt =====
-- A consumer at the first of two entries (axontask-shared/src/redis/metrics.rs).
use axon_task.Prelude.{
  ◌+◌, ◌≤◌, ◌≡◌, refl, sym, ap, pos, true, none, some, Text, text, text_eq, List, [], ◌∷◌, ◌++◌,
  length, length-append, if◌then◌else◌, ok, err, arith,
}
use axon_task.Redis.Serialization.{event_stream_key}
use axon_task.Redis.Reader.{Entry, events_of, read_backfill}
use axon_task.Redis.Reader
use axon_task.Redis.Metrics.{
  Value, raw, other, bulk, empty, more, MetricsCommands, parse_from, parse_stream_info, with_field,
  calculate_lag, is_healthy, get_stream_info, int, estimate_time_lag, parse_stream_id_timestamp,
}
use axon_task.Redis.StreamId.{split, parse_i64, digits}
use axon_task.Redis.Lag.{Counts, calculate_lag_lem}
use axon_task.Scenarios.Publishing.{plain, fields, twice, redis, redis-Serves, cons_parts}

abbrev metrics : MetricsCommands
metrics = record {
  xlen = λ k. ok 2;
  xrange = λ k from to. ok (if text_eq to (text "1-0") then other ∷ [] else other ∷ other ∷ []);
  xinfo_stream = λ k. err (text "timeout");
}

metrics-Counts : Counts metrics (event_stream_key plain 7) twice
unfolding text text_eq
metrics-Counts = record { all_counted = refl; up_to = up_to }
  where
    up_to :
        (before rest : List (Entry Text)) (entry : Entry Text)
        → twice ≡ before ++ (entry ∷ rest)
        → (found : List Value) × (metrics.xrange (event_stream_key plain 7) (text "-") entry.0
            ≡ ok found)
          × (length found ≡ length before + 1)
    up_to [] rest entry h = let (e, r) = cons_parts h in (other ∷ [], rw (sym e) refl, refl)
    up_to (x ∷ []) rest entry h =
        let (e, r) = cons_parts (cons_parts h).1 in (other ∷ other ∷ [], rw (sym e) refl, refl)
    up_to (x ∷ y ∷ before) rest entry h =
        absurd (omega (arith, ap length h, length-append before (entry ∷ rest)))

abbrev rest : List (Entry Text)
rest = (text "2-0", fields) ∷ []

calculate_lag_lem_example :
    (calculate_lag metrics (event_stream_key plain) 7 (text "1-0") ≡ ok 1)
    × (read_backfill redis plain Reader.default_config 7 (text "1-0") 5
        ≡ ok (events_of redis plain Reader.default_config rest))
    × (length (events_of redis plain Reader.default_config rest) ≤ 1)
calculate_lag_lem_example =
    calculate_lag_lem redis metrics plain Reader.default_config 7 twice [] rest (text "1-0", fields)
      5 redis-Serves metrics-Counts refl (omega arith) (omega arith)

-- A stream with entries is healthy, even for a consumer that may not lag at all, and when `XINFO` fails.
healthy : is_healthy some metrics (event_stream_key plain) 0 7 0 ≡ ok true
unfolding is_healthy get_stream_info
healthy = refl

-- What `XINFO STREAM` tells.
abbrev info : List Value
info =
    raw (text "length")
    ∷ int (pos 2)
    ∷ raw (text "first-entry")
    ∷ bulk (more (raw (text "1-0")) empty)
    ∷ raw (text "groups")
    ∷ int (pos 3)
    ∷ []

parsed :
    parse_stream_info some info
    ≡ record { first_entry_id = some (text "1-0"); last_entry_id = none; groups = 3 }
unfolding parse_stream_info parse_from with_field text text_eq
parsed = refl

-- Five milliseconds between two entries; "0-0" stands for the end of an empty stream.
estimated : estimate_time_lag (text "1000-0") (text "1005-2") ≡ some (pos 5)
unfolding estimate_time_lag parse_stream_id_timestamp split parse_i64 digits text
estimated = refl
