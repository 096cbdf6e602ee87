-- ===== src/Redis/Metrics.antt =====
-- Statistics of event streams (axontask-shared/src/redis/metrics.rs): length, position and health. The commands `XLEN`,
-- `XRANGE` and `XINFO STREAM` are parameters, as are the test for UTF-8 and the key of a stream.
use axon_task.Prelude.{
  ℕ, ◌*◌, ◌^◌, ◌%◌, ◌-◌, ℤ, Text, text, text_eq, Bool, true, false, Option, none, some, List, [],
  ◌∷◌, length, Result, ok, err, ◌==◌, if◌then◌else◌,
}
use axon_task.Prelude.Results.{◌>>=◌}
use axon_task.Task.{Uuid, DateTime}
use axon_task.Redis.StreamId.{split, parse_i64, saturating_sub, as_u64}

pub data MetricsError : Type 0 where
  redis_error : Text → MetricsError
  redis_command_error : Text → MetricsError
  invalid_stream_id : Text → MetricsError
  calculation_error : Text → MetricsError

-- `redis::Value`, as far as it is looked at.
mutual
  pub data Value : Type 0 where
    raw : Text → Value
    int : ℤ → Value
    bulk : Values → Value
    other : Value

  pub data Values : Type 0 where
    empty : Values
    more : Value → Values → Values

pub record StreamInfo : Type 0 where
  pub length : ℕ
  pub first_entry_id : Option Text
  pub last_entry_id : Option Text
  pub groups : ℕ
  pub collected_at : DateTime

pub record LagInfo : Type 0 where
  pub events_behind : ℕ
  pub consumer_position : Text
  pub latest_position : Text
  pub estimated_time_lag_ms : Option ℤ

pub record MetricsCommands : Type 0 where
  pub xlen : Text → Result Text ℕ
  pub xrange : Text → Text → Text → Result Text (List Value)  -- key, start, end
  pub xinfo_stream : Text → Result Text (List Value)

abbrev pub unwrap_or : {A : Type 0} → A → Result Text A → A
unwrap_or default (ok a) = a
unwrap_or default (err e) = default

-- What the loop of `parse_stream_info` has found.
pub record Found : Type 0 where
  pub first_entry_id : Option Text
  pub last_entry_id : Option Text
  pub groups : ℕ

abbrev pub nothing : Found
nothing = record { first_entry_id = none; last_entry_id = none; groups = 0 }

abbrev pub pair : Option ℤ → Option ℤ → Option (ℤ × ℤ)
pair (some timestamp) (some sequence) = some (timestamp, sequence)
pair _ _ = none

abbrev pub of_parts : List Text → Option (ℤ × ℤ)
of_parts (a ∷ b ∷ []) = pair (parse_i64 a) (parse_i64 b)
of_parts _ = none

-- `-` is byte 45.
unfoldable pub parse_stream_id_timestamp : Text → Option (ℤ × ℤ)
parse_stream_id_timestamp stream_id = of_parts (split 45 stream_id)

abbrev pub between : Option (ℤ × ℤ) → Option (ℤ × ℤ) → Option ℤ
between (some (old_ts, _)) (some (new_ts, _)) = some (saturating_sub new_ts old_ts)
between _ _ = none

unfoldable pub estimate_time_lag : Text → Text → Option ℤ
estimate_time_lag old_id new_id =
    between (parse_stream_id_timestamp old_id) (parse_stream_id_timestamp new_id)

abbrev pub unwrap_text : Text → Option Text → Text
unwrap_text default none = default
unwrap_text default (some t) = t

module _ (redis : MetricsCommands) (event_stream_key : Uuid → Text) where
  -- `count.saturating_sub(consumed.len())`
  unfoldable pub calculate_lag : Uuid → Text → Result MetricsError ℕ
  unfolding text
  calculate_lag task_id consumer_position =
      let count = unwrap_or 0 (redis.xlen (event_stream_key task_id)) in
      let consumed =
        unwrap_or [] (redis.xrange (event_stream_key task_id) (text "-") consumer_position) in
      ok (count - length consumed)

module _ (from_utf8 : Text → Option Text) where
  -- The id of an entry, its first element.
  abbrev pub entry_id : Value → Option Text → Option Text
  entry_id (bulk (more (raw id) fields)) old = from_utf8 id
  entry_id v old = old

  abbrev pub group_count : Value → ℕ → ℕ
  group_count (int g) old = as_u64 g
  group_count v old = old

  unfoldable pub with_field : Text → Value → Found → Found
  unfolding text
  with_field key v f =
      if text_eq key (text "first-entry")
      then record f { first_entry_id = entry_id v f.first_entry_id }
      else if text_eq key (text "last-entry")
      then record f { last_entry_id = entry_id v f.last_entry_id }
      else if text_eq key (text "groups")
      then record f { groups = group_count v f.groups }
      else f

  abbrev pub with_key : Option Text → Value → Found → Found
  with_key none v f = f
  with_key (some key) v f = with_field key v f

  abbrev pub with_pair : Value → Value → Found → Found
  with_pair (raw key) v f = with_key (from_utf8 key) v f
  with_pair k v f = f

  -- Two values in each turn, a key and what belongs to it; a key at the end has none.
  unfoldable pub parse_from : List Value → Found → Found
  parse_from [] f = f
  parse_from (k ∷ []) f = f
  parse_from (k ∷ v ∷ info) f = parse_from info (with_pair k v f)

  unfoldable pub parse_stream_info : List Value → Found
  parse_stream_info info = parse_from info nothing

  module _ (redis : MetricsCommands) (event_stream_key : Uuid → Text) where
    abbrev pub info_or_nothing : Result Text (List Value) → Found
    info_or_nothing (ok info) = parse_stream_info info
    info_or_nothing (err e) = nothing

    unfoldable pub get_stream_info : DateTime → Uuid → Result MetricsError StreamInfo
    get_stream_info now task_id =
        let found = info_or_nothing (redis.xinfo_stream (event_stream_key task_id)) in
        ok (record {
          length = unwrap_or 0 (redis.xlen (event_stream_key task_id));
          first_entry_id = found.first_entry_id;
          last_entry_id = found.last_entry_id;
          groups = found.groups;
          collected_at = now;
        })

    -- `estimated_bytes` is a `u64`.
    unfoldable pub estimate_memory_usage : DateTime → Uuid → Result MetricsError ℕ
    estimate_memory_usage now task_id = do
      info ← get_stream_info now task_id
      ok (info.length * 1024 % 2 ^ 64)

    unfoldable pub is_healthy : DateTime → Uuid → ℕ → Result MetricsError Bool
    is_healthy now task_id max_lag = do
      info ← get_stream_info now task_id
      if info.length == 0 then ok false else ok true

    unfoldable pub get_lag_info : DateTime → Uuid → Text → Result MetricsError LagInfo
    unfolding text
    get_lag_info now task_id consumer_position = do
      info ← get_stream_info now task_id
      let latest_position = unwrap_text (text "0-0") info.last_entry_id
      events_behind ← calculate_lag redis event_stream_key task_id consumer_position
      ok (record {
        events_behind = events_behind;
        consumer_position = consumer_position;
        latest_position = latest_position;
        estimated_time_lag_ms = estimate_time_lag consumer_position latest_position;
      })
