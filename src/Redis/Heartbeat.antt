-- ===== src/Redis/Heartbeat.antt =====
-- Heartbeats of workers (axontask-shared/src/redis/heartbeat.rs). The key commands of the server are parameters on a
-- server of any type `S`; so are the JSON printer and parser. An error of a crate is its message.
use axon_task.Prelude.{
  ℕ, zero, suc, ltb, ℤ, negsuc, Text, Bool, Option, none, some, Result, ok, err,
}
use axon_task.Prelude.Results.{◌>>=◌}
use axon_task.Task.{Uuid, DateTime}

pub data HeartbeatError : Type 0 where
  redis_error : Text → HeartbeatError
  redis_command_error : Text → HeartbeatError
  json_error : Text → HeartbeatError
  invalid_data : Text → HeartbeatError

pub record HeartbeatData (J : Type 0) : Type 0 where
  pub worker_id : Text
  pub timestamp : DateTime
  pub metadata : Option J

pub record HeartbeatConfig : Type 0 where
  pub ttl_seconds : ℕ
  pub interval_seconds : ℕ

abbrev pub default_config : HeartbeatConfig
default_config = record { ttl_seconds = 60; interval_seconds = 30 }

-- `SETEX`, `EXISTS`, `GET`, `TTL` and `DEL`.
pub record KeyCommands (S : Type 0) : Type 0 where
  pub set_ex : Text → Text → ℕ → S → Result Text (Unit {0}) × S
  pub exists : Text → S → Result Text Bool
  pub get : Text → S → Result Text (Option Text)
  pub ttl : Text → S → Result Text ℤ
  pub del : Text → S → Result Text ℕ × S

pub record HeartbeatFormats (J : Type 0) : Type 0 where
  pub to_string : HeartbeatData J → Result Text Text
  pub from_str : Text → Result Text (HeartbeatData J)
  pub heartbeat_key : Uuid → Text

-- `.await?` on a command.
abbrev pub command : {A : Type 0} → Result Text A → Result HeartbeatError A
command (ok a) = ok a
command (err e) = err (redis_command_error e)

abbrev pub with_server : {A S : Type 0} → Result Text A × S → Result HeartbeatError A × S
with_server (r, s) = (command r, s)

module _ {J : Type 0} where
  abbrev pub new : DateTime → Text → HeartbeatData J
  new now worker_id = record { worker_id = worker_id; timestamp = now; metadata = none }

  abbrev pub with_metadata : DateTime → Text → J → HeartbeatData J
  with_metadata now worker_id metadata = record {
    worker_id = worker_id;
    timestamp = now;
    metadata = some metadata;
  }

-- -2 says that there is no such key, -1 that it never expires.
abbrev pub seconds_left : ℤ → Option ℤ
seconds_left (negsuc (suc zero)) = none
seconds_left (negsuc zero) = none
seconds_left seconds = some seconds

module _ {S J : Type 0} (keys : KeyCommands S) (formats : HeartbeatFormats J)
    (config : HeartbeatConfig) where
  abbrev pub to_json : HeartbeatData J → Result HeartbeatError Text
  to_json d = elim (formats.to_string d) [ ok s ↦ ok s | err e ↦ err (json_error e) ]

  abbrev pub from_json : Text → Result HeartbeatError (HeartbeatData J)
  from_json json = elim (formats.from_str json) [ ok d ↦ ok d | err e ↦ err (invalid_data e) ]

  -- `SETEX` on the key of the task, once the value is printed.
  abbrev pub store : Uuid → Result HeartbeatError Text → S → Result HeartbeatError (Unit {0}) × S
  store task_id (ok value) s =
      with_server (keys.set_ex (formats.heartbeat_key task_id) value config.ttl_seconds s)
  store task_id (err e) s = (err e, s)

  unfoldable pub send_heartbeat : DateTime → Uuid → Text → S → Result HeartbeatError (Unit {0}) × S
  send_heartbeat now task_id worker_id s = store task_id (to_json (new now worker_id)) s

  unfoldable pub send_heartbeat_with_metadata :
      DateTime → Uuid → Text → J → S → Result HeartbeatError (Unit {0}) × S
  send_heartbeat_with_metadata now task_id worker_id metadata s =
      store task_id (to_json (with_metadata now worker_id metadata)) s

  unfoldable pub is_alive : Uuid → S → Result HeartbeatError Bool
  is_alive task_id s = command (keys.exists (formats.heartbeat_key task_id) s)

  abbrev pub parsed : Option Text → Result HeartbeatError (Option (HeartbeatData J))
  parsed none = ok none
  parsed (some json) = do found ← from_json json; ok (some found)

  unfoldable pub get_heartbeat : Uuid → S → Result HeartbeatError (Option (HeartbeatData J))
  get_heartbeat task_id s = do
    value ← command (keys.get (formats.heartbeat_key task_id) s)
    parsed value

  unfoldable pub get_ttl : Uuid → S → Result HeartbeatError (Option ℤ)
  get_ttl task_id s = do
    seconds ← command (keys.ttl (formats.heartbeat_key task_id) s)
    ok (seconds_left seconds)

  abbrev pub was_deleted : Result HeartbeatError ℕ × S → Result HeartbeatError Bool × S
  was_deleted (ok deleted, s) = (ok (ltb 0 deleted), s)
  was_deleted (err e, s) = (err e, s)

  unfoldable pub remove_heartbeat : Uuid → S → Result HeartbeatError Bool × S
  remove_heartbeat task_id s =
      was_deleted (with_server (keys.del (formats.heartbeat_key task_id) s))
