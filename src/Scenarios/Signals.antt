-- ===== src/Scenarios/Signals.antt =====
-- A cancellation that reaches a listener, and a heartbeat half a minute ago (axontask-worker/src/control.rs and
-- axontask-shared/src/redis/heartbeat.rs).
use axon_task.Prelude.{
  ℕ, ◌<◌, ◌≡◌, inl, inr, Bool-cases, ltb→lt, refl, sym, ap, ltb, ◌||◌, any, ℤ, pos, Text, text,
  Bool, true, false, Option, none, some, List, [], ◌∷◌, ◌++◌, if◌then◌else◌, Result, ok, err,
}
use axon_task.Prelude.Results.{ok_injective, err_not_ok}
use axon_task.Worker.Control.{
  ControlMessage, cancel_message, Incident, message, stream_ended, second, listen_loop,
}
use axon_task.Worker.Listening.{listen_loop_lem, cancels, before_end, is_end}
use axon_task.Redis.Heartbeat.{
  KeyCommands, HeartbeatFormats, default_config, new, send_heartbeat, is_alive, get_ttl,
}
use axon_task.Redis.Beats.{Expires, sent, later, after, is_some, ttl_of, since_lem}

-- An empty text is a cancellation; others cannot be parsed.
abbrev from_str : Text → Result Text ControlMessage
from_str [] = ok (cancel_message none)
from_str (c ∷ cs) = err (text "expected value")

abbrev incidents : List Incident
incidents = second ∷ message (some (text "?")) ∷ message (some []) ∷ stream_ended ∷ []

listen_loop_lem_example :
    ((listen_loop from_str false incidents).0 ≡ any (cancels from_str) (before_end incidents))
    × ((listen_loop from_str false (incidents ++ (second ∷ []))).1
        ≡ (listen_loop from_str false incidents).0 || any is_end incidents)
listen_loop_lem_example = listen_loop_lem from_str false incidents

-- A server that holds one key, whatever its name.
abbrev Server : Type 0
Server = Option (Text × ℕ)

abbrev set_value : Text → Text → ℕ → Server → Result Text (Unit {0}) × Server
set_value key value ttl s =
    if ltb 0 ttl then (ok tt, some (value, ttl)) else (err (text "invalid expire time"), s)

abbrev values : Server → Option Text
values none = none
values (some (value, left)) = some value

abbrev keys : KeyCommands Server
keys = record {
  set_ex = set_value;
  exists = λ key s. ok (is_some s);
  get = λ key s. ok (values s);
  ttl = λ key s. ok (ttl_of s);
  del = λ key s. (ok 1, none);
}

abbrev formats : HeartbeatFormats ℕ
formats = record {
  to_string = λ d. ok d.worker_id;
  from_str = λ s. ok (new 0 s);
  heartbeat_key = λ u. u ∷ [];
}

is_set :
    (key value : Text) (ttl : ℕ) (s s' : Server)
    → set_value key value ttl s ≡ (ok tt, s')
    → (0 < ttl) × (s' ≡ some (value, ttl))
is_set key value ttl s s' h = elim (Bool-cases (ltb 0 ttl)) [
  | inl e ↦ (ltb→lt 0 ttl e, sym (ap (λ p. p.1) (rw e at h)))
  | inr e ↦ absurd (err_not_ok (ap (λ p. p.0) (rw e at h)))
]

keys-Expires : Expires keys (λ s key. s) after
keys-Expires = record {
  is_set = is_set;
  passes = λ n s key. refl;
  exists_is = λ key s b h. sym (ok_injective h);
  ttl_is = λ key s z h. sym (ok_injective h);
}

abbrev beaten : Server
beaten = some (text "worker-1", 60)

beat_sent : send_heartbeat keys formats default_config 0 7 (text "worker-1") none ≡ (ok tt, beaten)
unfolding send_heartbeat
beat_sent = refl

since_lem_example :
    ((b : Bool) → is_alive keys formats default_config 7 (after 30 beaten) ≡ ok b → b ≡ true)
    × ((left : Option ℤ)
        → get_ttl keys formats default_config 7 (after 30 beaten) ≡ ok left
        → left ≡ some (pos 30))
since_lem_example =
    since_lem keys formats default_config after 7 (λ s key. s) keys-Expires 30 (after 30 beaten)
      (later 30 (sent none 0 (text "worker-1") beat_sent))
