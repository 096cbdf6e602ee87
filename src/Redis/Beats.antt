-- ===== src/Redis/Beats.antt =====
-- How long a task counts as alive after a heartbeat (axontask-shared/src/redis/heartbeat.rs).
use axon_task.Prelude.{
  ℕ, ◌+◌, ◌-◌, ◌<◌, ◌≡◌, refl, sym, ap, ◌∙◌, inl, inr, ltb, lt→ltb, ℤ, pos, negsuc, Text, Bool,
  true, false, Option, none, some, if◌then◌else◌, Bool-cases, Result, ok, err, arith,
}
use axon_task.Prelude.Results.{bind_was_ok}
use axon_task.Task.{Uuid, DateTime}
use axon_task.Redis.Heartbeat.{
  HeartbeatError, HeartbeatConfig, KeyCommands, HeartbeatFormats, command, with_server, new,
  with_metadata, store, to_json, send_heartbeat, send_heartbeat_with_metadata, is_alive,
  seconds_left, get_ttl,
}

-- A value with the seconds it has left, after more seconds.
abbrev pub after : ℕ → Option (Text × ℕ) → Option (Text × ℕ)
after n none = none
after n (some (value, left)) = if ltb n left then some (value, left - n) else none

abbrev pub is_some : {A : Type 0} → Option A → Bool
is_some none = false
is_some (some a) = true

abbrev pub ttl_of : Option (Text × ℕ) → ℤ
ttl_of none = negsuc 1
ttl_of (some (value, left)) = pos left

-- The documented behaviour of the commands: `held` is the value of a key with the seconds it has left, and `pass`
-- lets time go by.
pub record Expires {S : Type 0} (keys : KeyCommands S) (held : S → Text → Option (Text × ℕ))
    (pass : ℕ → S → S) : Type 0 where
  pub is_set :
      (key value : Text) (ttl : ℕ) (s s' : S)
      → keys.set_ex key value ttl s ≡ (ok tt, s')
      → (0 < ttl) × (held s' key ≡ some (value, ttl))
  pub passes : (n : ℕ) (s : S) (key : Text) → held (pass n s) key ≡ after n (held s key)
  pub exists_is :
      (key : Text) (s : S) (b : Bool) → keys.exists key s ≡ ok b → b ≡ is_some (held s key)
  pub ttl_is : (key : Text) (s : S) (z : ℤ) → keys.ttl key s ≡ ok z → z ≡ ttl_of (held s key)

after-after : (n m : ℕ) (held : Option (Text × ℕ)) → after m (after n held) ≡ after (n + m) held
after-after n m none = refl
after-after n m (some (value, left)) = ground arith

is_some-after : (n : ℕ) (v : Text) (ttl : ℕ) → is_some (after n (some (v, ttl))) ≡ ltb n ttl
is_some-after n v ttl = ground arith

left-after :
    (n : ℕ) (v : Text) (ttl : ℕ)
    → seconds_left (ttl_of (after n (some (v, ttl))))
      ≡ (if ltb n ttl then some (pos (ttl - n)) else none)
left-after n v ttl = elim (Bool-cases (ltb n ttl)) [ inl e ↦ rw e refl | inr e ↦ rw e refl ]

was_command : {A : Type 0} (r : Result Text A) (a : A) → command r ≡ ok a → r ≡ ok a
was_command (ok x) a h = cc
was_command (err e) a h = cc

ok_eq : {E A : Type 0} {a b : A} → ◌≡◌ {A = Result E A} (ok a) (ok b) → a ≡ b
ok_eq h = cc

was_with_server :
    {S : Type 0} (p : Result Text (Unit {0}) × S) (s : S)
    → with_server p ≡ (ok tt, s)
    → p ≡ (ok tt, s)
was_with_server (ok u, s) s' h = ap (λ q. (ok tt, q)) (ap (λ p. p.1) h)
was_with_server (err e, s) s' h = absurd cc

module _ {S J : Type 0} (keys : KeyCommands S) (formats : HeartbeatFormats J)
    (config : HeartbeatConfig) (pass : ℕ → S → S) (task_id : Uuid) where
  -- So many seconds ago a heartbeat of the task was sent, and none since.
  pub data Since : ℕ → S → Type 0 where
    sent :
        {s' : S} (s : S) (now : DateTime) (worker_id : Text)
        → send_heartbeat keys formats config now task_id worker_id s ≡ (ok tt, s')
        → Since 0 s'
    sent_with_metadata :
        {s' : S} (s : S) (now : DateTime) (worker_id : Text) (metadata : J)
        → send_heartbeat_with_metadata keys formats config now task_id worker_id metadata s
          ≡ (ok tt, s')
        → Since 0 s'
    later : {n : ℕ} {s : S} → (m : ℕ) → Since n s → Since (n + m) (pass m s)

  module _ (held : S → Text → Option (Text × ℕ)) (expires : Expires keys held pass) where
    abbrev key : Text
    key = formats.heartbeat_key task_id

    stored :
        (value : Result HeartbeatError Text) (s s' : S)
        → store keys formats config task_id value s ≡ (ok tt, s')
        → (v : Text) × (held s' key ≡ after 0 (some (v, config.ttl_seconds)))
    stored (err e) s s' h = absurd cc
    stored (ok v) s s' h =
        let (positive, q) = expires.is_set key v config.ttl_seconds s s' (was_with_server _ s' h) in
        (
          v,
          q ∙ sym (rw (lt→ltb 0 config.ttl_seconds positive) (ap (λ n. some (v, n)) (omega arith))),
        )

    since-held :
        (n : ℕ) (s : S)
        → Since n s
        → (v : Text) × (held s key ≡ after n (some (v, config.ttl_seconds)))
    unfolding send_heartbeat send_heartbeat_with_metadata
    since-held n s (sent before now worker_id h) =
        stored (to_json keys formats config (new now worker_id)) before s h
    since-held n s (sent_with_metadata before now worker_id metadata h) =
        stored (to_json keys formats config (with_metadata now worker_id metadata)) before s h
    since-held n s (later m h) =
        let (v, q) = since-held _ _ h in
        (
          v,
          expires.passes m _ key ∙ ap (after m) q ∙ after-after _ m (some (v, config.ttl_seconds)),
        )

    -- Let the keys of the server expire as documented. For `ttl_seconds` after a heartbeat, and no longer, `is_alive`
    -- says that the task is alive, and `get_ttl` gives the seconds that are left, or `None` afterwards.
    pub since_lem :
        (n : ℕ) (s : S)
        → Since n s
        → ((b : Bool)
            → is_alive keys formats config task_id s ≡ ok b
            → b ≡ ltb n config.ttl_seconds)
          × ((left : Option ℤ)
              → get_ttl keys formats config task_id s ≡ ok left
              → left
                ≡ (if ltb n config.ttl_seconds then some (pos (config.ttl_seconds - n)) else none))
    unfolding is_alive get_ttl
    since_lem n s h =
        let (v, q) = since-held n s h in
        (
          (λ b a.
              expires.exists_is key s b (was_command _ b a)
              ∙ ap is_some q
              ∙ is_some-after n v config.ttl_seconds),
          (λ left a.
              let (z, found, e) = bind_was_ok (command (keys.ttl key s)) _ left a in
              ok_eq (sym e)
              ∙ ap seconds_left (expires.ttl_is key s z (was_command _ z found) ∙ ap ttl_of q)
              ∙ left-after n v config.ttl_seconds),
        )
