-- ===== src/Worker/Mock.antt =====
-- The mock adapter (axontask-worker/src/adapters/mock.rs). How serde reads a configuration out of the
-- arguments is a parameter.
use axon_task.Prelude.{
  ℕ, suc, ◌+◌, ◌/◌, ◌%◌, pos, Text, text, Bool, true, false, ◌&&◌, Option, none, some, List, [],
  ◌∷◌, ◌++◌, Result, ok, err, leb, ltb, ◌==◌, if◌then◌else◌,
}
use axon_task.Worker.AdapterError.{AdapterError, execution_failed, invalid_arguments}
use axon_task.Worker.AdapterEvent.{
  boolean, number, string, object, no_fields, field, AdapterEvent, started, progress, stdout,
  completed, failed, cancelled,
}
use axon_task.Worker.Adapter.{AdapterContext, Run, ◌>>=◌, ◌>>◌, emit}

pub record MockConfig : Type 0 where
  pub duration_ms : ℕ  -- u64
  pub should_fail : Bool
  pub failure_percent : ℕ  -- u8

abbrev pub default_duration : ℕ
default_duration = 5000

abbrev pub default_failure_percent : ℕ
default_failure_percent = 50

abbrev pub default_config : MockConfig
default_config = record {
  duration_ms = default_duration;
  should_fail = false;
  failure_percent = default_failure_percent;
}

-- The decimal digits of a `u8`.
abbrev digit : ℕ → ℕ
digit n = 48 + n % 10

abbrev pub decimal : ℕ → Text
decimal n =
    if ltb n 10
    then digit n ∷ []
    else if ltb n 100
    then digit (n / 10) ∷ digit n ∷ []
    else digit (n / 100) ∷ digit (n / 10) ∷ digit n ∷ []

abbrev pub unwrap_or_default : Option MockConfig → MockConfig
unwrap_or_default none = default_config
unwrap_or_default (some c) = c

abbrev pub check_config : Option MockConfig → Text → Result AdapterError (Unit {0})
check_config none reason = err (invalid_arguments (text "Invalid mock config: " ++ reason))
check_config (some c) reason =
    if c.duration_ms == 0
    then err (invalid_arguments (text "duration_ms must be > 0"))
    else if ltb 3600000 c.duration_ms
    then err (invalid_arguments (text "duration_ms must be <= 3600000 (1 hour)"))
    else if ltb 100 c.failure_percent
    then err (invalid_arguments (text "failure_percent must be 0-100"))
    else ok tt

pub record Checkpoint : Type 0 where
  pub percent : ℕ
  pub progress_msg : Text
  pub stdout_msg : Text

abbrev pub checkpoints : List Checkpoint
checkpoints =
    record {
      percent = 25;
      progress_msg = text "Initializing...";
      stdout_msg = text "Mock task starting...";
    }
    ∷ record {
      percent = 50;
      progress_msg = text "Processing...";
      stdout_msg = text "Processing data...";
    }
    ∷ record {
      percent = 75;
      progress_msg = text "Finalizing...";
      stdout_msg = text "Task complete!";
    }
    ∷ record { percent = 100; progress_msg = text "Done"; stdout_msg = [] }
    ∷ []

abbrev pub is_empty : {A : Type 0} → List A → Bool
is_empty [] = true
is_empty (x ∷ xs) = false

abbrev pub sleep : ℕ → Run (Unit {0})
sleep ms s = (ok tt, record s { slept = s.slept + ms })

abbrev pub done : Run (Unit {0})
done s = (ok tt, s)

abbrev pub fails : {A : Type 0} → AdapterError → Run A
fails e s = (err e, s)

-- `serde_json::from_value` with the message of its error.
module _ {J : Type 0} (from_value : J → Option MockConfig) (reason : J → Text) where
  unfoldable pub validate_args : J → Result AdapterError (Unit {0})
  validate_args args = check_config (from_value args) (reason args)

  abbrev pub failure : ℕ → Text
  failure percent = text "Simulated failure at " ++ (decimal percent ++ text "%")

  abbrev pub say : AdapterContext J → Text → Run (Unit {0})
  say c m = if is_empty m then done else emit c (stdout m)

  abbrev pub pause : MockConfig → Bool → Run (Unit {0})
  pause config last = if last then done else sleep (config.duration_ms / 4)

  -- What is done at a checkpoint, which is the last one or not.
  abbrev pub work : AdapterContext J → MockConfig → Checkpoint → Bool → Run (Unit {0})
  work c config p last = do
    emit c (progress p.percent (some p.progress_msg))
    say c p.stdout_msg
    pause config last

  -- The loop, from the checkpoint of a number; `true` if it ran through all of them.
  unfoldable pub steps : AdapterContext J → MockConfig → ℕ → List Checkpoint → Run Bool
  steps c config i [] = λ s. (ok true, s)
  steps c config i (p ∷ ps) =
      let rest = steps c config (suc i) ps in
      if c.cancelled_at i
      then (do emit c cancelled; λ s. (ok false, s))
      else if config.should_fail && leb config.failure_percent p.percent
      then (do emit c (failed (failure p.percent)); fails (execution_failed (failure p.percent)))
      else (do work c config p (is_empty ps); rest)

  abbrev pub closing : MockConfig → AdapterEvent
  closing config = completed (
      object (
        field (text "exit_code") (number (pos 0))
          (field (text "duration_ms") (number (pos config.duration_ms)) no_fields)))

  abbrev pub finish : AdapterContext J → MockConfig → Bool → Run (Unit {0})
  finish c config false = done
  finish c config true = emit c (closing config)

  abbrev pub opening : MockConfig → AdapterEvent
  opening config = started (
      object (
        field (text "adapter") (string (text "mock")) (
          field (text "duration_ms") (number (pos config.duration_ms))
            (field (text "should_fail") (boolean config.should_fail) no_fields))))

  abbrev pub run : AdapterContext J → MockConfig → Run (Unit {0})
  run c config = do
    emit c (opening config)
    through ← steps c config 0 checkpoints
    finish c config through

  unfoldable pub execute : AdapterContext J → Run (Unit {0})
  execute c = run c (unwrap_or_default (from_value c.args))
