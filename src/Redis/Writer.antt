-- ===== src/Redis/Writer.antt =====
-- The writer of event streams (axontask-shared/src/redis/stream_writer.rs). The server is a state of any type
-- `S`, and `xadd` what `XADD` answers and leaves; an error of the redis crate is its message. An async method
-- is a function of the connection: the server, and how long the method has slept.
use axon_task.Prelude.{
  ℕ, zero, suc, ◌+◌, ◌-◌, ◌*◌, ◌%◌, ◌^◌, min, Text, text, Bool, Option, none, some, List, [], ◌∷◌,
  ◌++◌, leb, ◌==◌, all, if◌then◌else◌, Result, ok, err,
}
use axon_task.Task.{Uuid}
use axon_task.Event.{TaskEvent}
use axon_task.Redis.Serialization.{
  SerializationError, Fields, Formats, insert, serialize_event, event_stream_key,
  control_stream_key,
}

pub data StreamWriterError : Type 0 where
  redis_error : Text → StreamWriterError
  serialization_error : SerializationError → StreamWriterError
  write_failed : ℕ → Text → StreamWriterError  -- attempts, last_error
  redis_command_error : Text → StreamWriterError

pub record StreamWriterConfig : Type 0 where
  pub max_retries : ℕ  -- u32
  pub base_retry_delay_ms : ℕ  -- u64
  pub max_retry_delay_ms : ℕ  -- u64

abbrev pub default_config : StreamWriterConfig
default_config = record { max_retries = 3; base_retry_delay_ms = 100; max_retry_delay_ms = 5000 }

pub record Connection (S : Type 0) : Type 0 where
  pub server : S
  pub slept : List ℕ  -- in milliseconds, in order

-- A method returns, fails, or has not ended (`diverged`).
pub data Outcome (E A : Type 0) : Type 0 where
  returned : A → Outcome E A
  failed : E → Outcome E A
  diverged : Outcome E A

abbrev pub Action : Type 0 → Type 0 → Type 0 → Type 0
Action S E A = Connection S → Outcome E A × Connection S

module _ {S E : Type 0} where
  abbrev pub on_outcome :
      {A B : Type 0} → (A → Action S E B) → Outcome E A × Connection S → Outcome E B × Connection S
  on_outcome f (returned a, c) = f a c
  on_outcome f (failed e, c) = (failed e, c)
  on_outcome f (diverged, c) = (diverged, c)

  infixl 5 ◌>>=◌
  abbrev pub ◌>>=◌ : {A B : Type 0} → Action S E A → (A → Action S E B) → Action S E B
  ◌>>=◌ m f c = on_outcome f (m c)

  abbrev pub pure : {A : Type 0} → A → Action S E A
  pure a c = (returned a, c)

  abbrev pub raise : {A : Type 0} → E → Action S E A
  raise e c = (failed e, c)

  abbrev pub lift : {F A : Type 0} → (F → E) → Result F A → Action S E A
  lift wrap (ok a) = pure a
  lift wrap (err e) = raise (wrap e)

  abbrev pub wrapped :
      {F A : Type 0} → (F → E) → Outcome F A × Connection S → Outcome E A × Connection S
  wrapped wrap (returned a, c) = (returned a, c)
  wrapped wrap (failed e, c) = (failed (wrap e), c)
  wrapped wrap (diverged, c) = (diverged, c)

  abbrev pub map_err : {F A : Type 0} → (F → E) → Action S F A → Action S E A
  map_err wrap m c = wrapped wrap (m c)

-- `Err(last_error.unwrap())`, which no error set before would make panic.
abbrev pub last_or_panic : {A : Type 0} → Option Text → Outcome Text A
last_or_panic none = diverged
last_or_panic (some e) = failed e

module _ {S : Type 0} (xadd : Text → Fields → S → Result Text Text × S)
    (config : StreamWriterConfig) where
  unfoldable pub retry_delay : ℕ → ℕ
  retry_delay attempt =
      min (config.base_retry_delay_ms * (2 ^ (attempt - 1) % 2 ^ 64) % 2 ^ 64)
        config.max_retry_delay_ms

  -- The loop, on fuel: `attempt` counts the failures, on `u32`.
  abbrev pub sleep_between : ℕ → List ℕ → List ℕ
  sleep_between attempt slept =
      if leb attempt config.max_retries then slept ++ (retry_delay attempt ∷ []) else slept

  -- What follows the answer of `XADD`; `again` is the next turn of the loop.
  abbrev pub on_answer :
      (ℕ → Option Text → Action S Text Text)
      → ℕ
      → Connection S
      → Result Text Text × S
      → Outcome Text Text × Connection S
  on_answer again attempt c (ok stream_id, server) =
      (returned stream_id, record c { server = server })
  on_answer again attempt c (err e, server) =
      let next = (attempt + 1) % 2 ^ 32 in
      again next (some e) (record { server = server; slept = sleep_between next c.slept })

  unfoldable pub retry_loop : ℕ → ℕ → Option Text → Text → Fields → Action S Text Text
  retry_loop zero attempt last_error key fields c = (diverged, c)
  retry_loop (suc fuel) attempt last_error key fields c =
      if leb attempt config.max_retries
      then on_answer (λ next error. retry_loop fuel next error key fields) attempt c
          (xadd key fields c.server)
      else (last_or_panic last_error, c)

  unfoldable pub xadd_with_retry : Text → Fields → Action S Text Text
  xadd_with_retry = retry_loop (config.max_retries + 2) 0 none

  abbrev pub gave_up : Text → StreamWriterError
  gave_up last_error = write_failed ((config.max_retries + 1) % 2 ^ 32) last_error

  module _ {J : Type 0} (formats : Formats J) where
    unfoldable pub publish_event : TaskEvent J → Action S StreamWriterError Text
    publish_event event = do
      fields ← lift serialization_error (serialize_event formats event)
      map_err gave_up (xadd_with_retry (event_stream_key formats event.task_id) fields)

    unfoldable pub publish_all : List (TaskEvent J) → Action S StreamWriterError (List Text)
    publish_all [] = pure []
    publish_all (event ∷ events) = do
      stream_id ← publish_event event
      stream_ids ← publish_all events
      pure (stream_id ∷ stream_ids)

    abbrev pub of_task : Uuid → TaskEvent J → Bool
    of_task id event = event.task_id == id

    unfoldable pub publish_batch : List (TaskEvent J) → Action S StreamWriterError (List Text)
    unfolding text
    publish_batch [] = pure []
    publish_batch (event ∷ events) =
        let task_id = event.task_id in
        if all (of_task task_id) (event ∷ events)
        then publish_all (event ∷ events)
        else raise (write_failed 1 (text "All events in batch must have the same task_id"))

    abbrev pub with_data : Option Text → Fields → Fields
    with_data none fields = fields
    with_data (some d) fields = insert (text "data") d fields

    unfoldable pub publish_control_message :
        Uuid → Text → Option Text → Action S StreamWriterError Text
    publish_control_message task_id command data_text =
        let fields = with_data data_text (insert (text "command") command []) in
        map_err gave_up (xadd_with_retry (control_stream_key formats task_id) fields)
