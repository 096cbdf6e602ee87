-- ===== src/Worker/Control.antt =====
-- Control messages and the listener of a running task (axontask-worker/src/control.rs). What happens to the listener
-- is a list of incidents. The JSON printer and parser of messages are parameters; an error is its text.
use axon_task.Prelude.{
  ℤ, Text, text, Bool, true, false, Option, none, some, List, [], ◌∷◌, ◌++◌, if◌then◌else◌, Result,
  ok, err,
}
use axon_task.Task.{Uuid}

pub data ControlCommand : Type 0 where
  cancel : ControlCommand

pub record ControlMessage : Type 0 where
  pub command : ControlCommand
  pub reason : Option Text

abbrev pub cancel_message : Option Text → ControlMessage
cancel_message reason = record { command = cancel; reason = reason }

pub data ControlError : Type 0 where
  redis : Text → ControlError
  parse_error : Text → ControlError

unfoldable pub control_channel : (Uuid → Text) → Uuid → Text
control_channel uuid_to_string task_id = text "ctrl:" ++ uuid_to_string task_id

-- `PUBLISH` on a server of any type `S`, with the number of listeners that it answers, is a parameter.
module _ {S : Type 0} (publish : Text → Text → S → Result Text ℤ × S) where
  abbrev published : Result Text ℤ × S → Result ControlError (Unit {0}) × S
  published (ok listeners, s) = (ok tt, s)
  published (err e, s) = (err (redis e), s)

  unfoldable pub send :
      (ControlMessage → Result Text Text)
      → (Uuid → Text)
      → Uuid
      → ControlMessage
      → S
      → Result ControlError (Unit {0}) × S
  send to_string uuid_to_string task_id message s = elim (to_string message) [
    | ok payload ↦ published (publish (control_channel uuid_to_string task_id) payload s)
    | err e ↦ (err (parse_error e), s)
  ]

-- What the loop waits for: a message (`none` where its payload is no text), the end of the stream, a second that
-- passes; and what happens beside it: someone else cancels the token.
pub data Incident : Type 0 where
  message : Option Text → Incident
  stream_ended : Incident
  second : Incident
  canceled_elsewhere : Incident

-- The token, and whether the loop has stopped.
abbrev pub Listener : Type 0
Listener = Bool × Bool

-- The head of the loop looks at the token; `rest` is the turn that follows.
abbrev pub checked : Bool → Listener → Listener
checked token rest = if token then (true, true) else rest

-- A command cancels the token and ends the loop.
abbrev pub on_command : ControlCommand → Listener
on_command cancel = (true, true)

module _ (from_str : Text → Result Text ControlMessage) where
  -- What a message leads to; `again` is the next turn of the loop.
  abbrev pub on_parsed : Result Text ControlMessage → Listener → Listener
  on_parsed (err e) again = again
  on_parsed (ok m) again = on_command m.command

  abbrev pub on_message : Option Text → Listener → Listener
  on_message none again = again
  on_message (some payload) again = on_parsed (from_str payload) again

  -- A turn that waits for what comes.
  unfoldable pub waiting : Bool → List Incident → Listener
  waiting token [] = (token, false)
  waiting token (message payload ∷ incidents) =
      on_message payload (checked token (waiting token incidents))
  waiting token (stream_ended ∷ incidents) = (token, true)
  waiting token (second ∷ incidents) = checked token (waiting token incidents)
  waiting token (canceled_elsewhere ∷ incidents) = waiting true incidents

  unfoldable pub listen_loop : Bool → List Incident → Listener
  listen_loop token incidents = checked token (waiting token incidents)
