-- ===== src/Worker/AdapterEvent.antt =====
-- Adapters' events (axontask-worker/src/adapters/adapter_trait.rs). A JSON value has the shape of
-- `serde_json::Value`, less arrays, which no adapter writes into an event.
use axon_task.Prelude.{ℕ, ℤ, pos, Text, text, Bool, Option, none, some}
use axon_task.Worker.AdapterEventKind.{AdapterEventKind}

mutual
  pub data Json : Type 0 where
    null : Json
    boolean : Bool → Json
    number : ℤ → Json
    string : Text → Json
    object : Fields → Json

  pub data Fields : Type 0 where
    no_fields : Fields
    field : Text → Json → Fields → Fields

pub record AdapterEvent : Type 0 where
  pub kind : AdapterEventKind
  pub payload : Json

abbrev pub string_or_null : Option Text → Json
string_or_null none = null
string_or_null (some m) = string m

abbrev pub one_field : Text → Text → Json
one_field name value = object (field name (string value) no_fields)

abbrev pub started : Json → AdapterEvent
started metadata = record { kind = AdapterEventKind.started; payload = metadata }

abbrev pub progress : ℕ → Option Text → AdapterEvent
progress percent message = record {
  kind = AdapterEventKind.progress;
  payload = object (
      field (text "percent") (number (pos percent))
        (field (text "message") (string_or_null message) no_fields));
}

abbrev pub stdout : Text → AdapterEvent
stdout line = record { kind = AdapterEventKind.stdout; payload = one_field (text "data") line }

abbrev pub stderr : Text → AdapterEvent
stderr line = record { kind = AdapterEventKind.stderr; payload = one_field (text "data") line }

abbrev pub completed : Json → AdapterEvent
completed metadata = record { kind = AdapterEventKind.completed; payload = metadata }

abbrev pub failed : Text → AdapterEvent
failed error = record { kind = AdapterEventKind.failed; payload = one_field (text "error") error }

abbrev pub cancelled : AdapterEvent
cancelled = record { kind = AdapterEventKind.cancelled; payload = object no_fields }

abbrev pub timeout : AdapterEvent
timeout = record { kind = AdapterEventKind.timeout; payload = object no_fields }
