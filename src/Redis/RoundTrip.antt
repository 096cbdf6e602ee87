-- ===== src/Redis/RoundTrip.antt =====
-- Events through the fields of a stream entry and back (axontask-shared/src/events/serialization.rs).
use axon_task.Prelude.{
  ◌≡◌, ◌≢◌, refl, ap, Text, text, text_eq, Option, none, some, [], ◌∷◌, Result, ok, err,
}
use mathlib.Core.Path.{subst}
use axon_task.Prelude.Results.{◌>>=◌}
use axon_task.Task.{Uuid, DateTime}
use axon_task.Event.{TaskEvent, Bytes}
use axon_task.Redis.Decimals.{IsI64, parse_i64-i64_to_string}
use axon_task.Redis.Serialization.{
  Fields, Formats, insert, get, serialize_event, deserialize_event, encode_or_empty, decode_or_none,
  i64_to_string, or_wrap, json_error,
}

-- What the crates promise of their printers and parsers, and the ends of what may be printed: no hash is
-- empty, and `seq` is an `i64`.
pub record IsFaithful {J : Type 0} (formats : Formats J) : Type 0 where
  pub uuid : (u : Uuid) → formats.parse_str (formats.uuid_to_string u) ≡ ok u
  pub time : (t : DateTime) → formats.parse_from_rfc3339 (formats.to_rfc3339 t) ≡ ok t
  pub json : (j : J) (s : Text) → formats.json_to_string j ≡ ok s → formats.json_from_str s ≡ ok j
  pub hex : (b : Bytes) → formats.decode (formats.encode b) ≡ ok b
  pub hex_nonempty : (b : Bytes) → b ≢ [] → formats.encode b ≢ []

module _ {J : Type 0} (formats : Formats J) (faithful : IsFaithful formats) where
  decode_nonempty :
      (s : Text) (b : Bytes)
      → s ≢ []
      → formats.decode s ≡ ok b
      → decode_or_none formats s ≡ ok (some b)
  decode_nonempty [] b n h = absurd (n refl)
  decode_nonempty (c ∷ cs) b n h = rw h refl

  decode-encode :
      (prev : Option Bytes)
      → prev ≢ some []
      → decode_or_none formats (encode_or_empty formats prev) ≡ ok prev
  decode-encode none h = refl
  decode-encode (some b) h =
      decode_nonempty (formats.encode b) b (faithful.hex_nonempty b (λ e. h (ap some e)))
        (faithful.hex b)

  abbrev fields_of : TaskEvent J → Text → Fields
  fields_of event payload =
      (text "task_id", formats.uuid_to_string event.task_id)
      ∷ (text "seq", i64_to_string event.seq)
      ∷ (text "ts", formats.to_rfc3339 event.ts)
      ∷ (text "kind", event.kind)
      ∷ (text "payload", payload)
      ∷ (text "hash_prev", encode_or_empty formats event.hash_prev)
      ∷ (text "hash_curr", formats.encode event.hash_curr)
      ∷ []

  -- What is serialized are these fields, with the payload printed.
  serialize-ok :
      (event : TaskEvent J) (fields : Fields)
      → serialize_event formats event ≡ ok fields
      → (s : Text) × (formats.json_to_string event.payload ≡ ok s) × (fields_of event s ≡ fields)
  unfolding serialize_event insert text text_eq
  serialize-ok event fields h = printed (formats.json_to_string event.payload) refl h
    where
      printed :
          (r : Result Text Text)
          → formats.json_to_string event.payload ≡ r
          → (or_wrap json_error r >>= λ s. ok (fields_of event s)) ≡ ok fields
          → (s : Text) × (formats.json_to_string event.payload ≡ ok s)
            × (fields_of event s ≡ fields)
      printed (ok s) e h = (s, e, cc)
      printed (err m) e h = cc

  deserialize-fields :
      (event : TaskEvent J) (s : Text)
      → IsI64 event.seq
      → event.hash_prev ≢ some []
      → formats.json_to_string event.payload ≡ ok s
      → deserialize_event formats (fields_of event s) ≡ ok event
  unfolding deserialize_event get text text_eq
  deserialize-fields event s i p h =
      rw
        (
          faithful.uuid event.task_id,
          parse_i64-i64_to_string event.seq i,
          faithful.time event.ts,
          faithful.json event.payload s h,
          decode-encode event.hash_prev p,
          faithful.hex event.hash_curr,
        )
        refl

  -- Let the printers and parsers of the crates be faithful. An event whose `seq` is an `i64` and whose `hash_prev` is
  -- absent or not empty is read back from the fields that `serialize_event` makes of it just as it was.
  pub deserialize-serialize :
      (event : TaskEvent J) (fields : Fields)
      → IsI64 event.seq
      → event.hash_prev ≢ some []
      → serialize_event formats event ≡ ok fields
      → deserialize_event formats fields ≡ ok event
  deserialize-serialize event fields i p h =
      let (s, e, q) = serialize-ok event fields h in
      subst (λ d. deserialize_event formats d ≡ ok event) q (deserialize-fields event s i p e)
