-- ===== src/Redis/Serialization.antt =====
-- Events as the fields of a stream entry (axontask-shared/src/events/serialization.rs). The printers and parsers of
-- the crates uuid, chrono, serde_json and hex are a record of parameters, an error of theirs is its message.
use axon_task.Prelude.{
  ℕ, zero, suc, ◌+◌, ◌/◌, ◌%◌, ℤ, pos, negsuc, Text, text, text_eq, Option, none, some, List, [],
  ◌∷◌, ◌++◌, ltb, if◌then◌else◌, Result, ok, err,
}
use axon_task.Prelude.Results.{◌>>=◌, ok_or}
use axon_task.Task.{Uuid, DateTime}
use axon_task.Event.{TaskEvent, Bytes}
use axon_task.Redis.StreamId.{parse_i64}

pub data SerializationError : Type 0 where
  missing_field : Text → SerializationError
  invalid_value : Text → SerializationError  -- the field; the message is left out
  json_error : Text → SerializationError
  uuid_error : Text → SerializationError
  timestamp_error : Text → SerializationError
  hex_error : Text → SerializationError

-- A `HashMap<String, String>` in order of insertion.
abbrev pub Fields : Type 0
Fields = List (Text × Text)

unfoldable pub insert : Text → Text → Fields → Fields
insert k v [] = (k, v) ∷ []
insert k v ((j, w) ∷ d) =
    let rest = insert k v d in if text_eq k j then (k, v) ∷ d else (j, w) ∷ rest

unfoldable pub get : Text → Fields → Option Text
get k [] = none
get k ((j, w) ∷ d) = let rest = get k d in if text_eq k j then some w else rest

-- `i64::to_string`: a `u64` has at most twenty digits.
unfoldable pub decimal : ℕ → ℕ → Text
decimal zero n = []
decimal (suc k) n =
    let rest = decimal k (n / 10) in
    if ltb n 10 then (48 + n) ∷ [] else rest ++ ((48 + n % 10) ∷ [])

unfoldable pub i64_to_string : ℤ → Text
i64_to_string (pos n) = decimal 20 n
i64_to_string (negsuc n) = 45 ∷ decimal 20 (n + 1)

pub record Formats (J : Type 0) : Type 0 where
  pub uuid_to_string : Uuid → Text
  pub parse_str : Text → Result Text Uuid
  pub to_rfc3339 : DateTime → Text
  pub parse_from_rfc3339 : Text → Result Text DateTime
  pub json_to_string : J → Result Text Text
  pub json_from_str : Text → Result Text J
  pub encode : Bytes → Text
  pub decode : Text → Result Text Bytes

-- `map_err(wrap)?`
abbrev pub or_wrap :
    {A : Type 0} → (Text → SerializationError) → Result Text A → Result SerializationError A
or_wrap wrap (ok a) = ok a
or_wrap wrap (err e) = err (wrap e)

abbrev pub required : Text → Fields → Result SerializationError Text
required field fields = ok_or (get field fields) (missing_field field)

module _ {J : Type 0} (formats : Formats J) where
  abbrev pub encode_or_empty : Option Bytes → Text
  encode_or_empty none = []
  encode_or_empty (some h) = formats.encode h

  unfoldable pub serialize_event : TaskEvent J → Result SerializationError Fields
  unfolding text
  serialize_event event = do
    payload_json ← or_wrap json_error (formats.json_to_string event.payload)
    let fields = insert (text "task_id") (formats.uuid_to_string event.task_id) []
    let fields = insert (text "seq") (i64_to_string event.seq) fields
    let fields = insert (text "ts") (formats.to_rfc3339 event.ts) fields
    let fields = insert (text "kind") event.kind fields
    let fields = insert (text "payload") payload_json fields
    let fields = insert (text "hash_prev") (encode_or_empty event.hash_prev) fields
    ok (insert (text "hash_curr") (formats.encode event.hash_curr) fields)

  abbrev pub decode_or_none : Text → Result SerializationError (Option Bytes)
  decode_or_none [] = ok none
  decode_or_none (c ∷ cs) = do bytes ← or_wrap hex_error (formats.decode (c ∷ cs)); ok (some bytes)

  abbrev pub text_or_empty : Option Text → Text
  text_or_empty none = []
  text_or_empty (some s) = s

  unfoldable pub deserialize_event : Fields → Result SerializationError (TaskEvent J)
  deserialize_event fields = do
    task_id_str ← required (text "task_id") fields
    task_id ← or_wrap uuid_error (formats.parse_str task_id_str)
    seq_str ← required (text "seq") fields
    seq ← ok_or (parse_i64 seq_str) (invalid_value (text "seq"))
    ts_str ← required (text "ts") fields
    ts ← or_wrap timestamp_error (formats.parse_from_rfc3339 ts_str)
    kind ← required (text "kind") fields
    payload_str ← required (text "payload") fields
    payload ← or_wrap json_error (formats.json_from_str payload_str)
    hash_prev ← decode_or_none (text_or_empty (get (text "hash_prev") fields))
    hash_curr_str ← required (text "hash_curr") fields
    hash_curr ← or_wrap hex_error (formats.decode hash_curr_str)
    ok (record {
      task_id = task_id;
      seq = seq;
      ts = ts;
      kind = kind;
      payload = payload;
      hash_prev = hash_prev;
      hash_curr = hash_curr;
    })

  unfoldable pub event_stream_key : Uuid → Text
  event_stream_key task_id = text "events:" ++ formats.uuid_to_string task_id

  unfoldable pub control_stream_key : Uuid → Text
  control_stream_key task_id = text "ctrl:" ++ formats.uuid_to_string task_id

  unfoldable pub heartbeat_key : Uuid → Text
  heartbeat_key task_id = text "hb:" ++ formats.uuid_to_string task_id
