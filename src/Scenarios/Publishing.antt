-- ===== src/Scenarios/Publishing.antt =====
-- An event published at the second try, the first having been lost on its way back, and read
-- (axontask-shared/src/redis/stream_writer.rs, stream_reader.rs and events/serialization.rs).
use axon_task.Prelude.{
  ℕ, ◌≤◌, ◌≡◌, ◌≢◌, refl, sym, ap, ◌⊎◌, inr, pos, Text, text, text_eq, none, some, List, [], ◌∷◌,
  ◌++◌, map, length, length-append, take, if◌then◌else◌, All, Result, ok, err, arith,
}
use axon_task.Event.{TaskEvent}
use axon_task.Redis.Serialization.{
  Fields, Formats, insert, get, decimal, i64_to_string, serialize_event, deserialize_event,
  event_stream_key,
}
use axon_task.Redis.StreamId.{parse_i64, digits}
use axon_task.Redis.RoundTrip.{IsFaithful, deserialize-serialize}
use axon_task.Redis.Writer.{
  Connection, returned, diverged, default_config, retry_delay, retry_loop, xadd_with_retry,
  publish_event, publish_all, publish_batch,
}
use axon_task.Redis.Retries.{none_yet, fails, delays, xadd_with_retry_lem}
use axon_task.Redis.Endings.{xadd_with_retry-ends}
use axon_task.Redis.Reader.{
  StreamReaderConfig, Entry, Reply, Commands, fields_of, events_of, read_all,
}
use axon_task.Redis.Reader
use axon_task.Redis.Batches.{answer}
use axon_task.Redis.Readings.{Serves, IsReadable, read_all_lem}
use axon_task.Redis.Published.{Appends, Appended}
use axon_task.Redis.Delivered.{Repeats, read_all-publish_batch, HasEvent-IsReadable}

-- An id is printed as one byte, and a hash as itself.
abbrev parse_one : Text → Result Text ℕ
parse_one (u ∷ []) = ok u
parse_one _ = err (text "malformed")

abbrev pub plain : Formats Text
plain = record {
  uuid_to_string = λ u. u ∷ [];
  parse_str = parse_one;
  to_rfc3339 = λ t. t ∷ [];
  parse_from_rfc3339 = parse_one;
  json_to_string = ok;
  json_from_str = ok;
  encode = λ b. b;
  decode = ok;
}

plain-IsFaithful : IsFaithful plain
plain-IsFaithful = record {
  uuid = λ u. refl;
  time = λ t. refl;
  json = λ j s h. sym h;
  hex = λ b. refl;
  hex_nonempty = λ b n. n;
}

abbrev event : TaskEvent Text
event = record {
  task_id = 7;
  seq = pos 42;
  ts = 5;
  kind = text "stdout";
  payload = text "{}";
  hash_prev = none;
  hash_curr = 1 ∷ 2 ∷ [];
}

abbrev pub fields : Fields
fields =
    (text "task_id", 7 ∷ [])
    ∷ (text "seq", text "42")
    ∷ (text "ts", 5 ∷ [])
    ∷ (text "kind", text "stdout")
    ∷ (text "payload", text "{}")
    ∷ (text "hash_prev", [])
    ∷ (text "hash_curr", 1 ∷ 2 ∷ [])
    ∷ []

serialized : serialize_event plain event ≡ ok fields
unfolding serialize_event insert text text_eq i64_to_string decimal
serialized = refl

no_hash : {A : Type 0} {a : A} → none ≢ some a
no_hash h = cc

deserialize-serialize_example : deserialize_event plain fields ≡ ok event
deserialize-serialize_example =
    deserialize-serialize plain plain-IsFaithful event fields (omega arith) no_hash serialized

-- The server: the entries of the stream. The first answer is lost.
abbrev xadd : Text → Fields → List (Entry Text) → Result Text Text × List (Entry Text)
xadd key fields [] = (err (text "timeout"), (text "1-0", fields) ∷ [])
xadd key fields (entry ∷ entries) =
    (ok (text "2-0"), (entry ∷ entries) ++ ((text "2-0", fields) ∷ []))

abbrev key : Text
key = event_stream_key plain 7

abbrev once : List (Entry Text)
once = (text "1-0", fields) ∷ []

abbrev pub twice : List (Entry Text)
twice = (text "1-0", fields) ∷ (text "2-0", fields) ∷ []

abbrev fresh : Connection (List (Entry Text))
fresh = record { server = []; slept = [] }

xadd_with_retry_lem_example : xadd_with_retry xadd default_config key fields fresh ≡ (
  returned (text "2-0"),
  record { server = twice; slept = delays xadd default_config key fields 0 1 },
)
xadd_with_retry_lem_example =
    (xadd_with_retry_lem xadd default_config key fields (omega arith) 1 [] once []
        (fails refl none_yet)).0
      (text "2-0") twice (omega arith) refl

xadd_with_retry-ends_example :
    ((xadd_with_retry xadd default_config key fields fresh).0 ≢ diverged)
    × ((sleeps : List ℕ) × ((xadd_with_retry xadd default_config key fields fresh).1.slept ≡ sleeps)
        × (length sleeps ≤ 3)
        × All (λ d. d ≤ 5000) sleeps)
xadd_with_retry-ends_example =
    xadd_with_retry-ends xadd default_config key fields (omega arith) fresh

-- The commands of the reader on that stream.
abbrev after : Text → List (Entry Text) → List (Entry Text)
after id [] = []
after id ((i, f) ∷ entries) = if text_eq id i then entries else after id entries

abbrev pub redis : Commands Text
redis = record {
  xread =
      λ k id n. ok (answer k (take n (if text_eq id (text "0") then twice else after id twice)));
  xread_block = λ k id n timeout. ok [];
  xrevrange_count = λ k n. ok [];
  xlen = λ k. ok 2;
  from_redis_value = ok;
}

pub cons_parts : {A : Type 0} {x y : A} {xs ys : List A} → x ∷ xs ≡ y ∷ ys → (x ≡ y) × (xs ≡ ys)
cons_parts h = (cc, cc)

pub redis-Serves : Serves redis key twice
unfolding text text_eq
redis-Serves = record { from_start = λ n. refl; from_entry = served }
  where
    served :
        (before rest : List (Entry Text)) (entry : Entry Text) (n : ℕ)
        → twice ≡ before ++ (entry ∷ rest)
        → redis.xread key entry.0 n ≡ ok (answer key (take n rest))
    served [] rest entry n h = let (e, r) = cons_parts h in rw (sym e, sym r) refl
    served (x ∷ []) rest entry n h =
        let (e, r) = cons_parts (cons_parts h).1 in rw (sym e, sym r) refl
    served (x ∷ y ∷ before) rest entry n h =
        absurd (omega (arith, ap length h, length-append before (entry ∷ rest)))

values_same : (values : Fields) → fields_of redis plain Reader.default_config values ≡ values
unfolding fields_of
values_same [] = refl
values_same ((k, v) ∷ values) = ap (λ r. (k, v) ∷ r) (values_same values)

abbrev Grows : Fields → List (Entry Text) → List (Entry Text) → Type 0
Grows = Appended xadd (λ s. s) (fields_of redis plain Reader.default_config) key

added :
    (f : Fields) (id : Text) (s s' : List (Entry Text)) → xadd key f s ≡ (ok id, s') → Grows f s s'
added f id [] s' h = absurd cc
added f id (e ∷ es) s' h = ((text "2-0", f), sym (ap (λ p. p.1) h), values_same f)

not_added :
    (f : Fields) (m : Text) (s s' : List (Entry Text))
    → xadd key f s ≡ (err m, s')
    → (s' ≡ s) ⊎ Grows f s s'
not_added f m [] s' h = inr ((text "1-0", f), sym (ap (λ p. p.1) h), values_same f)
not_added f m (e ∷ es) s' h = absurd cc

xadd-Appends : Appends xadd (λ s. s) (fields_of redis plain Reader.default_config) key
xadd-Appends = record { added = added; not_added = not_added }

published :
    publish_batch xadd default_config plain (event ∷ []) fresh
    ≡ (returned (text "2-0" ∷ []), record { server = twice; slept = 100 ∷ [] })
unfolding publish_batch publish_all publish_event serialize_event insert text text_eq i64_to_string
    decimal xadd_with_retry retry_loop retry_delay event_stream_key
published = refl

read_all-publish_batch_example :
    (read : List (TaskEvent Text)) × (read_all redis plain Reader.default_config 3 7
      ≡ some (ok read))
    × Repeats (event ∷ []) read
read_all-publish_batch_example =
    read_all-publish_batch xadd (λ s. s) default_config Reader.default_config redis plain
      plain-IsFaithful 7 (omega arith) xadd-Appends (event ∷ []) (text "2-0" ∷ []) fresh
      (record { server = twice; slept = 100 ∷ [] }) refl (omega arith)
      ((refl, omega arith, no_hash), tt) published redis-Serves

-- Entry by entry.
abbrev one_by_one : StreamReaderConfig
one_by_one = record Reader.default_config { default_batch_size = 1 }

both_events :
    (events_of redis plain one_by_one ((text "1-0", fields) ∷ []) ≡ (text "1-0", event) ∷ [])
    × (events_of redis plain one_by_one ((text "2-0", fields) ∷ []) ≡ (text "2-0", event) ∷ [])
unfolding events_of fields_of deserialize_event get text text_eq parse_i64 digits
both_events = (refl, refl)

twice-IsReadable : IsReadable redis plain one_by_one 7 twice
twice-IsReadable =
    HasEvent-IsReadable xadd (λ s. s) default_config one_by_one redis plain plain-IsFaithful 7 twice
      (omega arith) ((event, both_events.0), ((event, both_events.1), tt))

read_all_lem_example :
    read_all redis plain one_by_one 3 7
    ≡ some (ok (map (λ p. p.1) (events_of redis plain one_by_one twice)))
read_all_lem_example = read_all_lem redis plain one_by_one 7 twice redis-Serves twice-IsReadable
