-- ===== src/Redis/Delivered.antt =====
-- What the reader gets of the events that the writer has published (axontask-shared/src/redis/stream_writer.rs and
-- stream_reader.rs).
use mathlib.Core.Path.{subst}
use mathlib.Core.List.{append_assoc, append-nil, cons≢nil}
use axon_task.Prelude.{
  ℕ, zero, suc, ◌+◌, ◌^◌, ◌<◌, ◌≡◌, ◌≢◌, inl, inr, refl, sym, ap, ◌∙◌, Text, some, List, [], ◌∷◌,
  ◌++◌, map, length, take, All, All-mono, All-append, All-after, all, Bool-cases, Result, ok, arith,
}
use axon_task.Task.{Uuid}
use axon_task.Event.{TaskEvent}
use axon_task.Redis.Decimals.{IsI64}
use axon_task.Redis.Serialization.{
  Fields, Formats, serialize_event, deserialize_event, event_stream_key,
}
use axon_task.Redis.RoundTrip.{IsFaithful, deserialize-serialize}
use axon_task.Redis.Writer.{
  StreamWriterConfig, Connection, Outcome, returned, failed, publish_event, publish_all,
  publish_batch, of_task,
}
use axon_task.Redis.Reader.{StreamReaderConfig, Entry, Commands, fields_of, events_of, read_all}
use axon_task.Redis.Batches.{events-append}
use axon_task.Redis.Readings.{Serves, IsReadable, read_all_lem, size}
use axon_task.Redis.Published.{Appends, Carries, published, was_returned}

-- The second list is the first with each member once or several times in a row.
pub data Repeats {A : Type 0} : List A → List A → Type 0 where
  done : Repeats [] []
  once : {a : A} {xs ys : List A} → Repeats xs ys → Repeats (a ∷ xs) (a ∷ ys)
  again : {a : A} {xs ys : List A} → Repeats (a ∷ xs) ys → Repeats (a ∷ xs) (a ∷ ys)

Repeats-some :
    {A : Type 0} (a : A) (xs ys zs : List A)
    → All (λ z. z ≡ a) zs
    → Repeats xs ys
    → Repeats (a ∷ xs) (zs ++ (a ∷ ys))
Repeats-some a xs ys [] h r = once r
Repeats-some a xs ys (z ∷ zs) h r = rw h.0 (again (Repeats-some a xs ys zs h.1 r))

failed_not_returned :
    {E A : Type 0} {e : E} {a : A} → ¬ ◌≡◌ {A = Outcome E A} (failed e) (returned a)
failed_not_returned h = cc

-- The writer, over a server; the commands of the reader, as they answer once the writer is done.
module _ {S V J : Type 0} (xadd : Text → Fields → S → Result Text Text × S)
    (contents : S → List (Entry V)) (writer : StreamWriterConfig) (reader : StreamReaderConfig)
    (redis : Commands V) (formats : Formats J) (faithful : IsFaithful formats)
    (task_id : Uuid) where
  abbrev key : Text
  key = event_stream_key formats task_id

  abbrev values : List (Text × V) → Fields
  values = fields_of redis formats reader

  abbrev events : List (Entry V) → List (Text × TaskEvent J)
  events = events_of redis formats reader

  -- An event that the printers can print and the parsers read back.
  abbrev pub IsPrintable : TaskEvent J → Type 0
  IsPrintable event = (event.task_id ≡ task_id) × IsI64 event.seq × (event.hash_prev ≢ some [])

  abbrev pub Holds : TaskEvent J → Entry V → Type 0
  Holds event entry = events (entry ∷ []) ≡ (entry.0, event) ∷ []

  carries-Holds :
      (event : TaskEvent J) (fields : Fields) (entry : Entry V)
      → IsPrintable event
      → serialize_event formats event ≡ ok fields
      → values entry.1 ≡ fields
      → Holds event entry
  unfolding events_of
  carries-Holds event fields (id, vs) p s c =
      rw
        (ap (deserialize_event formats) c
          ∙ deserialize-serialize formats faithful event fields p.1 p.2 s)
        refl

  abbrev payloads : List (Entry V) → List (TaskEvent J)
  payloads entries = map (λ p. p.1) (events entries)

  payloads-Holds :
      (event : TaskEvent J) (entries rest : List (Entry V))
      → All (Holds event) entries
      → (copies : List (TaskEvent J)) × All (λ e. e ≡ event) copies
        × (payloads (entries ++ rest) ≡ copies ++ payloads rest)
  payloads-Holds event [] rest h = ([], tt, refl)
  payloads-Holds event (entry ∷ entries) rest h =
      let (copies, same, q) = payloads-Holds event entries rest h.1 in
      (
        event ∷ copies,
        (refl, same),
        ap (map (λ p. p.1)) (
              events-append redis formats reader (entry ∷ []) (entries ++ rest)
              ∙ ap (λ r. r ++ events (entries ++ rest)) h.0)
            ∙ ap (λ r. event ∷ r) q,
      )

  payloads-cons :
      (event : TaskEvent J) (entry : Entry V) (rest : List (Entry V))
      → Holds event entry
      → payloads (entry ∷ rest) ≡ event ∷ payloads rest
  payloads-cons event entry rest h =
      ap (map (λ p. p.1))
        (events-append redis formats reader (entry ∷ []) rest ∙ ap (λ r. r ++ events rest) h)

  -- Every entry holds an event: then no batch is without one.
  abbrev pub HasEvent : Entry V → Type 0
  HasEvent entry = (event : TaskEvent J) × Holds event entry

  batch_nonempty :
      (n : ℕ) (entry : Entry V) (rest : List (Entry V))
      → 0 < n
      → HasEvent entry
      → events (take n (entry ∷ rest)) ≢ []
  batch_nonempty zero entry rest lt h e = absurd (omega arith)
  batch_nonempty (suc n) entry rest lt (event, h) e = absurd (
      cons≢nil (
        sym (
          events-append redis formats reader (entry ∷ []) (take n rest)
          ∙ ap (λ r. r ++ events (take n rest)) h)
        ∙ e))

  pub HasEvent-IsReadable :
      (entries : List (Entry V))
      → 0 < size redis formats reader task_id
      → All HasEvent entries
      → IsReadable redis formats reader task_id entries
  HasEvent-IsReadable entries lt h before [] q le = absurd (omega arith)
  HasEvent-IsReadable entries lt h before (entry ∷ rest) q le =
      batch_nonempty (size redis formats reader task_id) entry rest lt
        (All-after HasEvent before (entry ∷ rest) (subst (All HasEvent) q h)).0

  module _ (small : writer.max_retries + 1 < 2 ^ 32)
      (appends : Appends xadd contents values key) where
    abbrev Stored : List (TaskEvent J) → S → S → Type 0
    Stored batch s s' =
        (es : List (Entry V)) × (contents s' ≡ contents s ++ es)
        × All HasEvent es
        × Repeats batch (payloads es)

    publish_all-Stored :
        (batch : List (TaskEvent J)) (ids : List Text) (c c' : Connection S)
        → All IsPrintable batch
        → publish_all xadd writer formats batch c ≡ (returned ids, c')
        → Stored batch c.server c'.server
    unfolding publish_all events_of
    publish_all-Stored [] ids c c' p h =
        ([], ap (λ q. contents q.1.server) (sym h) ∙ sym (append-nil (contents c.server)), tt, done)
    publish_all-Stored (event ∷ batch) ids c c' p h =
        let (id, m, one, h') =
          was_returned _ (publish_event xadd writer formats event c) c' ids h in
        let (ids', m', rest, h'') =
          was_returned _ (publish_all xadd writer formats batch m) c' ids h' in
        let (fields, s, (es, entry, grown, carry, carries)) =
          published xadd contents values key writer small appends formats event c m id
            (ap (event_stream_key formats) p.0.0) one in
        let (es', grown', have, repeats) = publish_all-Stored batch ids' m m' p.1 rest in
        let holds = carries-Holds event fields in
        let hold = holds entry p.0 s carries in
        let held =
          All-mono (Carries xadd contents values key fields) (Holds event) es (λ e. holds e p.0 s)
            carry in
        let (copies, same, q) = payloads-Holds event es (entry ∷ es') held in
        (
          (es ++ (entry ∷ [])) ++ es',
          ap (λ r. contents r.1.server) (sym h'')
              ∙ grown'
              ∙ ap (λ r. r ++ es') grown
              ∙ append_assoc (contents c.server) (es ++ (entry ∷ [])) es',
          All-append HasEvent (es ++ (entry ∷ [])) es'
              (All-append HasEvent es (entry ∷ [])
                (All-mono (Holds event) HasEvent es (λ e h. (event, h)) held) ((event, hold), tt))
              have,
          subst (Repeats (event ∷ batch))
              (sym (
                ap payloads (append_assoc es (entry ∷ []) es')
                ∙ q
                ∙ ap (λ r. copies ++ r) (payloads-cons event entry es' hold)))
              (Repeats-some event batch (payloads es') copies same repeats),
        )

    publish_batch-Stored :
        (batch : List (TaskEvent J)) (ids : List Text) (c c' : Connection S)
        → All IsPrintable batch
        → publish_batch xadd writer formats batch c ≡ (returned ids, c')
        → Stored batch c.server c'.server
    unfolding publish_batch publish_all
    publish_batch-Stored [] ids c c' p h = publish_all-Stored [] ids c c' p h
    publish_batch-Stored (event ∷ batch) ids c c' p h =
        elim (Bool-cases (all (of_task xadd writer formats event.task_id) (event ∷ batch))) [
          | inl e ↦ publish_all-Stored (event ∷ batch) ids c c' p (rw e at h)
          | inr e ↦ absurd (failed_not_returned (ap (λ r. r.0) (rw e at h)))
        ]

    -- Let `XADD` append one entry when it succeeds and at most one when it fails, let the printers and parsers of the
    -- crates be faithful, and let the stream of a task be empty. If `publish_batch` returns for events of the task, with
    -- `i64` for `seq` and no empty `hash_prev`, then `read_all` on the stream it leaves ends, and gives exactly these
    -- events in their order, but an event may come several times in a row.
    pub read_all-publish_batch :
        (batch : List (TaskEvent J)) (ids : List Text) (c c' : Connection S)
        → contents c.server ≡ []
        → 0 < size redis formats reader task_id
        → All IsPrintable batch
        → publish_batch xadd writer formats batch c ≡ (returned ids, c')
        → Serves redis key (contents c'.server)
        → (read : List (TaskEvent J)) × (read_all redis formats reader
              (length (contents c'.server) + 1)
              task_id
            ≡ some (ok read))
          × Repeats batch read
    read_all-publish_batch batch ids c c' empty lt p h serves =
        let (es, grown, have, repeats) = publish_batch-Stored batch ids c c' p h in
        let stored : contents c'.server ≡ es = grown ∙ ap (λ r. r ++ es) empty in
        (
          payloads es,
          read_all_lem redis formats reader task_id (contents c'.server) serves (
                subst (IsReadable redis formats reader task_id) (sym stored)
                  (HasEvent-IsReadable es lt have))
              ∙ ap (λ r. some (ok (payloads r))) stored,
          repeats,
        )
