-- ===== src/Redis/Readings.antt =====
-- What the reader gets from a stream (axontask-shared/src/redis/stream_reader.rs).
use mathlib.Core.List.{append_assoc, append-nil}
use axon_task.Prelude.{
  ℕ, zero, suc, ◌+◌, ◌≤◌, ◌<◌, ◌≡◌, ◌≢◌, inl, inr, refl, sym, ap, ◌∙◌, min, Text, text, none, some,
  List, [], ◌∷◌, ◌++◌, map, length, length-append, take, drop, take-append-drop, take_all,
  map-append, ok, arith,
}
use axon_task.Prelude.Results.{◌>>=◌}
use axon_task.Task.{Uuid}
use axon_task.Event.{TaskEvent}
use axon_task.Redis.Serialization.{Formats, event_stream_key}
use axon_task.Redis.Batches.{
  answer, last-append, not_last, last_event, events_before, events-append, of-answer,
}
use axon_task.Redis.Reader.{
  StreamReaderConfig, Entry, Commands, command, last, events_of, of_reply, read_backfill, on_batch,
  read_loop, read_all,
}

-- `XREAD` gives the first entries after an id, at most `COUNT`; "0" is before all.
pub record Serves {V : Type 0} (redis : Commands V) (key : Text) (entries : List (Entry V))
    : Type 0 where
  pub from_start : (n : ℕ) → redis.xread key (text "0") n ≡ ok (answer key (take n entries))
  pub from_entry :
      (before rest : List (Entry V)) (entry : Entry V) (n : ℕ)
      → entries ≡ before ++ (entry ∷ rest)
      → redis.xread key entry.0 n ≡ ok (answer key (take n rest))

module _ {V J : Type 0} (redis : Commands V) (formats : Formats J)
    (config : StreamReaderConfig) where
  abbrev events : List (Entry V) → List (Text × TaskEvent J)
  events = events_of redis formats config

  module _ (task_id : Uuid) where
    abbrev pub key : Text
    key = event_stream_key formats task_id

    abbrev pub size : ℕ
    size = min config.default_batch_size config.max_batch_size

    backfill :
        (id : Text) (rest : List (Entry V))
        → redis.xread key id size ≡ ok (answer key (take size rest))
        → read_backfill redis formats config task_id id config.default_batch_size
          ≡ ok (events (take size rest))
    unfolding read_backfill
    backfill id rest h =
        ap (λ r. command r >>= λ reply. ok (of_reply redis formats config reply)) h
        ∙ ap ok (of-answer redis formats config key (take size rest))

    turn :
        (fuel : ℕ) (id next : Text) (acc : List (TaskEvent J)) (event : TaskEvent J)
        (batch : List (Text × TaskEvent J))
        → last batch ≡ some (next, event)
        → on_batch redis formats config
            (read_loop redis formats config fuel task_id)
            id
            acc
            (ok batch)
          ≡ read_loop redis formats config fuel task_id next (acc ++ map (λ p. p.1) batch)
    turn fuel id next acc event [] h = absurd (not_last h)
    turn fuel id next acc event (p ∷ ps) h =
        ap
          (λ o.
            read_loop redis formats config fuel task_id (elim o [ none ↦ id | some (i, e) ↦ i ])
              (acc ++ map (λ q. q.1) (p ∷ ps)))
          h

    -- No run of a batch's length is without an event.
    abbrev pub IsReadable : List (Entry V) → Type 0
    IsReadable entries =
        (before rest : List (Entry V))
        → entries ≡ before ++ rest
        → size ≤ length rest
        → events_of redis formats config (take size rest) ≢ []

    -- A batch whose last event is that of an entry, and what comes after that entry.
    module _ (rest us vs : List (Entry V)) (entry : Entry V) (event : TaskEvent J)
        (split : take size rest ≡ us ++ (entry ∷ vs))
        (one : events (entry ∷ []) ≡ (entry.0, event) ∷ []) (none_after : events vs ≡ []) where
      abbrev later : List (Entry V)
      later = vs ++ drop size rest

      whole : rest ≡ us ++ (entry ∷ later)
      whole = take-append-drop size rest ∙ ap (λ r. r ++ drop size rest) split ∙ append_assoc us _ _

      later_shorter : length later < length rest
      later_shorter = omega (arith, ap length whole ∙ length-append us (entry ∷ later))

      batch_last : last (events (take size rest)) ≡ some (entry.0, event)
      batch_last =
          ap last (
            ap events split
            ∙ events_before redis formats config us entry vs event one
            ∙ ap (λ r. (events us ++ ((entry.0, event) ∷ [])) ++ r) none_after
            ∙ append-nil _)
          ∙ last-append (events us) (entry.0, event)

      batch_then_later : events (take size rest) ++ events later ≡ events rest
      batch_then_later =
          ap (λ r. events (take size rest) ++ r)
            (events-append redis formats config vs (drop size rest)
              ∙ ap (λ r. r ++ events (drop size rest)) none_after)
          ∙ sym (events-append redis formats config (take size rest) (drop size rest))
          ∙ ap events (sym (take-append-drop size rest))

    module _ (entries : List (Entry V)) (serves : Serves redis key entries)
        (readable : IsReadable entries) where
      no_more :
          (before rest : List (Entry V))
          → entries ≡ before ++ rest
          → events (take size rest) ≡ []
          → events rest ≡ []
      no_more before rest q n =
          let short : length rest < size = ground (arith, readable before rest q) in
          ap events (sym (take_all size rest (omega (arith, short)))) ∙ n

      -- The events that follow a position in the stream.
      loop-reads :
          (fuel : ℕ) (id : Text) (acc : List (TaskEvent J)) (before rest : List (Entry V))
          → length rest < fuel
          → entries ≡ before ++ rest
          → redis.xread key id size ≡ ok (answer key (take size rest))
          → read_loop redis formats config fuel task_id id acc
            ≡ some (ok (acc ++ map (λ p. p.1) (events rest)))
      unfolding read_loop
      loop-reads zero id acc before rest lt q h = absurd (omega arith)
      loop-reads (suc fuel) id acc before rest lt q h =
          ap (on_batch redis formats config (read_loop redis formats config fuel task_id) id acc)
            (backfill id rest h)
          ∙ elim (last_event redis formats config (take size rest)) [
            | inl n ↦
                ap
                  (λ b.
                    on_batch redis formats config (read_loop redis formats config fuel task_id) id
                      acc (ok b))
                  n
                ∙ ap (λ r. some (ok r))
                    (sym (
                      ap (λ r. acc ++ map (λ p. p.1) r) (no_more before rest q n) ∙ append-nil acc))
            | inr (us, e, event, vs, t, one, none_after) ↦
                let at : entries
                    ≡ (before ++ us) ++ (e ∷ later rest us vs e event t one none_after) =
                  q
                  ∙ ap (λ r. before ++ r) (whole rest us vs e event t one none_after)
                  ∙ sym (append_assoc before us _) in
                turn fuel id e.0 acc event (events (take size rest))
                  (batch_last rest us vs e event t one none_after)
                ∙ loop-reads fuel e.0 (acc ++ map (λ p. p.1) (events (take size rest)))
                    ((before ++ us) ++ (e ∷ [])) (later rest us vs e event t one none_after)
                    (omega (arith, later_shorter rest us vs e event t one none_after))
                    (at ∙ sym (append_assoc (before ++ us) _ _))
                    (serves.from_entry (before ++ us) (later rest us vs e event t one none_after) e
                      size at)
                ∙ ap (λ r. some (ok r))
                    (append_assoc acc _ _
                      ∙ ap (λ r. acc ++ r)
                          (sym (map-append (λ p. p.1) (events (take size rest)) _)
                            ∙ ap (map (λ p. p.1))
                                (batch_then_later rest us vs e event t one none_after)))
          ]

      -- Let the server give the entries of the stream in order, and let no run of entries as long as a batch be
      -- without an event. Then `read_all` ends within as many turns as there are entries and one more, and gives
      -- the events of all entries that hold one, in order.
      pub read_all_lem :
          read_all redis formats config (length entries + 1) task_id
          ≡ some (ok (map (λ p. p.1) (events_of redis formats config entries)))
      unfolding read_all
      read_all_lem =
          loop-reads (length entries + 1) (text "0") [] [] entries (omega arith) refl
            (serves.from_start size)
