-- ===== src/Redis/Batches.antt =====
-- The entries of a batch that hold events (axontask-shared/src/redis/stream_reader.rs).
use mathlib.Core.List.{append_assoc, append-nil}
use axon_task.Prelude.{
  ◌≡◌, ◌≢◌, ◌⊎◌, inl, inr, refl, sym, ap, ◌∙◌, Text, some, List, [], ◌∷◌, ◌++◌, Result, ok, err,
}
use axon_task.Prelude.Results.{Result-cases}
use axon_task.Event.{TaskEvent}
use axon_task.Redis.Serialization.{SerializationError, Formats, deserialize_event}
use axon_task.Redis.Reader.{
  StreamReaderConfig, Entry, Reply, Commands, last, fields_of, push_event, events_of, of_reply,
}

-- The answer to `XREAD` on one stream that has these entries after the id.
abbrev pub answer : {V : Type 0} → Text → List (Entry V) → Reply V
answer key [] = []
answer key (entry ∷ entries) = (key, entry ∷ entries) ∷ []

pub last-append : {A : Type 0} (xs : List A) (x : A) → last (xs ++ (x ∷ [])) ≡ some x
unfolding last
last-append [] x = refl
last-append (y ∷ []) x = refl
last-append (y ∷ z ∷ zs) x = last-append (z ∷ zs) x

pub not_last : {A : Type 0} {x : A} → last [] ≢ some x
unfolding last
not_last h = cc

module _ {V J : Type 0} (redis : Commands V) (formats : Formats J)
    (config : StreamReaderConfig) where
  abbrev events : List (Entry V) → List (Text × TaskEvent J)
  events = events_of redis formats config

  push-append :
      (id : Text) (r : Result SerializationError (TaskEvent J)) (xs ys : List (Text × TaskEvent J))
      → push_event redis formats config id r (xs ++ ys)
        ≡ push_event redis formats config id r xs ++ ys
  push-append id (ok event) xs ys = refl
  push-append id (err e) xs ys = refl

  pub events-append : (xs ys : List (Entry V)) → events (xs ++ ys) ≡ events xs ++ events ys
  unfolding events_of
  events-append [] ys = refl
  events-append ((id, values) ∷ xs) ys =
      let r = deserialize_event formats (fields_of redis formats config values) in
      ap (push_event redis formats config id r) (events-append xs ys)
      ∙ push-append id r (events xs) (events ys)

  -- The last entry that holds an event, with what is before and after it.
  abbrev pub LastEvent : List (Entry V) → Type 0
  LastEvent entries =
      (before : List (Entry V)) × (entry : Entry V) × (event : TaskEvent J) × (rest : List
        (Entry V))
      × (entries ≡ before ++ (entry ∷ rest))
      × (events (entry ∷ []) ≡ (entry.0, event) ∷ [])
      × (events rest ≡ [])

  pub one_event :
      (entry : Entry V)
      → (events (entry ∷ []) ≡ [])
        ⊎ ((event : TaskEvent J) × (events (entry ∷ []) ≡ (entry.0, event) ∷ []))
  unfolding events_of
  one_event (id, values) =
      elim (Result-cases (deserialize_event formats (fields_of redis formats config values))) [
        | inl (event, e) ↦ inr (event, rw e refl)
        | inr (m, e) ↦ inl (rw e refl)
      ]

  pub last_event : (entries : List (Entry V)) → (events entries ≡ []) ⊎ LastEvent entries
  unfolding events_of
  last_event [] = inl refl
  last_event (entry ∷ entries) = elim (last_event entries) [
    | inr (before, e, event, rest, q, h, n) ↦
        inr (entry ∷ before, e, event, rest, ap (λ r. entry ∷ r) q, h, n)
    | inl n ↦ elim (one_event entry) [
      | inl m ↦ inl (events-append (entry ∷ []) entries ∙ ap (λ r. r ++ events entries) m ∙ n)
      | inr (event, h) ↦ inr ([], entry, event, entries, refl, h, n)
    ]
  ]

  -- The events up to the last of them.
  pub events_before :
      (before : List (Entry V)) (entry : Entry V) (rest : List (Entry V)) (event : TaskEvent J)
      → events (entry ∷ []) ≡ (entry.0, event) ∷ []
      → events (before ++ (entry ∷ rest))
        ≡ (events before ++ ((entry.0, event) ∷ [])) ++ events rest
  events_before before entry rest event h =
      events-append before (entry ∷ rest)
      ∙ ap (λ r. events before ++ r)
          (events-append (entry ∷ []) rest ∙ ap (λ r. r ++ events rest) h)
      ∙ sym (append_assoc (events before) _ _)

  pub of-answer :
      (key : Text) (entries : List (Entry V))
      → of_reply redis formats config (answer key entries) ≡ events entries
  unfolding of_reply events_of
  of-answer key [] = refl
  of-answer key (e ∷ es) = append-nil (events (e ∷ es))
