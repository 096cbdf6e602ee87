-- ===== src/Redis/Published.antt =====
-- Events from the writer through a stream to the reader (axontask-shared/src/redis/stream_writer.rs and
-- stream_reader.rs).
use mathlib.Core.Path.{subst}
use mathlib.Core.List.{append_assoc, append-nil}
use axon_task.Prelude.{
  ℕ, ◌+◌, ◌^◌, ◌<◌, ◌≡◌, ◌⊎◌, inl, inr, refl, sym, ap, ◌∙◌, Text, List, [], ◌∷◌, ◌++◌, All, Result,
  ok, err,
}
use axon_task.Event.{TaskEvent}
use axon_task.Redis.Serialization.{Fields, Formats, serialize_event, event_stream_key}
use axon_task.Redis.Writer.{
  serialization_error, StreamWriterConfig, Connection, Outcome, returned, failed, diverged, Action,
  lift, on_outcome, wrapped, xadd_with_retry, gave_up, publish_event,
}
use axon_task.Redis.Retries.{Fails, none_yet, fails, xadd_with_retry_lem}
use axon_task.Redis.Endings.{first_success}
use axon_task.Redis.Reader.{Entry}

module _ {S E : Type 0} where
  pub was_returned :
      {A B : Type 0} (f : A → Action S E B) (p : Outcome E A × Connection S) (c' : Connection S)
      (b : B)
      → on_outcome f p ≡ (returned b, c')
      → (a : A) × (c : Connection S) × (p ≡ (returned a, c)) × (f a c ≡ (returned b, c'))
  was_returned f (returned a, c) c' b h = (a, c, refl, h)
  was_returned f (failed e, c) c' b h = cc
  was_returned f (diverged, c) c' b h = cc

  was_not_wrapped :
      {F A : Type 0} (wrap : F → E) (p : Outcome F A × Connection S) (c : Connection S) (a : A)
      → wrapped wrap p ≡ (returned a, c)
      → p ≡ (returned a, c)
  was_not_wrapped wrap (returned a, c) c' b h = cc
  was_not_wrapped wrap (failed e, c) c' b h = cc
  was_not_wrapped wrap (diverged, c) c' b h = cc

  was_lifted :
      {F A : Type 0} (wrap : F → E) (r : Result F A) (c c' : Connection S) (a : A)
      → lift wrap r c ≡ (returned a, c')
      → (r ≡ ok a) × (c ≡ c')
  was_lifted wrap (ok a) c c' b h = (cc, cc)
  was_lifted wrap (err e) c c' b h = cc

returned_not_failed :
    {E A : Type 0} {e : E} {a : A} → ¬ ◌≡◌ {A = Outcome E A} (returned a) (failed e)
returned_not_failed h = cc

-- What `XADD` does to the entries of a stream: one that succeeds appends an entry with the fields; one that fails
-- has appended it (and the answer was lost) or not.
module _ {S V : Type 0} (xadd : Text → Fields → S → Result Text Text × S)
    (contents : S → List (Entry V)) (values : List (Text × V) → Fields) (key : Text) where
  abbrev pub Carries : Fields → Entry V → Type 0
  Carries fields entry = values entry.1 ≡ fields

  abbrev pub Appended : Fields → S → S → Type 0
  Appended fields s s' =
      (entry : Entry V) × (contents s' ≡ contents s ++ (entry ∷ [])) × Carries fields entry

  pub record Appends : Type 0 where
    pub added :
        (fields : Fields) (id : Text) (s s' : S)
        → xadd key fields s ≡ (ok id, s')
        → Appended fields s s'
    pub not_added :
        (fields : Fields) (e : Text) (s s' : S)
        → xadd key fields s ≡ (err e, s')
        → (contents s' ≡ contents s) ⊎ Appended fields s s'

  module _ (config : StreamWriterConfig) (small : config.max_retries + 1 < 2 ^ 32)
      (appends : Appends) where
    abbrev Grown : Fields → S → S → Type 0
    Grown fields s s' =
        (es : List (Entry V)) × (contents s' ≡ contents s ++ es) × All (Carries fields) es

    after_failures :
        (fields : Fields) (n : ℕ) (s s' : S)
        → Fails xadd config key fields n s s'
        → Grown fields s s'
    after_failures fields n s s' none_yet = ([], sym (append-nil (contents s)), tt)
    after_failures fields n s s' (fails {s' = m} {e = e} h k) =
        let (es, q, c) = after_failures fields _ m s' k in
        elim (appends.not_added fields e s m h) [
          | inl same ↦ (es, q ∙ ap (λ r. r ++ es) same, c)
          | inr (entry, a, v) ↦
              (entry ∷ es, q ∙ ap (λ r. r ++ es) a ∙ append_assoc (contents s) _ _, (v, c))
        ]

    -- At least one entry.
    abbrev pub Written : Fields → S → S → Type 0
    Written fields s s' =
        (es : List (Entry V)) × (entry : Entry V) × (contents s'
          ≡ contents s ++ (es ++ (entry ∷ [])))
        × All (Carries fields) es
        × Carries fields entry

    retried :
        (fields : Fields) (c c' : Connection S) (id : Text)
        → xadd_with_retry xadd config key fields c ≡ (returned id, c')
        → Written fields c.server c'.server
    retried fields c c' id h =
        elim (first_success xadd config key fields small config.max_retries c.server) [
          | inl (n, m, s'', i, le, f, q) ↦
              let (es, g, cs) = after_failures fields n c.server m f in
              let (entry, a, v) = appends.added fields i m s'' q in
              let run =
                (xadd_with_retry_lem xadd config key fields small n c.server m c.slept f).0 i s'' le
                  q in
              (
                es,
                entry,
                ap contents (ap (λ p. p.1.server) (sym h ∙ run))
                    ∙ a
                    ∙ ap (λ r. r ++ (entry ∷ [])) g
                    ∙ append_assoc (contents c.server) _ _,
                cs,
                v,
              )
          | inr (m, s'', e, f, q) ↦
              let run =
                (xadd_with_retry_lem xadd config key fields small config.max_retries c.server m
                    c.slept f).1
                  e s'' refl q in
              absurd (returned_not_failed (ap (λ p. p.0) (sym h ∙ run)))
        ]

    module _ {J : Type 0} (formats : Formats J) where
      abbrev pub Published : TaskEvent J → S → S → Type 0
      Published event s s' =
          (fields : Fields) × (serialize_event formats event ≡ ok fields) × Written fields s s'

      pub published :
          (event : TaskEvent J) (c c' : Connection S) (id : Text)
          → event_stream_key formats event.task_id ≡ key
          → publish_event xadd config formats event c ≡ (returned id, c')
          → Published event c.server c'.server
      unfolding publish_event
      published event c c' id k h =
          let (fields, m, l, q) =
            was_returned _ (lift serialization_error (serialize_event formats event) c) c' id h in
          let (o, same) =
            was_lifted serialization_error (serialize_event formats event) c m fields l in
          let run = was_not_wrapped (gave_up xadd config) _ c' id q in
          (
            fields,
            o,
            subst (λ d. Written fields d.server c'.server) (sym same)
                (retried fields m c' id
                  (subst (λ k. xadd_with_retry xadd config k fields m ≡ (returned id, c')) k run)),
          )
