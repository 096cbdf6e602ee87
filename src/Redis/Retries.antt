-- ===== src/Redis/Retries.antt =====
-- How often the writer tries an `XADD`, and how long it sleeps (axontask-shared/src/redis/stream_writer.rs).
use mathlib.Core.List.{append_assoc, append-nil}
use axon_task.Prelude.{
  ℕ, zero, suc, ◌+◌, ◌%◌, ◌^◌, ◌≤◌, ◌<◌, ◌≡◌, inl, inr, refl, sym, ap, ◌∙◌, Text, Option, none,
  some, List, [], ◌∷◌, ◌++◌, leb, length, All, Result, ok, err, Bool-cases, le→leb, arith,
}
use axon_task.Redis.Serialization.{Fields}
use axon_task.Redis.Writer.{
  StreamWriterConfig, Connection, Outcome, returned, failed, retry_delay, sleep_between, retry_loop,
  xadd_with_retry,
}

module _ {S : Type 0} (xadd : Text → Fields → S → Result Text Text × S)
    (config : StreamWriterConfig) (key : Text) (fields : Fields) where
  -- So many `XADD`s in a row fail, and lead from one state of the server to another.
  pub data Fails : ℕ → S → S → Type 0 where
    none_yet : {s : S} → Fails 0 s s
    fails :
        {n : ℕ} {s s' s'' : S} {e : Text}
        → xadd key fields s ≡ (err e, s')
        → Fails n s' s''
        → Fails (suc n) s s''

  -- The sleeps after so many failures.
  abbrev pub delays : ℕ → ℕ → List ℕ
  delays attempt zero = []
  delays attempt (suc n) = retry_delay xadd config (attempt + 1) ∷ delays (attempt + 1) n

  pub length-delays : (attempt n : ℕ) → length (delays attempt n) ≡ n
  length-delays attempt zero = refl
  length-delays attempt (suc n) = ap suc (length-delays (attempt + 1) n)

  pub delays-bounded : (attempt n : ℕ) → All (λ d. d ≤ config.max_retry_delay_ms) (delays attempt n)
  unfolding retry_delay
  delays-bounded attempt zero = tt
  delays-bounded attempt (suc n) = (omega arith, delays-bounded (attempt + 1) n)

  abbrev after : Outcome Text Text → S → List ℕ → Outcome Text Text × Connection S
  after o s slept = (o, record { server = s; slept = slept })

  abbrev continued : ℕ → ℕ → Text → S → List ℕ → Outcome Text Text × Connection S
  continued fuel attempt e s slept =
      retry_loop xadd config fuel (attempt + 1) (some e) key fields
        (record { server = s; slept = slept })

  module _ (small : config.max_retries + 1 < 2 ^ 32) where
    no_wrap : (attempt : ℕ) → attempt ≤ config.max_retries → (attempt + 1) % 2 ^ 32 ≡ attempt + 1
    no_wrap attempt le = omega arith

    loop-ok :
        (fuel attempt : ℕ) (last : Option Text) (s s' : S) (slept : List ℕ) (id : Text)
        → attempt ≤ config.max_retries
        → xadd key fields s ≡ (ok id, s')
        → retry_loop xadd config
            (suc fuel)
            attempt
            last
            key
            fields
            (record { server = s; slept = slept })
          ≡ (returned id, record { server = s'; slept = slept })
    unfolding retry_loop
    loop-ok fuel attempt last s s' slept id le h = rw (le→leb attempt config.max_retries le, h) refl

    loop-err :
        (fuel attempt : ℕ) (last : Option Text) (s s' : S) (slept : List ℕ) (e : Text)
        → attempt ≤ config.max_retries
        → xadd key fields s ≡ (err e, s')
        → retry_loop xadd config
            (suc fuel)
            attempt
            last
            key
            fields
            (record { server = s; slept = slept })
          ≡ retry_loop xadd config fuel
              (attempt + 1)
              (some e)
              key
              fields
              (record { server = s'; slept = sleep_between xadd config (attempt + 1) slept })
    unfolding retry_loop
    loop-err fuel attempt last s s' slept e le h =
        rw (le→leb attempt config.max_retries le, h, no_wrap attempt le) refl

    sleeps :
        (attempt : ℕ) (slept : List ℕ)
        → attempt + 1 ≤ config.max_retries
        → sleep_between xadd config (attempt + 1) slept
          ≡ slept ++ (retry_delay xadd config (attempt + 1) ∷ [])
    sleeps attempt slept le = rw (le→leb (attempt + 1) config.max_retries le) refl

    no_sleep :
        (attempt : ℕ) (slept : List ℕ)
        → attempt ≡ config.max_retries
        → sleep_between xadd config (attempt + 1) slept ≡ slept
    no_sleep attempt slept e = elim (Bool-cases (leb (attempt + 1) config.max_retries)) [
      | inl t ↦ absurd (ground arith)
      | inr t ↦ rw t refl
    ]

    -- After the loop's last turn.
    loop-over :
        (fuel attempt : ℕ) (e : Text) (c : Connection S)
        → config.max_retries < attempt
        → retry_loop xadd config (suc fuel) attempt (some e) key fields c ≡ (failed e, c)
    unfolding retry_loop
    loop-over fuel attempt e c lt = elim (Bool-cases (leb attempt config.max_retries)) [
      | inl t ↦ absurd (ground arith)
      | inr t ↦ rw t refl
    ]

    loop_succeeds :
        (n fuel attempt : ℕ) (last : Option Text) (s s' s'' : S) (slept : List ℕ) (id : Text)
        → attempt + n ≤ config.max_retries
        → n < fuel
        → Fails n s s'
        → xadd key fields s' ≡ (ok id, s'')
        → retry_loop xadd config fuel attempt last key fields (record { server = s; slept = slept })
          ≡ (returned id, record { server = s''; slept = slept ++ delays attempt n })
    loop_succeeds n zero attempt last s s' s'' slept id le lt f h = absurd (omega arith)
    loop_succeeds zero (suc fuel) attempt last s s' s'' slept id le lt none_yet h =
        loop-ok fuel attempt last s s'' slept id (omega arith) h
        ∙ ap (after (returned id) s'') (sym (append-nil slept))
    loop_succeeds (suc n) (suc fuel) attempt last s s' s'' slept id le lt
          (fails {s' = m} {e = e} k f) h =
        loop-err fuel attempt last s m slept e (omega arith) k
        ∙ ap (continued fuel attempt e m) (sleeps attempt slept (omega arith))
        ∙ loop_succeeds n fuel (attempt + 1) (some e) m s' s''
            (slept ++ (retry_delay xadd config (attempt + 1) ∷ [])) id (omega arith) (omega arith) f
            h
        ∙ ap (after (returned id) s'') (append_assoc slept _ _)

    loop_gives_up :
        (n fuel attempt : ℕ) (last : Option Text) (s s' s'' : S) (slept : List ℕ) (e : Text)
        → attempt + n ≡ config.max_retries
        → n + 1 < fuel
        → Fails n s s'
        → xadd key fields s' ≡ (err e, s'')
        → retry_loop xadd config fuel attempt last key fields (record { server = s; slept = slept })
          ≡ (failed e, record { server = s''; slept = slept ++ delays attempt n })
    loop_gives_up n zero attempt last s s' s'' slept e le lt f h = absurd (omega arith)
    loop_gives_up n (suc zero) attempt last s s' s'' slept e le lt f h = absurd (omega arith)
    loop_gives_up zero (suc (suc fuel)) attempt last s s' s'' slept e le lt none_yet h =
        loop-err (suc fuel) attempt last s s'' slept e (omega arith) h
        ∙ ap (continued (suc fuel) attempt e s'') (no_sleep attempt slept (omega arith))
        ∙ loop-over fuel (attempt + 1) e _ (omega arith)
        ∙ ap (after (failed e) s'') (sym (append-nil slept))
    loop_gives_up (suc n) (suc (suc fuel)) attempt last s s' s'' slept e le lt
          (fails {s' = m} {e = d} k f) h =
        loop-err (suc fuel) attempt last s m slept d (omega arith) k
        ∙ ap (continued (suc fuel) attempt d m) (sleeps attempt slept (omega arith))
        ∙ loop_gives_up n (suc fuel) (attempt + 1) (some d) m s' s''
            (slept ++ (retry_delay xadd config (attempt + 1) ∷ [])) e (omega arith) (omega arith) f
            h
        ∙ ap (after (failed e) s'') (append_assoc slept _ _)

    -- Let `max_retries` be below the greatest `u32`. If an `XADD` succeeds after at most `max_retries` failed ones,
    -- then `xadd_with_retry` returns its id, with the server as that `XADD` left it. If the first `max_retries` and
    -- the next fail, it gives the last error, and tries no more. Between two tries it sleeps once, for `retry_delay`.
    pub xadd_with_retry_lem :
        (n : ℕ) (s s' : S) (slept : List ℕ)
        → Fails n s s'
        → ((id : Text) (s'' : S)
            → n ≤ config.max_retries
            → xadd key fields s' ≡ (ok id, s'')
            → xadd_with_retry xadd config key fields (record { server = s; slept = slept })
              ≡ (returned id, record { server = s''; slept = slept ++ delays 0 n }))
          × ((e : Text) (s'' : S)
              → n ≡ config.max_retries
              → xadd key fields s' ≡ (err e, s'')
              → xadd_with_retry xadd config key fields (record { server = s; slept = slept })
                ≡ (failed e, record { server = s''; slept = slept ++ delays 0 n }))
    unfolding xadd_with_retry
    xadd_with_retry_lem n s s' slept f = (
      (λ id s'' le h.
          loop_succeeds n (config.max_retries + 2) 0 none s s' s'' slept id (omega arith)
            (omega arith) f h),
      (λ e s'' q h.
          loop_gives_up n (config.max_retries + 2) 0 none s s' s'' slept e (omega arith)
            (omega arith) f h),
    )
