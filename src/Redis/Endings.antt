-- ===== src/Redis/Endings.antt =====
-- That the retry loop of the writer ends, and how (axontask-shared/src/redis/stream_writer.rs).
use axon_task.Prelude.{
  ℕ, zero, suc, ◌+◌, ◌^◌, ◌≤◌, ◌<◌, ◌≡◌, ◌≢◌, ◌⊎◌, inl, inr, refl, ap, Text, List, ◌++◌, length,
  All, Result, ok, err, arith,
}
use axon_task.Redis.Serialization.{Fields}
use axon_task.Redis.Retries.{
  Fails, none_yet, fails, delays, length-delays, delays-bounded, xadd_with_retry_lem,
}
use axon_task.Redis.Writer.{
  StreamWriterConfig, Connection, Outcome, returned, failed, diverged, xadd_with_retry,
}

returned-ended : {E A : Type 0} {o : Outcome E A} {a : A} → o ≡ returned a → o ≢ diverged
returned-ended h q = cc

failed-ended : {E A : Type 0} {o : Outcome E A} {e : E} → o ≡ failed e → o ≢ diverged
failed-ended h q = cc

module _ {S : Type 0} (xadd : Text → Fields → S → Result Text Text × S)
    (config : StreamWriterConfig) (key : Text) (fields : Fields) where
  answer-cases :
      (p : Result Text Text × S)
      → ((id : Text) × (s : S) × (p ≡ (ok id, s))) ⊎ ((e : Text) × (s : S) × (p ≡ (err e, s)))
  answer-cases (ok id, s) = inl (id, s, refl)
  answer-cases (err e, s) = inr (e, s, refl)

  module _ (small : config.max_retries + 1 < 2 ^ 32) where
    -- The first try that succeeds, among so many.
    pub first_success :
        (k : ℕ) (s : S)
        → ((n : ℕ) × (s' s'' : S) × (id : Text) × (n ≤ k)
            × Fails xadd config key fields n s s'
            × (xadd key fields s' ≡ (ok id, s'')))
          ⊎ ((s' s'' : S) × (e : Text) × Fails xadd config key fields k s s'
              × (xadd key fields s' ≡ (err e, s'')))
    first_success zero s = elim (answer-cases (xadd key fields s)) [
      | inl (id, s'', h) ↦ inl (0, s, s'', id, omega arith, none_yet, h)
      | inr (e, s'', h) ↦ inr (s, s'', e, none_yet, h)
    ]
    first_success (suc k) s = elim (answer-cases (xadd key fields s)) [
      | inl (id, s'', h) ↦ inl (0, s, s'', id, omega arith, none_yet, h)
      | inr (e, m, h) ↦ elim (first_success k m) [
        | inl (n, s', s'', id, le, f, q) ↦ inl (suc n, s', s'', id, omega arith, fails h f, q)
        | inr (s', s'', d, f, q) ↦ inr (s', s'', d, fails h f, q)
      ]
    ]

    -- Let `max_retries` be below the greatest `u32`. Then `xadd_with_retry` comes to an end, and on the way it sleeps at
    -- most `max_retries` times, never longer than `max_retry_delay_ms`.
    pub xadd_with_retry-ends :
        (c : Connection S)
        → ((xadd_with_retry xadd config key fields c).0 ≢ diverged)
          × ((sleeps : List ℕ) × ((xadd_with_retry xadd config key fields c).1.slept
                ≡ c.slept ++ sleeps)
              × (length sleeps ≤ config.max_retries)
              × All (λ d. d ≤ config.max_retry_delay_ms) sleeps)
    xadd_with_retry-ends c = elim (first_success config.max_retries c.server) [
      | inl (n, s', s'', id, le, f, h) ↦
          let e =
            (xadd_with_retry_lem xadd config key fields small n c.server s' c.slept f).0 id s'' le
              h in
          (
            returned-ended (ap (λ p. p.0) e),
            (
              delays xadd config key fields 0 n,
              ap (λ p. p.1.slept) e,
              omega (arith, length-delays xadd config key fields 0 n),
              delays-bounded xadd config key fields 0 n,
            ),
          )
      | inr (s', s'', d, f, h) ↦
          let e =
            (xadd_with_retry_lem xadd config key fields small config.max_retries c.server s' c.slept
                f).1
              d s'' refl h in
          (
            failed-ended (ap (λ p. p.0) e),
            (
              delays xadd config key fields 0 config.max_retries,
              ap (λ p. p.1.slept) e,
              omega (arith, length-delays xadd config key fields 0 config.max_retries),
              delays-bounded xadd config key fields 0 config.max_retries,
            ),
          )
    ]
