-- ===== src/Worker/MockRuns.antt =====
-- What a run of the mock adapter tells its task (axontask-worker/src/adapters/mock.rs).
use axon_task.Prelude.{
  ℕ, suc, ◌+◌, ◌*◌, ◌/◌, ◌≤◌, ◌≡◌, refl, sym, ap, ◌∙◌, inl, inr, ◌⊎◌, Text, Bool, true, false, ◌&&◌,
  Option, some, List, [], ◌∷◌, ◌++◌, length, All, All-append, Result, ok, err, leb, Bool-cases,
  arith,
}
use axon_task.Worker.AdapterError.{AdapterError}
use axon_task.Worker.AdapterEventKind.{AdapterEventKind}
use mathlib.Core.Path.{subst}
use axon_task.Worker.AdapterEvent.{AdapterEvent, cancelled, failed, progress, stdout}
use axon_task.Worker.Adapter.{AdapterContext, Trace, Run, ◌>>=◌, ◌>>◌, emit}
use axon_task.Worker.Mock.{
  MockConfig, Checkpoint, checkpoints, fails, closing, steps, work, say, pause, failure, finish,
  opening, run, execute, is_empty, unwrap_or_default,
}

-- The kinds that end a run.
abbrev pub is_final : AdapterEventKind → Bool
is_final AdapterEventKind.completed = true
is_final AdapterEventKind.failed = true
is_final AdapterEventKind.cancelled = true
is_final _ = false

abbrev pub Open : List AdapterEvent → Type 0
Open es = All (λ e. is_final e.kind ≡ false) es

-- The one event that ends a run, at the end of what was sent.
abbrev pub EndsIn : (AdapterEventKind → Type 0) → List AdapterEvent → Type 0
EndsIn P es =
    (before : List AdapterEvent) × (last : AdapterEvent) × (es ≡ before ++ last ∷ [])
    × Open before
    × P last.kind

-- How the last event and the result of a run agree.
abbrev pub Told : Result AdapterError (Unit {0}) → AdapterEventKind → Type 0
Told (ok u) k = (k ≡ AdapterEventKind.completed) ⊎ (k ≡ AdapterEventKind.cancelled)
Told (err e) k = k ≡ AdapterEventKind.failed

abbrev pub Passed : ℕ → Trace → Result AdapterError Bool × Trace → Type 0
Passed n s (ok true, s') = Open s'.events × (s'.slept ≤ s.slept + n)
Passed n s (ok false, s') =
    EndsIn (λ k. k ≡ AdapterEventKind.cancelled) s'.events × (s'.slept ≤ s.slept + n)
Passed n s (err e, s') =
    EndsIn (λ k. k ≡ AdapterEventKind.failed) s'.events × (s'.slept ≤ s.slept + n)

bind-ok :
    {A B : Type 0} (m : Run A) (f : A → Run B) (s s' : Trace) (a : A)
    → m s ≡ (ok a, s')
    → (m >>= f) s ≡ f a s'
bind-ok {A} {B} m f s s' a h =
    ap
      (λ (p : Result AdapterError A × Trace).
        let q : Result AdapterError B × Trace = elim p.0 [
          | ok x ↦ f x p.1
          | err e ↦ (err e, p.1)
        ] in
        q)
      h

module _ {J : Type 0} (from_value : J → Option MockConfig) (reason : J → Text)
    (c : AdapterContext J) (all_received : (n : ℕ) → c.received n ≡ true) where
  emit_received :
      (e : AdapterEvent) (s : Trace)
      → emit c e s ≡ (ok tt, record s { events = s.events ++ e ∷ [] })
  unfolding emit
  emit_received e s = rw (all_received (length s.events)) refl

  -- A part of a run that ends nothing, and sleeps no longer than a time.
  Quiet : ℕ → Run (Unit {0}) → Type 0
  Quiet n m =
      (s : Trace)
      → Open s.events
      → (s' : Trace) × (m s ≡ (ok tt, s')) × Open s'.events × (s'.slept ≤ s.slept + n)

  Quiet-then : (a b : ℕ) (m k : Run (Unit {0})) → Quiet a m → Quiet b k → Quiet (a + b) (m >> k)
  unfolding Quiet
  Quiet-then a b m k hm hk s h =
      let (s1, e1, o1, n1) = hm s h in
      let (s2, e2, o2, n2) = hk s1 o1 in
      (s2, bind-ok m (λ _. k) s s1 tt e1 ∙ e2, o2, omega (arith, n1, n2))

  Quiet-emit : (e : AdapterEvent) → is_final e.kind ≡ false → Quiet 0 (emit c e)
  unfolding Quiet
  Quiet-emit e f s h = (
    record s { events = s.events ++ e ∷ [] },
    emit_received e s,
    All-append (λ x. is_final x.kind ≡ false) s.events (e ∷ []) h (f, tt),
    omega arith,
  )

  Quiet-say : (m : Text) → Quiet 0 (say from_value reason c m)
  unfolding Quiet
  Quiet-say [] s h = (s, refl, h, omega arith)
  Quiet-say (x ∷ m) s h = Quiet-emit (stdout (x ∷ m)) refl s h

  Quiet-pause :
      (config : MockConfig) (last : Bool)
      → Quiet (config.duration_ms / 4) (pause from_value reason config last)
  unfolding Quiet
  Quiet-pause config true s h = (s, refl, h, omega arith)
  Quiet-pause config false s h =
      (record s { slept = s.slept + config.duration_ms / 4 }, refl, h, omega arith)

  Quiet-work :
      (config : MockConfig) (p : Checkpoint) (last : Bool)
      → Quiet (0 + (0 + config.duration_ms / 4)) (work from_value reason c config p last)
  Quiet-work config p last =
      Quiet-then 0 (0 + config.duration_ms / 4) (emit c (progress p.percent (some p.progress_msg)))
        _ (Quiet-emit _ refl)
        (Quiet-then 0 (config.duration_ms / 4) (say from_value reason c p.stdout_msg) _
          (Quiet-say p.stdout_msg) (Quiet-pause config last))

  Passed-later :
      (n m : ℕ) (s s1 : Trace) (q : Result AdapterError Bool × Trace)
      → s1.slept ≤ s.slept + n
      → Passed m s1 q
      → Passed (n + m) s q
  Passed-later n m s s1 (ok true, s2) l h = (h.0, omega (arith, h.1))
  Passed-later n m s s1 (ok false, s2) l h = (h.0, omega (arith, h.1))
  Passed-later n m s s1 (err e, s2) l h = (h.0, omega (arith, h.1))

  stop-Passed :
      (n : ℕ) (s : Trace)
      → Open s.events
      → Passed n s ((emit c cancelled >> λ s'. (ok false, s')) s)
  stop-Passed n s h =
      subst (Passed n s)
        (sym
          (bind-ok (emit c cancelled) (λ _ s'. (ok false, s')) s _ tt (emit_received cancelled s)))
        ((s.events, cancelled, refl, h, refl), omega arith)

  fail-Passed :
      (n : ℕ) (notice : Text) (e : AdapterError) (s : Trace)
      → Open s.events
      → Passed n s ((emit c (failed notice) >> fails e) s)
  fail-Passed n notice e s h =
      subst (Passed n s)
        (sym (
          bind-ok (emit c (failed notice)) (λ _. fails e) s _ tt (emit_received (failed notice) s)))
        ((s.events, failed notice, refl, h, refl), omega arith)

  Quiet-Passed :
      (n m : ℕ) (k : Run (Unit {0})) (rest : Run Bool) (s : Trace)
      → Quiet n k
      → ((s1 : Trace) → Open s1.events → Passed m s1 (rest s1))
      → Open s.events
      → Passed (n + m) s ((k >> rest) s)
  unfolding Quiet
  Quiet-Passed n m k rest s quiet go h =
      let (s1, e1, o1, n1) = quiet s h in
      subst (Passed (n + m) s) (sym (bind-ok k (λ _. rest) s s1 tt e1))
        (Passed-later n m s s1 (rest s1) n1 (go s1 o1))

  Passed-within :
      (n m : ℕ) (s : Trace) (q : Result AdapterError Bool × Trace)
      → n ≤ m
      → Passed n s q
      → Passed m s q
  Passed-within n m s (ok true, s2) l h = (h.0, omega (arith, h.1))
  Passed-within n m s (ok false, s2) l h = (h.0, omega (arith, h.1))
  Passed-within n m s (err e, s2) l h = (h.0, omega (arith, h.1))

  steps-Passed :
      (config : MockConfig) (i : ℕ) (ps : List Checkpoint) (s : Trace)
      → Open s.events
      → Passed (length ps * (config.duration_ms / 4)) s (steps from_value reason c config i ps s)
  unfolding steps
  steps-Passed config i [] s h = (h, omega arith)
  steps-Passed config i (p ∷ ps) s h =
      let bound = suc (length ps) * (config.duration_ms / 4) in
      elim (Bool-cases (c.cancelled_at i)) [
        | inl e ↦ rw e (stop-Passed bound s h)
        | inr e ↦ elim (Bool-cases (config.should_fail && leb config.failure_percent p.percent)) [
          | inl f ↦ rw (e, f) (fail-Passed bound (failure from_value reason p.percent) _ s h)
          | inr f ↦
              rw (e, f)
                (Passed-within
                  (0 + (0 + config.duration_ms / 4) + length ps * (config.duration_ms / 4)) bound s
                  ((work from_value reason c config p (is_empty ps)
                      >> steps from_value reason c config (suc i) ps)
                    s)
                  (omega arith)
                  (Quiet-Passed _ (length ps * (config.duration_ms / 4))
                    (work from_value reason c config p (is_empty ps))
                    (steps from_value reason c config (suc i) ps) s
                    (Quiet-work config p (is_empty ps)) (steps-Passed config (suc i) ps) h))
        ]
      ]

  Finished : ℕ → Result AdapterError (Unit {0}) × Trace → Type 0
  Finished n (r, s') = EndsIn (Told r) s'.events × (s'.slept ≤ n)

  finish-Finished :
      (n : ℕ) (config : MockConfig) (q : Result AdapterError Bool × Trace) (s : Trace)
      → s.slept ≡ 0
      → Passed n s q
      → Finished n (
          let p : Result AdapterError (Unit {0}) × Trace = elim q.0 [
            | ok b ↦ finish from_value reason c config b q.1
            | err e ↦ (err e, q.1)
          ] in
          p)
  unfolding Finished
  finish-Finished n config (ok true, s1) s z h =
      rw (emit_received (closing from_value reason config) s1)
        ((s1.events, closing from_value reason config, refl, h.0, inl refl), omega (arith, h.1))
  finish-Finished n config (ok false, s1) s z h =
      let (before, last, e, o, k) = h.0 in ((before, last, e, o, inr k), omega (arith, h.1))
  finish-Finished n config (err e, s1) s z h = (h.0, omega (arith, h.1))

  run-Finished :
      (config : MockConfig)
      → Finished
          (4 * (config.duration_ms / 4))
          (run from_value reason c config (record { events = []; slept = 0 }))
  run-Finished config =
      let opened : Trace = record { events = opening from_value reason config ∷ []; slept = 0 } in
      subst (Finished (4 * (config.duration_ms / 4)))
        (sym (
          bind-ok (emit c (opening from_value reason config))
            (λ _. steps from_value reason c config 0 checkpoints >>= λ through.
              finish from_value reason c config through)
            (record { events = []; slept = 0 }) opened tt
            (emit_received (opening from_value reason config) (record { events = []; slept = 0 }))))
        (finish-Finished (4 * (config.duration_ms / 4)) config
          (steps from_value reason c config 0 checkpoints opened) opened refl
          (steps-Passed config 0 checkpoints opened (refl, tt)))

  -- While the receiver takes every event, a run of the mock adapter ends, whatever its arguments and
  -- whenever it is cancelled. Its last event is the only one that ends a run, and agrees with the result:
  -- `completed` or `cancelled` if it returns `Ok`, `failed` if it returns an error. It sleeps no longer than
  -- the duration that is configured.
  pub execute_lem :
      let (r, trace) = execute from_value reason c (record { events = []; slept = 0 }) in
      EndsIn (Told r) trace.events
      × (trace.slept ≤ (unwrap_or_default (from_value c.args)).duration_ms)
  unfolding execute Finished
  execute_lem =
      let config = unwrap_or_default (from_value c.args) in
      let (ends, slept) = run-Finished config in (ends, omega (arith, slept))
