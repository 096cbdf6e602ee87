-- ===== src/Models/Upserts.antt =====
-- What `INSERT … ON CONFLICT DO UPDATE` does to the usage counters of each tenant and day
-- (axontask-shared/src/models/usage.rs).
use mathlib.Core.Option.{some-injective}
use axon_task.Prelude.{
  ℕ, ◌≡◌, refl, sym, ap, ◌∙◌, inl, inr, Bool, true, false, ◌&&◌, Option, none, some, List, [], ◌∷◌,
  keep, head?, ◌==◌, Bool-cases, if◌then◌else◌, arith,
}
use axon_task.Task.{Uuid}
use axon_task.Models.Usage.{UsageCounter, zeros, is_of, before_rest, after_row, upsert, or_zeros}

-- The abstract view: the counters of a tenant on a day.
abbrev pub counters : List UsageCounter → Uuid → ℕ → UsageCounter
counters [] t d = zeros t d
counters (u ∷ us) t d = if is_of t d u then u else counters us t d

abbrev pub same_key : Uuid → ℕ → Uuid → ℕ → Bool
same_key tenant day t d = t == tenant && d == day

counters-found :
    (us : List UsageCounter) (t : Uuid) (d : ℕ)
    → or_zeros t d (head? (keep (is_of t d) us)) ≡ counters us t d
counters-found [] t d = refl
counters-found (u ∷ us) t d = ground (arith, counters-found us t d)

-- What counts: it keeps the tenant and the day.
abbrev pub Keeps : (UsageCounter → Option UsageCounter) → Type 0
Keeps add =
    (u v : UsageCounter) → add u ≡ some v → (v.tenant_id ≡ u.tenant_id) × (v.period ≡ u.period)

before_rest-some :
    (us us' : List UsageCounter) (o : Option UsageCounter) (a : UsageCounter)
    → before_rest us o ≡ some (a, us')
    → (o ≡ some a) × (us' ≡ a ∷ us)
before_rest-some us us' none a h = absurd cc
before_rest-some us us' (some u) a h =
    let q = some-injective _ _ h in
    (ap (λ p. some p.0) q, sym (ap (λ p. p.1) q) ∙ ap (λ p. p.0 ∷ us) q)

after_row-some :
    (u : UsageCounter) (us' : List UsageCounter) (o : Option (UsageCounter × List UsageCounter))
    (a : UsageCounter)
    → after_row u o ≡ some (a, us')
    → (rest : List UsageCounter) × (o ≡ some (a, rest)) × (us' ≡ u ∷ rest)
after_row-some u us' none a h = absurd cc
after_row-some u us' (some (b, us)) a h =
    let q = some-injective _ _ h in (us, ap (λ p. some (p.0, us)) q, sym (ap (λ p. p.1) q))

-- A row at the head decides for its key.
head-counters :
    (tenant : Uuid) (day : ℕ) (a : UsageCounter) (us : List UsageCounter) (t : Uuid) (d : ℕ)
    → a.tenant_id ≡ tenant
    → a.period ≡ day
    → counters (a ∷ us) t d ≡ (if same_key tenant day t d then a else counters us t d)
head-counters tenant day a us t d p q = ground arith

overwritten :
    (tenant : Uuid) (day : ℕ) (a u : UsageCounter) (us : List UsageCounter) (t : Uuid) (d : ℕ)
    → is_of tenant day u ≡ true
    → (if same_key tenant day t d then a else counters us t d)
      ≡ (if same_key tenant day t d then a else counters (u ∷ us) t d)
overwritten tenant day a u us t d e = ground arith

passed_over :
    (tenant : Uuid) (day : ℕ) (a u : UsageCounter) (us rest : List UsageCounter) (t : Uuid) (d : ℕ)
    → is_of tenant day u ≡ false
    → counters rest t d ≡ (if same_key tenant day t d then a else counters us t d)
    → counters (u ∷ rest) t d ≡ (if same_key tenant day t d then a else counters (u ∷ us) t d)
passed_over tenant day a u us rest t d e h = ground arith

key_of :
    (tenant : Uuid) (day : ℕ) (u : UsageCounter)
    → is_of tenant day u ≡ true
    → (u.tenant_id ≡ tenant) × (u.period ≡ day)
key_of tenant day u e = (ground arith, ground arith)

-- What an upsert gives and leaves.
abbrev pub Upserted :
    Uuid
    → ℕ
    → (UsageCounter → Option UsageCounter)
    → List UsageCounter
    → UsageCounter
    → List UsageCounter
    → Type 0
Upserted tenant day add us a us' =
    (add (counters us tenant day) ≡ some a)
    × ((t : Uuid) (d : ℕ)
        → counters us' t d ≡ (if same_key tenant day t d then a else counters us t d))

module _ (tenant : Uuid) (day : ℕ) (add : UsageCounter → Option UsageCounter)
    (keeps : Keeps add) where
  pub upsert-Upserted :
      (us us' : List UsageCounter) (a : UsageCounter)
      → upsert tenant day add us ≡ some (a, us')
      → Upserted tenant day add us a us'
  upsert-Upserted [] us' a h =
      let (o, q) = before_rest-some [] us' (add (zeros tenant day)) a h in
      let (kt, kd) = keeps (zeros tenant day) a o in
      (o, λ t d. ap (λ r. counters r t d) q ∙ head-counters tenant day a [] t d kt kd)
  upsert-Upserted (u ∷ us) us' a h = elim (Bool-cases (is_of tenant day u)) [
    | inl e ↦
        let (o, q) = before_rest-some us us' (add u) a (rw e at h) in
        let (kt, kd) = keeps u a o in
        let (ut, ud) = key_of tenant day u e in
        (
          rw e o,
          λ t d.
              ap (λ r. counters r t d) q
              ∙ head-counters tenant day a us t d (kt ∙ ut) (kd ∙ ud)
              ∙ overwritten tenant day a u us t d e,
        )
    | inr e ↦
        let (rest, o, q) = after_row-some u us' (upsert tenant day add us) a (rw e at h) in
        let (first, others) = upsert-Upserted us rest a o in
        (
          rw e first,
          λ t d. ap (λ r. counters r t d) q ∙ passed_over tenant day a u us rest t d e (others t d),
        )
  ]

-- An upsert succeeds when what it counts does.
pub upsert-some :
    (tenant : Uuid) (day : ℕ) (add : UsageCounter → Option UsageCounter) (us : List UsageCounter)
    (a : UsageCounter)
    → add (counters us tenant day) ≡ some a
    → (us' : List UsageCounter) × (upsert tenant day add us ≡ some (a, us'))
upsert-some tenant day add [] a h = (a ∷ [], ap (before_rest []) h)
upsert-some tenant day add (u ∷ us) a h = elim (Bool-cases (is_of tenant day u)) [
  | inl e ↦ (a ∷ us, rw (e, rw e at h) refl)
  | inr e ↦
      let (rest, q) = upsert-some tenant day add us a (rw e at h) in (u ∷ rest, rw (e, q) refl)
]
