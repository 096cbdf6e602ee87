-- ===== src/Models/Quantities.antt =====
-- The quantities that usage counters hold, and what each statement is to add (axontask-shared/src/models/usage.rs).
use mathlib.Core.Option.{some-injective}
use mathlib.Core.Path.{subst}
use axon_task.Prelude.{
  ℕ, ◌+◌, ◌≤◌, ◌≡◌, ◌≢◌, refl, sym, ap, inl, inr, ℤ, pos, negsuc, Option, none, some, Bool-cases,
  leb, arith,
}
use axon_task.Models.Usage.{
  UsageCounter, add_within, i32_max, i64_max, with_minutes, with_streams, with_bytes, with_tasks,
  add_minutes, add_stream, add_bytes, add_task,
}
use axon_task.Models.Upserts.{Keeps}

-- The four statements that count, and what each adds.
pub data Increment : Type 0 where
  task_minutes : ℤ → Increment
  streams : Increment
  bytes : ℤ → Increment
  tasks_created : Increment

abbrev pub added : Increment → UsageCounter → Option UsageCounter
added (task_minutes n) u = add_minutes n u
added streams u = add_stream u
added (bytes n) u = add_bytes n u
added tasks_created u = add_task u

-- What the counters of a tenant on a day are to say: four quantities, of which a statement adds to one.
pub data Quantity : Type 0 where
  minute stream byte task : Quantity

abbrev pub amount_of : UsageCounter → Quantity → ℕ
amount_of u minute = u.task_minutes
amount_of u stream = u.streams
amount_of u byte = u.bytes
amount_of u task = u.tasks_created

abbrev pub counted_by : Increment → Quantity
counted_by (task_minutes n) = minute
counted_by streams = stream
counted_by (bytes n) = byte
counted_by tasks_created = task

abbrev pub amount : Increment → ℤ
amount (task_minutes n) = n
amount streams = pos 1
amount (bytes n) = n
amount tasks_created = pos 1

-- The greatest `i32` and `i64`.
abbrev pub greatest : Quantity → ℕ
greatest minute = 2147483647
greatest stream = 2147483647
greatest byte = 9223372036854775807
greatest task = 2147483647

-- Counters before and after: the amount, not negative, is added to one quantity, which fits its column.
pub record Counted (i : Increment) (u v : UsageCounter) : Type 0 where
  pub same_tenant : v.tenant_id ≡ u.tenant_id
  pub same_period : v.period ≡ u.period
  pub added_amount : ℕ
  pub is_amount : amount i ≡ pos added_amount
  pub sum : amount_of v (counted_by i) ≡ amount_of u (counted_by i) + added_amount
  pub fits : amount_of v (counted_by i) ≤ greatest (counted_by i)
  pub others : (q : Quantity) → q ≢ counted_by i → amount_of v q ≡ amount_of u q

abbrev pub Fits : Increment → UsageCounter → Type 0
Fits i u = (n : ℕ) × (amount i ≡ pos n) × (amount_of u (counted_by i) + n ≤ greatest (counted_by i))

-- What `add_within` gives.
within :
    (top old : ℕ) (n : ℤ) (m : ℕ)
    → add_within top old n ≡ some m
    → (k : ℕ) × (n ≡ pos k) × (m ≡ old + k) × (m ≤ top)
within top old (negsuc n) m h = absurd cc
within top old (pos k) m h = elim (Bool-cases (leb (old + k) top)) [
  | inl e ↦ let q = some-injective _ _ (rw e at h) in (k, refl, sym q, ground (arith, q))
  | inr e ↦ absurd cc
]

minutes_others :
    (u : UsageCounter) (m : ℕ) (q : Quantity)
    → q ≢ minute
    → amount_of (record u { task_minutes = m }) q ≡ amount_of u q
minutes_others u m minute h = absurd (h refl)
minutes_others u m stream h = refl
minutes_others u m byte h = refl
minutes_others u m task h = refl

minutes-Counted :
    (n : ℤ) (u v : UsageCounter) (o : Option ℕ)
    → o ≡ add_within i32_max u.task_minutes n
    → with_minutes u o ≡ some v
    → Counted (task_minutes n) u v
minutes-Counted n u v none o h = absurd cc
minutes-Counted n u v (some m) o h =
    let (k, a, e, le) = within i32_max u.task_minutes n m (sym o) in
    subst (Counted (task_minutes n) u) (some-injective _ _ h) (record {
      same_tenant = refl;
      same_period = refl;
      added_amount = k;
      is_amount = a;
      sum = e;
      fits = le;
      others = minutes_others u m;
    })

streams_others :
    (u : UsageCounter) (m : ℕ) (q : Quantity)
    → q ≢ stream
    → amount_of (record u { streams = m }) q ≡ amount_of u q
streams_others u m minute h = refl
streams_others u m stream h = absurd (h refl)
streams_others u m byte h = refl
streams_others u m task h = refl

streams-Counted :
    (u v : UsageCounter) (o : Option ℕ)
    → o ≡ add_within i32_max u.streams (pos 1)
    → with_streams u o ≡ some v
    → Counted streams u v
streams-Counted u v none o h = absurd cc
streams-Counted u v (some m) o h =
    let (k, a, e, le) = within i32_max u.streams (pos 1) m (sym o) in
    subst (Counted streams u) (some-injective _ _ h) (record {
      same_tenant = refl;
      same_period = refl;
      added_amount = k;
      is_amount = a;
      sum = e;
      fits = le;
      others = streams_others u m;
    })

bytes_others :
    (u : UsageCounter) (m : ℕ) (q : Quantity)
    → q ≢ byte
    → amount_of (record u { bytes = m }) q ≡ amount_of u q
bytes_others u m minute h = refl
bytes_others u m stream h = refl
bytes_others u m byte h = absurd (h refl)
bytes_others u m task h = refl

bytes-Counted :
    (n : ℤ) (u v : UsageCounter) (o : Option ℕ)
    → o ≡ add_within i64_max u.bytes n
    → with_bytes u o ≡ some v
    → Counted (bytes n) u v
bytes-Counted n u v none o h = absurd cc
bytes-Counted n u v (some m) o h =
    let (k, a, e, le) = within i64_max u.bytes n m (sym o) in
    subst (Counted (bytes n) u) (some-injective _ _ h) (record {
      same_tenant = refl;
      same_period = refl;
      added_amount = k;
      is_amount = a;
      sum = e;
      fits = le;
      others = bytes_others u m;
    })

tasks_others :
    (u : UsageCounter) (m : ℕ) (q : Quantity)
    → q ≢ task
    → amount_of (record u { tasks_created = m }) q ≡ amount_of u q
tasks_others u m minute h = refl
tasks_others u m stream h = refl
tasks_others u m byte h = refl
tasks_others u m task h = absurd (h refl)

tasks-Counted :
    (u v : UsageCounter) (o : Option ℕ)
    → o ≡ add_within i32_max u.tasks_created (pos 1)
    → with_tasks u o ≡ some v
    → Counted tasks_created u v
tasks-Counted u v none o h = absurd cc
tasks-Counted u v (some m) o h =
    let (k, a, e, le) = within i32_max u.tasks_created (pos 1) m (sym o) in
    subst (Counted tasks_created u) (some-injective _ _ h) (record {
      same_tenant = refl;
      same_period = refl;
      added_amount = k;
      is_amount = a;
      sum = e;
      fits = le;
      others = tasks_others u m;
    })

pub added-Counted : (i : Increment) (u v : UsageCounter) → added i u ≡ some v → Counted i u v
added-Counted (task_minutes n) u v h = minutes-Counted n u v _ refl h
added-Counted streams u v h = streams-Counted u v _ refl h
added-Counted (bytes n) u v h = bytes-Counted n u v _ refl h
added-Counted tasks_created u v h = tasks-Counted u v _ refl h

pub added-Keeps : (i : Increment) → Keeps (added i)
added-Keeps i u v h = let c = added-Counted i u v h in (c.same_tenant, c.same_period)

-- An amount that fits is added.
added_within :
    (top old : ℕ) (n : ℤ) (k : ℕ)
    → n ≡ pos k
    → old + k ≤ top
    → add_within top old n ≡ some (old + k)
added_within top old n k e le = rw e (ground (arith, le))

pub added-Fits :
    (i : Increment) (u : UsageCounter) → Fits i u → (v : UsageCounter) × (added i u ≡ some v)
added-Fits (task_minutes n) u (k, e, le) =
    (_, ap (with_minutes u) (added_within i32_max u.task_minutes n k e le))
added-Fits streams u (k, e, le) =
    (_, ap (with_streams u) (added_within i32_max u.streams (pos 1) k e le))
added-Fits (bytes n) u (k, e, le) = (_, ap (with_bytes u) (added_within i64_max u.bytes n k e le))
added-Fits tasks_created u (k, e, le) =
    (_, ap (with_tasks u) (added_within i32_max u.tasks_created (pos 1) k e le))
