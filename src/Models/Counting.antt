-- ===== src/Models/Counting.antt =====
-- The table of usage counters is a map from tenants and days to counters that start at zero
-- (axontask-shared/src/models/usage.rs).
use axon_task.Prelude.{
  ℕ, ◌≡◌, refl, Bool, true, false, Option, none, some, List, [], if◌then◌else◌, ok, err,
}
use axon_task.Task.{Uuid}
use axon_task.Task.Queries.{SqlError, database}
use axon_task.Db.{DateTime, Store, Query}
use axon_task.Db.Laws.{try_statement-ok, try_statement-err, try_statement_up}
use axon_task.Models.Usage.{
  UsageCounter, upsert, count, increment_task_minutes, increment_streams, increment_bytes,
  increment_tasks_created,
}
use axon_task.Models.Upserts.{counters, same_key, upsert-Upserted, upsert-some}
use axon_task.Models.Quantities.{
  Increment, task_minutes, streams, bytes, tasks_created, added, Counted, Fits, added-Keeps,
  added-Counted, added-Fits,
}

abbrev pub increment : Increment → Bool → ℕ → Uuid → Query UsageCounter SqlError UsageCounter
increment (task_minutes n) known today tenant = increment_task_minutes known today tenant n
increment streams known today tenant = increment_streams known today tenant
increment (bytes n) known today tenant = increment_bytes known today tenant n
increment tasks_created known today tenant = increment_tasks_created known today tenant

known_row :
    (known : Bool) (tenant : Uuid) (today : ℕ) (add : UsageCounter → Option UsageCounter)
    (us us' : List UsageCounter) (a : UsageCounter)
    → (if known then upsert tenant today add us else none) ≡ some (a, us')
    → (known ≡ true) × (upsert tenant today add us ≡ some (a, us'))
known_row true tenant today add us us' a h = (refl, h)
known_row false tenant today add us us' a h = absurd cc

-- What a statement that counts promises.
abbrev pub Promises :
    Increment
    → Bool
    → ℕ
    → Uuid
    → Store UsageCounter
    → Query UsageCounter SqlError UsageCounter
    → Type 0
Promises i known today tenant s query =
    ((a : UsageCounter)
      → (query s).0 ≡ ok a
      → (known ≡ true)
        × Counted i (counters s.rows tenant today) a
        × ((t : Uuid) (d : ℕ)
            → counters (query s).1.rows t d
              ≡ (if same_key tenant today t d then a else counters s.rows t d)))
    × ((e : SqlError) → (query s).0 ≡ err e → (query s).1.rows ≡ s.rows)
    × (s.faults ≡ []
        → known ≡ true
        → Fits i (counters s.rows tenant today)
        → (a : UsageCounter) × ((query s).0 ≡ ok a))

counted :
    (i : Increment) (known : Bool) (tenant : Uuid) (today : ℕ) (s : Store UsageCounter)
    → Promises i known today tenant s (count known tenant today (added i))
counted i known tenant today s =
    let effect = λ (now : DateTime) (us : List UsageCounter).
      if known then upsert tenant today (added i) us else none in
    (
      (λ a h.
          let (k, q) =
            known_row known tenant today (added i) s.rows _ a
              (try_statement-ok database effect s a h) in
          let (v, frame) = upsert-Upserted tenant today (added i) (added-Keeps i) s.rows _ a q in
          (k, added-Counted i (counters s.rows tenant today) a v, frame)),
      (λ e h. try_statement-err database effect s e h),
      (λ up k f.
          let (v, q) = added-Fits i (counters s.rows tenant today) f in
          let (rest, r) = upsert-some tenant today (added i) s.rows v q in
          (v, try_statement_up database effect s v rest up (rw k r))),
    )

-- The statements that count implement a map from tenants and days to four quantities, zero at first. One that
-- succeeds does so for a tenant that exists; it adds its amount, which is not negative, to its quantity of the
-- tenant today, within the range of the column, leaves the other three, all other tenants and all other days as
-- they are, and gives the result. One that fails changes nothing. With the database up, one does succeed for a
-- tenant that exists and an amount that is not negative and whose sum is within the range.
pub increment-refines :
    (i : Increment) (known : Bool) (today : ℕ) (tenant : Uuid) (s : Store UsageCounter)
    → Promises i known today tenant s (increment i known today tenant)
unfolding increment_task_minutes increment_streams increment_bytes increment_tasks_created
increment-refines (task_minutes n) known today tenant s =
    counted (task_minutes n) known tenant today s
increment-refines streams known today tenant s = counted streams known tenant today s
increment-refines (bytes n) known today tenant s = counted (bytes n) known tenant today s
increment-refines tasks_created known today tenant s = counted tasks_created known tenant today s
