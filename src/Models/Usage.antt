-- ===== src/Models/Usage.antt =====
-- Usage counters by tenant and day (axontask-shared/src/models/usage.rs). A date is a number of days, and `today` what the
-- clock of the process says.
use axon_task.Prelude.{
  ℕ, suc, ◌+◌, ◌/◌, ℤ, pos, negsuc, Bool, ◌&&◌, Option, none, some, List, [], ◌∷◌, keep, head?,
  length, ltb, leb, ◌==◌, if◌then◌else◌,
}
use axon_task.Task.{Uuid}
use axon_task.Task.Queries.{SqlError, database}
use axon_task.Db.{Query, try_statement}
use axon_task.Db.Tables.{select, change, delete_where, is_affected, descending}

-- No counter is negative, by a constraint of the table.
pub record UsageCounter : Type 0 where
  pub tenant_id : Uuid
  pub period : ℕ
  pub task_minutes : ℕ  -- i32
  pub streams : ℕ  -- i32
  pub bytes : ℕ  -- i64
  pub tasks_created : ℕ  -- i32

abbrev pub zeros : Uuid → ℕ → UsageCounter
zeros tenant period = record {
  tenant_id = tenant;
  period = period;
  task_minutes = 0;
  streams = 0;
  bytes = 0;
  tasks_created = 0;
}

abbrev pub is_of : Uuid → ℕ → UsageCounter → Bool
is_of tenant period u = u.tenant_id == tenant && u.period == period

-- `counter + n`, which is an error of the database above the greatest number of the column. The row that is
-- proposed, with `n` itself, is checked before the conflict is looked at, so that a negative `n` is always an error.
abbrev pub add_within : ℕ → ℕ → ℤ → Option ℕ
add_within greatest old (pos n) = if leb (old + n) greatest then some (old + n) else none
add_within greatest old (negsuc n) = none

abbrev pub i32_max : ℕ
i32_max = 2147483647

abbrev pub i64_max : ℕ
i64_max = 9223372036854775807

abbrev pub with_minutes : UsageCounter → Option ℕ → Option UsageCounter
with_minutes u none = none
with_minutes u (some n) = some (record u { task_minutes = n })

abbrev pub with_streams : UsageCounter → Option ℕ → Option UsageCounter
with_streams u none = none
with_streams u (some n) = some (record u { streams = n })

abbrev pub with_bytes : UsageCounter → Option ℕ → Option UsageCounter
with_bytes u none = none
with_bytes u (some n) = some (record u { bytes = n })

abbrev pub with_tasks : UsageCounter → Option ℕ → Option UsageCounter
with_tasks u none = none
with_tasks u (some n) = some (record u { tasks_created = n })

abbrev pub add_minutes : ℤ → UsageCounter → Option UsageCounter
add_minutes n u = with_minutes u (add_within i32_max u.task_minutes n)

abbrev pub add_stream : UsageCounter → Option UsageCounter
add_stream u = with_streams u (add_within i32_max u.streams (pos 1))

abbrev pub add_bytes : ℤ → UsageCounter → Option UsageCounter
add_bytes n u = with_bytes u (add_within i64_max u.bytes n)

abbrev pub add_task : UsageCounter → Option UsageCounter
add_task u = with_tasks u (add_within i32_max u.tasks_created (pos 1))

-- `INSERT … ON CONFLICT (tenant_id, period) DO UPDATE … RETURNING …`
abbrev pub before_rest :
    List UsageCounter → Option UsageCounter → Option (UsageCounter × List UsageCounter)
before_rest us none = none
before_rest us (some u) = some (u, u ∷ us)

abbrev pub after_row :
    UsageCounter
    → Option (UsageCounter × List UsageCounter)
    → Option (UsageCounter × List UsageCounter)
after_row u none = none
after_row u (some (a, us)) = some (a, u ∷ us)

abbrev pub upsert :
    Uuid
    → ℕ
    → (UsageCounter → Option UsageCounter)
    → List UsageCounter
    → Option (UsageCounter × List UsageCounter)
upsert tenant period add [] = before_rest [] (add (zeros tenant period))
upsert tenant period add (u ∷ us) =
    let rest = upsert tenant period add us in
    if is_of tenant period u then before_rest us (add u) else after_row u rest

-- `known`: the tenant that the foreign key names exists.
abbrev pub count :
    Bool
    → Uuid
    → ℕ
    → (UsageCounter → Option UsageCounter)
    → Query UsageCounter SqlError UsageCounter
count known tenant today add =
    try_statement database (λ now us. if known then upsert tenant today add us else none)

unfoldable pub increment_task_minutes :
    Bool → ℕ → Uuid → ℤ → Query UsageCounter SqlError UsageCounter
increment_task_minutes known today tenant minutes = count known tenant today (add_minutes minutes)

unfoldable pub increment_streams : Bool → ℕ → Uuid → Query UsageCounter SqlError UsageCounter
increment_streams known today tenant = count known tenant today add_stream

unfoldable pub increment_bytes : Bool → ℕ → Uuid → ℤ → Query UsageCounter SqlError UsageCounter
increment_bytes known today tenant bytes = count known tenant today (add_bytes bytes)

unfoldable pub increment_tasks_created : Bool → ℕ → Uuid → Query UsageCounter SqlError UsageCounter
increment_tasks_created known today tenant = count known tenant today add_task

abbrev pub or_zeros : Uuid → ℕ → Option UsageCounter → UsageCounter
or_zeros tenant period none = zeros tenant period
or_zeros tenant period (some u) = u

unfoldable pub get_current : ℕ → Uuid → Query UsageCounter SqlError UsageCounter
get_current today tenant =
    select database (λ now us. or_zeros tenant today (head? (keep (is_of tenant today) us)))

unfoldable pub get_for_period : Uuid → ℕ → Query UsageCounter SqlError (Option UsageCounter)
get_for_period tenant period = select database (λ now us. head? (keep (is_of tenant period) us))

-- `period >= CURRENT_DATE - days`, where `days` may be negative.
abbrev pub is_recent : ℕ → ℤ → ℕ → Bool
is_recent current_date (pos days) period = leb current_date (period + days)
is_recent current_date (negsuc days) period = leb (current_date + suc days) period

unfoldable pub get_history : Uuid → ℤ → Query UsageCounter SqlError (List UsageCounter)
get_history tenant days = select database (λ now us.
    descending (λ u. u.period)
      (keep (λ u. u.tenant_id == tenant && is_recent (now / 86400000000) days u.period) us))

unfoldable pub reset_period : Uuid → ℕ → Query UsageCounter SqlError Bool
reset_period tenant period =
    change database (λ now us. is_affected (is_of tenant period) us)
      (λ now us. delete_where (is_of tenant period) us)

unfoldable pub delete_before : ℕ → Query UsageCounter SqlError ℕ
delete_before before =
    change database (λ now us. length (keep (λ u. ltb u.period before) us))
      (λ now us. delete_where (λ u. ltb u.period before) us)
