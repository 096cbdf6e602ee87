-- ===== src/Quota.antt =====
-- Plans and quotas (axontask-shared/src/quota.rs; `TenantPlan` of models/tenant.rs). The tenants' table is
-- another one: what `Tenant::find_by_id` answers, less all but the plan, is an argument.
pub mod Plans
pub mod Start
pub mod Checks
pub mod Limits
use axon_task.Prelude.{
  ℕ, ◌-◌, ◌%◌, ◌^◌, Text, text, text_eq, Bool, true, false, not, ◌&&◌, Option, none, some, length,
  keep, leb, ◌==◌, if◌then◌else◌, Result, ok, err,
}
use axon_task.Task.{Uuid, Task, running, same_state}
use axon_task.Task.Queries.{SqlError, database}
use axon_task.Store.{Table}
use axon_task.Store.Rows.{rows_affected}
use axon_task.Db.{DateTime, Query, ◌>>=◌, pure, raise, lift, map_err, or_raise, statement}

pub data TenantPlan : Type 0 where
  trial entry pro enterprise : TenantPlan

unfoldable pub plan_as_str : TenantPlan → Text
unfolding text
plan_as_str trial = text "trial"
plan_as_str entry = text "entry"
plan_as_str pro = text "pro"
plan_as_str enterprise = text "enterprise"

unfoldable pub plan_from_str : Text → Option TenantPlan
plan_from_str s =
    if text_eq s (text "trial")
    then some trial
    else if text_eq s (text "entry")
    then some entry
    else if text_eq s (text "pro")
    then some pro
    else if text_eq s (text "enterprise")
    then some enterprise
    else none

pub data QuotaType : Type 0 where
  concurrent_tasks daily_tasks stream_connections : QuotaType

pub data QuotaError : Type 0 where
  limit_exceeded : QuotaType → ℕ → ℕ → QuotaError
  database_error : SqlError → QuotaError
  tenant_not_found : Uuid → QuotaError

pub record QuotaLimits : Type 0 where
  pub concurrent : ℕ
  pub daily : ℕ
  pub streams : ℕ

unfoldable pub for_plan : TenantPlan → QuotaLimits
for_plan trial = record { concurrent = 5; daily = 100; streams = 2 }
for_plan entry = record { concurrent = 25; daily = 1000; streams = 5 }
for_plan pro = record { concurrent = 100; daily = 10000; streams = 20 }
for_plan enterprise = record { concurrent = 500; daily = 100000; streams = 100 }

unfoldable pub get : QuotaLimits → QuotaType → ℕ
get l concurrent_tasks = l.concurrent
get l daily_tasks = l.daily
get l stream_connections = l.streams

pub record QuotaCheckResult : Type 0 where
  pub is_allowed : Bool
  pub current : ℕ
  pub limit : ℕ
  pub remaining : ℕ

abbrev pub allowed : ℕ → ℕ → QuotaCheckResult
allowed current limit = record {
  is_allowed = true;
  current = current;
  limit = limit;
  remaining = limit - current;
}

abbrev pub exceeded : ℕ → ℕ → QuotaCheckResult
exceeded current limit = record {
  is_allowed = false;
  current = current;
  limit = limit;
  remaining = 0;
}

-- `as u32`
abbrev pub to_u32 : ℕ → ℕ
to_u32 n = n % 4294967296

-- A day, in microseconds.
abbrev pub day : ℕ
day = 86400000000

abbrev pub plan_or_trial : Option TenantPlan → TenantPlan
plan_or_trial none = trial
plan_or_trial (some p) = p

abbrev pub limits_of : Text → QuotaLimits
limits_of plan = for_plan (plan_or_trial (plan_from_str plan))

abbrev pub verdict : ℕ → ℕ → QuotaCheckResult
verdict limit current = if leb limit current then exceeded current limit else allowed current limit

module _ {J : Type 0} where
  abbrev pub is_running_of : Uuid → Task J → Bool
  is_running_of tenant t = t.tenant_id == tenant && same_state t.state running

  abbrev pub is_recent_of : Uuid → DateTime → Task J → Bool
  is_recent_of tenant clock t = t.tenant_id == tenant && leb (clock - day) t.created_at

  unfoldable pub count_concurrent_tasks : Uuid → Query (Task J) SqlError ℕ
  count_concurrent_tasks tenant =
      statement database (λ now ts. (to_u32 (rows_affected (is_running_of tenant) ts), ts))

  -- `clock` is the API's clock.
  unfoldable pub count_daily_tasks : Uuid → DateTime → Query (Task J) SqlError ℕ
  count_daily_tasks tenant clock =
      statement database (λ now ts. (to_u32 (rows_affected (is_recent_of tenant clock) ts), ts))

  abbrev pub usage : Uuid → DateTime → QuotaType → Query (Task J) QuotaError ℕ
  usage tenant clock concurrent_tasks = map_err database_error (count_concurrent_tasks tenant)
  usage tenant clock daily_tasks = map_err database_error (count_daily_tasks tenant clock)
  usage tenant clock stream_connections = pure 0

  module _ (find_plan : Uuid → Result SqlError (Option Text)) where
    abbrev pub plan_of : Uuid → Query (Task J) QuotaError Text
    plan_of tenant = do
      found ← map_err database_error (lift (find_plan tenant))
      or_raise (tenant_not_found tenant) found

    unfoldable pub check : Uuid → DateTime → QuotaType → Query (Task J) QuotaError QuotaCheckResult
    check tenant clock kind = do
      plan ← plan_of tenant
      current ← usage tenant clock kind
      pure (verdict (get (limits_of plan) kind) current)

    abbrev pub require : QuotaType → QuotaCheckResult → Query (Task J) QuotaError (Unit {0})
    require kind r =
        if not r.is_allowed then raise (limit_exceeded kind r.limit r.current) else pure tt

    unfoldable pub enforce : Uuid → DateTime → QuotaType → Query (Task J) QuotaError (Unit {0})
    enforce tenant clock kind = do result ← check tenant clock kind; require kind result

    unfoldable pub get_limits : Uuid → Query (Task J) QuotaError QuotaLimits
    get_limits tenant = do plan ← plan_of tenant; pure (limits_of plan)
