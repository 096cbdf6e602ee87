-- ===== src/Models/Tenants.antt =====
-- Tenants and their statements (axontask-shared/src/models/tenant.rs; the plans are in Quota.antt). `settings` is a JSON value
-- of any type `J`, and `merge` the operator `||` of the database on such values.
use axon_task.Prelude.{
  ℕ, ℤ, pos, Text, text_eq, Bool, true, false, not, ◌&&◌, Option, none, some, List, [], ◌∷◌, ◌++◌,
  keep, any, head?, take, drop, length, ◌==◌, if◌then◌else◌,
}
use axon_task.Task.{Uuid}
use axon_task.Task.Queries.{SqlError, database}
use axon_task.Db.{DateTime, Query, try_statement}
use axon_task.Db.Tables.{
  select, change, update_where, returning_one, delete_where, is_affected, descending,
}
use axon_task.Quota.{TenantPlan, trial, plan_as_str, plan_from_str}
use axon_task.Models.Updates.{is_some, wrap, set_clauses, bound, run, update_with}

pub record Tenant (J : Type 0) : Type 0 where
  pub id : Uuid
  pub name : Text
  pub plan : Text
  pub stripe_customer_id : Option Text
  pub stripe_subscription_id : Option Text
  pub settings : J
  pub created_at : DateTime
  pub updated_at : DateTime

pub record CreateTenant : Type 0 where
  pub name : Text
  pub plan : TenantPlan

abbrev pub default_plan : TenantPlan
default_plan = trial

pub record UpdateTenant (J : Type 0) : Type 0 where
  pub name : Option Text
  pub plan : Option TenantPlan
  pub stripe_customer_id : Option Text
  pub stripe_subscription_id : Option Text
  pub settings : Option J

-- The columns that `update` can set, and the values that it binds; a value of another type is an error.
pub data Column : Type 0 where
  name plan stripe_customer_id stripe_subscription_id settings : Column

pub data Value (J : Type 0) : Type 0 where
  plain : Text → Value J
  json : J → Value J

module _ {J : Type 0} where
  unfoldable pub get_plan : Tenant J → Option TenantPlan
  get_plan t = plan_from_str t.plan

  abbrev pub by_id : Uuid → Tenant J → Bool
  by_id id t = t.id == id

  abbrev pub columns : UpdateTenant J → List (Column × Bool)
  columns d =
      (name, is_some d.name)
      ∷ (plan, is_some d.plan)
      ∷ (stripe_customer_id, is_some d.stripe_customer_id)
      ∷ (stripe_subscription_id, is_some d.stripe_subscription_id)
      ∷ (settings, is_some d.settings)
      ∷ []

  abbrev pub values : UpdateTenant J → List (Option (Value J))
  values d =
      wrap plain d.name
      ∷ wrap (λ p. plain (plan_as_str p)) d.plan
      ∷ wrap plain d.stripe_customer_id
      ∷ wrap plain d.stripe_subscription_id
      ∷ wrap json d.settings
      ∷ []

  unfoldable pub find_by_id : Uuid → Query (Tenant J) SqlError (Option (Tenant J))
  find_by_id id = select database (λ now ts. head? (keep (by_id id) ts))

  unfoldable pub find_by_name : Text → Query (Tenant J) SqlError (Option (Tenant J))
  find_by_name named = select database (λ now ts. head? (keep (λ t. text_eq t.name named) ts))

  abbrev pub set_plan : DateTime → TenantPlan → Tenant J → Tenant J
  set_plan now p t = record t { plan = plan_as_str p; updated_at = now }

  unfoldable pub update_plan : Uuid → TenantPlan → Query (Tenant J) SqlError (Option (Tenant J))
  update_plan id p =
      change database (λ now ts. returning_one (by_id id) (set_plan now p) ts)
        (λ now ts. update_where (by_id id) (set_plan now p) ts)

  unfoldable pub delete : Uuid → Query (Tenant J) SqlError Bool
  delete id =
      change database (λ now ts. is_affected (by_id id) ts) (λ now ts. delete_where (by_id id) ts)

  -- `LIMIT` and `OFFSET`: a negative one is an error of the database.
  abbrev pub page : ℤ → ℤ → List (Tenant J) → Option (List (Tenant J))
  page (pos limit) (pos offset) ts =
      some (take limit (drop offset (descending (λ t. t.created_at) ts)))
  page limit offset ts = none

  abbrev pub unchanged :
      List (Tenant J) → Option (List (Tenant J)) → Option (List (Tenant J) × List (Tenant J))
  unchanged ts none = none
  unchanged ts (some found) = some (found, ts)

  unfoldable pub list : ℤ → ℤ → Query (Tenant J) SqlError (List (Tenant J))
  list limit offset = try_statement database (λ now ts. unchanged ts (page limit offset ts))

  unfoldable pub count : Query (Tenant J) SqlError ℕ
  count = select database (λ now ts. length ts)

  unfoldable pub list_by_plan : TenantPlan → ℤ → ℤ → Query (Tenant J) SqlError (List (Tenant J))
  list_by_plan p limit offset =
      try_statement database
        (λ now ts. unchanged ts (page limit offset (keep (λ t. text_eq t.plan (plan_as_str p)) ts)))

  -- `no_settings` is the JSON object without fields.
  abbrev pub new_row : J → Uuid → CreateTenant → DateTime → Tenant J
  new_row no_settings id d now = record {
    id = id;
    name = d.name;
    plan = plan_as_str d.plan;
    stripe_customer_id = none;
    stripe_subscription_id = none;
    settings = no_settings;
    created_at = now;
    updated_at = now;
  }

  abbrev pub insert_row :
      J
      → Bool
      → Uuid
      → CreateTenant
      → DateTime
      → List (Tenant J)
      → Option (Tenant J × List (Tenant J))
  insert_row no_settings fits id d now ts =
      if fits && not (any (by_id id) ts)
      then some (new_row no_settings id d now, ts ++ new_row no_settings id d now ∷ [])
      else none

  -- `fits` tells whether the texts fit their columns; `id` is what `gen_random_uuid()` gives.
  unfoldable pub create : J → Bool → Uuid → CreateTenant → Query (Tenant J) SqlError (Tenant J)
  create no_settings fits id d = try_statement database (insert_row no_settings fits id d)

module _ {J : Type 0} (merge : J → J → J) where
  abbrev pub assign : Column → Value J → Tenant J → Option (Tenant J)
  assign name (plain s) t = some (record t { name = s })
  assign plan (plain s) t = some (record t { plan = s })
  assign stripe_customer_id (plain s) t = some (record t { stripe_customer_id = some s })
  assign stripe_subscription_id (plain s) t = some (record t { stripe_subscription_id = some s })
  assign settings (json j) t = some (record t { settings = merge t.settings j })
  assign c v t = none

  -- `SET updated_at = NOW(), …` on a row.
  abbrev pub set_fields : DateTime → UpdateTenant J → Tenant J → Option (Tenant J)
  set_fields now d t =
      run assign (set_clauses 1 (columns d)) (bound (values d)) (record t { updated_at = now })

  abbrev pub if_fits :
      Bool
      → Option (Option (Tenant J) × List (Tenant J))
      → Option (Option (Tenant J) × List (Tenant J))
  if_fits true r = r
  if_fits false r = none

  unfoldable pub update :
      Bool → Uuid → UpdateTenant J → Query (Tenant J) SqlError (Option (Tenant J))
  update fits id d =
      try_statement database (λ now ts. if_fits fits (update_with (by_id id) (set_fields now d) ts))
