-- ===== src/Scenarios/Accounts.antt =====
-- Two API keys of which one is revoked, and counters of two tenants (axontask-shared/src/models/api_key.rs, usage.rs).
use axon_task.Prelude.{
  ℕ, ◌≡◌, ◌≢◌, refl, ap, ◌∙◌, ◌&&◌, pos, Text, text, text_eq, true, false, none, some, List, [],
  ◌∷◌, All, ok, if◌then◌else◌,
}
use axon_task.Task.{Uuid}
use axon_task.Task.Queries.{database}
use axon_task.Db.{Store, try_statement}
use axon_task.Db.Tables.{change, update_where, returning_one}
use axon_task.Models.ApiKeys
use axon_task.Models.ApiKeys.{ApiKey, hash_key}
use axon_task.Models.Revocation
use axon_task.Models.Revocation.{Operation, tick, IsFresh, perform, perform_all, validate-revoke}
use axon_task.Models.Users.{User, UpdateUser, update, by_id, are_unique}
use axon_task.Models.UserUpdates.{updated, update_lem}
use axon_task.Models.Tenants.{Tenant, get_plan}
use axon_task.Models.Planned
use axon_task.Models.Planned.{HasPlan, perform_all-HasPlan}
use axon_task.Quota.{trial, entry, pro, plan_from_str}
use axon_task.Models.Usage.{UsageCounter}
use axon_task.Models.Quantities.{task_minutes}
use axon_task.Models.Counting.{increment, Promises, increment-refines}

abbrev key_of : Uuid → Text → ApiKey
key_of id hash = record {
  id = id;
  tenant_id = 9;
  name = text "ci";
  key_prefix = [];
  key_hash = hash;
  scopes = [];
  created_at = 0;
  last_used_at = none;
  revoked = false;
  revoked_at = none;
  expires_at = none;
}

abbrev two_keys : Store ApiKey
two_keys = record { rows = key_of 1 (text "a") ∷ key_of 2 (text "b") ∷ []; now = 50; faults = [] }

abbrev same : Text → Text
same t = t

abbrev later : List Operation
later = tick 5 ∷ Revocation.validate (text "a") ∷ []

abbrev used : ApiKey
used = record (key_of 2 (text "b")) { last_used_at = some 55 }

revoked_first : (ApiKeys.revoke 1 two_keys).0 ≡ ok true
unfolding ApiKeys.revoke change
revoked_first = refl

second_valid :
    (ApiKeys.validate same (text "b") (perform_all same later (ApiKeys.revoke 1 two_keys).1)).0
    ≡ ok (some used)
unfolding ApiKeys.revoke ApiKeys.validate hash_key perform perform_all change text text_eq
second_valid = refl

validate-revoke_example : used.id ≢ 1
validate-revoke_example =
    validate-revoke same 1 two_keys true later (text "b") used revoked_first (tt, (tt, tt))
      second_valid

abbrev one_tenant : Store UsageCounter
one_tenant = record {
  rows =
      record {
        tenant_id = 4;
        period = 100;
        task_minutes = 7;
        streams = 0;
        bytes = 0;
        tasks_created = 1;
      }
      ∷ [];
  now = 0;
  faults = [];
}

increment-refines_example :
    Promises
      (task_minutes (pos 3))
      true
      100
      4
      one_tenant
      (increment (task_minutes (pos 3)) true 100 4)
increment-refines_example = increment-refines (task_minutes (pos 3)) true 100 4 one_tenant

abbrev ann : User
ann = record {
  id = 1;
  email = text "ann@x";
  email_verified = true;
  password_hash = [];
  name = none;
  avatar_url = none;
  created_at = 0;
  updated_at = 0;
  last_login_at = none;
}

abbrev users : Store User
users = record { rows = ann ∷ []; now = 8; faults = [] }

-- A new name, and no avatar.
abbrev new_name : UpdateUser
new_name = record {
  email = none;
  password_hash = none;
  name = some (some (text "Ann"));
  avatar_url = some none;
  email_verified = none;
}

update_lem_example :
    update text_eq true 1 new_name users
    ≡ try_statement database
        (λ now us.
          if true && are_unique text_eq (update_where (by_id 1) (updated now new_name) us)
          then some (
            returning_one (by_id 1) (updated now new_name) us,
            update_where (by_id 1) (updated now new_name) us,
          )
          else none)
        users
update_lem_example = update_lem text_eq true 1 new_name users

-- A tenant on the plan "pro" that is put on "entry", and a new one.
abbrev tenants : Store (Tenant ℕ)
tenants = record {
  rows =
      record {
        id = 4;
        name = text "acme";
        plan = text "pro";
        stripe_customer_id = none;
        stripe_subscription_id = none;
        settings = 0;
        created_at = 0;
        updated_at = 0;
      }
      ∷ [];
  now = 8;
  faults = [];
}

abbrev changes : List (Planned.Operation ℕ)
changes =
    Planned.update_plan 4 entry
    ∷ Planned.create true 5 (record { name = text "beta"; plan = trial })
    ∷ []

has_pro : plan_from_str (text "pro") ≡ some pro
unfolding plan_from_str text text_eq
has_pro = refl

pro_planned : (t : Tenant ℕ) → t.plan ≡ text "pro" → HasPlan (λ a b. b) 0 t
unfolding get_plan
pro_planned t e = (pro, ap plan_from_str e ∙ has_pro)

perform_all-HasPlan_example :
    All (HasPlan (λ a b. b) 0) (Planned.perform_all (λ a b. b) 0 changes tenants).rows
perform_all-HasPlan_example =
    perform_all-HasPlan (λ a b. b) 0 changes tenants (pro_planned _ refl, tt)
