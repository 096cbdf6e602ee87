-- ===== src/Models/TenantUpdates.antt =====
-- What the statement that `Tenant::update` puts together does, and that every tenant has a plan
-- (axontask-shared/src/models/tenant.rs).
use axon_task.Prelude.{◌≡◌, refl, sym, ap, ◌∙◌, Text, Bool, Option, none, some, List, [], ◌∷◌, map}
use axon_task.Task.{Uuid}
use axon_task.Db.{DateTime}
use axon_task.Db.Tables.{update_where, returning_one}
use axon_task.Quota.{TenantPlan, plan_as_str}
use axon_task.Models.Updates.{
  is_some, wrap, set_clauses, bound, run, assign_given, assign_all, run-set_clauses, is_some-wrap,
  given, update_with, update_with_lem,
}
use axon_task.Models.Tenants.{
  Tenant, UpdateTenant, Column, name, plan, stripe_customer_id, stripe_subscription_id, settings,
  Value, plain, json, assign, columns, values, set_fields, by_id, if_fits,
}

-- An optional column that is given is set.
abbrev pub given_some : Option Text → Option Text → Option Text
given_some none old = old
given_some (some new) old = some new

abbrev pub given_plan : Option TenantPlan → Text → Text
given_plan none old = old
given_plan (some p) old = plan_as_str p

module _ {J : Type 0} (merge : J → J → J) where
  abbrev pub merged : Option J → J → J
  merged none old = old
  merged (some new) old = merge old new

  -- The row with the fields that are given.
  abbrev pub updated : DateTime → UpdateTenant J → Tenant J → Tenant J
  updated now d t = record t {
    name = given d.name t.name;
    plan = given_plan d.plan t.plan;
    stripe_customer_id = given_some d.stripe_customer_id t.stripe_customer_id;
    stripe_subscription_id = given_some d.stripe_subscription_id t.stripe_subscription_id;
    settings = merged d.settings t.settings;
    updated_at = now;
  }

  -- Each column with the value bound for it.
  abbrev fields : UpdateTenant J → List (Column × Option (Value J))
  fields d =
      (name, wrap plain d.name)
      ∷ (plan, wrap (λ p. plain (plan_as_str p)) d.plan)
      ∷ (stripe_customer_id, wrap plain d.stripe_customer_id)
      ∷ (stripe_subscription_id, wrap plain d.stripe_subscription_id)
      ∷ (settings, wrap json d.settings)
      ∷ []

  columns_of_fields : (d : UpdateTenant J) → map (λ f. (f.0, is_some f.1)) (fields d) ≡ columns d
  columns_of_fields d =
      rw
        (
          is_some-wrap {B = Value J} plain d.name,
          is_some-wrap {B = Value J} (λ p. plain (plan_as_str p)) d.plan,
          is_some-wrap {B = Value J} plain d.stripe_customer_id,
          is_some-wrap {B = Value J} plain d.stripe_subscription_id,
          is_some-wrap {B = Value J} json d.settings,
        )
        refl

  name_given :
      (o : Option Text) (t : Tenant J)
      → assign_given (assign merge) name (wrap plain o) t
        ≡ some (record t { name = given o t.name })
  name_given none t = refl
  name_given (some v) t = refl

  plan_given :
      (o : Option TenantPlan) (t : Tenant J)
      → assign_given (assign merge) plan (wrap (λ p. plain (plan_as_str p)) o) t
        ≡ some (record t { plan = given_plan o t.plan })
  plan_given none t = refl
  plan_given (some v) t = refl

  stripe_customer_id_given :
      (o : Option Text) (t : Tenant J)
      → assign_given (assign merge) stripe_customer_id (wrap plain o) t
        ≡ some (record t { stripe_customer_id = given_some o t.stripe_customer_id })
  stripe_customer_id_given none t = refl
  stripe_customer_id_given (some v) t = refl

  stripe_subscription_id_given :
      (o : Option Text) (t : Tenant J)
      → assign_given (assign merge) stripe_subscription_id (wrap plain o) t
        ≡ some (record t { stripe_subscription_id = given_some o t.stripe_subscription_id })
  stripe_subscription_id_given none t = refl
  stripe_subscription_id_given (some v) t = refl

  settings_given :
      (o : Option J) (t : Tenant J)
      → assign_given (assign merge) settings (wrap json o) t
        ≡ some (record t { settings = merged o t.settings })
  settings_given none t = refl
  settings_given (some v) t = refl

  assigned :
      (now : DateTime) (d : UpdateTenant J) (t : Tenant J)
      → assign_all (assign merge) (fields d) (record t { updated_at = now })
        ≡ some (updated now d t)
  unfolding assign_all
  assigned now d t =
      let t1 = record t { updated_at = now } in
      let t2 = record t1 { name = given d.name t.name } in
      let t3 = record t2 { plan = given_plan d.plan t.plan } in
      let t4 = record t3 {
        stripe_customer_id = given_some d.stripe_customer_id t.stripe_customer_id;
      } in
      let t5 = record t4 {
        stripe_subscription_id = given_some d.stripe_subscription_id t.stripe_subscription_id;
      } in
      rw
        (
          name_given d.name t1,
          plan_given d.plan t2,
          stripe_customer_id_given d.stripe_customer_id t3,
          stripe_subscription_id_given d.stripe_subscription_id t4,
          settings_given d.settings t5,
        )
        refl

  set_fields_lem :
      (now : DateTime) (d : UpdateTenant J) (t : Tenant J)
      → set_fields merge now d t ≡ some (updated now d t)
  set_fields_lem now d t =
      ap
        (λ cs.
          run (assign merge) (set_clauses 1 cs) (bound (values d)) (record t { updated_at = now }))
        (sym (columns_of_fields d))
      ∙ run-set_clauses (assign merge) (fields d) (record t { updated_at = now })
      ∙ assigned now d t

  -- What `Tenant::update` does to the table.
  pub update_effect :
      (fits : Bool) (id : Uuid) (d : UpdateTenant J) (now : DateTime) (ts : List (Tenant J))
      → if_fits merge fits (update_with (by_id id) (set_fields merge now d) ts)
        ≡ if_fits merge fits (
            some (
              returning_one (by_id id) (updated now d) ts,
              update_where (by_id id) (updated now d) ts,
            ))
  update_effect fits id d now ts = ap (if_fits merge fits) (
      update_with_lem (by_id id) (set_fields merge now d) (updated now d) ts (set_fields_lem now d))
