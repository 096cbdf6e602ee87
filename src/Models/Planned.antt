-- ===== src/Models/Planned.antt =====
-- That every tenant has a plan, after any statements (axontask-shared/src/models/tenant.rs).
use mathlib.Core.Path.{subst}
use mathlib.Core.Option.{some-injective}
use axon_task.Prelude.{
  ℕ, ◌+◌, ℤ, ◌≡◌, refl, sym, ap, ◌∙◌, inl, inr, Text, Bool, true, false, not, ◌&&◌, Option, none,
  some, List, [], ◌∷◌, any, keep, text_eq, All, All-append, All-keep, Bool-cases,
}
use axon_task.Task.{Uuid}
use axon_task.Task.Queries.{database}
use axon_task.Db.{DateTime, Store}
use axon_task.Db.Laws.{try_statement-keeps}
use axon_task.Db.Tables.{change-keeps, select-keeps, All-update_where}
use axon_task.Quota.{TenantPlan, plan_as_str, plan_from_str}
use axon_task.Quota.Plans.{read_back}
use axon_task.Models.Tenants
use axon_task.Models.Tenants.{
  Tenant, CreateTenant, UpdateTenant, by_id, if_fits, get_plan, set_plan, set_fields, new_row,
  insert_row, page, unchanged,
}
use axon_task.Models.Updates.{update_with}
use axon_task.Models.TenantUpdates.{updated, given_plan, update_effect}

-- A statement on the table, and time that passes between two of them.
pub data Operation (J : Type 0) : Type 0 where
  tick : ℕ → Operation J
  create : Bool → Uuid → CreateTenant → Operation J
  find_by_id : Uuid → Operation J
  find_by_name : Text → Operation J
  update : Bool → Uuid → UpdateTenant J → Operation J
  update_plan : Uuid → TenantPlan → Operation J
  delete : Uuid → Operation J
  list : ℤ → ℤ → Operation J
  count : Operation J
  list_by_plan : TenantPlan → ℤ → ℤ → Operation J

planned_text :
    (o : Option TenantPlan) (old : Text)
    → (p : TenantPlan) × (plan_from_str old ≡ some p)
    → (p : TenantPlan) × (plan_from_str (given_plan o old) ≡ some p)
planned_text none old h = h
planned_text (some q) old h = (q, read_back q)

none_not_some : {A : Type 0} {a : A} → ¬ ◌≡◌ {A = Option A} none (some a)
none_not_some h = cc

module _ {J : Type 0} (merge : J → J → J) (no_settings : J) where
  unfoldable pub perform : Operation J → Store (Tenant J) → Store (Tenant J)
  perform (tick n) s = record s { now = s.now + n }
  perform (create fits id d) s = (Tenants.create no_settings fits id d s).1
  perform (find_by_id id) s = (Tenants.find_by_id id s).1
  perform (find_by_name named) s = (Tenants.find_by_name named s).1
  perform (update fits id d) s = (Tenants.update merge fits id d s).1
  perform (update_plan id p) s = (Tenants.update_plan id p s).1
  perform (delete id) s = (Tenants.delete id s).1
  perform (list limit offset) s = (Tenants.list limit offset s).1
  perform count s = (Tenants.count s).1
  perform (list_by_plan p limit offset) s = (Tenants.list_by_plan p limit offset s).1

  unfoldable pub perform_all : List (Operation J) → Store (Tenant J) → Store (Tenant J)
  perform_all [] s = s
  perform_all (op ∷ ops) s = perform_all ops (perform op s)

  abbrev pub HasPlan : Tenant J → Type 0
  HasPlan t = (p : TenantPlan) × (get_plan t ≡ some p)

  abbrev AllPlanned : List (Tenant J) → Type 0
  AllPlanned ts = All HasPlan ts

  plan_read : (p : TenantPlan) (t : Tenant J) → t.plan ≡ plan_as_str p → HasPlan t
  unfolding get_plan
  plan_read p t e = (p, ap plan_from_str e ∙ read_back p)

  updated-HasPlan :
      (now : DateTime) (d : UpdateTenant J) (t : Tenant J)
      → HasPlan t
      → HasPlan (updated merge now d t)
  unfolding get_plan
  updated-HasPlan now d t h = planned_text d.plan t.plan h

  inserted :
      (fits : Bool) (id : Uuid) (d : CreateTenant) (now : DateTime) (ts ts' : List (Tenant J))
      (t : Tenant J)
      → AllPlanned ts
      → insert_row no_settings fits id d now ts ≡ some (t, ts')
      → AllPlanned ts'
  inserted fits id d now ts ts' t h q = elim (Bool-cases (fits && not (any (by_id id) ts))) [
    | inl e ↦ subst AllPlanned (ap (λ p. p.1) (some-injective _ _ (rw e at q))) (
        All-append HasPlan ts (new_row no_settings id d now ∷ []) h
          (plan_read d.plan (new_row no_settings id d now) refl, tt))
    | inr e ↦ absurd (none_not_some (rw e at q))
  ]

  rewritten :
      (fits : Bool) (id : Uuid) (d : UpdateTenant J) (now : DateTime) (ts ts' : List (Tenant J))
      (a : Option (Tenant J))
      → AllPlanned ts
      → if_fits merge fits (update_with (by_id id) (set_fields merge now d) ts) ≡ some (a, ts')
      → AllPlanned ts'
  rewritten true id d now ts ts' a h q =
      subst AllPlanned
        (ap (λ p. p.1) (some-injective _ _ (sym (update_effect merge true id d now ts) ∙ q)))
        (All-update_where HasPlan (by_id id) (updated merge now d) ts
          (λ t e p. updated-HasPlan now d t p) h)
  rewritten false id d now ts ts' a h q = absurd (none_not_some q)

  listed :
      (ts ts' found : List (Tenant J)) (o : Option (List (Tenant J)))
      → AllPlanned ts
      → unchanged ts o ≡ some (found, ts')
      → AllPlanned ts'
  listed ts ts' found none h q = absurd (none_not_some q)
  listed ts ts' found (some f) h q = subst AllPlanned (ap (λ p. p.1) (some-injective _ _ q)) h

  perform-HasPlan :
      (op : Operation J) (s : Store (Tenant J))
      → All HasPlan s.rows
      → All HasPlan (perform op s).rows
  unfolding perform Tenants.create Tenants.find_by_id Tenants.find_by_name Tenants.update
      Tenants.update_plan Tenants.delete Tenants.list Tenants.count Tenants.list_by_plan
  perform-HasPlan (tick n) s h = h
  perform-HasPlan (create fits id d) s h =
      try_statement-keeps (λ now ts. AllPlanned ts) database (insert_row no_settings fits id d) s h
        (λ t ts q. inserted fits id d s.now s.rows ts t h q)
  perform-HasPlan (find_by_id id) s h = select-keeps AllPlanned database _ s h
  perform-HasPlan (find_by_name named) s h = select-keeps AllPlanned database _ s h
  perform-HasPlan (update fits id d) s h =
      try_statement-keeps (λ now ts. AllPlanned ts) database
        (λ now ts. if_fits merge fits (update_with (by_id id) (set_fields merge now d) ts)) s h
        (λ a ts q. rewritten fits id d s.now s.rows ts a h q)
  perform-HasPlan (update_plan id p) s h = change-keeps AllPlanned database _ _ s h (
      All-update_where HasPlan (by_id id) (set_plan s.now p) s.rows
        (λ t e o. plan_read p (set_plan s.now p t) refl) h)
  perform-HasPlan (delete id) s h =
      change-keeps AllPlanned database _ _ s h (All-keep HasPlan (λ t. not (by_id id t)) s.rows h)
  perform-HasPlan (list limit offset) s h =
      try_statement-keeps (λ now ts. AllPlanned ts) database
        (λ now ts. unchanged ts (page limit offset ts)) s h
        (λ found ts q. listed s.rows ts found (page limit offset s.rows) h q)
  perform-HasPlan count s h = select-keeps AllPlanned database _ s h
  perform-HasPlan (list_by_plan p limit offset) s h =
      let found = λ (ts : List (Tenant J)).
        page limit offset (keep (λ t. text_eq t.plan (plan_as_str p)) ts) in
      try_statement-keeps (λ now ts. AllPlanned ts) database (λ now ts. unchanged ts (found ts)) s h
        (λ rows ts q. listed s.rows ts rows (found s.rows) h q)

  -- Whatever statements run on a table of tenants that all have a plan, and whichever of them fail, all tenants have a
  -- plan afterwards: `get_plan` never gives `None`.
  pub perform_all-HasPlan :
      (ops : List (Operation J)) (s : Store (Tenant J))
      → All HasPlan s.rows
      → All HasPlan (perform_all ops s).rows
  unfolding perform_all
  perform_all-HasPlan [] s h = h
  perform_all-HasPlan (op ∷ ops) s h =
      perform_all-HasPlan ops (perform op s) (perform-HasPlan op s h)
