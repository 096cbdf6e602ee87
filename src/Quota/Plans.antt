-- ===== src/Quota/Plans.antt =====
-- Plans as texts, and as limits (axontask-shared/src/models/tenant.rs and src/quota.rs).
use axon_task.Prelude.{◌≡◌, refl, ap, ◌∙◌, ◌↔◌, Text, text, text_eq, eq_of_text_eq, some, arith}
use axon_task.Quota.{TenantPlan, trial, entry, pro, enterprise, plan_as_str, plan_from_str}

pub read_back : (p : TenantPlan) → plan_from_str (plan_as_str p) ≡ some p
unfolding plan_from_str plan_as_str text_eq
read_back trial = refl
read_back entry = refl
read_back pro = refl
read_back enterprise = refl

read_sound : (s : Text) (p : TenantPlan) → plan_from_str s ≡ some p → s ≡ plan_as_str p
unfolding plan_from_str plan_as_str
read_sound s p h = ground (
  arith,
  eq_of_text_eq s (text "trial"),
  eq_of_text_eq s (text "entry"),
  eq_of_text_eq s (text "pro"),
  eq_of_text_eq s (text "enterprise"),
)

-- `from_str` reads back exactly what `as_str` writes of a plan.
pub plan_from_str-plan_as_str :
    (s : Text) (p : TenantPlan) → (plan_from_str s ≡ some p) ↔ (s ≡ plan_as_str p)
plan_from_str-plan_as_str s p = (read_sound s p, λ h. ap plan_from_str h ∙ read_back p)
