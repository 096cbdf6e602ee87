-- ===== src/Membership/Roles.antt =====
-- The hierarchy of roles (`impl MembershipRole` of axontask-shared/src/models/membership.rs).
use axon_task.Prelude.{◌≡◌, Bool, true, ◌⊎◌, arith}
use axon_task.Membership.{
  MembershipRole, can_manage_users, can_manage_api_keys, can_manage_billing, can_delete_tenant,
  can_create_tasks, can_view_all_tasks, has_permission, permission_level,
}

-- What holds of a right that a stronger role also has.
abbrev pub Passes : (MembershipRole → Bool) → MembershipRole → MembershipRole → Type 0
Passes can weak strong = can weak ≡ true → can strong ≡ true

-- `has_permission` is a total order on the roles, with no two roles alike, and a role that has the permission
-- of another can do all that the other can.
pub has_permission-orders :
    (a b c : MembershipRole)
    → ((has_permission a b ≡ true) ⊎ (has_permission b a ≡ true))
      × (has_permission a b ≡ true → has_permission b a ≡ true → a ≡ b)
      × (has_permission a b ≡ true → has_permission b c ≡ true → has_permission a c ≡ true)
      × (has_permission a b ≡ true
          → Passes can_manage_users b a
            × Passes can_manage_api_keys b a
            × Passes can_manage_billing b a
            × Passes can_delete_tenant b a
            × Passes can_create_tasks b a
            × Passes can_view_all_tasks b a)
unfolding has_permission permission_level can_manage_users can_manage_api_keys can_manage_billing
    can_delete_tenant can_create_tasks can_view_all_tasks
has_permission-orders a b c = ground arith
