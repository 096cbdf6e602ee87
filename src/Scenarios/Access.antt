-- ===== src/Scenarios/Access.antt =====
-- Members of a tenant, and an API key (axontask-shared/src/models/membership.rs and src/auth).
use axon_task.Prelude.{
  ◌≡◌, refl, ◌⊎◌, ◌↔◌, not, ◌&&◌, Text, text, true, false, none, some, [], ◌∷◌, In, ok, err,
  if◌then◌else◌,
}
use axon_task.Db.{Store}
use axon_task.Task.Queries.{database}
use axon_task.Membership.{
  owner, admin, member, viewer, Membership, CreateMembership, has_permission, can_manage_users,
  can_manage_api_keys, can_manage_billing, can_delete_tenant, can_create_tasks, can_view_all_tasks,
}
use axon_task.Membership.Roles.{Passes, has_permission-orders}
use axon_task.Membership.Statements.{create, has_access, get_role, update_role, delete}
use axon_task.Membership.Refinement.{role_at, is_some, replaced, same_key, statements-refine}
use axon_task.Auth.Scopes.{has_scope}
use axon_task.Auth.ScopeRules.{Covers, has_scope_iff}
use axon_task.Auth.Access.{from_jwt, ResourcePermission, require_permission}
use axon_task.Auth.AccessRules.{IsAllowed, require_permission_iff}

abbrev members : Store Membership
members = record {
  rows =
      record { tenant_id = 7; user_id = 1; role = owner; created_at = 3 }
      ∷ record { tenant_id = 7; user_id = 2; role = viewer; created_at = 4 }
      ∷ [];
  now = 9;
  faults = [];
}

has_permission-orders_example :
    ((has_permission admin member ≡ true) ⊎ (has_permission member admin ≡ true))
    × (has_permission admin member ≡ true → has_permission member admin ≡ true → admin ≡ member)
    × (has_permission admin member ≡ true
        → has_permission member viewer ≡ true
        → has_permission admin viewer ≡ true)
    × (has_permission admin member ≡ true
        → Passes can_manage_users member admin
          × Passes can_manage_api_keys member admin
          × Passes can_manage_billing member admin
          × Passes can_delete_tenant member admin
          × Passes can_create_tasks member admin
          × Passes can_view_all_tasks member admin)
has_permission-orders_example = has_permission-orders admin member viewer

abbrev newcomer : CreateMembership
newcomer = record { tenant_id = 7; user_id = 5; role = member }

statements-refine_example :
    let role = role_at members.rows in
    let free = true && not (is_some (role 7 5)) in
    (get_role 7 2 members ≡ (ok (role 7 2), members))
    × (has_access 7 2 members ≡ (ok (is_some (role 7 2)), members))
    × (role_at (update_role 7 2 admin members).1.rows 7 2
        ≡ (if same_key 7 2 7 2 then replaced admin (role 7 2) else role 7 2))
    × ((delete 7 2 members).0 ≡ ok (is_some (role 7 2)))
    × (role_at (delete 7 2 members).1.rows 7 2 ≡ (if same_key 7 2 7 2 then none else role 7 2))
    × (free ≡ true
        → role_at (create true newcomer members).1.rows 7 2
          ≡ (if same_key 7 5 7 2 then some member else role 7 2))
    × (free ≡ false → create true newcomer members ≡ (err database, members))
statements-refine_example = statements-refine members refl 7 2 admin true newcomer 7 2

require_permission_iff_example :
    (((require_permission (from_jwt 1 7) ResourcePermission.own (text "billing") members).0 ≡ ok tt)
      ↔ IsAllowed (from_jwt 1 7) ResourcePermission.own (text "billing") members.rows)
    × ((require_permission (from_jwt 1 7) ResourcePermission.own (text "billing") members).1
        ≡ members)
require_permission_iff_example =
    require_permission_iff members refl (from_jwt 1 7) ResourcePermission.own (text "billing")

has_scope_iff_example :
    (has_scope (text "tasks:*" ∷ []) (text "tasks:read") ≡ true)
    ↔ ((scope : Text) × In scope (text "tasks:*" ∷ []) × Covers (text "tasks:read") scope)
has_scope_iff_example = has_scope_iff (text "tasks:*" ∷ []) (text "tasks:read")

abbrev stored : Text
stored = 97 ∷ 98 ∷ []

abbrev computed : Text
computed = 97 ∷ 99 ∷ []
