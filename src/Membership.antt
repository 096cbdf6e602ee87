-- ===== src/Membership.antt =====
-- Roles and memberships (axontask-shared/src/models/membership.rs).
pub mod Statements
pub mod Roles
pub mod Refinement
use axon_task.Prelude.{ℕ, Text, text, Bool, true, false, leb}
use axon_task.Task.{Uuid}
use axon_task.Db.{DateTime}

pub data MembershipRole : Type 0 where
  owner admin member viewer : MembershipRole

unfoldable pub as_str : MembershipRole → Text
unfolding text
as_str owner = text "owner"
as_str admin = text "admin"
as_str member = text "member"
as_str viewer = text "viewer"

unfoldable pub can_manage_users : MembershipRole → Bool
can_manage_users owner = true
can_manage_users admin = true
can_manage_users _ = false

unfoldable pub can_manage_api_keys : MembershipRole → Bool
can_manage_api_keys owner = true
can_manage_api_keys admin = true
can_manage_api_keys _ = false

unfoldable pub can_manage_billing : MembershipRole → Bool
can_manage_billing owner = true
can_manage_billing _ = false

unfoldable pub can_delete_tenant : MembershipRole → Bool
can_delete_tenant owner = true
can_delete_tenant _ = false

unfoldable pub can_create_tasks : MembershipRole → Bool
can_create_tasks viewer = false
can_create_tasks _ = true

unfoldable pub can_view_all_tasks : MembershipRole → Bool
can_view_all_tasks owner = true
can_view_all_tasks admin = true
can_view_all_tasks _ = false

unfoldable pub permission_level : MembershipRole → ℕ
permission_level owner = 4
permission_level admin = 3
permission_level member = 2
permission_level viewer = 1

unfoldable pub has_permission : MembershipRole → MembershipRole → Bool
unfolding permission_level
has_permission role required = leb (permission_level required) (permission_level role)

pub record Membership : Type 0 where
  pub tenant_id : Uuid
  pub user_id : Uuid
  pub role : MembershipRole
  pub created_at : DateTime

pub record CreateMembership : Type 0 where
  pub tenant_id : Uuid
  pub user_id : Uuid
  pub role : MembershipRole

abbrev pub default_role : MembershipRole
default_role = member
