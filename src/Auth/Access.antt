-- ===== src/Auth/Access.antt =====
-- Who may do what (axontask-shared/src/auth/middleware.rs, `AuthContext`, and authorization.rs).
use axon_task.Prelude.{
  Text, Bool, true, false, Option, none, some, List, ◌==◌, if◌then◌else◌, Result, ok, err,
}
use axon_task.Task.{Uuid}
use axon_task.Db.{Query, ◌>>=◌, ◌>>◌, pure, raise, lift, map_err, or_raise}
use axon_task.Task.Queries.{SqlError}
use axon_task.Membership.{MembershipRole, owner, admin, member, viewer, has_permission, Membership}
use axon_task.Membership.Statements.{has_access, get_role}
use axon_task.Auth.Scopes

pub data AuthMethod : Type 0 where
  jwt api_key : AuthMethod

pub record AuthContext : Type 0 where
  pub user_id : Option Uuid
  pub tenant_id : Uuid
  pub method : AuthMethod
  pub scopes : Option (List Text)
  pub api_key_id : Option Uuid

-- The fields of an `ApiKey` that are read here.
pub record ApiKey : Type 0 where
  pub id : Uuid
  pub tenant_id : Uuid
  pub scopes : List Text

unfoldable pub from_jwt : Uuid → Uuid → AuthContext
from_jwt user tenant = record {
  user_id = some user;
  tenant_id = tenant;
  method = jwt;
  scopes = none;
  api_key_id = none;
}

unfoldable pub from_api_key : ApiKey → AuthContext
from_api_key key = record {
  user_id = none;
  tenant_id = key.tenant_id;
  method = api_key;
  scopes = some key.scopes;
  api_key_id = some key.id;
}

abbrev granted : Option (List Text) → Text → Bool
granted none required = false
granted (some scopes) required = Scopes.has_scope scopes required

abbrev by_method : AuthMethod → Option (List Text) → Text → Bool
by_method jwt scopes required = true
by_method api_key scopes required = granted scopes required

unfoldable pub has_scope : AuthContext → Text → Bool
has_scope auth required = by_method auth.method auth.scopes required

pub data AuthzError : Type 0 where
  not_member : Uuid → AuthzError
  insufficient_role : MembershipRole → MembershipRole → AuthzError
  missing_scope : Text → AuthzError
  not_authorized : AuthzError
  database_error : SqlError → AuthzError

pub data ResourcePermission : Type 0 where
  read write manage own : ResourcePermission

unfoldable pub min_role : ResourcePermission → MembershipRole
min_role read = viewer
min_role write = member
min_role manage = admin
min_role own = owner

abbrev pub Check : Type 0
Check = Query Membership AuthzError (Unit {0})

abbrev pub ensure : Bool → AuthzError → Check
ensure b e = if b then pure tt else raise e

unfoldable pub require_membership : Uuid → Uuid → Check
require_membership tenant user = do
  member_of ← map_err database_error (has_access tenant user)
  ensure member_of (not_member tenant)

unfoldable pub require_role : Uuid → Option Uuid → MembershipRole → Check
require_role tenant user required = do
  id ← or_raise (insufficient_role required viewer) user
  found ← map_err database_error (get_role tenant id)
  role ← or_raise (not_member tenant) found
  ensure (has_permission role required) (insufficient_role required role)

unfoldable pub require_scope : AuthContext → Text → Result AuthzError (Unit {0})
require_scope auth required =
    if has_scope auth required then ok tt else err (missing_scope required)

unfoldable pub require_permission : AuthContext → ResourcePermission → Text → Check
require_permission auth permission scope =
    require_role auth.tenant_id auth.user_id (min_role permission)
    >> lift (require_scope auth scope)

abbrev pub is_user : Option Uuid → Uuid → Bool
is_user none owner_id = false
is_user (some user) owner_id = user == owner_id

unfoldable pub require_ownership : AuthContext → Uuid → Result AuthzError (Unit {0})
require_ownership auth owner_id =
    if is_user auth.user_id owner_id then ok tt else err not_authorized

unfoldable pub require_access : AuthContext → Uuid → ResourcePermission → Text → Check
require_access auth owner_id permission scope =
    if is_user auth.user_id owner_id
    then lift (require_scope auth scope)
    else require_permission auth permission scope

unfoldable pub require_billing_access : AuthContext → Check
require_billing_access auth = require_role auth.tenant_id auth.user_id owner

unfoldable pub require_user_management : AuthContext → Check
require_user_management auth = require_role auth.tenant_id auth.user_id admin
