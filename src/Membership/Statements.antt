-- ===== src/Membership/Statements.antt =====
-- The statements on `memberships` (`impl Membership` of axontask-shared/src/models/membership.rs).
use axon_task.Prelude.{
  ℕ, Bool, not, ◌&&◌, Option, none, some, List, [], ◌∷◌, ◌++◌, keep, any, head?, length, map, ltb,
  leb, ◌==◌, if◌then◌else◌,
}
use axon_task.Task.{Uuid}
use axon_task.Task.Queries.{SqlError, database}
use axon_task.Db.{DateTime, Query, try_statement, statement}
use axon_task.Membership.{MembershipRole, permission_level, Membership, CreateMembership}

abbrev pub is_of : Uuid → Uuid → Membership → Bool
is_of tenant user m = m.tenant_id == tenant && m.user_id == user

abbrev role_eq : MembershipRole → MembershipRole → Bool
role_eq a b = permission_level a == permission_level b

abbrev pub new_row : CreateMembership → DateTime → Membership
new_row d now = record {
  tenant_id = d.tenant_id;
  user_id = d.user_id;
  role = d.role;
  created_at = now;
}

abbrev pub insert_row :
    Bool → CreateMembership → DateTime → List Membership → Option (Membership × List Membership)
insert_row known d now ms =
    if known && not (any (is_of d.tenant_id d.user_id) ms)
    then some (new_row d now, ms ++ new_row d now ∷ [])
    else none

-- `known` tells whether the tenant and the user that the foreign keys name exist.
unfoldable pub create : Bool → CreateMembership → Query Membership SqlError Membership
create known d = try_statement database (insert_row known d)

unfoldable pub find : Uuid → Uuid → Query Membership SqlError (Option Membership)
find tenant user = statement database (λ now ms. (head? (keep (is_of tenant user) ms), ms))

unfoldable pub has_access : Uuid → Uuid → Query Membership SqlError Bool
has_access tenant user = statement database (λ now ms. (any (is_of tenant user) ms, ms))

abbrev pub role_in : Option Membership → Option MembershipRole
role_in none = none
role_in (some m) = some m.role

unfoldable pub get_role : Uuid → Uuid → Query Membership SqlError (Option MembershipRole)
get_role tenant user =
    statement database (λ now ms. (role_in (head? (keep (is_of tenant user) ms)), ms))

abbrev pub set_role : MembershipRole → Membership → Membership
set_role r m = record m { role = r }

abbrev pub set_where : (Membership → Bool) → MembershipRole → List Membership → List Membership
set_where hit r ms = map (λ m. if hit m then set_role r m else m) ms

unfoldable pub update_role :
    Uuid → Uuid → MembershipRole → Query Membership SqlError (Option Membership)
update_role tenant user r = statement database (λ now ms. (
  head? (keep (is_of tenant user) (set_where (is_of tenant user) r ms)),
  set_where (is_of tenant user) r ms,
))

unfoldable pub delete : Uuid → Uuid → Query Membership SqlError Bool
delete tenant user = statement database (λ now ms.
    (ltb 0 (length (keep (is_of tenant user) ms)), keep (λ m. not (is_of tenant user m)) ms))

-- `ORDER BY created_at ASC`
abbrev pub insert_by_age : Membership → List Membership → List Membership
insert_by_age m [] = m ∷ []
insert_by_age m (n ∷ ns) =
    if leb m.created_at n.created_at then m ∷ n ∷ ns else n ∷ insert_by_age m ns

abbrev pub oldest_first : List Membership → List Membership
oldest_first [] = []
oldest_first (m ∷ ms) = insert_by_age m (oldest_first ms)

unfoldable pub list_by_tenant : Uuid → Query Membership SqlError (List Membership)
list_by_tenant tenant =
    statement database (λ now ms. (oldest_first (keep (λ m. m.tenant_id == tenant) ms), ms))

unfoldable pub list_by_user : Uuid → Query Membership SqlError (List Membership)
list_by_user user =
    statement database (λ now ms. (oldest_first (keep (λ m. m.user_id == user) ms), ms))

unfoldable pub list_by_role : Uuid → MembershipRole → Query Membership SqlError (List Membership)
list_by_role tenant r =
    statement database
      (λ now ms. (oldest_first (keep (λ m. m.tenant_id == tenant && role_eq m.role r) ms), ms))

unfoldable pub count_by_tenant : Uuid → Query Membership SqlError ℕ
count_by_tenant tenant =
    statement database (λ now ms. (length (keep (λ m. m.tenant_id == tenant) ms), ms))
