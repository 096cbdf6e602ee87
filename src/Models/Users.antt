-- ===== src/Models/Users.antt =====
-- Users and their statements (axontask-shared/src/models/user.rs). `same_email` is the comparison of the column's type
-- CITEXT, a parameter.
use axon_task.Prelude.{
  ℕ, ℤ, pos, Text, Bool, true, false, not, ◌&&◌, ◌||◌, Option, none, some, List, [], ◌∷◌, ◌++◌,
  keep, any, all, head?, take, drop, length, ◌==◌, if◌then◌else◌,
}
use axon_task.Task.{Uuid}
use axon_task.Task.Queries.{SqlError, database}
use axon_task.Db.{DateTime, Query, try_statement}
use axon_task.Db.Tables.{select, change, update_where, delete_where, is_affected, descending}
use axon_task.Models.Updates.{is_some, wrap, set_clauses, bound, run, update_with}

pub record User : Type 0 where
  pub id : Uuid
  pub email : Text
  pub email_verified : Bool
  pub password_hash : Text
  pub name : Option Text
  pub avatar_url : Option Text
  pub created_at : DateTime
  pub updated_at : DateTime
  pub last_login_at : Option DateTime

pub record CreateUser : Type 0 where
  pub email : Text
  pub password_hash : Text
  pub name : Option Text
  pub avatar_url : Option Text

pub record UpdateUser : Type 0 where
  pub email : Option Text
  pub password_hash : Option Text
  pub name : Option (Option Text)
  pub avatar_url : Option (Option Text)
  pub email_verified : Option Bool

abbrev pub new_row : Uuid → CreateUser → DateTime → User
new_row id d now = record {
  id = id;
  email = d.email;
  email_verified = false;
  password_hash = d.password_hash;
  name = d.name;
  avatar_url = d.avatar_url;
  created_at = now;
  updated_at = now;
  last_login_at = none;
}

-- The columns that `update` can set, and the values that it binds; a value of another type is an error.
pub data Column : Type 0 where
  email password_hash name avatar_url email_verified : Column

pub data Value : Type 0 where
  plain : Text → Value
  nullable : Option Text → Value
  flag : Bool → Value

abbrev pub assign : Column → Value → User → Option User
assign email (plain t) u = some (record u { email = t })
assign password_hash (plain t) u = some (record u { password_hash = t })
assign name (nullable t) u = some (record u { name = t })
assign avatar_url (nullable t) u = some (record u { avatar_url = t })
assign email_verified (flag b) u = some (record u { email_verified = b })
assign c v u = none

abbrev pub columns : UpdateUser → List (Column × Bool)
columns d =
    (email, is_some d.email)
    ∷ (password_hash, is_some d.password_hash)
    ∷ (name, is_some d.name)
    ∷ (avatar_url, is_some d.avatar_url)
    ∷ (email_verified, is_some d.email_verified)
    ∷ []

abbrev pub values : UpdateUser → List (Option Value)
values d =
    wrap plain d.email
    ∷ wrap plain d.password_hash
    ∷ wrap nullable d.name
    ∷ wrap nullable d.avatar_url
    ∷ wrap flag d.email_verified
    ∷ []

-- `SET updated_at = NOW(), …` on a row.
abbrev pub set_fields : DateTime → UpdateUser → User → Option User
set_fields now d u =
    run assign (set_clauses 1 (columns d)) (bound (values d)) (record u { updated_at = now })

abbrev pub by_id : Uuid → User → Bool
by_id id u = u.id == id

unfoldable pub find_by_id : Uuid → Query User SqlError (Option User)
find_by_id id = select database (λ now us. head? (keep (by_id id) us))

unfoldable pub delete : Uuid → Query User SqlError Bool
delete id =
    change database (λ now us. is_affected (by_id id) us) (λ now us. delete_where (by_id id) us)

unfoldable pub update_last_login : Uuid → Query User SqlError Bool
update_last_login id =
    change database (λ now us. is_affected (by_id id) us)
      (λ now us. update_where (by_id id) (λ u. record u { last_login_at = some now }) us)

-- `LIMIT` and `OFFSET`: a negative one is an error of the database.
abbrev pub page : ℤ → ℤ → List User → Option (List User × List User)
page (pos limit) (pos offset) us =
    some (take limit (drop offset (descending (λ u. u.created_at) us)), us)
page limit offset us = none

unfoldable pub list : ℤ → ℤ → Query User SqlError (List User)
list limit offset = try_statement database (λ now us. page limit offset us)

unfoldable pub count : Query User SqlError ℕ
count = select database (λ now us. length us)

module _ (same_email : Text → Text → Bool) where
  unfoldable pub find_by_email : Text → Query User SqlError (Option User)
  find_by_email address =
      select database (λ now us. head? (keep (λ u. same_email u.email address) us))

  -- `UNIQUE` on the addresses, and the primary key.
  abbrev pub insert_row :
      Bool → Uuid → CreateUser → DateTime → List User → Option (User × List User)
  insert_row fits id d now us =
      if fits && not (any (λ u. by_id id u || same_email u.email d.email) us)
      then some (new_row id d now, us ++ new_row id d now ∷ [])
      else none

  -- `fits` tells whether the texts fit their columns; `id` is what `gen_random_uuid()` gives.
  unfoldable pub create : Bool → Uuid → CreateUser → Query User SqlError User
  create fits id d = try_statement database (insert_row fits id d)

  abbrev pub are_unique : List User → Bool
  are_unique [] = true
  are_unique (u ∷ us) = all (λ v. not (same_email u.email v.email)) us && are_unique us

  abbrev pub if_unique : Bool → Option (Option User × List User) → Option (Option User × List User)
  if_unique fits none = none
  if_unique fits (some (a, us)) = if fits && are_unique us then some (a, us) else none

  unfoldable pub update : Bool → Uuid → UpdateUser → Query User SqlError (Option User)
  update fits id d =
      try_statement database
        (λ now us. if_unique fits (update_with (by_id id) (set_fields now d) us))
