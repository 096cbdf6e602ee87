-- ===== src/Membership/Refinement.antt =====
-- The table of memberships is a map from tenants and users to roles (models/membership.rs).
use axon_task.Prelude.{
  ◌≡◌, refl, Bool, true, false, not, ◌&&◌, Option, none, some, List, [], ◌∷◌, ◌++◌, keep, any,
  head?, length, ltb, ok, err, ◌==◌, if◌then◌else◌, arith,
}
use axon_task.Task.{Uuid}
use axon_task.Task.Queries.{database}
use axon_task.Db.{Store}
use axon_task.Membership.{MembershipRole, Membership, CreateMembership}
use axon_task.Membership.Statements.{
  is_of, new_row, insert_row, create, has_access, role_in, get_role, set_where, update_role, delete,
}

-- The abstract view: the role of a user in a tenant.
abbrev pub role_at : List Membership → Uuid → Uuid → Option MembershipRole
role_at [] tenant user = none
role_at (m ∷ ms) tenant user = if is_of tenant user m then some m.role else role_at ms tenant user

abbrev pub is_some : {A : Type 0} → Option A → Bool
is_some none = false
is_some (some a) = true

abbrev pub replaced : MembershipRole → Option MembershipRole → Option MembershipRole
replaced r none = none
replaced r (some old) = some r

abbrev pub same_key : Uuid → Uuid → Uuid → Uuid → Bool
same_key tenant user t u = t == tenant && u == user

role_at-found :
    (ms : List Membership) (t u : Uuid) → role_in (head? (keep (is_of t u) ms)) ≡ role_at ms t u
role_at-found [] t u = refl
role_at-found (m ∷ ms) t u = ground (arith, role_at-found ms t u)

role_at-any : (ms : List Membership) (t u : Uuid) → any (is_of t u) ms ≡ is_some (role_at ms t u)
role_at-any [] t u = refl
role_at-any (m ∷ ms) t u = ground (arith, role_at-any ms t u)

role_at-deleted :
    (ms : List Membership) (tenant user t u : Uuid)
    → role_at (keep (λ m. not (is_of tenant user m)) ms) t u
      ≡ (if same_key tenant user t u then none else role_at ms t u)
role_at-deleted [] tenant user t u = ground arith
role_at-deleted (m ∷ ms) tenant user t u = ground (arith, role_at-deleted ms tenant user t u)

role_at-set :
    (ms : List Membership) (tenant user : Uuid) (r : MembershipRole) (t u : Uuid)
    → role_at (set_where (is_of tenant user) r ms) t u
      ≡ (if same_key tenant user t u then replaced r (role_at ms t u) else role_at ms t u)
role_at-set [] tenant user r t u = ground arith
role_at-set (m ∷ ms) tenant user r t u = ground (arith, role_at-set ms tenant user r t u)

role_at-added :
    (ms : List Membership) (m : Membership) (t u : Uuid)
    → any (is_of m.tenant_id m.user_id) ms ≡ false
    → role_at (ms ++ m ∷ []) t u
      ≡ (if same_key m.tenant_id m.user_id t u then some m.role else role_at ms t u)
role_at-added [] m t u h = ground arith
role_at-added (n ∷ ms) m t u h = ground (arith, role_at-added ms m t u)

count-any : (p : Membership → Bool) (ms : List Membership) → ltb 0 (length (keep p ms)) ≡ any p ms
count-any p [] = refl
count-any p (m ∷ ms) = ground (arith, count-any p ms)

module _ (s : Store Membership) (up : s.faults ≡ []) where
  insert_free :
      (known : Bool) (d : CreateMembership)
      → known && not (is_some (role_at s.rows d.tenant_id d.user_id)) ≡ true
      → insert_row known d s.now s.rows ≡ some (new_row d s.now, s.rows ++ new_row d s.now ∷ [])
  insert_free known d h = ground (arith, role_at-any s.rows d.tenant_id d.user_id)

  insert_refused :
      (known : Bool) (d : CreateMembership)
      → known && not (is_some (role_at s.rows d.tenant_id d.user_id)) ≡ false
      → insert_row known d s.now s.rows ≡ none
  insert_refused known d h = ground (arith, role_at-any s.rows d.tenant_id d.user_id)

  create-adds :
      (known : Bool) (d : CreateMembership) (t u : Uuid)
      → known && not (is_some (role_at s.rows d.tenant_id d.user_id)) ≡ true
      → role_at (create known d s).1.rows t u
        ≡ (if same_key d.tenant_id d.user_id t u then some d.role else role_at s.rows t u)
  unfolding create
  create-adds known d t u h =
      rw (up, insert_free known d h)
        (role_at-added s.rows (new_row d s.now) t u
          (ground (arith, role_at-any s.rows d.tenant_id d.user_id)))

  create-refused :
      (known : Bool) (d : CreateMembership)
      → known && not (is_some (role_at s.rows d.tenant_id d.user_id)) ≡ false
      → create known d s ≡ (err database, s)
  unfolding create
  create-refused known d h = rw (up, insert_refused known d h) refl

  -- The statements on memberships are those of a map from tenants and users to roles, while the database
  -- is up. `get_role` and `has_access` look a key up and change nothing. `update_role` replaces the role at its
  -- key if there is one, `delete` removes it and tells whether there was one, and `create` adds one, if the
  -- tenant and the user exist and the key is free; else it returns an error and changes nothing. No other key
  -- is touched by any of them.
  pub statements-refine :
      (tenant user : Uuid) (r : MembershipRole) (known : Bool) (d : CreateMembership) (t u : Uuid)
      → let role = role_at s.rows in
        let free = known && not (is_some (role d.tenant_id d.user_id)) in
        (get_role tenant user s ≡ (ok (role tenant user), s))
        × (has_access tenant user s ≡ (ok (is_some (role tenant user)), s))
        × (role_at (update_role tenant user r s).1.rows t u
            ≡ (if same_key tenant user t u then replaced r (role t u) else role t u))
        × ((delete tenant user s).0 ≡ ok (is_some (role tenant user)))
        × (role_at (delete tenant user s).1.rows t u
            ≡ (if same_key tenant user t u then none else role t u))
        × (free ≡ true
            → role_at (create known d s).1.rows t u
              ≡ (if same_key d.tenant_id d.user_id t u then some d.role else role t u))
        × (free ≡ false → create known d s ≡ (err database, s))
  unfolding get_role has_access update_role delete
  statements-refine tenant user r known d t u = (
    rw (up, role_at-found s.rows tenant user) refl,
    rw (up, role_at-any s.rows tenant user) refl,
    rw up (role_at-set s.rows tenant user r t u),
    rw (up, count-any (is_of tenant user) s.rows, role_at-any s.rows tenant user) refl,
    rw up (role_at-deleted s.rows tenant user t u),
    create-adds known d t u,
    create-refused known d,
  )
