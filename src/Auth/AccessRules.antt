-- ===== src/Auth/AccessRules.antt =====
-- Who is let through (axontask-shared/src/auth/authorization.rs).
use axon_task.Prelude.{
  ◌≡◌, refl, sym, ap, ◌∙◌, inl, inr, ◌↔◌, Text, Bool, true, false, Option, none, some, List, [],
  Result, ok, err, Bool-cases, if◌then◌else◌, arith,
}
use axon_task.Task.{Uuid}
use axon_task.Db.{Store, Query, ◌>>=◌, ◌>>◌, map_err, or_raise, lift}
use axon_task.Db.Laws.{bind-ok, bind-err, map_err-ok}
use axon_task.Membership.{MembershipRole, owner, viewer, has_permission, Membership}
use axon_task.Membership.Statements.{get_role}
use axon_task.Membership.Refinement.{role_at, statements-refine}
use axon_task.Auth.Access.{
  AuthContext, has_scope, AuthzError, database_error, ensure, not_member, insufficient_role,
  missing_scope, ResourcePermission, min_role, require_role, require_scope, require_permission,
}

-- The user of a request has a role in its tenant that suffices, and the request has the scope.
abbrev pub IsAllowed : AuthContext → ResourcePermission → Text → List Membership → Type 0
IsAllowed auth permission scope ms =
    (user : Uuid) × (role : MembershipRole) × (auth.user_id ≡ some user)
    × (role_at ms auth.tenant_id user ≡ some role)
    × (has_permission role (min_role permission) ≡ true)
    × (has_scope auth scope ≡ true)

abbrev decide : Uuid → MembershipRole → Option MembershipRole → Result AuthzError (Unit {0})
decide tenant required none = err (not_member tenant)
decide tenant required (some role) =
    if has_permission role required then ok tt else err (insufficient_role required role)

module _ (s : Store Membership) (up : s.faults ≡ []) where
  looked_up : (tenant user : Uuid) → get_role tenant user s ≡ (ok (role_at s.rows tenant user), s)
  looked_up tenant user =
      (statements-refine s up tenant user owner true
        (record { tenant_id = 0; user_id = 0; role = owner }) 0 0).0

  with_role :
      (tenant : Uuid) (required : MembershipRole) (found : Option MembershipRole)
      → (or_raise (not_member tenant) found >>= λ role.
            ensure (has_permission role required) (insufficient_role required role))
          s
        ≡ (decide tenant required found, s)
  with_role tenant required none = refl
  with_role tenant required (some role) = ground arith

  require_role-decides :
      (tenant user : Uuid) (required : MembershipRole)
      → require_role tenant (some user) required s
        ≡ (decide tenant required (role_at s.rows tenant user), s)
  unfolding require_role
  require_role-decides tenant user required =
      bind-ok (map_err database_error (get_role tenant user))
        (λ found. or_raise (not_member tenant) found >>= λ role.
          ensure (has_permission role required) (insufficient_role required role))
        s s (role_at s.rows tenant user)
        (map_err-ok database_error (get_role tenant user) s s _ (looked_up tenant user))
      ∙ with_role tenant required (role_at s.rows tenant user)

  then_scope :
      (m : Query Membership AuthzError (Unit {0})) (q r : Result AuthzError (Unit {0}))
      → m s ≡ (r, s)
      → (m >> lift q) s ≡ (elim r [ ok u ↦ q | err e ↦ err e ], s)
  then_scope m q (ok u) h = bind-ok m (λ _. lift q) s s u h
  then_scope m q (err e) h = bind-err m (λ _. lift q) s s e h

  module _ (auth : AuthContext) (permission : ResourcePermission) (scope : Text) where
    abbrev given_role : Option MembershipRole → Result AuthzError (Unit {0})
    given_role found = elim (decide auth.tenant_id (min_role permission) found) [
      | ok u ↦ require_scope auth scope
      | err e ↦ err e
    ]

    -- The check of a request, by its user.
    abbrev verdict : Option Uuid → Result AuthzError (Unit {0})
    verdict none = err (insufficient_role (min_role permission) viewer)
    verdict (some user) = given_role (role_at s.rows auth.tenant_id user)

    permission-verdict :
        (user : Option Uuid)
        → (require_role auth.tenant_id user (min_role permission)
              >> lift (require_scope auth scope))
            s
          ≡ (verdict user, s)
    unfolding require_role
    permission-verdict none = refl
    permission-verdict (some user) =
        then_scope (require_role auth.tenant_id (some user) (min_role permission))
          (require_scope auth scope) _
          (require_role-decides auth.tenant_id user (min_role permission))

    abbrev decided : MembershipRole → Bool → Result AuthzError (Unit {0})
    decided role b = if b then ok tt else err (insufficient_role (min_role permission) role)

    abbrev scoped : Bool → Result AuthzError (Unit {0})
    scoped b = if b then ok tt else err (missing_scope scope)

    -- The verdict on a role, by the two tests that it passes or not.
    by_tests : MembershipRole → Bool → Bool → Result AuthzError (Unit {0})
    by_tests role level granted = elim level [
      | true ↦ elim granted [ true ↦ ok tt | false ↦ err (missing_scope scope) ]
      | false ↦ err (insufficient_role (min_role permission) role)
    ]

    level_first :
        (role : MembershipRole) (level granted : Bool)
        → require_scope auth scope ≡ scoped granted
        → (let r : Result AuthzError (Unit {0}) = elim (decided role level) [
          | ok u ↦ require_scope auth scope
          | err x ↦ err x
        ] in
            r)
          ≡ by_tests role level granted
    unfolding by_tests
    level_first role true true h = h
    level_first role true false h = h
    level_first role false granted h = refl

    given_role-tests :
        (role : MembershipRole) (level granted : Bool)
        → has_permission role (min_role permission) ≡ level
        → has_scope auth scope ≡ granted
        → given_role (some role) ≡ by_tests role level granted
    unfolding require_scope by_tests
    given_role-tests role level granted e f =
        ap (λ b. elim (decided role b) [ ok u ↦ require_scope auth scope | err x ↦ err x ]) e
        ∙ level_first role level granted (ap scoped f)

    given_role-allows :
        (found : Option MembershipRole)
        → given_role found ≡ ok tt
        → (role : MembershipRole) × (found ≡ some role)
          × (has_permission role (min_role permission) ≡ true)
          × (has_scope auth scope ≡ true)
    unfolding by_tests
    given_role-allows none h = cc
    given_role-allows (some role) h =
        elim (Bool-cases (has_permission role (min_role permission))) [
          | inl e ↦ elim (Bool-cases (has_scope auth scope)) [
            | inl f ↦ (role, refl, e, f)
            | inr f ↦ cc (given_role-tests role true false e f, h)
          ]
          | inr e ↦ cc (given_role-tests role false (has_scope auth scope) e refl, h)
        ]

    verdict-allows :
        (user : Option Uuid)
        → auth.user_id ≡ user
        → verdict user ≡ ok tt
        → IsAllowed auth permission scope s.rows
    verdict-allows none e h = cc
    verdict-allows (some user) e h =
        let (role, found, level, granted) =
          given_role-allows (role_at s.rows auth.tenant_id user) h in
        (user, role, e, found, level, granted)

    allowed-verdict : IsAllowed auth permission scope s.rows → verdict auth.user_id ≡ ok tt
    unfolding by_tests
    allowed-verdict (user, role, e, found, level, granted) =
        ap verdict e ∙ ap given_role found ∙ given_role-tests role true true level granted

    -- With the database up, `require_permission` lets a request through exactly if it has a user, that user
    -- has a role in the request's tenant that is at least the one the permission asks for, and the request
    -- has the scope. Whatever it answers, it changes nothing.
    pub require_permission_iff :
        (((require_permission auth permission scope s).0 ≡ ok tt)
          ↔ IsAllowed auth permission scope s.rows)
        × ((require_permission auth permission scope s).1 ≡ s)
    unfolding require_permission
    require_permission_iff =
        let e = permission-verdict auth.user_id in
        (
          (
            (λ h. verdict-allows auth.user_id refl (sym (ap (λ p. p.0) e) ∙ h)),
            (λ a. ap (λ p. p.0) e ∙ allowed-verdict a),
          ),
          ap (λ p. p.1) e,
        )
