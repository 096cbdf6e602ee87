-- ===== src/Auth/TokenRules.antt =====
-- What tokens are good for, and how long (axontask-shared/src/auth/jwt.rs).
use axon_task.Prelude.{
  ℕ, ◌+◌, ◌/◌, ◌≤◌, ◌≡◌, refl, sym, ap, ◌∙◌, inl, inr, ℤ, pos, ltb_ℤ, Text, text, text_eq,
  text_eq_refl, leb, false, not, if◌then◌else◌, Bool-cases, Result, ok, err, arith,
}
use mathlib.Core.Path.{subst}
use axon_task.Prelude.Results.{ok_injective, err_not_ok, ensure, bind_was_ok}
use axon_task.Task.{Uuid, DateTime}
use axon_task.Auth.Tokens.{
  JwtError, TokenType, access, refresh, default_expiration, is_access, Claims, timestamp, add_ℤ,
  issuer, new, ErrorKind, expired_signature, bad_issuer, other, created, validated, Jwt,
  create_token, validate_token, validate_refresh_token, refresh_access_token, expired,
}

-- The crate's documented checks on the claims of a token with the right signature, with a leeway of 60 seconds.
abbrev pub leeway : ℤ
leeway = pos 60

abbrev pub documented_checks : DateTime → Claims → Result ErrorKind Claims
documented_checks now claims =
    let t = timestamp (pos now) in
    if ltb_ℤ (add_ℤ claims.exp leeway) t
    then err expired_signature
    else if ltb_ℤ (add_ℤ t leeway) claims.nbf
    then err (other (text "ImmatureSignature"))
    else if text_eq claims.iss issuer
    then ok claims
    else err bad_issuer

abbrev pub DecodesOwn : Jwt → Type 0
DecodesOwn jwt =
    (claims : Claims) (secret token : Text) (now : DateTime)
    → jwt.encode claims secret ≡ ok token
    → jwt.decode now token secret ≡ documented_checks now claims

-- How long a token lasts, by the second: the checks pass from when it is made until a minute after its end.
too_old : (e t : ℕ) → ltb_ℤ (add_ℤ (pos e) leeway) (pos t) ≡ not (leb t (e + 60))
too_old e t = ground arith

not_too_young : (n t : ℕ) → n ≤ t → ltb_ℤ (add_ℤ (pos t) leeway) (pos n) ≡ false
not_too_young n t le = ground arith

quotient_mono : (a b : ℕ) → a ≤ b → a / 1000000 ≤ b / 1000000
quotient_mono a b le = omega arith

refresh_of : (t : TokenType) (e : JwtError) → ensure (not (is_access t)) e ≡ ok tt → t ≡ refresh
refresh_of access e h = absurd cc
refresh_of refresh e h = refl

created_was_ok : (r : Result Text Text) (token : Text) → created r ≡ ok token → r ≡ ok token
created_was_ok (ok t) token h = cc
created_was_ok (err e) token h = absurd (err_not_ok h)

documented_lem :
    (made now : DateTime) (user_id tenant_id : Uuid) (token_type : TokenType)
    → made ≤ now
    → validated (documented_checks now (new made user_id tenant_id token_type)) ≡ (
        if leb (now / 1000000) ((made + default_expiration token_type) / 1000000 + 60)
        then ok (new made user_id tenant_id token_type)
        else err expired)
unfolding new
documented_lem made now user_id tenant_id token_type le =
    let e = (made + default_expiration token_type) / 1000000 in
    let t = now / 1000000 in
    elim (Bool-cases (leb t (e + 60))) [
      | inl y ↦
          rw
            (
              too_old e t,
              y,
              not_too_young (made / 1000000) t (quotient_mono made now le),
              text_eq_refl issuer,
            )
            refl
      | inr y ↦ rw (too_old e t, y) refl
    ]

module _ (jwt : Jwt) where
  was_created :
      (claims : Claims) (secret token : Text)
      → create_token jwt claims secret ≡ ok token
      → jwt.encode claims secret ≡ ok token
  unfolding create_token
  was_created claims secret token h = created_was_ok (jwt.encode claims secret) token h

  -- What `refresh_access_token` gives is always the encoding of access claims, made now, for the user and the tenant
  -- of a refresh token that is valid now.
  pub refresh_access_token_lem :
      (now : DateTime) (token secret fresh : Text)
      → refresh_access_token jwt now token secret ≡ ok fresh
      → (claims : Claims) × (validate_token jwt now token secret ≡ ok claims)
        × (claims.token_type ≡ refresh)
        × (jwt.encode (new now claims.sub claims.tenant_id access) secret ≡ ok fresh)
  unfolding validate_refresh_token refresh_access_token
  refresh_access_token_lem now token secret fresh h =
      let (found, valid, made) =
        bind_was_ok (validate_refresh_token jwt now token secret) _ fresh h in
      let (claims, v, k) = bind_was_ok (validate_token jwt now token secret) _ found valid in
      let (u, t, same) = bind_was_ok _ _ found k in
      (
        claims,
        v,
        refresh_of claims.token_type _ t,
        was_created (new now claims.sub claims.tenant_id access) secret fresh (
            subst (λ c. create_token jwt (new now c.sub c.tenant_id access) secret ≡ ok fresh)
              (sym (ok_injective same)) made),
      )

  -- Let the crate decode its own tokens as documented. A token of either type, made for a user and a tenant, is valid
  -- from that instant until a minute after its end, with just the claims it was made of, and `Expired` from then on.
  pub validate_token-create_token :
      DecodesOwn jwt
      → (made now : DateTime) (user_id tenant_id : Uuid) (token_type : TokenType)
        (secret token : Text)
      → made ≤ now
      → create_token jwt (new made user_id tenant_id token_type) secret ≡ ok token
      → validate_token jwt now token secret ≡ (
          if leb (now / 1000000) ((made + default_expiration token_type) / 1000000 + 60)
          then ok (new made user_id tenant_id token_type)
          else err expired)
  unfolding validate_token
  validate_token-create_token own made now user_id tenant_id token_type secret token le h =
      let claims = new made user_id tenant_id token_type in
      ap validated (own claims secret token now (was_created claims secret token h))
      ∙ documented_lem made now user_id tenant_id token_type le
