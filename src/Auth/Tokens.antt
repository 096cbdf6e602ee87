-- ===== src/Auth/Tokens.antt =====
-- Access and refresh tokens (axontask-shared/src/auth/jwt.rs). `encode` and `decode` of the crate jsonwebtoken are
-- parameters, `now` is the clock. Times of claims are seconds, an instant is a number of microseconds.
use axon_task.Prelude.{
  ℕ, ◌+◌, ◌/◌, ℤ, pos, negsuc, pos_part, neg_part, sub_ℕ, leb_ℤ, ltb_ℤ, Text, text, Bool, true,
  false, not, Option, none, some, ◌++◌, if◌then◌else◌, Result, ok, err,
}
use axon_task.Prelude.Results.{◌>>=◌, ◌>>◌, ensure}
use axon_task.Task.{Uuid, DateTime}

pub data JwtError : Type 0 where
  create_error : Text → JwtError
  validation_error : Text → JwtError
  expired : JwtError
  invalid_format : Text → JwtError
  invalid_issuer : Text → Text → JwtError  -- expected, actual

pub data TokenType : Type 0 where
  access refresh : TokenType

unfoldable pub as_str : TokenType → Text
as_str access = text "access"
as_str refresh = text "refresh"

-- In microseconds: a day, and thirty.
unfoldable pub default_expiration : TokenType → ℕ
default_expiration access = 86400000000
default_expiration refresh = 2592000000000

abbrev pub is_access : TokenType → Bool
is_access access = true
is_access refresh = false

pub record Claims : Type 0 where
  pub sub : Uuid
  pub iss : Text
  pub iat : ℤ  -- i64
  pub exp : ℤ  -- i64
  pub nbf : ℤ  -- i64
  pub tenant_id : Uuid
  pub token_type : TokenType

-- `DateTime::timestamp`: whole seconds, rounded down.
abbrev pub timestamp : ℤ → ℤ
timestamp (pos t) = pos (t / 1000000)
timestamp (negsuc t) = negsuc (t / 1000000)

abbrev pub add_ℤ : ℤ → ℤ → ℤ
add_ℤ a b = sub_ℕ (pos_part a + pos_part b) (neg_part a + neg_part b)

abbrev pub issuer : Text
issuer = text "axontask"

unfoldable pub with_expiration : DateTime → Uuid → Uuid → TokenType → ℤ → Claims
with_expiration now user_id tenant_id token_type expires_in = record {
  sub = user_id;
  iss = issuer;
  iat = timestamp (pos now);
  exp = timestamp (add_ℤ (pos now) expires_in);
  nbf = timestamp (pos now);
  tenant_id = tenant_id;
  token_type = token_type;
}

unfoldable pub new : DateTime → Uuid → Uuid → TokenType → Claims
new now user_id tenant_id token_type = record {
  sub = user_id;
  iss = issuer;
  iat = timestamp (pos now);
  exp = timestamp (pos (now + default_expiration token_type));
  nbf = timestamp (pos now);
  tenant_id = tenant_id;
  token_type = token_type;
}

unfoldable pub is_expired : DateTime → Claims → Bool
is_expired now claims = leb_ℤ claims.exp (timestamp (pos now))

-- In seconds.
unfoldable pub time_until_expiration : DateTime → Claims → Option ℤ
time_until_expiration now claims =
    let t = timestamp (pos now) in
    if ltb_ℤ t claims.exp
    then some (sub_ℕ (pos_part claims.exp + neg_part t) (pos_part t + neg_part claims.exp))
    else none

-- The kinds of error of the crate that the code tells apart, and all others with their message.
pub data ErrorKind : Type 0 where
  expired_signature bad_issuer : ErrorKind
  other : Text → ErrorKind

abbrev pub error_of : ErrorKind → JwtError
error_of expired_signature = expired
error_of bad_issuer = invalid_issuer issuer (text "unknown")
error_of (other message) = validation_error (text "Token validation failed: " ++ message)

-- `encode` with HS256; `decode` with HS256, our issuer, and the checks of `exp` and `nbf`.
pub record Jwt : Type 0 where
  pub encode : Claims → Text → Result Text Text
  pub decode : DateTime → Text → Text → Result ErrorKind Claims

-- The errors of the crate as errors of the code.
abbrev pub created : Result Text Text → Result JwtError Text
created (ok token) = ok token
created (err e) = err (create_error (text "Token encoding failed: " ++ e))

abbrev pub validated : Result ErrorKind Claims → Result JwtError Claims
validated (ok claims) = ok claims
validated (err kind) = err (error_of kind)

module _ (jwt : Jwt) where
  unfoldable pub create_token : Claims → Text → Result JwtError Text
  create_token claims secret = created (jwt.encode claims secret)

  unfoldable pub validate_token : DateTime → Text → Text → Result JwtError Claims
  validate_token now token secret = validated (jwt.decode now token secret)

  unfoldable pub validate_access_token : DateTime → Text → Text → Result JwtError Claims
  validate_access_token now token secret = do
    claims ← validate_token now token secret
    ensure (is_access claims.token_type)
        (validation_error (text "Expected access token, got refresh token"))
    ok claims

  unfoldable pub validate_refresh_token : DateTime → Text → Text → Result JwtError Claims
  validate_refresh_token now token secret = do
    claims ← validate_token now token secret
    ensure (not (is_access claims.token_type))
        (validation_error (text "Expected refresh token, got access token"))
    ok claims

  unfoldable pub refresh_access_token : DateTime → Text → Text → Result JwtError Text
  refresh_access_token now refresh_token secret = do
    refresh_claims ← validate_refresh_token now refresh_token secret
    let access_claims = new now refresh_claims.sub refresh_claims.tenant_id access
    create_token access_claims secret
