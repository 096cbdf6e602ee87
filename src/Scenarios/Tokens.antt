-- ===== src/Scenarios/Tokens.antt =====
-- A token made at the epoch and tried 24 hours and 30 seconds later (axontask-shared/src/auth/jwt.rs).
use axon_task.Prelude.{
  ℕ, zero, suc, ◌≡◌, refl, ap, ℤ, pos, negsuc, Text, text, text_eq, ◌∷◌, Result, ok, err, arith,
}
use mathlib.Core.Path.{subst}
use axon_task.Prelude.Results.{ok_injective}
use axon_task.Task.{DateTime}
use axon_task.Auth.Tokens.{
  TokenType, access, refresh, Claims, default_expiration, new, Jwt, ErrorKind, other, create_token,
  validate_token, refresh_access_token, validate_refresh_token,
}
use axon_task.Auth.TokenRules.{
  DecodesOwn, documented_checks, refresh_access_token_lem, validate_token-create_token,
}

-- A token spells its claims, a number after its sign.
abbrev sign : ℤ → ℕ
sign (pos n) = 0
sign (negsuc n) = 1

abbrev size : ℤ → ℕ
size (pos n) = n
size (negsuc n) = n

abbrev signed : ℕ → ℕ → ℤ
signed zero n = pos n
signed (suc s) n = negsuc n

signed_lem : (z : ℤ) → signed (sign z) (size z) ≡ z
signed_lem (pos n) = refl
signed_lem (negsuc n) = refl

abbrev tag : TokenType → ℕ
tag access = 0
tag refresh = 1

abbrev type_of : ℕ → TokenType
type_of zero = access
type_of (suc n) = refresh

type_of-tag : (t : TokenType) → type_of (tag t) ≡ t
type_of-tag access = refl
type_of-tag refresh = refl

abbrev spell : Claims → Text
spell c =
    c.sub
    ∷ c.tenant_id
    ∷ sign c.iat
    ∷ size c.iat
    ∷ sign c.exp
    ∷ size c.exp
    ∷ sign c.nbf
    ∷ size c.nbf
    ∷ tag c.token_type
    ∷ c.iss

abbrev read : DateTime → Text → Result ErrorKind Claims
read now (sub ∷ tenant ∷ s ∷ iat ∷ s' ∷ exp ∷ s'' ∷ nbf ∷ t ∷ iss) = documented_checks now (record {
  sub = sub;
  iss = iss;
  iat = signed s iat;
  exp = signed s' exp;
  nbf = signed s'' nbf;
  tenant_id = tenant;
  token_type = type_of t;
})
read now _ = err (other (text "InvalidToken"))

abbrev plain : Jwt
plain = record {
  encode = λ claims secret. ok (spell claims);
  decode = λ now token secret. read now token;
}

read-spell : (now : DateTime) (c : Claims) → read now (spell c) ≡ documented_checks now c
read-spell now c =
    ap (documented_checks now)
      (rw (signed_lem c.iat, signed_lem c.exp, signed_lem c.nbf, type_of-tag c.token_type) refl)

plain-DecodesOwn : DecodesOwn plain
plain-DecodesOwn claims secret token now h =
    subst (λ t. read now t ≡ documented_checks now claims) (ok_injective h) (read-spell now claims)

abbrev secret : Text
secret = text "key"

token_made : create_token plain (new 0 3 5 access) secret ≡ ok (spell (new 0 3 5 access))
unfolding create_token
token_made = refl

validate_token-create_token_example :
    validate_token plain 86430000000 (spell (new 0 3 5 access)) secret ≡ ok (new 0 3 5 access)
unfolding default_expiration
validate_token-create_token_example =
    validate_token-create_token plain plain-DecodesOwn 0 86430000000 3 5 access secret
      (spell (new 0 3 5 access)) (omega arith) token_made

refreshed :
    refresh_access_token plain 1000000 (spell (new 0 3 5 refresh)) secret
    ≡ ok (spell (new 1000000 3 5 access))
unfolding refresh_access_token validate_refresh_token validate_token create_token new
    default_expiration text text_eq
refreshed = refl

refresh_access_token_lem_example :
    (claims : Claims) × (validate_token plain 1000000 (spell (new 0 3 5 refresh)) secret
      ≡ ok claims)
    × (claims.token_type ≡ refresh)
    × (plain.encode (new 1000000 claims.sub claims.tenant_id access) secret
        ≡ ok (spell (new 1000000 3 5 access)))
refresh_access_token_lem_example =
    refresh_access_token_lem plain 1000000 (spell (new 0 3 5 refresh)) secret
      (spell (new 1000000 3 5 access)) refreshed
