-- ===== src/Auth/Security/Tokens.antt =====
-- auth/security/tokens.py. Instants are microseconds. hashlib, PyJWT and the texts of integers are
-- parameters.
use tradinghub.Base.{ℕ, String, ◌+◌, ◌*◌, Option, none, some}

-- timedelta(minutes=15) and timedelta(days=7)
abbrev pub second : ℕ
second = 1000000

unfoldable pub access_token_lifetime : ℕ
access_token_lifetime = 15 * 60 * second

unfoldable pub refresh_token_lifetime : ℕ
refresh_token_lifetime = 7 * 24 * 3600 * second

pub record AccessTokenClaims : Type 0 where
  pub user_id : ℕ

-- The claims that a token is made of, with the two datetimes as instants.
pub record Claims : Type 0 where
  pub sub : String
  pub iat : ℕ
  pub exp : ℕ

-- The claims that come back out of a token, with the two dates as JWT has them: in whole
-- seconds, counted here from where the instants are.
pub record Payload : Type 0 where
  pub sub : String
  pub iat : ℕ
  pub exp : ℕ

-- jwt with the secret and the algorithm of the settings. `decode` at an instant is `none` for an
-- InvalidTokenError, and requires the three claims. `str` and `int` are Python's on integers, `int`
-- with `none` for a ValueError.
pub record Jwt : Type 0 where
  pub encode : Claims → String
  pub decode : ℕ → String → Option Payload
  pub str : ℕ → String
  pub int : String → Option ℕ

unfoldable pub access_claims : Jwt → ℕ → ℕ → Claims
unfolding access_token_lifetime
access_claims jwt now user_id = record {
  sub = jwt.str user_id;
  iat = now;
  exp = now + access_token_lifetime;
}

unfoldable pub encode_access_token : Jwt → ℕ → ℕ → String
unfolding access_claims
encode_access_token jwt now user_id = jwt.encode (access_claims jwt now user_id)

abbrev pub claims_of : Option ℕ → Option AccessTokenClaims
claims_of none = none
claims_of (some i) = some (record { user_id = i })

abbrev pub sub_claims : Jwt → Option Payload → Option AccessTokenClaims
sub_claims jwt none = none
sub_claims jwt (some c) = claims_of (jwt.int c.sub)

unfoldable pub decode_access_token : Jwt → ℕ → String → Option AccessTokenClaims
decode_access_token jwt now access_token = sub_claims jwt (jwt.decode now access_token)

-- generate_refresh_token is secrets.token_urlsafe(32) and hash_refresh_token is SHA-256: a token of
-- the request and a function on texts.
