-- ===== src/Auth/Services.antt =====
-- auth/services/auth.py. The limiter's counters live in Redis, outside the database transaction.
use tradinghub.Base.{ℕ, String, Bool, ◌+◌, Option, none, some, is_some, ltb, if◌then◌else◌}
use tradinghub.Core.Errors.{Result, invalid_credentials, invalid_session, email_taken}
use tradinghub.Core.Database.{
  Action, pure, raise, raise_if, continue, except_integrity, commit, ◌>>=◌, ◌>>◌,
}
use tradinghub.Auth.Models.{User, Session}
use tradinghub.Auth.Security.Passwords.{PasswordHasher, hash_password, verify_password}
use tradinghub.Auth.Security.Tokens.{Jwt, encode_access_token, refresh_token_lifetime}
use tradinghub.Auth.Security.RateLimit.{Redis, count_login_attempt, count_registration_attempt}
use tradinghub.Auth.Crud.Users.{get_user_by_email, create_user}
use tradinghub.Auth.Crud.Sessions.{
  lock_session_by_token_hash, create_session, mark_session_used, revoke_family,
}

pub record TokenPair : Type 0 where
  pub access_token : String
  pub refresh_token : String

-- What one request takes from outside: the folding of CITEXT, str.casefold, argon2 and the dummy
-- hash, PyJWT, SHA-256, the clock, the token of secrets.token_urlsafe and the uuid4.
pub record AuthSupply : Type 0 where
  pub fold : String → String
  pub casefold : String → String
  pub hasher : PasswordHasher
  pub dummy_password_hash : String
  pub jwt : Jwt
  pub hash_refresh_token : String → String
  pub now : ℕ
  pub refresh_token : String
  pub uuid : ℕ

module _ (s : AuthSupply) where
  -- `_issue_token_pair`
  unfoldable pub issue_token_pair : ℕ → ℕ → Action TokenPair
  unfolding create_session encode_access_token refresh_token_lifetime
  issue_token_pair user_id family_id = do
    create_session user_id family_id (s.hash_refresh_token s.refresh_token)
        (s.now + refresh_token_lifetime)
    pure (record {
      access_token = encode_access_token s.jwt s.now user_id;
      refresh_token = s.refresh_token;
    })

  unfoldable pub start_session : ℕ → Action TokenPair
  unfolding issue_token_pair
  start_session user_id = issue_token_pair user_id s.uuid

  -- register_user once its attempt is counted
  unfoldable pub register_counted : String → String → Action (User × TokenPair)
  unfolding start_session create_user get_user_by_email
  register_counted email raw_password = do
    known ← get_user_by_email s.fold email
    raise_if (is_some known) email_taken
    user ←
        except_integrity (create_user s.fold email (hash_password s.hasher raw_password))
          email_taken
    pair ← start_session user.id
    pure (user, pair)

  -- `user.password_hash if user else DUMMY_PASSWORD_HASH`
  abbrev pub hash_to_verify : Option User → String
  hash_to_verify none = s.dummy_password_hash
  hash_to_verify (some u) = u.password_hash

  -- The user, unless there is none or the password does not match.
  abbrev pub authenticated : Option User → Bool → Action User
  authenticated none password_matches = raise invalid_credentials
  authenticated (some u) password_matches =
      if password_matches then pure u else raise invalid_credentials

  -- login_user once its attempt is counted
  unfoldable pub login_counted : String → String → Action (User × TokenPair)
  unfolding start_session get_user_by_email verify_password
  login_counted email raw_password = do
    found ← get_user_by_email s.fold email
    user ← authenticated found (verify_password s.hasher raw_password (hash_to_verify found))
    pair ← start_session user.id
    pure (user, pair)

  -- The session that may be rotated: reuse revokes its family, and commits that by itself.
  unfoldable pub live_session : Option Session → Action Session
  unfolding revoke_family commit
  live_session none = raise invalid_session
  live_session (some x) =
      if is_some x.used_at
      then (do revoke_family x.family_id; commit; raise invalid_session)
      else if ltb x.expires_at s.now
      then raise invalid_session
      else pure x

  unfoldable pub refresh_session : String → Action TokenPair
  unfolding lock_session_by_token_hash live_session mark_session_used issue_token_pair
  refresh_session raw_refresh_token = do
    found ← lock_session_by_token_hash (s.hash_refresh_token raw_refresh_token)
    current_session ← live_session found
    mark_session_used s.now current_session
    issue_token_pair current_session.user_id current_session.family_id

  abbrev pub revoke_found : Option Session → Action (Unit {0})
  revoke_found none = pure tt
  revoke_found (some x) = revoke_family x.family_id

  unfoldable pub logout_user : String → Action (Unit {0})
  unfolding lock_session_by_token_hash revoke_family
  logout_user raw_refresh_token = do
    found ← lock_session_by_token_hash (s.hash_refresh_token raw_refresh_token)
    revoke_found found

  module _ (redis : Redis) where
    -- What a service that counts first leaves in Redis, and the rest of it.
    abbrev counted {ℓ} :
        {A : Type ℓ} → Result (Unit {0}) × redis.State → Action A → redis.State × Action A
    counted (r, c) rest = (c, continue r (λ _. rest))

    unfoldable pub register_user :
        ℕ → String → String → String → redis.State → redis.State × Action (User × TokenPair)
    unfolding count_registration_attempt register_counted
    register_user seconds email raw_password ip c =
        counted (count_registration_attempt redis seconds ip c)
          (register_counted email raw_password)

    unfoldable pub login_user :
        ℕ → String → String → String → redis.State → redis.State × Action (User × TokenPair)
    unfolding count_login_attempt login_counted
    login_user seconds email raw_password ip c =
        counted (count_login_attempt redis s.casefold seconds email ip c)
          (login_counted email raw_password)
