-- ===== src/Auth/Tests.antt =====
-- The auth services at concrete inputs: a server with two counters, and a user with a login.
pub mod Server
mod Chains
use tradinghub.Auth.Cookies.{IsGuarded, identity, clear_auth_cookies-set_auth_cookies}
use tradinghub.Auth.Routes.{set_auth_cookies, clear_auth_cookies}
use tradinghub.Core.Config.{accepts_settings}
use tradinghub.Base.{◌/◌, All, map}
use tradinghub.Auth.Caller.{IsJwt, access_expiry, login_counted-me_route}
use tradinghub.Auth.Routes.{me_route}
use tradinghub.Auth.Security.Tokens.{access_claims, access_token_lifetime, encode_access_token}
use tradinghub.Base.{ltb}
use tradinghub.Base.{
  ◌≤◌, ℕ, ◌+◌, ◌<◌, String, Bool, true, false, Option, none, some, List, [], ◌∷◌, ◌≡◌, ◌≢◌, refl,
  arith, same_text, find?, if◌then◌else◌, suc,
}
use tradinghub.Core.Errors.{
  Result, ok, err, app_error, invalid_credentials, invalid_session, rate_limited,
}
use tradinghub.Core.Config.{Settings, production, info}
use tradinghub.Core.Database.{Store, Tables, Serials, Work, begin, get_db}
use tradinghub.Auth.Models.{User, Session}
use tradinghub.Auth.Security.Passwords.{
  verify_password, PasswordHasher, Verification, verified, verification_error,
}
use tradinghub.Auth.Security.Tokens.{Jwt, refresh_token_lifetime, encode_access_token}
use tradinghub.Auth.Security.RateLimit.{
  rate_window_seconds, count_login_attempt, count_registration_attempt,
}
use tradinghub.Auth.Services.{AuthSupply, TokenPair, refresh_session, logout_user, login_counted}
use tradinghub.Auth.Routes.{handle, refresh}
use tradinghub.Auth.Families.{IsAuthConsistent}
use tradinghub.Auth.Families.Actions.{presented, presented, new_pair}
use tradinghub.Auth.Families.Requests.{handle-IsAuthConsistent}
use tradinghub.Auth.Families.Rotation.{refused, revoke, rotated, rotation, refresh_session-rotation}
use tradinghub.Auth.Families.Replay.{refresh_session-replay, logout_user-refresh_session}
use tradinghub.Auth.Families.Opening.{login_counted-sign_in, first_pair, opened}
use tradinghub.Core.Failures.{IsClientError}
use tradinghub.Core.Rendering.{rendered}
use tradinghub.Auth.Families.Lasting.{IsAlive, IsLasting, refresh_each, refresh_each-IsLasting}
use tradinghub.Auth.Limits.Window.{Attempt, count_passed, count_passed-within}
use tradinghub.Auth.Families.Enrolment.{IsHasher, register_counted-login_counted}
use tradinghub.Auth.Families.Opening.{login_counted-sign_in, first_pair, opened}
use tradinghub.Auth.Services.{register_counted}
use tradinghub.Auth.Tests.Server.{itself}
use tradinghub.Auth.Limits.{
  Counted, is_locked_out, count_login_attempt-is_locked_out, count_login_attempt-Counted,
  count_registration_attempt_lem,
}
use tradinghub.Auth.Tests.Server.{Server as RedisServer, server, server_laws, server_timed}

abbrev same : String → String
same t = t

abbrev hasher : PasswordHasher
hasher = record {
  hash = same;
  verify = λ h p. if same_text h p then verified else verification_error;
}

abbrev jwt : Jwt
jwt = record {
  encode = λ c. c.sub;
  decode = λ now t.
      if ltb (now / 1000000) 900 then some (record { sub = "1"; iat = 0; exp = 900 }) else none;
  str = λ n. "1";
  int = λ t. some 1;
}

abbrev supply : ℕ → String → AuthSupply
supply now token = record {
  fold = same;
  casefold = same;
  hasher = hasher;
  dummy_password_hash = "dummy";
  jwt = jwt;
  hash_refresh_token = same;
  now = now;
  refresh_token = token;
  uuid = 9;
}

abbrev ada : User
ada = record { id = 1; email = "ada@example.com"; password_hash = "secret" }

abbrev first : Session
first = record {
  id = 1;
  user_id = 1;
  family_id = 5;
  hashed_refresh_token = "t1";
  used_at = none;
  expires_at = 500;
}

abbrev store : Store
store = record {
  tables = record { users = ada ∷ []; sessions = first ∷ []; accounts = []; transactions = [] };
  serials = record {
    user_serial = 2;
    session_serial = 2;
    account_serial = 1;
    transaction_serial = 1;
  };
}

store-IsAuthConsistent : IsAuthConsistent same store.tables store.serials
store-IsAuthConsistent = record {
  users_keyed = (tt, tt);
  users_numbered = (omega arith, tt);
  emails = (tt, tt);
  sessions_keyed = (tt, tt);
  sessions_numbered = (omega arith, tt);
  hashes = (tt, tt);
  families = (tt, tt);
  owned = (refl, tt);
}

abbrev settings : Settings
settings = record {
  database_url = "";
  frontend_origin = "";
  cookie_domain = none;
  cookie_secure = true;
  environment = production;
  log_level = info;
  log_format = none;
  jwt_secret = "0123456789abcdef0123456789abcdef";
  redis_url = "";
}

abbrev idle : RedisServer
idle = record { up = true; values = λ k. 0; deadlines = λ k. none }

abbrev is_email : String → Bool
is_email t = true

abbrev refreshed : Store
refreshed = (get_db (refresh_session (supply 100 "t2") "t1") store).1

refresh_stores_the_successor :
    get_db (refresh_session (supply 100 "t2") "t1") store
    ≡ (ok (new_pair (supply 100 "t2") 1), rotated (supply 100 "t2") "t1" store first)
unfolding get_db refresh_session
refresh_stores_the_successor = refl

handle-IsAuthConsistent_example :
    IsAuthConsistent same
      (handle settings is_email
        (supply 100 "t2")
        server
        0
        none
        (refresh (some "t1"))
        idle
        store).1.1.tables
      (handle settings is_email
        (supply 100 "t2")
        server
        0
        none
        (refresh (some "t1"))
        idle
        store).1.1.serials
handle-IsAuthConsistent_example =
    handle-IsAuthConsistent settings is_email (supply 100 "t2") server 0 none idle
      (refresh (some "t1")) store store-IsAuthConsistent (refl, tt)

refresh_session-rotation_example :
    get_db (refresh_session (supply 100 "t2") "t1") store
    ≡ rotation (supply 100 "t2") "t1" store (some first)
refresh_session-rotation_example =
    refresh_session-rotation (supply 100 "t2") "t1" store store-IsAuthConsistent

refresh_session-replay_example :
    (x : Session) × (presented (supply 100 "t2") "t1" (begin store) ≡ some x)
    × (get_db (refresh_session (supply 200 "t3") "t1") (rotated (supply 100 "t2") "t1" store first)
        ≡ refused (revoke x.family_id (rotated (supply 100 "t2") "t1" store first)))
    × (get_db
          (refresh_session (supply 300 "t4") "t2")
          (revoke x.family_id (rotated (supply 100 "t2") "t1" store first))
        ≡ refused (revoke x.family_id (rotated (supply 100 "t2") "t1" store first)))
refresh_session-replay_example =
    refresh_session-replay (supply 100 "t2") (supply 200 "t3") (supply 300 "t4") "t1" store
      (rotated (supply 100 "t2") "t1" store first) (new_pair (supply 100 "t2") 1)
      store-IsAuthConsistent refl refl refresh_stores_the_successor

logout_user-refresh_session_example :
    get_db
      (refresh_session (supply 200 "t3") "t1")
      (get_db (logout_user (supply 100 "t2") "t1") store).1
    ≡ refused (get_db (logout_user (supply 100 "t2") "t1") store).1
logout_user-refresh_session_example =
    logout_user-refresh_session (supply 100 "t2") (supply 200 "t3") "t1" "t1" store first first
      store-IsAuthConsistent refl refl refl refl

login_counted-sign_in_example :
    get_db (login_counted (supply 100 "t2") "ada@example.com" "secret") store
    ≡ (ok (ada, first_pair (supply 100 "t2") store ada), opened (supply 100 "t2") store ada)
login_counted-sign_in_example =
    login_counted-sign_in (supply 100 "t2") store "ada@example.com" "secret"

count_login_attempt-is_locked_out_example :
    (count_login_attempt server same 0 "a" "b" (record idle { values = λ k. 10 })).0
    ≡ err (app_error rate_limited)
unfolding server_laws
count_login_attempt-is_locked_out_example =
    count_login_attempt-is_locked_out server server_laws 0 same "a" "b"
      (record idle { values = λ k. 10 })

count_login_attempt-Counted_example :
    Counted server server_laws 0 "login:email:a" idle
      (count_login_attempt server same 0 "a" "b" idle).1
    × Counted server server_laws 0 "login:ip:b" idle
        (count_login_attempt server same 0 "a" "b" idle).1
unfolding server_laws
count_login_attempt-Counted_example =
    count_login_attempt-Counted server server_laws 0 same "a" "b" idle refl

jwt_laws : IsJwt jwt 100 1
unfolding access_claims access_token_lifetime encode_access_token
jwt_laws = record {
  decode-encode = λ now from to. ground arith;
  decode-expired = λ now late. ground arith;
  encode-nonempty = refl;
  int-str = refl;
}

abbrev logged_in : Store
logged_in = (get_db (login_counted (supply 100 "t2") "ada@example.com" "secret") store).1

login_succeeds :
    get_db (login_counted (supply 100 "t2") "ada@example.com" "secret") store
    ≡ (ok (ada, new_pair (supply 100 "t2") 1), logged_in)
unfolding get_db login_counted
login_succeeds = refl

login_counted-me_route_example :
    get_db
      (me_route settings is_email (supply 200 "t3") server (some (encode_access_token jwt 100 1)))
      logged_in
    ≡ (
      ok (record { body = some (record { id = 1; email = "ada@example.com" }); cookies = [] }),
      logged_in,
    )
unfolding access_token_lifetime access_expiry
login_counted-me_route_example =
    login_counted-me_route (supply 100 "t2") (supply 200 "t3") settings is_email server refl
      (omega arith) "ada@example.com" "secret" store logged_in ada (new_pair (supply 100 "t2") 1)
      jwt_laws store-IsAuthConsistent login_succeeds

clear_auth_cookies-set_auth_cookies_example :
    All IsGuarded (set_auth_cookies settings (new_pair (supply 100 "t2") 1))
    × All IsGuarded (clear_auth_cookies settings)
    × (map identity (clear_auth_cookies settings)
        ≡ map identity (set_auth_cookies settings (new_pair (supply 100 "t2") 1)))
    × All (λ c. c.max_age ≡ 0) (clear_auth_cookies settings)
unfolding accepts_settings
clear_auth_cookies-set_auth_cookies_example =
    clear_auth_cookies-set_auth_cookies settings (new_pair (supply 100 "t2") 1) refl refl

unknown_token_refused :
    (handle settings is_email
      (supply 100 "t2")
      server
      0
      (some "10.0.0.1")
      (refresh (some "other"))
      idle
      store).1.0
    ≡ err (app_error invalid_session)
unfolding handle get_db refresh_session
unknown_token_refused = refl
