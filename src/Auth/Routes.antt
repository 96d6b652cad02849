-- ===== src/Auth/Routes.antt =====
-- auth/routes.py and auth/dependencies.py: the endpoints, their cookies, and who is calling.
use tradinghub.Base.{
  ℕ, ◌/◌, String, Bool, true, Option, none, some, same_text, List, [], ◌∷◌, if◌then◌else◌,
}
use tradinghub.Core.Errors.{Result, Error, err, runtime_error, validation_error, invalid_session}
use tradinghub.Core.Config.{Settings}
use tradinghub.Core.Database.{Store, Action, pure, raise, get_db, ◌>>=◌, ◌>>◌}
use tradinghub.Auth.Models.{User}
use tradinghub.Auth.Schemas.{
  RegisterRequest, LoginRequest, UserResponse, accepts_register, accepts_login,
}
use tradinghub.Auth.Security.Tokens.{
  AccessTokenClaims, Jwt, decode_access_token, access_token_lifetime, refresh_token_lifetime,
  second,
}
use tradinghub.Auth.Security.RateLimit.{Redis}
use tradinghub.Auth.Crud.Users.{get_user_by_id}
use tradinghub.Auth.Services.{
  AuthSupply, TokenPair, register_user, login_user, refresh_session, logout_user,
}

-- What Response.set_cookie is called with.
pub record Cookie : Type 0 where
  pub name : String
  pub value : String
  pub max_age : ℕ
  pub path : String
  pub domain : Option String
  pub secure : Bool
  pub http_only : Bool
  pub same_site : String

abbrev pub access_cookie : String
access_cookie = "access_token"

abbrev pub refresh_cookie : String
refresh_cookie = "refresh_token"

abbrev pub refresh_path : String
refresh_path = "/auth"

-- ACCESS_MAX_AGE and REFRESH_MAX_AGE
unfoldable pub access_max_age : ℕ
unfolding access_token_lifetime
access_max_age = access_token_lifetime / second

unfoldable pub refresh_max_age : ℕ
unfolding refresh_token_lifetime
refresh_max_age = refresh_token_lifetime / second

-- `_set_cookie`
abbrev pub set_cookie : Settings → String → String → ℕ → String → Cookie
set_cookie settings name value max_age path = record {
  name = name;
  value = value;
  max_age = max_age;
  path = path;
  domain = settings.cookie_domain;
  secure = settings.cookie_secure;
  http_only = true;
  same_site = "lax";
}

-- `_set_auth_cookies` and `_clear_auth_cookies`
unfoldable pub set_auth_cookies : Settings → TokenPair → List Cookie
unfolding access_max_age refresh_max_age
set_auth_cookies settings pair =
    set_cookie settings access_cookie pair.access_token access_max_age "/"
    ∷ set_cookie settings refresh_cookie pair.refresh_token refresh_max_age refresh_path
    ∷ []

unfoldable pub clear_auth_cookies : Settings → List Cookie
clear_auth_cookies settings =
    set_cookie settings access_cookie "" 0 "/"
    ∷ set_cookie settings refresh_cookie "" 0 refresh_path
    ∷ []

abbrev pub claims_or_raise : Option AccessTokenClaims → Action AccessTokenClaims
claims_or_raise none = raise invalid_session
claims_or_raise (some c) = pure c

-- get_current_user_claims of the access cookie; an empty cookie is no cookie.
unfoldable pub get_current_user_claims : Jwt → ℕ → Option String → Action AccessTokenClaims
unfolding decode_access_token
get_current_user_claims jwt now none = raise invalid_session
get_current_user_claims jwt now (some access_token) =
    if same_text access_token ""
    then raise invalid_session
    else claims_or_raise (decode_access_token jwt now access_token)

pub data Request : Type 0 where
  register : RegisterRequest → Request
  login : LoginRequest → Request
  refresh : Option String → Request
  logout : Option String → Request
  me : Option String → Request

-- A body, if the answer has one, and the cookies.
pub record Response : Type 0 where
  pub body : Option UserResponse
  pub cookies : List Cookie

abbrev pub user_response : User → UserResponse
user_response u = record { id = u.id; email = u.email }

abbrev pub fail : Error → Action Response
fail e w = (err e, w)

abbrev pub signed_in : Settings → User × TokenPair → Action Response
signed_in settings (u, pair) =
    pure (record { body = some (user_response u); cookies = set_auth_cookies settings pair })

abbrev pub my_response : Option User → Action Response
my_response none = raise invalid_session
my_response (some u) = pure (record { body = some (user_response u); cookies = [] })

module _ (settings : Settings) (is_email : String → Bool) (s : AuthSupply) (redis : Redis) where
  abbrev then_sign_in : redis.State × Action (User × TokenPair) → redis.State × Action Response
  then_sign_in (c, action) = (c, action >>= signed_in settings)

  -- `_client_ip`, and the service that needs the address.
  abbrev pub with_client_ip :
      Option String
      → redis.State
      → (String → redis.State × Action (User × TokenPair))
      → redis.State × Action Response
  with_client_ip none c service = (c, fail runtime_error)
  with_client_ip (some ip) c service = then_sign_in (service ip)

  unfoldable pub refresh_route : Option String → Action Response
  unfolding refresh_session set_auth_cookies
  refresh_route none = raise invalid_session
  refresh_route (some raw_refresh_token) = do
    pair ← refresh_session s raw_refresh_token
    pure (record { body = none; cookies = set_auth_cookies settings pair })

  abbrev logout_presented : Option String → Action (Unit {0})
  logout_presented none = pure tt
  logout_presented (some raw_refresh_token) = logout_user s raw_refresh_token

  unfoldable pub logout_route : Option String → Action Response
  unfolding logout_user clear_auth_cookies
  logout_route raw_refresh_token = do
    logout_presented raw_refresh_token
    pure (record { body = none; cookies = clear_auth_cookies settings })

  unfoldable pub me_route : Option String → Action Response
  unfolding get_current_user_claims get_user_by_id
  me_route access_token = do
    claims ← get_current_user_claims s.jwt s.now access_token
    found ← get_user_by_id claims.user_id
    my_response found

  -- The body of each route: what it leaves in Redis, and what it does in its session.
  unfoldable pub route : ℕ → Option String → Request → redis.State → redis.State × Action Response
  unfolding register_user login_user refresh_route logout_route me_route accepts_register
      accepts_login
  route seconds client (register payload) c =
      if accepts_register is_email payload
      then with_client_ip client c
          (λ ip. register_user s redis seconds payload.email payload.password ip c)
      else (c, fail validation_error)
  route seconds client (login payload) c =
      if accepts_login is_email payload
      then with_client_ip client c
          (λ ip. login_user s redis seconds payload.email payload.password ip c)
      else (c, fail validation_error)
  route seconds client (refresh raw_refresh_token) c = (c, refresh_route raw_refresh_token)
  route seconds client (logout raw_refresh_token) c = (c, logout_route raw_refresh_token)
  route seconds client (me access_token) c = (c, me_route access_token)

  -- Every route has DbSession.
  unfoldable pub handle :
      ℕ → Option String → Request → redis.State → Store → redis.State × (Result Response × Store)
  unfolding route
  handle seconds client request c store =
      let (c', action) = route seconds client request c in (c', get_db action store)
