-- ===== src/Auth/Families/Keeping.antt =====
-- A property of the session that every auth service keeps is one that every route keeps.
use tradinghub.Auth.Schemas.{RegisterRequest, LoginRequest, accepts_register, accepts_login}
use tradinghub.Auth.Models.{User}
use tradinghub.Auth.Crud.Users.{get_user_by_id}
use tradinghub.Auth.Security.Tokens.{Jwt, AccessTokenClaims, decode_access_token}
use tradinghub.Auth.Security.RateLimit.{count_login_attempt, count_registration_attempt}
use tradinghub.Auth.Services.{
  register_counted, login_counted, TokenPair, logout_user, refresh_session,
}
use tradinghub.Auth.Routes.{
  signed_in, with_client_ip, claims_or_raise, my_response, get_current_user_claims, refresh_route,
  logout_route, me_route,
}
use tradinghub.Base.{
  ℕ, String, Bool, Option, none, some, ◌≡◌, refl, inl, inr, Bool-cases, same_text, find?, ◌==◌,
}
use tradinghub.Core.Errors.{Result, ok, err}
use tradinghub.Core.Config.{Settings}
use tradinghub.Core.Database.{Work, Action, continue}
use tradinghub.Auth.Security.RateLimit.{Redis}
use tradinghub.Auth.Services.{refresh_session, logout_user, AuthSupply, register_user, login_user}
use tradinghub.Auth.Routes.{
  refresh_route, me_route, logout_route, Request, Response, register, login, refresh, logout, me,
  route,
}

-- What follows keeps a property, if it does from where it starts.
continue-keeps {ℓ κ} :
    (P : Work → Type 0) {A : Type ℓ} {B : Type κ} (r : Result A) (f : A → Action B) (w : Work)
    → P w
    → ((a : A) → P (f a w).1)
    → P (continue r f w).1
continue-keeps P (ok a) f w h k = k a
continue-keeps P (err e) f w h k = h

continue_only_reads {ℓ κ} :
    {A : Type ℓ} {B : Type κ} (r : Result A) (f : A → Action B) (w : Work)
    → ((a : A) → (f a w).1 ≡ w)
    → (continue r f w).1 ≡ w
continue_only_reads (ok a) f w h = h a
continue_only_reads (err e) f w h = refl

claims_or_raise_only_reads : (o : Option AccessTokenClaims) (w : Work) → (claims_or_raise o w).1 ≡ w
claims_or_raise_only_reads none w = refl
claims_or_raise_only_reads (some c) w = refl

my_response_only_reads : (o : Option User) (w : Work) → (my_response o w).1 ≡ w
my_response_only_reads none w = refl
my_response_only_reads (some c) w = refl

claims_only_read :
    (jwt : Jwt) (now : ℕ) (o : Option String) (w : Work)
    → (get_current_user_claims jwt now o w).1 ≡ w
unfolding get_current_user_claims
claims_only_read jwt now none w = refl
claims_only_read jwt now (some t) w = elim (Bool-cases (same_text t "")) [
  | inl empty ↦ rw empty refl
  | inr present ↦ rw present (claims_or_raise_only_reads (decode_access_token jwt now t) w)
]

module _ (settings : Settings) (is_email : String → Bool) (s : AuthSupply) (redis : Redis)
    (seconds : ℕ) (client : Option String) (c : redis.State) where
  abbrev pub action : Request → Action Response
  action r = (route settings is_email s redis seconds client r c).1

  abbrev Service : Type 0
  Service = redis.State × Action (User × TokenPair)

  -- The caller's own account is only read.
  pub me_only_reads : (access_token : Option String) (w : Work) → (action (me access_token) w).1 ≡ w
  unfolding route me_route get_user_by_id
  me_only_reads access_token w = rw (claims_only_read s.jwt s.now access_token w) (
      continue_only_reads (get_current_user_claims s.jwt s.now access_token w).0 _ w
        (λ claims. my_response_only_reads (find? (λ u. u.id == claims.user_id) w.users) w))

  module _ (P : Work → Type 0) (w : Work) (h : P w) where
    -- A service that signs in, and the want of an address.
    signing_in-keeps :
        (o : Option String) (m : String → Service)
        → ((ip : String) → P ((m ip).1 w).1)
        → P ((with_client_ip settings is_email s redis o c m).1 w).1
    signing_in-keeps none m k = h
    signing_in-keeps (some ip) m k =
        continue-keeps P ((m ip).1 w).0 (signed_in settings) ((m ip).1 w).1 (k ip) (λ _. k ip)

    register-keeps :
        (payload : RegisterRequest)
        → P (register_counted s payload.email payload.password w).1
        → P (action (register payload) w).1
    unfolding route register_user
    register-keeps payload k = elim (Bool-cases (accepts_register is_email payload)) [
      | inr refused ↦ rw (action, refused) h
      | inl accepted ↦
          rw (action, accepted)
            (signing_in-keeps client _ (λ ip.
              continue-keeps P (count_registration_attempt redis seconds ip c).0 _ w h (λ _. k)))
    ]

    login-keeps :
        (payload : LoginRequest)
        → P (login_counted s payload.email payload.password w).1
        → P (action (login payload) w).1
    unfolding route login_user
    login-keeps payload k = elim (Bool-cases (accepts_login is_email payload)) [
      | inr refused ↦ rw (action, refused) h
      | inl accepted ↦
          rw (action, accepted)
            (signing_in-keeps client _ (λ ip.
              continue-keeps P (count_login_attempt redis s.casefold seconds payload.email ip c).0 _
                w h (λ _. k)))
    ]

    logout-keeps :
        (raw : Option String)
        → ((t : String) → P (logout_user s t w).1)
        → P (action (logout raw) w).1
    unfolding route logout_route
    logout-keeps none k = h
    logout-keeps (some raw) k = continue-keeps P (logout_user s raw w).0 _ _ (k raw) (λ _. k raw)

    refresh-keeps :
        (raw : Option String)
        → ((t : String) → P (refresh_session s t w).1)
        → P (action (refresh raw) w).1
    unfolding route refresh_route
    refresh-keeps none k = h
    refresh-keeps (some raw) k =
        continue-keeps P (refresh_session s raw w).0 _ _ (k raw) (λ _. k raw)

    -- Every route keeps what the four services keep.
    pub route-keeps :
        ((email raw : String) → P (register_counted s email raw w).1)
        → ((email raw : String) → P (login_counted s email raw w).1)
        → ((t : String) → P (refresh_session s t w).1)
        → ((t : String) → P (logout_user s t w).1)
        → (r : Request) → P (action r w).1
    route-keeps f g k l (register payload) =
        register-keeps payload (f payload.email payload.password)
    route-keeps f g k l (login payload) = login-keeps payload (g payload.email payload.password)
    route-keeps f g k l (refresh raw) = refresh-keeps raw k
    route-keeps f g k l (logout raw) = logout-keeps raw l
    route-keeps f g k l (me access_token) = rw (me_only_reads access_token w) h
