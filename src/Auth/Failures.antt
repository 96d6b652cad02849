-- ===== src/Auth/Failures.antt =====
-- What a request to the auth endpoints can fail with, and the answer that core/errors.py has for it.
use tradinghub.Base.{
  ℕ, String, Bool, true, false, not, ◌==◌, Option, none, some, List, [], ◌∷◌, ◌++◌, ◌≡◌, refl, sym,
  ap, ◌∙◌, arith, inl, inr, Bool-cases, Option-cases, find?, any, is_some, if◌then◌else◌,
}
use tradinghub.Core.Errors.{Result}
use tradinghub.Core.Config.{Settings}
use tradinghub.Core.Database.{Work, Store, Action, begin, continue, get_db}
use tradinghub.Core.Failures.{ends_well, well-then, finish-ends_well}
use tradinghub.Auth.Models.{Session, User}
use tradinghub.Auth.Security.Tokens.{Jwt}
use tradinghub.Auth.Crud.Users.{get_user_by_id, has_email}
use tradinghub.Auth.Crud.Sessions.{has_hash}
use tradinghub.Auth.Schemas.{accepts_register, accepts_login}
use tradinghub.Auth.Security.Passwords.{verify_password}
use tradinghub.Auth.Security.RateLimit.{Redis, count_login_attempt, count_registration_attempt}
use tradinghub.Auth.Services.{
  AuthSupply, TokenPair, login_counted, register_counted, login_user, register_user,
  refresh_session, logout_user,
}
use tradinghub.Auth.Routes.{
  Request, register, login, refresh, logout, me, Response, signed_in, route, handle, refresh_route,
  logout_route, me_route, get_current_user_claims, my_response,
}
use tradinghub.Auth.Limits.{
  IsRedis, count_login_attempt-is_locked_out, count_registration_attempt_lem,
}
use tradinghub.Auth.Families.{IsAuthConsistent}
use tradinghub.Auth.Families.Actions.{
  may_issue, presented, issue_token_pair_lem, logout-unknown, logout-known,
}
use tradinghub.Auth.Families.SignIn.{
  started, account_of, login_counted-attempted, register-taken, register-free, user_row, enrolled,
}
use tradinghub.Auth.Families.Rotation.{hash_is_taken, rotation, refresh_session-rotation}

-- A user who is found is one that a session may belong to.
found_owner :
    (p : User → Bool) (us : List User) {u : User}
    → find? p us ≡ some u
    → any (λ (x : User). x.id == u.id) us ≡ true
found_owner p [] e = cc
found_owner p (x ∷ xs) {u} e = elim (Bool-cases (p x)) [
  | inl here ↦ ground arith
  | inr there ↦ ground (arith, found_owner p xs {u = u} (ground arith))
]

last_owner : (us : List User) (u : User) → any (λ (x : User). x.id == u.id) (us ++ u ∷ []) ≡ true
last_owner [] u = ground arith
last_owner (x ∷ xs) u = ground (arith, last_owner xs u)

module _ (s : AuthSupply) where
  abbrev pub is_fresh : Work → Bool
  is_fresh w = not (any (has_hash (s.hash_refresh_token s.refresh_token)) w.sessions)

  started-ends_well :
      (w : Work) (u : User) (v : Work)
      → any (λ (x : User). x.id == u.id) v.users ≡ true
      → is_fresh v ≡ true
      → ends_well (started s w u v).0 ≡ true
  started-ends_well w u v owner fresh =
      let allowed : may_issue s u.id v ≡ true = ground arith in
      rw (issue_token_pair_lem s u.id s.uuid v, allowed) refl

  login_counted-ends_well :
      (email password : String) (w : Work)
      → is_fresh w ≡ true
      → ends_well (login_counted s email password w).0 ≡ true
  login_counted-ends_well email password w fresh =
      rw (login_counted-attempted s w email password)
        (elim (Option-cases (account_of s w email password)) [
          | inl unknown ↦ rw unknown refl
          | inr (u, known) ↦ elim (Bool-cases (verify_password s.hasher password u.password_hash)) [
            | inl right ↦
                rw (known, right)
                  (started-ends_well w u w (found_owner (has_email s.fold email) w.users known)
                    fresh)
            | inr wrong ↦ rw (known, wrong) refl
          ]
        ])

  register_counted-ends_well :
      (email password : String) (w : Work)
      → is_fresh w ≡ true
      → ends_well (register_counted s email password w).0 ≡ true
  register_counted-ends_well email password w fresh =
      elim (Bool-cases (is_some (account_of s w email password))) [
        | inl taken ↦ rw (register-taken s w email password taken) refl
        | inr free ↦ rw (register-free s w email password free) (
            started-ends_well w (user_row s w email password) (enrolled s w email password)
              (last_owner w.users (user_row s w email password)) fresh)
      ]

  refresh_session-ends_well :
      (raw : String) (a : Store)
      → IsAuthConsistent s.fold a.tables a.serials
      → hash_is_taken s raw a ≡ false
      → ends_well (refresh_session s raw (begin a)).0 ≡ true
  unfolding get_db
  refresh_session-ends_well raw a h fresh =
      let (r, w) = refresh_session s raw (begin a) in
      sym (finish-ends_well r w)
      ∙ ap (λ o. ends_well o.0) (refresh_session-rotation s raw a h)
      ∙ by_rule (presented s raw (begin a))
    where
      by_rule : (o : Option Session) → ends_well (rotation s raw a o).0 ≡ true
      by_rule none = refl
      by_rule (some x) = ground arith

  logout_user-ends_well : (raw : String) (w : Work) → ends_well (logout_user s raw w).0 ≡ true
  logout_user-ends_well raw w = elim (Option-cases (presented s raw w)) [
    | inl e ↦ rw (logout-unknown s raw w e) refl
    | inr (x, e) ↦ rw (logout-known s raw w x e) refl
  ]

pub get_current_user_claims-ends_well :
    (jwt : Jwt) (now : ℕ) (token : Option String) (w : Work)
    → ends_well (get_current_user_claims jwt now token w).0 ≡ true
unfolding get_current_user_claims
get_current_user_claims-ends_well jwt now none w = refl
get_current_user_claims-ends_well jwt now (some token) w = ground arith

my_response-ends_well : (o : Option User) (w : Work) → ends_well (my_response o w).0 ≡ true
my_response-ends_well none w = refl
my_response-ends_well (some u) w = refl

module _ (settings : Settings) (is_email : String → Bool) (s : AuthSupply) (redis : Redis)
    (laws : IsRedis redis) (seconds : ℕ) (ip : String) (c : redis.State) (a : Store)
    (h : IsAuthConsistent s.fold a.tables a.serials) (fresh : is_fresh s (begin a) ≡ true) where
  count_login-ends_well :
      (email : String)
      → ends_well (count_login_attempt redis s.casefold seconds email ip c).0 ≡ true
  count_login-ends_well email =
      rw (count_login_attempt-is_locked_out redis laws seconds s.casefold email ip c) (ground arith)

  count_registration-ends_well : ends_well (count_registration_attempt redis seconds ip c).0 ≡ true
  count_registration-ends_well =
      rw (count_registration_attempt_lem redis laws seconds ip c) (ground arith)

  signed_in_after :
      (m : Result (User × TokenPair) × Work)
      → ends_well m.0 ≡ true
      → ends_well (continue m.0 (signed_in settings) m.1).0 ≡ true
  signed_in_after m = well-then m (signed_in settings) (λ _ _. refl)

  guard_body :
      (b : Bool) (m n : redis.State × Action Response)
      → ends_well (m.1 (begin a)).0 ≡ true
      → ends_well (n.1 (begin a)).0 ≡ true
      → ends_well ((if b then m else n).1 (begin a)).0 ≡ true
  guard_body true m n hm hn = hm
  guard_body false m n hm hn = hn

  route-ends_well :
      (request : Request)
      → ends_well ((route settings is_email s redis seconds (some ip) request c).1 (begin a)).0
        ≡ true
  unfolding route register_user login_user refresh_route logout_route me_route get_user_by_id
  route-ends_well (register payload) =
      guard_body (accepts_register is_email payload) _ _
        (signed_in_after _ (
          well-then ((count_registration_attempt redis seconds ip c).0, begin a) _
            (λ _ _. register_counted-ends_well s payload.email payload.password (begin a) fresh)
            count_registration-ends_well))
        refl
  route-ends_well (login payload) =
      guard_body (accepts_login is_email payload) _ _
        (signed_in_after _ (
          well-then ((count_login_attempt redis s.casefold seconds payload.email ip c).0, begin a) _
            (λ _ _. login_counted-ends_well s payload.email payload.password (begin a) fresh)
            (count_login-ends_well payload.email)))
        refl
  route-ends_well (refresh none) = refl
  route-ends_well (refresh (some raw)) =
      well-then (refresh_session s raw (begin a)) _ (λ _ _. refl)
        (refresh_session-ends_well s raw a h (ground arith))
  route-ends_well (logout none) = refl
  route-ends_well (logout (some raw)) =
      well-then (logout_user s raw (begin a)) _ (λ _ _. refl)
        (logout_user-ends_well s raw (begin a))
  route-ends_well (me token) =
      well-then (get_current_user_claims s.jwt s.now token (begin a)) _
        (λ claims _. my_response-ends_well _ _)
        (get_current_user_claims-ends_well s.jwt s.now token (begin a))

  pub handle-ends_well :
      (request : Request)
      → ends_well (handle settings is_email s redis seconds (some ip) request c a).1.0 ≡ true
  unfolding handle get_db
  handle-ends_well request =
      let (r, w) = (route settings is_email s redis seconds (some ip) request c).1 (begin a) in
      finish-ends_well r w ∙ route-ends_well request
