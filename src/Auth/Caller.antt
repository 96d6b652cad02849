-- ===== src/Auth/Caller.antt =====
-- auth/dependencies.py: the account that an access token stands for, from the documented behaviour of
-- PyJWT.
use tradinghub.Auth.Services.{TokenPair, login_counted}
use tradinghub.Auth.Crud.Users.{has_email}
use tradinghub.Auth.Security.Passwords.{verify_password}
use tradinghub.Auth.Families.{IsAuthConsistent}
use tradinghub.Auth.Families.Actions.{new_pair, may_issue, issue_token_pair_lem}
use tradinghub.Auth.Families.SignIn.{started, login-accepted, login-refused}
use tradinghub.Core.Database.{Store, begin, get_db, finish, commit, rollback}
use tradinghub.Auth.Families.{user_key}
use tradinghub.Sql.Search.{found_only}
use tradinghub.Base.{
  ◌/◌, ◌*◌, true, find?-All, ap, Option-cases, inl, inr, Bool-cases, ltb, Bool-cases, ltb, ℕ, ◌+◌,
  ◌≤◌, ◌<◌, String, Bool, false, ◌==◌, same_text, none, some, ◌≡◌, refl, ◌∙◌, arith, find?,
  if◌then◌else◌, [],
}
use tradinghub.Core.Errors.{Result, ok, err, app_error, invalid_session}
use tradinghub.Core.Config.{Settings}
use tradinghub.Core.Database.{Work}
use tradinghub.Auth.Models.{User}
use tradinghub.Auth.Security.RateLimit.{Redis}
use tradinghub.Auth.Security.Tokens.{
  access_claims, Jwt, encode_access_token, decode_access_token, access_token_lifetime, second,
}
use tradinghub.Auth.Services.{AuthSupply}
use tradinghub.Auth.Crud.Users.{get_user_by_id}
use tradinghub.Auth.Routes.{Response, get_current_user_claims, me_route, user_response}

-- The second that an instant lies in.
abbrev pub in_seconds : ℕ → ℕ
in_seconds instant = instant / second

-- The start of the second in which the fifteen minutes of an access token end.
unfoldable pub access_expiry : ℕ → ℕ
access_expiry issued_at = in_seconds (issued_at + access_token_lifetime) * second

-- A token loses less than a second of its fifteen minutes.
access_expiry-bounds :
    (issued_at : ℕ)
    → (access_expiry issued_at ≤ issued_at + access_token_lifetime)
      × (issued_at + access_token_lifetime < access_expiry issued_at + second)
unfolding access_expiry
access_expiry-bounds issued_at =
    let t = issued_at + access_token_lifetime in (omega arith, omega arith)

-- What PyJWT documents of a token that it signed itself, with the same secret, and Python of the text
-- of an integer: for the access token of a user, issued at an instant. The dates are cut off to whole
-- seconds, and the token is good from the second of `iat` to before that of `exp`.
pub record IsJwt (jwt : Jwt) (issued_at user_id : ℕ) : Type 0 where
  pub decode-encode :
      (now : ℕ)
      → in_seconds (access_claims jwt issued_at user_id).iat ≤ in_seconds now
      → in_seconds now < in_seconds (access_claims jwt issued_at user_id).exp
      → jwt.decode now (encode_access_token jwt issued_at user_id)
        ≡ some (record {
          sub = (access_claims jwt issued_at user_id).sub;
          iat = in_seconds (access_claims jwt issued_at user_id).iat;
          exp = in_seconds (access_claims jwt issued_at user_id).exp;
        })
  pub decode-expired :
      (now : ℕ)
      → in_seconds (access_claims jwt issued_at user_id).exp ≤ in_seconds now
      → jwt.decode now (encode_access_token jwt issued_at user_id) ≡ none
  pub encode-nonempty : same_text (encode_access_token jwt issued_at user_id) "" ≡ false
  pub int-str : jwt.int (access_claims jwt issued_at user_id).sub ≡ some user_id

in_seconds-le : (a b : ℕ) → a ≤ b → in_seconds a ≤ in_seconds b
in_seconds-le a b h = omega arith

in_seconds-lt : (a b : ℕ) → a < in_seconds b * second → in_seconds a < in_seconds b
in_seconds-lt a b h = omega arith

in_seconds-late : (a b : ℕ) → in_seconds b * second ≤ a → in_seconds b ≤ in_seconds a
in_seconds-late a b h = omega arith

module _ (jwt : Jwt) (issued_at user_id : ℕ) (laws : IsJwt jwt issued_at user_id) where
  abbrev token : String
  token = encode_access_token jwt issued_at user_id

  -- Until it expires an access token names the user that it was issued to.
  pub decode_access_token-encode_access_token :
      (now : ℕ)
      → issued_at ≤ now
      → now < access_expiry issued_at
      → decode_access_token jwt now token ≡ some (record { user_id = user_id })
  unfolding decode_access_token access_claims access_expiry
  decode_access_token-encode_access_token now from to =
      rw
        (
          laws.decode-encode now (in_seconds-le issued_at now from)
              (in_seconds-lt now (issued_at + access_token_lifetime) to),
          laws.int-str,
        )
        refl

  -- From then on it names nobody.
  decode_access_token-expired :
      (now : ℕ) → access_expiry issued_at ≤ now → decode_access_token jwt now token ≡ none
  unfolding decode_access_token access_claims access_expiry
  decode_access_token-expired now late =
      rw (laws.decode-expired now (in_seconds-late now (issued_at + access_token_lifetime) late))
        refl

-- The answer of `me` to an access token of the user, while the token lives and after.
abbrev pub me_answer : User → Bool → Result Response
me_answer u lives =
    if lives
    then ok (record { body = some (user_response u); cookies = [] })
    else err (app_error invalid_session)

module _ (settings : Settings) (is_email : String → Bool) (s : AuthSupply) (redis : Redis)
    (issued_at : ℕ) (u : User) (w : Work) (laws : IsJwt s.jwt issued_at u.id) where
  pub me_route_lem :
      issued_at ≤ s.now
      → find? (λ v. v.id == u.id) w.users ≡ some u
      → me_route settings is_email s redis (some (encode_access_token s.jwt issued_at u.id)) w
        ≡ (me_answer u (ltb s.now (access_expiry issued_at)), w)
  unfolding me_route get_current_user_claims get_user_by_id
  me_route_lem from known = elim (Bool-cases (ltb s.now (access_expiry issued_at))) [
    | inl lives ↦
        rw
          (
            lives,
            laws.encode-nonempty,
            decode_access_token-encode_access_token s.jwt issued_at u.id laws s.now from
                (ground arith),
            known,
          )
          refl
    | inr late ↦
        rw
          (
            late,
            laws.encode-nonempty,
            decode_access_token-expired s.jwt issued_at u.id laws s.now (ground arith),
          )
          refl
  ]

module _ (s : AuthSupply) (email raw : String) (a b : Store) (u : User) (pair : TokenPair) where
  -- What a login that succeeded says of its answer.
  pub record SignedIn : Type 0 where
    pub known : find? (has_email s.fold email) a.tables.users ≡ some u
    pub right : verify_password s.hasher raw u.password_hash ≡ true
    pub pair_is : pair ≡ new_pair s u.id
    pub users : b.tables.users ≡ a.tables.users

  started-ok :
      (v : User)
      → find? (has_email s.fold email) a.tables.users ≡ some v
      → finish (started s (begin a) v (begin a)).0 (started s (begin a) v (begin a)).1
        ≡ (ok (u, pair), b)
      → verify_password s.hasher raw v.password_hash ≡ true
      → SignedIn
  unfolding finish commit rollback
  started-ok v known e right = elim (Bool-cases (may_issue s v.id (begin a))) [
    | inl allowed ↦
        let facts = rw (issue_token_pair_lem s v.id s.uuid (begin a), allowed) at e in
        record {
          known = ground (arith, known, facts);
          right = ground (arith, right, facts);
          pair_is = ground (arith, facts);
          users = ground (arith, facts);
        }
    | inr refused ↦ absurd (
        let facts = rw (issue_token_pair_lem s v.id s.uuid (begin a), refused) at e in
        ground (arith, facts))
  ]

  pub login_counted-ok : get_db (login_counted s email raw) a ≡ (ok (u, pair), b) → SignedIn
  unfolding get_db finish rollback
  login_counted-ok e = elim (Option-cases (find? (has_email s.fold email) a.tables.users)) [
    | inl unknown ↦ absurd (
        let facts = rw (login-refused s (begin a) email raw (rw unknown refl)) at e in
        ground (arith, facts))
    | inr (v, known) ↦ elim (Bool-cases (verify_password s.hasher raw v.password_hash)) [
      | inl right ↦
          started-ok v known (rw (login-accepted s (begin a) email raw v known right) at e) right
      | inr wrong ↦ absurd (
          let facts = rw (login-refused s (begin a) email raw (rw (known, wrong) refl)) at e in
          ground (arith, facts))
    ]
  ]

finish-begin {ℓ} : {A : Type ℓ} (r : Result A) (b : Store) → finish r (begin b) ≡ (r, b)
unfolding finish commit rollback
finish-begin (ok a) b = refl
finish-begin (err e) b = refl

-- From consistent users, and if PyJWT does with the access token of the login what it documents,
-- whoever logged in is who `me` answers with, given that token: up to the second in which its fifteen
-- minutes end, and from then on the session is invalid. Neither answer changes the store.
pub login_counted-me_route :
    (s t : AuthSupply) (settings : Settings) (is_email : String → Bool) (redis : Redis)
    → s.jwt ≡ t.jwt
    → s.now ≤ t.now
    → (email raw : String) (a b : Store) (u : User) (pair : TokenPair) → IsJwt t.jwt s.now u.id
    → IsAuthConsistent s.fold a.tables a.serials
    → get_db (login_counted s email raw) a ≡ (ok (u, pair), b)
    → get_db (me_route settings is_email t redis (some pair.access_token)) b
      ≡ (me_answer u (ltb t.now (access_expiry s.now)), b)
unfolding get_db
login_counted-me_route s t settings is_email redis jwt from email raw a b u pair laws h e =
    let r = login_counted-ok s email raw a b u pair e in
    let same_user : find? (λ v. v.id == u.id) b.tables.users ≡ some u = rw r.users (
      find?-All _ (has_email s.fold email) a.tables.users
        (found_only user_key (λ v. v.id == u.id) u.id a.tables.users h.users_keyed
          (λ v eq. ground arith))
        r.known (ground arith)) in
    let token : pair.access_token ≡ encode_access_token t.jwt s.now u.id =
      ap (λ p. p.access_token) r.pair_is ∙ ap (λ j. encode_access_token j s.now u.id) jwt in
    rw (token, me_route_lem settings is_email t redis s.now u (begin b) laws from same_user)
      (finish-begin (me_answer u (ltb t.now (access_expiry s.now))) b)
