-- ===== src/Auth/Families/Opening.antt =====
-- login_user once its attempt is counted, as a whole transaction: which family it opens in the store.
use tradinghub.Base.{
  suc, ◌+◌, String, Bool, true, false, none, some, Option, [], ◌∷◌, ◌++◌, ◌≡◌, refl, arith, inl,
  inr, Bool-cases, Option-cases, find?, any, same_text, ◌==◌, if◌then◌else◌,
}
use tradinghub.Sql.Search.{any_found}
use tradinghub.Core.Errors.{Result, ok, err, app_error, invalid_credentials, integrity_error}
use tradinghub.Core.Database.{Store, begin, get_db, finish, commit, rollback}
use tradinghub.Auth.Models.{User, Session}
use tradinghub.Auth.Security.Passwords.{
  verify_result, PasswordHasher, Verification, verified, verification_error, invalid_hash_error,
  verify_password,
}
use tradinghub.Auth.Security.Tokens.{encode_access_token, refresh_token_lifetime}
use tradinghub.Auth.Services.{AuthSupply, TokenPair, login_counted}
use tradinghub.Auth.Families.Actions.{may_issue, issue_token_pair_lem}
use tradinghub.Auth.Families.SignIn.{started, login_counted-attempted}

-- argon2 says yes, and does not raise.
abbrev pub is_verified : Verification → Bool
is_verified verified = true
is_verified verification_error = false
is_verified invalid_hash_error = false

verify_password-is_verified :
    (hasher : PasswordHasher) (raw password_hash : String)
    → verify_password hasher raw password_hash ≡ is_verified (hasher.verify password_hash raw)
unfolding verify_password
verify_password-is_verified hasher raw password_hash = ground arith

-- A password that passes is one that argon2 verified.
pub verify_password-verified :
    (hasher : PasswordHasher) (raw password_hash : String)
    → verify_password hasher raw password_hash ≡ true
    → hasher.verify password_hash raw ≡ verified
unfolding verify_password
verify_password-verified hasher raw password_hash h = passed (hasher.verify password_hash raw) h
  where
    passed : (v : Verification) → verify_result v ≡ true → v ≡ verified
    passed verified e = refl
    passed verification_error e = cc
    passed invalid_hash_error e = cc

module _ (s : AuthSupply) (a : Store) where
  -- The first session of a family, which is the user's for the time of a refresh token.
  abbrev pub first_session : User → Session
  first_session u = record {
    id = a.serials.session_serial;
    user_id = u.id;
    family_id = s.uuid;
    hashed_refresh_token = s.hash_refresh_token s.refresh_token;
    used_at = none;
    expires_at = s.now + refresh_token_lifetime;
  }

  abbrev pub first_pair : User → TokenPair
  first_pair u = record {
    access_token = encode_access_token s.jwt s.now u.id;
    refresh_token = s.refresh_token;
  }

  -- Another session has the hash of the new refresh token.
  abbrev pub is_token_taken : Bool
  is_token_taken =
      any (λ (x : Session). same_text x.hashed_refresh_token (s.hash_refresh_token s.refresh_token))
        a.tables.sessions

  -- The store with an id of a session taken from its sequence.
  abbrev pub numbered : Store
  numbered = record a {
    serials = record a.serials { session_serial = suc a.serials.session_serial };
  }

  -- With the first session of the family that the uuid names.
  abbrev pub opened : User → Store
  opened u = record numbered {
    tables = record a.tables { sessions = a.tables.sessions ++ first_session u ∷ [] };
  }

  abbrev pub opening : User → Result (User × TokenPair) × Store
  opening u =
      if is_token_taken then (err integrity_error, numbered) else (ok (u, first_pair u), opened u)

  pub finish-started :
      (u : User)
      → any (λ (v : User). v.id == u.id) a.tables.users ≡ true
      → finish (started s (begin a) u (begin a)).0 (started s (begin a) u (begin a)).1 ≡ opening u
  unfolding finish commit rollback
  finish-started u stored = elim (Bool-cases is_token_taken) [
    | inl taken ↦
        let no : may_issue s u.id (begin a) ≡ false = rw (stored, taken) refl in
        rw (issue_token_pair_lem s u.id s.uuid (begin a), no, taken) refl
    | inr free ↦
        let yes : may_issue s u.id (begin a) ≡ true = rw (stored, free) refl in
        rw (issue_token_pair_lem s u.id s.uuid (begin a), yes, free) refl
  ]

  module _ (email raw_password : String) where
    -- The account of the email, up to case.
    abbrev pub holder : Option User
    holder = find? (λ (u : User). same_text (s.fold u.email) (s.fold email)) a.tables.users

    -- The rule of a login.
    abbrev pub sign_in : Option User → Result (User × TokenPair) × Store
    sign_in none = (err (app_error invalid_credentials), a)
    sign_in (some u) =
        if is_verified (s.hasher.verify u.password_hash raw_password)
        then opening u
        else (err (app_error invalid_credentials), a)

    -- A counted login, committed or rolled back: if the account of the email has a hash that argon2
    -- verifies with the password, the store has one more session, of the account, in the family that
    -- the uuid of the login names, good for seven days, and the answer is the account with its tokens,
    -- unless the hash of the new token is taken, which stores nothing and fails. An unknown email and
    -- a password that is not verified have one answer, and change nothing.
    pub login_counted-sign_in : get_db (login_counted s email raw_password) a ≡ sign_in holder
    unfolding get_db finish rollback
    login_counted-sign_in =
        rw (login_counted-attempted s (begin a) email raw_password) (elim (Option-cases holder) [
          | inl unknown ↦ rw unknown refl
          | inr (u, known) ↦
              let stored : any (λ (v : User). v.id == u.id) a.tables.users ≡ true =
                any_found _ _ a.tables.users known (ground arith) in
              let argon2 = verify_password-is_verified s.hasher raw_password u.password_hash in
              elim (Bool-cases (is_verified (s.hasher.verify u.password_hash raw_password))) [
                | inl right ↦ rw (known, argon2, right) (finish-started u stored)
                | inr wrong ↦ rw (known, argon2, wrong) refl
              ]
        ])
