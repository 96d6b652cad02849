-- ===== src/Auth/Families/SignIn.antt =====
-- register_user and login_user once the attempt is counted: what they answer and what they leave.
use tradinghub.Base.{
  none, if◌then◌else◌, String, Bool, true, false, ◌&&◌, is_some, Option, some, ◌≡◌, refl, ◌∙◌,
  arith, inl, inr, Bool-cases, Option-cases, find?, any, any-find?, All-map,
}
use tradinghub.Core.Errors.{Result, ok, err, app_error, invalid_credentials, email_taken}
use tradinghub.Core.Database.{pure, Work, continue}
use tradinghub.Auth.Models.{User}
use tradinghub.Auth.Crud.Users.{create_user, has_email}
use tradinghub.Auth.Security.Passwords.{verify_password, hash_password}
use tradinghub.Auth.Services.{
  AuthSupply, TokenPair, issue_token_pair, start_session, login_counted, register_counted,
  hash_to_verify,
}
use tradinghub.Auth.Families.{IsGood, IsNewFamily}
use tradinghub.Auth.Families.Steps.{
  IsAuthConsistent-grow, IsAuthConsistent-user, next_user, with_user,
}
use tradinghub.Auth.Families.Actions.{IsGood-issue_token_pair}

abbrev pub with_user_of {ℓ} : {A : Type ℓ} → User → Result A → Result (User × A)
with_user_of u (ok a) = ok (u, a)
with_user_of u (err e) = err e

pairing {ℓ} :
    {A : Type ℓ} (u : User) (r : Result A) (v : Work)
    → continue r (λ a. pure (u, a)) v ≡ (with_user_of u r, v)
pairing u (ok a) v = refl
pairing u (err e) v = refl

module _ (s : AuthSupply) (w : Work) where
  -- `start_session` for a user, answered beside the user: it fails if the hash of the token is taken.
  abbrev pub started : User → Work → Result (User × TokenPair) × Work
  started u v = let (r, v') = issue_token_pair s u.id s.uuid v in (with_user_of u r, v')

  IsGood-started :
      (u : User) (v : Work)
      → IsGood s.fold v
      → IsNewFamily s.uuid v.current
      → IsGood s.fold (started u v).1
  IsGood-started u v h new =
      IsGood-issue_token_pair s u.id s.uuid v h (All-map (λ y e. ground arith) v.sessions new)

  module _ (email raw_password : String) where
    abbrev pub account_of : Option User
    account_of = find? (has_email s.fold email) w.users

    abbrev pub matches : Bool
    matches = verify_password s.hasher raw_password (hash_to_verify s account_of)

    -- An unknown email and a wrong password have the same answer, and leave the same.
    pub login-refused :
        is_some account_of && matches ≡ false
        → login_counted s email raw_password w ≡ (err (app_error invalid_credentials), w)
    unfolding login_counted
    login-refused e = elim (Option-cases account_of) [
      | inl unknown ↦ rw unknown refl
      | inr (u, known) ↦
          let wrong : verify_password s.hasher raw_password u.password_hash ≡ false =
            rw known at e in
          rw (known, wrong) refl
    ]

    pub login-accepted :
        (u : User)
        → account_of ≡ some u
        → verify_password s.hasher raw_password u.password_hash ≡ true
        → login_counted s email raw_password w ≡ started u w
    unfolding login_counted start_session
    login-accepted u known right =
        let minted = issue_token_pair s u.id s.uuid w in
        rw (known, right) (pairing u minted.0 minted.1)

    -- What a login comes to: the session of the account that has the email, or a refusal.
    abbrev pub attempted : Option User → Result (User × TokenPair) × Work
    attempted none = (err (app_error invalid_credentials), w)
    attempted (some u) =
        if verify_password s.hasher raw_password u.password_hash
        then started u w
        else (err (app_error invalid_credentials), w)

    pub login_counted-attempted : login_counted s email raw_password w ≡ attempted account_of
    login_counted-attempted = elim (Option-cases account_of) [
      | inl unknown ↦ rw unknown (login-refused (rw unknown refl))
      | inr (u, known) ↦ elim (Bool-cases (verify_password s.hasher raw_password u.password_hash)) [
        | inl right ↦ rw (known, right) (login-accepted u known right)
        | inr wrong ↦ rw (known, wrong) (login-refused (rw (known, wrong) refl))
      ]
    ]

    pub IsGood-login_counted :
        IsGood s.fold w
        → IsNewFamily s.uuid w.current
        → IsGood s.fold (login_counted s email raw_password w).1
    IsGood-login_counted h new = elim (Option-cases account_of) [
      | inl unknown ↦ rw (login-refused (rw unknown refl)) h
      | inr (u, known) ↦ elim (Bool-cases (verify_password s.hasher raw_password u.password_hash)) [
        | inl right ↦ rw (login-accepted u known right) (IsGood-started u w h new)
        | inr wrong ↦ rw (login-refused (rw (known, wrong) refl)) h
      ]
    ]

    -- The row of a new user.
    abbrev pub user_row : User
    user_row = record {
      id = w.serials.user_serial;
      email = email;
      password_hash = hash_password s.hasher raw_password;
    }

    abbrev pub enrolled : Work
    enrolled = record w { current = with_user w.current user_row; serials = next_user w.serials }

    pub register-taken :
        is_some account_of ≡ true
        → register_counted s email raw_password w ≡ (err (app_error email_taken), w)
    unfolding register_counted
    register-taken e = rw e refl

    pub register-free :
        is_some account_of ≡ false
        → register_counted s email raw_password w ≡ started user_row enrolled
    unfolding register_counted create_user start_session
    register-free e =
        let free : any (has_email s.fold email) w.users ≡ false =
          any-find? (has_email s.fold email) w.users ∙ e in
        let minted = issue_token_pair s w.serials.user_serial s.uuid enrolled in
        rw (e, free) (pairing user_row minted.0 minted.1)

    pub IsGood-register_counted :
        IsGood s.fold w
        → IsNewFamily s.uuid w.current
        → IsGood s.fold (register_counted s email raw_password w).1
    IsGood-register_counted h new = elim (Bool-cases (is_some account_of)) [
      | inl taken ↦ rw (register-taken taken) h
      | inr free ↦ rw (register-free free) (
          IsGood-started user_row enrolled
            (record {
              current =
                  IsAuthConsistent-user s.fold w.current w.serials h.current user_row refl
                    (any-find? (has_email s.fold email) w.users ∙ free);
              committed =
                  IsAuthConsistent-grow s.fold w.committed w.serials (next_user w.serials)
                    (omega arith) (omega arith) h.committed;
            })
            new)
    ]
