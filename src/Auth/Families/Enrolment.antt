-- ===== src/Auth/Families/Enrolment.antt =====
-- register_user once its attempt is counted: the rule of a registration, and the login that follows it.
use tradinghub.Base.{
  String, true, false, some, is_some, [], ◌∷◌, ◌++◌, ◌≡◌, refl, ap, ◌∙◌, arith, find?, any-find?,
  same_text, eq_iff, inl, inr, Bool-cases,
}
use tradinghub.Sql.Search.{find?-last}
use tradinghub.Core.Errors.{ok}
use tradinghub.Core.Database.{Store, begin, get_db, finish, commit, rollback}
use tradinghub.Auth.Models.{User}
use tradinghub.Auth.Crud.Users.{has_email}
use tradinghub.Auth.Security.Passwords.{PasswordHasher, verified}
use tradinghub.Auth.Services.{AuthSupply, TokenPair, register_counted, login_counted}
use tradinghub.Auth.Families.Actions.{may_issue, issue_token_pair_lem}
use tradinghub.Auth.Families.Opening.{
  is_token_taken, first_pair, opened, holder, login_counted-sign_in,
}
use tradinghub.Auth.Families.SignIn.{account_of, user_row, enrolled, register-taken, register-free}

-- What argon2 documents: a hash that it made verifies with the password that it was made of.
abbrev pub IsHasher : PasswordHasher → Type 0
IsHasher hasher = (password : String) → hasher.verify (hasher.hash password) password ≡ verified

module _ (s : AuthSupply) (email raw : String) (a b : Store) (u : User) (pair : TokenPair) where
  -- What a registration that succeeded says: the email was free, and the store has its user at the end.
  pub record Enrolled : Type 0 where
    pub free : is_some (account_of s (begin a) email raw) ≡ false
    pub user : u ≡ user_row s (begin a) email raw
    pub users : b.tables.users ≡ a.tables.users ++ u ∷ []

  register_counted-ok : get_db (register_counted s email raw) a ≡ (ok (u, pair), b) → Enrolled
  unfolding get_db finish commit rollback
  register_counted-ok e = elim (Bool-cases (is_some (account_of s (begin a) email raw))) [
    | inl taken ↦
        absurd (
          let facts = rw (register-taken s (begin a) email raw taken) at e in ground (arith, facts))
    | inr free ↦
        let row = user_row s (begin a) email raw in
        let w = enrolled s (begin a) email raw in
        elim (Bool-cases (may_issue s row.id w)) [
          | inl allowed ↦
              let facts =
                rw
                  (
                    register-free s (begin a) email raw free,
                    issue_token_pair_lem s row.id s.uuid w,
                    allowed,
                  )
                  at e in
              record { free = free; user = ground (arith, facts); users = ground (arith, facts) }
          | inr refused ↦ absurd (
              let facts =
                rw
                  (
                    register-free s (begin a) email raw free,
                    issue_token_pair_lem s row.id s.uuid w,
                    refused,
                  )
                  at e in
              ground (arith, facts))
        ]
  ]

-- After a registration, whoever gives the same email and password is that user, and the store has one
-- more session of theirs, in the family that the uuid of the login names, if argon2 verifies what it
-- hashed and no session holds the hash of the new token yet. The email may be spelled as its case
-- folding allows.
pub register_counted-login_counted :
    (s t : AuthSupply) (email other raw : String) (a b : Store) (u : User) (pair : TokenPair)
    → IsHasher s.hasher
    → t.hasher ≡ s.hasher
    → t.fold ≡ s.fold
    → s.fold other ≡ s.fold email
    → get_db (register_counted s email raw) a ≡ (ok (u, pair), b)
    → is_token_taken t b ≡ false
    → get_db (login_counted t other raw) b ≡ (ok (u, first_pair t b u), opened t b u)
register_counted-login_counted s t email other raw a b u pair hashes same_hasher same_fold spelled e
      free =
    let r = register_counted-ok s email raw a b u pair e in
    let by_email = has_email s.fold email in
    let here : by_email u ≡ true =
      ap by_email r.user ∙ (eq_iff (s.fold email) (s.fold email)).1 refl in
    let same_test : has_email t.fold other ≡ by_email =
      ap (λ φ. has_email φ other) same_fold
      ∙ ap (λ folded. λ (v : User). same_text (s.fold v.email) folded) spelled in
    let known : holder t b other raw ≡ some u =
      ap (λ p. find? p b.tables.users) same_test
      ∙ ap (find? by_email) r.users
      ∙ find?-last by_email a.tables.users u (any-find? by_email a.tables.users ∙ r.free) here in
    let right : t.hasher.verify u.password_hash raw ≡ verified =
      ap (λ h. h.verify u.password_hash raw) same_hasher
      ∙ ap (λ v. s.hasher.verify v.password_hash raw) r.user
      ∙ hashes raw in
    login_counted-sign_in t b other raw ∙ rw (known, right, free) refl
