-- ===== src/App/Callers.antt =====
-- Whom a request to the ledger acts as: the access token of a login, or one that names nobody.
use tradinghub.Base.{
  find?, ℕ, ◌≤◌, ◌<◌, String, Bool, Option, none, some, ◌≡◌, refl, ap, ◌∙◌, same_text, inl, inr,
  Bool-cases,
}
use tradinghub.Core.Config.{Settings}
use tradinghub.Core.Errors.{ok, err, app_error, invalid_session, status_code}
use tradinghub.Core.Database.{Work, Store, begin, get_db}
use tradinghub.Core.Rendering.{rendered, handle_app_error}
use tradinghub.Core.Middleware.{Context, Request, dispatch}
use tradinghub.Auth.Models.{User}
use tradinghub.Auth.Security.RateLimit.{Redis}
use tradinghub.Auth.Security.Tokens.{decode_access_token, encode_access_token}
use tradinghub.Auth.Security.Passwords.{verified}
use tradinghub.Auth.Families.Opening.{verify_password-verified}
use tradinghub.Auth.Services.{AuthSupply, TokenPair, login_counted}
use tradinghub.Auth.Routes.{get_current_user_claims}
use tradinghub.Auth.Caller.{
  IsJwt, access_expiry, login_counted-ok, decode_access_token-encode_access_token,
}
use tradinghub.Ledger.Routes as LedgerRoutes
use tradinghub.App.{
  ledger, ledger_answer, map_result, State, ledger_supply, caller, ledger_as, respond, serve,
}

-- A token that names nobody: there is none, it is empty, or PyJWT does not decode it.
abbrev pub IsUseless : AuthSupply → Option String → Type 0
IsUseless s none = Unit
IsUseless s (some token) = (decode_access_token s.jwt s.now token ≡ none)

useless-claims :
    (s : AuthSupply) (token : Option String) (w : Work)
    → IsUseless s token
    → (get_current_user_claims s.jwt s.now token w).0 ≡ err (app_error invalid_session)
unfolding get_current_user_claims
useless-claims s none w h = refl
useless-claims s (some token) w h = elim (Bool-cases (same_text token "")) [
  | inl empty ↦ rw empty refl
  | inr full ↦ rw (full, h) refl
]

-- An access token before it expires.
useful-claims :
    (s : AuthSupply) (issued_at user_id : ℕ) (w : Work)
    → IsJwt s.jwt issued_at user_id
    → issued_at ≤ s.now
    → s.now < access_expiry issued_at
    → (get_current_user_claims s.jwt s.now (some (encode_access_token s.jwt issued_at user_id)) w).0
      ≡ ok (record { user_id = user_id })
unfolding get_current_user_claims
useful-claims s issued_at user_id w laws from in_time =
    rw
      (
        laws.encode-nonempty,
        decode_access_token-encode_access_token s.jwt issued_at user_id laws s.now from in_time,
      )
      refl

module _ (settings : Settings) (is_email : String → Bool) (redis : Redis) (s : AuthSupply)
    (collate : String → String → Bool) (seconds : ℕ) (uuid : String) (request : Request)
    (before : Context) (a : State redis) where
  -- A request to the ledger with no usable access token is answered 401 and changes nothing, neither in
  -- the database nor in Redis.
  pub serve-useless :
      (token : Option String) (r : LedgerRoutes.Request)
      → IsUseless s token
      → (let ((response, lines, context), b) =
            serve settings is_email redis s collate seconds uuid request
              (ledger token r)
              before
              a in
          (response.status_code ≡ 401) × (b ≡ a))
  unfolding serve respond dispatch rendered handle_app_error status_code
  serve-useless token r h = rw (useless-claims s token (begin a.store) h) (refl, refl)

  -- Whoever logged in acts as the account of the email, whose hash argon2 verified with the password: up
  -- to the second in which the fifteen minutes of the access token end, if PyJWT does with it what it
  -- documents, a request to the ledger with that token does in whatever database what the ledger does
  -- for that user.
  pub respond-login_counted :
      (t : AuthSupply) (email raw : String) (earlier after : Store) (u : User) (pair : TokenPair)
      (r : LedgerRoutes.Request)
      → IsJwt s.jwt t.now u.id
      → t.jwt ≡ s.jwt
      → t.now ≤ s.now
      → s.now < access_expiry t.now
      → get_db (login_counted t email raw) earlier ≡ (ok (u, pair), after)
      → (find? (λ (v : User). same_text (t.fold v.email) (t.fold email)) earlier.tables.users
          ≡ some u)
        × (t.hasher.verify u.password_hash raw ≡ verified)
        × (respond settings is_email redis s collate seconds request.client
              (ledger (some pair.access_token) r)
              a
            ≡ (let (result, store) =
                  LedgerRoutes.handle
                    (ledger_supply settings is_email redis s collate seconds)
                    u.id
                    r
                    a.store in
                (map_result ledger_answer result, record a { store = store })))
  unfolding respond get_current_user_claims
  respond-login_counted t email raw earlier after u pair r laws jwt from in_time e =
      let signed = login_counted-ok t email raw earlier after u pair e in
      let token : pair.access_token ≡ encode_access_token s.jwt t.now u.id =
        ap (λ p. p.access_token) signed.pair_is ∙ ap (λ j. encode_access_token j t.now u.id) jwt in
      let claims : caller settings is_email redis s collate seconds (some pair.access_token) a.store
          ≡ ok (record { user_id = u.id }) =
        ap (λ τ. caller settings is_email redis s collate seconds (some τ) a.store) token
        ∙ useful-claims s t.now u.id (begin a.store) laws from in_time in
      (
        signed.known,
        verify_password-verified t.hasher raw u.password_hash signed.right,
        ap
            (λ c.
              let (result, store) =
                ledger_as settings is_email redis s collate seconds c r a.store in
              (map_result ledger_answer result, record a { store = store }))
            claims,
      )
