-- ===== src/App/Guard.antt =====
-- What the application grants as a whole: who may act, on whose rows, and that no request ends in a 500.
use mathlib.Core.Path.{subst}
use tradinghub.Base.{
  ℕ, ◌<◌, String, Bool, true, Option, none, some, ◌≡◌, ◌≢◌, refl, sym, ap, ◌∙◌, arith,
}
use tradinghub.Core.Config.{Settings}
use tradinghub.Core.Errors.{Result, ok, err}
use tradinghub.Core.Database.{begin}
use tradinghub.Core.Failures.{ends_well, IsClientError, foreseen-IsClientError}
use tradinghub.Core.Rendering.{ErrorResponse, rendered, handle_http_exception}
use tradinghub.Core.Middleware.{Context, Request}
use tradinghub.Core.Answers.{dispatch-IsTraced, status_of}
use tradinghub.Auth.Security.RateLimit.{Redis}
use tradinghub.Auth.Security.Tokens.{AccessTokenClaims}
use tradinghub.Auth.Services.{AuthSupply}
use tradinghub.Auth.Limits.{IsRedis}
use tradinghub.Auth.Failures as AuthFailures
use tradinghub.Auth.Failures.{is_fresh}
use tradinghub.Auth.Families.Frame.{handle-SameLedger}
use tradinghub.Ledger.Routes as LedgerRoutes
use tradinghub.Ledger.Failures as LedgerFailures
use tradinghub.Ledger.Consistent.{account_owner, transaction_owner}
use tradinghub.Ledger.Consistent.Requests.{IsSound, IsFresh, handle-Served}
use tradinghub.Ledger.Consistent.Histories.{SameRows, of_user, SameOthers-SameRows}
use tradinghub.System.{IsSystem, ledger-IsSystem, auth-IsSystem}
use tradinghub.Auth.Families.{IsNewFamily}
use tradinghub.App.{
  handle_http_exception, Call, health, auth, ledger, refused, Answer, auth_answer, ledger_answer,
  success_status, map_result, failed_with, outcome_of, State, ledger_supply, caller, ledger_as,
  respond, recorded_user, serve,
}

map_result-ends_well {ℓ κ} :
    {A : Type ℓ} {B : Type κ} (f : A → B) (r : Result A) → ends_well (map_result f r) ≡ ends_well r
map_result-ends_well f (ok a) = refl
map_result-ends_well f (err e) = refl

success_status_lem : (call : Call) → success_status call < 500
unfolding handle_http_exception
success_status_lem health = omega arith
success_status_lem (auth r) = ground arith
success_status_lem (ledger token r) = ground arith
success_status_lem (refused error) = ground arith

failed_with_lem :
    (user : Option String) (o : Option ErrorResponse)
    → IsClientError o
    → status_of (failed_with user o) < 500
failed_with_lem user none h = absurd (omega (arith, h))
failed_with_lem user (some response) h = h.1

outcome_of_lem :
    (call : Call) (user : Option String) (r : Result Answer)
    → ends_well r ≡ true
    → status_of (outcome_of call user r) < 500
outcome_of_lem call user (ok a) h = success_status_lem call
outcome_of_lem call user (err e) h = failed_with_lem user (rendered e) (foreseen-IsClientError e h)

module _ (settings : Settings) (is_email : String → Bool) (redis : Redis) (s : AuthSupply)
    (collate : String → String → Bool) (seconds : ℕ) (uuid : String) (request : Request)
    (before : Context) (a : State redis) where
  -- The account that a request to the ledger acts as.
  abbrev pub subject : Result AccessTokenClaims → Option ℕ
  subject (ok claims) = some claims.user_id
  subject (err e) = none

  abbrev pub acts_as : Call → Option ℕ
  acts_as (ledger token r) =
      subject (caller settings is_email redis s collate seconds token a.store)
  acts_as _ = none

  ledger_as-SameRows :
      (v : ℕ) (claims : Result AccessTokenClaims) (r : LedgerRoutes.Request)
      → IsSound s.fold a.store
      → IsFresh s.uuid a.store
      → subject claims ≢ some v
      → SameRows v a.store (ledger_as settings is_email redis s collate seconds claims r a.store).1
  ledger_as-SameRows v (err e) r h fresh other = record { accounts = refl; transactions = refl }
  ledger_as-SameRows v (ok claims) r h fresh other =
      let step =
        (handle-Served (ledger_supply settings is_email redis s collate seconds) claims.user_id r
          a.store h fresh).others in
      SameOthers-SameRows claims.user_id v a.store _ step (λ e. other (ap some e))

  -- From a consistent ledger and with a fresh uuid, no request to any endpoint changes the accounts or
  -- the transactions of a user whom its access token does not name.
  pub serve-SameRows :
      (v : ℕ) (call : Call)
      → IsSound s.fold a.store
      → IsFresh s.uuid a.store
      → acts_as call ≢ some v
      → SameRows v a.store
          (serve settings is_email redis s collate seconds uuid request call before a).1.store
  unfolding serve respond
  serve-SameRows v health h fresh other = record { accounts = refl; transactions = refl }
  serve-SameRows v (refused error) h fresh other = record { accounts = refl; transactions = refl }
  serve-SameRows v (auth r) h fresh other =
      let kept =
        handle-SameLedger settings is_email s redis seconds request.client a.counters r a.store in
      record {
        accounts = ap (of_user account_owner v) kept.accounts;
        transactions = ap (of_user transaction_owner v) kept.transactions;
      }
  serve-SameRows v (ledger token r) h fresh other =
      ledger_as-SameRows v (caller settings is_email redis s collate seconds token a.store) r h
        fresh other

  ledger_as-ends_well :
      (claims : Result AccessTokenClaims) (r : LedgerRoutes.Request)
      → IsSystem s.fold a.store
      → ends_well claims ≡ true
      → ends_well (ledger_as settings is_email redis s collate seconds claims r a.store).0 ≡ true
  ledger_as-ends_well (err e) r h well = well
  ledger_as-ends_well (ok claims) r h well =
      LedgerFailures.handle-ends_well (ledger_supply settings is_email redis s collate seconds)
        claims.user_id r a.store h.ledger.accounts_keyed

  ledger_as-IsSystem :
      (claims : Result AccessTokenClaims) (r : LedgerRoutes.Request)
      → IsSystem s.fold a.store
      → IsFresh s.uuid a.store
      → IsSystem s.fold (ledger_as settings is_email redis s collate seconds claims r a.store).1
  ledger_as-IsSystem (err e) r h fresh = h
  ledger_as-IsSystem (ok claims) r h fresh =
      ledger-IsSystem (ledger_supply settings is_email redis s collate seconds) claims.user_id r
        a.store h fresh

  -- A request to any endpoint keeps the database consistent.
  pub serve-IsSystem :
      (call : Call)
      → IsSystem s.fold a.store
      → IsFresh s.uuid a.store
      → IsNewFamily s.uuid a.store.tables
      → IsSystem s.fold
          (serve settings is_email redis s collate seconds uuid request call before a).1.store
  unfolding serve respond
  serve-IsSystem health h fresh new = h
  serve-IsSystem (refused error) h fresh new = h
  serve-IsSystem (auth r) h fresh new =
      auth-IsSystem settings is_email s redis seconds request.client r a.counters a.store h new
  serve-IsSystem (ledger token r) h fresh new =
      ledger_as-IsSystem (caller settings is_email redis s collate seconds token a.store) r h fresh

  respond-ends_well :
      (laws : IsRedis redis) (ip : String) (call : Call)
      → IsSystem s.fold a.store
      → is_fresh s (begin a.store) ≡ true
      → ends_well (respond settings is_email redis s collate seconds (some ip) call a).0 ≡ true
  unfolding respond
  respond-ends_well laws ip health h fresh = refl
  respond-ends_well laws ip (refused error) h fresh = refl
  respond-ends_well laws ip (auth r) h fresh =
      map_result-ends_well auth_answer _
      ∙ AuthFailures.handle-ends_well settings is_email s redis laws seconds ip a.counters a.store
          h.auth fresh r
  respond-ends_well laws ip (ledger token r) h fresh =
      map_result-ends_well ledger_answer _
      ∙ ledger_as-ends_well (caller settings is_email redis s collate seconds token a.store) r h
          (AuthFailures.get_current_user_claims-ends_well s.jwt s.now token (begin a.store))

  -- From a consistent database, if Redis does what it documents, the server knows the address of the
  -- client, and no session holds the hash of the new token yet, no request to any endpoint is answered
  -- with a status of 500 or more.
  pub serve-answers :
      (laws : IsRedis redis) (ip : String) (call : Call)
      → IsSystem s.fold a.store
      → is_fresh s (begin a.store) ≡ true
      → request.client ≡ some ip
      → (serve settings is_email redis s collate seconds uuid request call before a).0.0.status_code
        < 500
  unfolding serve
  serve-answers laws ip call h fresh known =
      let (result, b) = respond settings is_email redis s collate seconds request.client call a in
      let user = recorded_user settings is_email redis s collate seconds call a.store in
      let well : ends_well result ≡ true =
        ap (λ client. ends_well (respond settings is_email redis s collate seconds client call a).0)
          known
        ∙ respond-ends_well laws ip call h fresh in
      let traced = dispatch-IsTraced uuid (λ _. outcome_of call user result) request before in
      subst (λ n. n < 500) (sym traced.status) (outcome_of_lem call user result well)
