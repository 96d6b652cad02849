-- ===== src/App.antt =====
-- main.py: the application that create_app puts together. A request comes through
-- RequestContextMiddleware to a route of one of the three routers; a failure is rendered by its handler.
pub mod Callers
pub mod Guard
pub mod Histories
mod Tests
use mathlib.Core.Path.{subst}
use tradinghub.Base.{
  ℕ, String, Bool, Option, none, some, List, [], ◌∷◌, ◌≡◌, refl, sym, ap, ◌∙◌, ◌<◌, arith,
}
use tradinghub.Core.Config.{Settings}
use tradinghub.Core.Errors.{Error, Result, ok, err}
use tradinghub.Core.Database.{Store, begin}
use tradinghub.Core.Rendering.{ErrorResponse, HttpException, rendered, handle_http_exception}
use tradinghub.Core.Middleware.{
  Context, LogLine, Request, Response, Outcome, responded, raised, dispatch,
}
use tradinghub.Auth.Models.{User}
use tradinghub.Auth.Security.RateLimit.{Redis}
use tradinghub.Auth.Security.Tokens.{AccessTokenClaims}
use tradinghub.Auth.Services.{AuthSupply}
use tradinghub.Auth.Routes as AuthRoutes
use tradinghub.Auth.Routes.{get_current_user_claims, register, login, refresh, logout, me}
use tradinghub.Ledger.Routes as LedgerRoutes
use tradinghub.Ledger.Routes.{
  create_account, create_transaction, create_transfer, delete_transaction,
}

-- A request to an endpoint: to /health, to the router of auth, or to the ledger's with the access cookie.
pub data Call : Type 0 where
  health : Call
  auth : AuthRoutes.Request → Call
  ledger : Option String → LedgerRoutes.Request → Call
  -- what the framework refuses before any route: an unknown path, a wrong method, an unreadable body
  refused : HttpException → Call

pub data Answer : Type 0 where
  alive : Answer
  auth_answer : AuthRoutes.Response → Answer
  ledger_answer : LedgerRoutes.Response → Answer
  error_answer : ErrorResponse → Answer

-- The status_code of each route, which is 200 unless the route says otherwise.
abbrev pub auth_status : AuthRoutes.Request → ℕ
auth_status (register payload) = 201
auth_status (refresh token) = 204
auth_status (logout token) = 204
auth_status _ = 200

abbrev pub ledger_status : LedgerRoutes.Request → ℕ
ledger_status (create_account payload) = 201
ledger_status (create_transaction payload) = 201
ledger_status (create_transfer payload) = 201
ledger_status (delete_transaction id) = 204
ledger_status _ = 200

-- The status of the response that an endpoint returns, or that the handler of HTTPException does.
abbrev pub success_status : Call → ℕ
success_status health = 200
success_status (auth r) = auth_status r
success_status (ledger token r) = ledger_status r
success_status (refused error) = (handle_http_exception error).status

abbrev pub map_result {ℓ κ} : {A : Type ℓ} {B : Type κ} → (A → B) → Result A → Result B
map_result f (ok a) = ok (f a)
map_result f (err e) = err e

-- What the handlers make of a failure; without one it goes on to the middleware.
abbrev pub failed_with : Option String → Option ErrorResponse → Outcome
failed_with user none = raised
failed_with user (some response) = responded response.status user

abbrev pub outcome_of : Call → Option String → Result Answer → Outcome
outcome_of call user (ok a) = responded (success_status call) user
outcome_of call user (err e) = failed_with user (rendered e)

-- What outlives a request.
pub record State (redis : Redis) : Type 0 where
  pub store : Store
  pub counters : redis.State

-- What the server is made of: settings, EmailStr, Redis, and what each request takes from outside.
module _ (settings : Settings) (is_email : String → Bool) (redis : Redis) (s : AuthSupply)
    (collate : String → String → Bool) (seconds : ℕ) where
  abbrev pub ledger_supply : LedgerRoutes.Supply
  ledger_supply = record { fold = s.fold; collate = collate; now = s.now; uuid = s.uuid }

  -- The caller of a ledger route, found before its session opens.
  abbrev pub caller : Option String → Store → Result AccessTokenClaims
  caller token store = (get_current_user_claims s.jwt s.now token (begin store)).0

  abbrev pub ledger_as :
      Result AccessTokenClaims → LedgerRoutes.Request → Store → Result LedgerRoutes.Response × Store
  ledger_as (err e) r store = (err e, store)
  ledger_as (ok claims) r store = LedgerRoutes.handle ledger_supply claims.user_id r store

  -- A route with its dependencies.
  unfoldable pub respond : Option String → Call → State redis → Result Answer × State redis
  respond client health a = (ok alive, a)
  respond client (auth r) a =
      let (c, (result, store)) =
        AuthRoutes.handle settings is_email s redis seconds client r a.counters a.store in
      (map_result auth_answer result, record { store = store; counters = c })
  respond client (ledger token r) a =
      let (result, store) = ledger_as (caller token a.store) r a.store in
      (map_result ledger_answer result, record a { store = store })
  respond client (refused error) a = (ok (error_answer (handle_http_exception error)), a)

  -- request.state.user_id
  abbrev pub user_of : Result AccessTokenClaims → Option String
  user_of (ok claims) = some (s.jwt.str claims.user_id)
  user_of (err e) = none

  abbrev pub recorded_user : Call → Store → Option String
  recorded_user (auth (me token)) store = user_of (caller token store)
  recorded_user (ledger token r) store = user_of (caller token store)
  recorded_user _ store = none

  -- One request through the application: its response, the access line, the context, and the new state.
  unfoldable pub serve :
      String
      → Request
      → Call
      → Context
      → State redis
      → (Response × List LogLine × Context) × State redis
  unfolding respond
  serve uuid request call before a =
      let (result, b) = respond request.client call a in
      let next = λ (context : Context). outcome_of call (recorded_user call a.store) result in
      (dispatch uuid next request before, b)
