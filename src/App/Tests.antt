-- ===== src/App/Tests.antt =====
-- Requests through the application, on a database with one user.
use tradinghub.Auth.Models.{User}
use tradinghub.Base.{
  ◌/◌, find?, some, All, ◌&&◌, ℕ, String, Bool, true, false, none, some, [], ◌∷◌, ◌≡◌, ◌<◌, refl,
  arith, ltb, same_text, if◌then◌else◌,
}
use tradinghub.Core.Config.{Settings, development, info}
use tradinghub.Core.Errors.{ok}
use tradinghub.Core.Database.{Store, get_db}
use tradinghub.Core.Middleware.{Context, Request}
use tradinghub.Auth.Security.Passwords.{verified, verification_error}
use tradinghub.Auth.Security.Tokens.{
  access_claims, access_token_lifetime, encode_access_token, decode_access_token,
}
use tradinghub.Auth.Services.{AuthSupply, login_counted}
use tradinghub.Auth.Routes as AuthRoutes
use tradinghub.Auth.Caller.{IsJwt, access_expiry}
use tradinghub.Auth.Families.Actions.{new_pair}
use tradinghub.Auth.Tests.Server.{server, server_laws}
use tradinghub.Ledger.Models.{cash}
use tradinghub.Ledger.Routes as LedgerRoutes
use tradinghub.Ledger.Routes.{create_account}
use tradinghub.Ledger.Consistent.Histories.{SameRows}
use tradinghub.System.{IsSystem}
use tradinghub.App.{
  get_current_user_claims, ledger, ledger_answer, State, serve, respond, map_result, ledger_supply,
}
use tradinghub.App.{refused}
use tradinghub.Core.Rendering.{not_found}
use tradinghub.App.Histories.{
  Arrival, IsApt, Serving, next, answered_status, state_after, Serving-answers,
}
use tradinghub.App.Guard.{serve-SameRows}
use tradinghub.App.Callers.{serve-useless, respond-login_counted}

abbrev same : String → String
same t = t

abbrev supply : ℕ → AuthSupply
supply now = record {
  fold = same;
  casefold = same;
  hasher = record {
    hash = same;
    verify = λ h p. if same_text h p then verified else verification_error;
  };
  dummy_password_hash = "dummy";
  jwt = record {
    encode = λ c. c.sub;
    decode = λ now t.
        if same_text t "1" && ltb (now / 1000000) 900
        then some (record { sub = "1"; iat = 0; exp = 900 })
        else none;
    str = λ n. "1";
    int = λ t. some 1;
  };
  hash_refresh_token = same;
  now = now;
  refresh_token = "t1";
  uuid = 9;
}

abbrev settings : Settings
settings = record {
  database_url = "";
  frontend_origin = "";
  cookie_domain = none;
  cookie_secure = false;
  environment = development;
  log_level = info;
  log_format = none;
  jwt_secret = "";
  redis_url = "";
}

abbrev is_email : String → Bool
is_email t = true

abbrev collate : String → String → Bool
collate s t = true

abbrev start : Store
start = record {
  tables = record {
    users = record { id = 1; email = "ada@example.com"; password_hash = "secret" } ∷ [];
    sessions = [];
    accounts = [];
    transactions = [];
  };
  serials = record {
    user_serial = 2;
    session_serial = 1;
    account_serial = 1;
    transaction_serial = 1;
  };
}

start-IsSystem : IsSystem same start
start-IsSystem = record {
  ledger = record {
    accounts_keyed = tt;
    accounts_numbered = tt;
    names = tt;
    transactions_keyed = tt;
    transactions_numbered = tt;
    owned = tt;
    signed = tt;
    transfers = λ g. tt;
  };
  auth = record {
    users_keyed = (tt, tt);
    users_numbered = (omega arith, tt);
    emails = (tt, tt);
    sessions_keyed = tt;
    sessions_numbered = tt;
    hashes = tt;
    families = tt;
    owned = tt;
  };
}

abbrev state : State server
state = record {
  store = start;
  counters = record { up = true; values = λ k. 0; deadlines = λ k. none };
}

abbrev wallet : LedgerRoutes.Request
wallet = create_account (record { name = "wallet"; unit = "GBP"; type = cash })

abbrev post : Request
post = record { method = "POST"; path = "/accounts"; client = some "10.0.0.1"; incoming = none }

abbrev idle : Context
idle = record { request_id = "-"; user_id = "-" }

serve-useless_example :
    (let ((response, lines, context), b) =
        serve settings is_email server
          (supply 200)
          collate
          0
          "u1"
          post
          (ledger (some "forged") wallet)
          idle
          state in
      (response.status_code ≡ 401) × (b ≡ state))
unfolding decode_access_token
serve-useless_example =
    serve-useless settings is_email server (supply 200) collate 0 "u1" post idle state
      (some "forged") wallet refl

serve-SameRows_example :
    SameRows 2 start
      (serve settings is_email server
        (supply 200)
        collate
        0
        "u1"
        post
        (ledger (some "1") wallet)
        idle
        state).1.store
unfolding AuthRoutes.get_current_user_claims
serve-SameRows_example =
    serve-SameRows settings is_email server (supply 200) collate 0 "u1" post idle state 2
      (ledger (some "1") wallet) start-IsSystem.ledger refl (λ e. cc)

-- A request to a path that there is not, and then a new account.
abbrev lost : Arrival
lost = record {
  supply = supply 200;
  seconds = 0;
  uuid = "u0";
  request = post;
  ip = "10.0.0.1";
  known = refl;
  call = refused (record { status = not_found; headers = [] });
  before = idle;
}

abbrev created : Arrival
created = record lost { uuid = "u1"; call = ledger (some "1") wallet }

abbrev after_lost : State server
after_lost = state_after settings is_email server collate same lost state

abbrev after_created : State server
after_created = state_after settings is_email server collate same created after_lost

lost-IsApt : IsApt settings is_email server collate same lost state
lost-IsApt = record { folds = refl; new_group = refl; new_family = tt; new_token = refl }

created-IsApt : IsApt settings is_email server collate same created after_lost
unfolding serve respond
created-IsApt = record { folds = refl; new_group = refl; new_family = tt; new_token = refl }

Serving-answers_example :
    All
      (λ n. n < 500)
      (answered_status settings is_email server collate same created after_lost
        ∷ answered_status settings is_email server collate same lost state
        ∷ [])
    × IsSystem same after_created.store
Serving-answers_example =
    Serving-answers settings is_email server collate same server_laws start-IsSystem
      (next (next Serving.idle lost lost-IsApt) created created-IsApt)

abbrev ada : User
ada = record { id = 1; email = "ada@example.com"; password_hash = "secret" }

jwt_laws : IsJwt (supply 200).jwt 100 1
unfolding access_claims access_token_lifetime encode_access_token
jwt_laws = record {
  decode-encode = λ now from to. ground arith;
  decode-expired = λ now late. ground arith;
  encode-nonempty = refl;
  int-str = refl;
}

abbrev logged_in : Store
logged_in = (get_db (login_counted (supply 100) "ada@example.com" "secret") start).1

login_succeeds :
    get_db (login_counted (supply 100) "ada@example.com" "secret") start
    ≡ (ok (ada, new_pair (supply 100) 1), logged_in)
unfolding get_db login_counted
login_succeeds = refl

respond-login_counted_example :
    (find? (λ (v : User). same_text v.email "ada@example.com") start.tables.users ≡ some ada)
    × (verified ≡ verified)
    × (respond settings is_email server
          (supply 200)
          collate
          0
          post.client
          (ledger (some (new_pair (supply 100) 1).access_token) wallet)
          state
        ≡ (let (result, store) =
              LedgerRoutes.handle
                (ledger_supply settings is_email server (supply 200) collate 0)
                1
                wallet
                start in
            (map_result ledger_answer result, record state { store = store })))
unfolding access_token_lifetime access_expiry
respond-login_counted_example =
    respond-login_counted settings is_email server (supply 200) collate 0 "u1" post idle state
      (supply 100) "ada@example.com" "secret" start logged_in ada (new_pair (supply 100) 1) wallet
      jwt_laws refl (omega arith) (omega arith) login_succeeds
