-- ===== src/System/Tests.antt =====
-- A login and a new account, one after the other, on a database with one user.
use tradinghub.Base.{
  false, String, true, none, some, [], ◌∷◌, refl, arith, same_text, if◌then◌else◌,
}
use tradinghub.Core.Config.{Settings, development, info}
use tradinghub.Core.Database.{Store, get_db}
use tradinghub.Auth.Models.{User}
use tradinghub.Auth.Security.Passwords.{verified, verification_error}
use tradinghub.Auth.Security.RateLimit.{Redis}
use tradinghub.Auth.Services.{AuthSupply}
use tradinghub.Auth.Routes as AuthRoutes
use tradinghub.Auth.Routes.{login}
use tradinghub.Ledger.Models.{cash}
use tradinghub.Ledger.Routes as LedgerRoutes
use tradinghub.Ledger.Routes.{create_account}
use tradinghub.Ledger.Services.Accounts as AccountService
use tradinghub.System.{IsSystem, Run, stay, ledger_request, auth_request, Run-IsSystem}

abbrev same : String → String
same t = t

abbrev ada : User
ada = record { id = 1; email = "ada@example.com"; password_hash = "secret" }

abbrev start : Store
start = record {
  tables = record { users = ada ∷ []; sessions = []; accounts = []; transactions = [] };
  serials = record {
    user_serial = 2;
    session_serial = 1;
    account_serial = 1;
    transaction_serial = 1;
  };
}

start-IsSystem : IsSystem same start
start-IsSystem = record {
  ledger = record {
    accounts_keyed = tt;
    accounts_numbered = tt;
    names = tt;
    transactions_keyed = tt;
    transactions_numbered = tt;
    owned = tt;
    signed = tt;
    transfers = λ g. tt;
  };
  auth = record {
    users_keyed = (tt, tt);
    users_numbered = (omega arith, tt);
    emails = (tt, tt);
    sessions_keyed = tt;
    sessions_numbered = tt;
    hashes = tt;
    families = tt;
    owned = tt;
  };
}

abbrev ledger_supply : LedgerRoutes.Supply
ledger_supply = record { fold = same; collate = λ a b. true; now = 100; uuid = 7 }

abbrev supply : AuthSupply
supply = record {
  fold = same;
  casefold = same;
  hasher = record {
    hash = same;
    verify = λ h p. if same_text h p then verified else verification_error;
  };
  dummy_password_hash = "dummy";
  jwt = record { encode = λ c. c.sub; decode = λ now t. none; str = λ n. "1"; int = λ t. none };
  hash_refresh_token = same;
  now = 100;
  refresh_token = "t1";
  uuid = 9;
}

-- No server answers.
abbrev no_redis : Redis
no_redis = record { State = Unit; execute = λ now cs s. (none, s) }

abbrev settings : Settings
settings = record {
  database_url = "";
  frontend_origin = "";
  cookie_domain = none;
  cookie_secure = false;
  environment = development;
  log_level = info;
  log_format = none;
  jwt_secret = "";
  redis_url = "";
}

abbrev wallet : LedgerRoutes.Request
wallet = create_account (record { name = "wallet"; unit = "GBP"; type = cash })

abbrev sign_in : AuthRoutes.Request
sign_in = login (record { email = "ada@example.com"; password = "secret" })

abbrev with_wallet : Store
with_wallet = (LedgerRoutes.handle ledger_supply 1 wallet start).1

abbrev signed_in : Store
signed_in =
    (AuthRoutes.handle settings (λ t. true) supply no_redis 0 (some "127.0.0.1") sign_in tt
      with_wallet).1.1

two_requests : Run same start signed_in
unfolding LedgerRoutes.handle get_db AccountService.create_account
two_requests =
    auth_request (ledger_request stay ledger_supply 1 wallet refl refl refl) settings (λ t. true)
      supply no_redis 0 (some "127.0.0.1") sign_in tt refl tt refl

Run-IsSystem_example : IsSystem same signed_in
Run-IsSystem_example = Run-IsSystem same start start-IsSystem two_requests
