-- ===== src/Core/Tests.antt =====
-- The middleware and the error handlers at concrete requests.
use tradinghub.Base.{arith, String, List, [], ◌∷◌}
use tradinghub.Core.Config.{Settings, development, debug, info}
use tradinghub.Core.Logging.{
  build_logging_config, outlets, written_by, LogRecord, filter, payload, get,
}
use tradinghub.Core.LogLines.Fields.{payload-filter}
use tradinghub.Core.LogLines.{sql_engine, outlets-build_logging_config, written_by-sql_engine}
use tradinghub.Core.Schemas.{exact_string, numeric}
use tradinghub.Core.Amounts.{units, fraction_part, units-exact_string}
use tradinghub.Core.Amounts.Digits.{ends_in_zero}
use tradinghub.Base.{false, negsuc}
use tradinghub.Base.{none, some, ◌≡◌, refl}
use tradinghub.Core.Rendering.{method_not_allowed, handle_http_exception}
use tradinghub.Core.Middleware.{Context, Request, raised, unset, dispatch}
use tradinghub.Core.Answers.{IsTraced, dispatch-IsTraced, answered_injective, answered, framework}

abbrev outside : Context
outside = record { request_id = unset; user_id = unset }

abbrev health : Request
health = record { method = "GET"; path = "/health"; client = none; incoming = some "abc" }

dispatch-IsTraced_example :
    IsTraced "abc" health outside raised (dispatch "0f" (λ c. raised) health outside)
dispatch-IsTraced_example = dispatch-IsTraced "0f" (λ c. raised) health outside

answered_injective_example : framework method_not_allowed ≡ framework method_not_allowed
unfolding answered handle_http_exception
answered_injective_example =
    answered_injective (("Allow", "GET") ∷ []) [] (framework method_not_allowed)
      (framework method_not_allowed)
      (handle_http_exception
        (record { status = method_not_allowed; headers = ("Allow", "GET") ∷ [] }))
      (handle_http_exception (record { status = method_not_allowed; headers = [] })) refl refl refl

-- A balance of -12.5.
units-exact_string_example :
    (units (exact_string (λ p d. d) (numeric (negsuc 12499999999999999999)))
      ≡ negsuc 12499999999999999999)
    × (ends_in_zero
          (fraction_part (exact_string (λ p d. d) (numeric (negsuc 12499999999999999999))))
        ≡ false)
units-exact_string_example = units-exact_string (λ p d. d) (negsuc 12499999999999999999)

abbrev settings : Settings
settings = record {
  database_url = "";
  frontend_origin = "";
  cookie_domain = none;
  cookie_secure = false;
  environment = development;
  log_level = debug;
  log_format = none;
  jwt_secret = "";
  redis_url = "";
}

abbrev access_logger : List String
access_logger = "access" ∷ "tradinghub" ∷ []

outlets-build_logging_config_example :
    outlets (build_logging_config settings) access_logger ≡ "stdout" ∷ []
outlets-build_logging_config_example = outlets-build_logging_config settings access_logger

written_by-sql_engine_example :
    (written_by (build_logging_config settings) sql_engine info ≡ [])
    × (written_by (build_logging_config settings) ("Engine" ∷ sql_engine) info ≡ [])
written_by-sql_engine_example = written_by-sql_engine settings "Engine" info (omega arith)

-- A record whose extras try to name another request.
abbrev line : LogRecord
line = record {
  time = "2026-11-01T10:00:00+0000";
  levelname = "INFO";
  name = "tradinghub.access";
  message = "GET /health 200";
  exception = some "Traceback";
  attributes = ("request_id", "other") ∷ ("status_code", "200") ∷ [];
}

payload-filter_example :
    (get "request_id" (payload (filter outside line)) ≡ some "-")
    × (get "user_id" (payload (filter outside line)) ≡ some "-")
    × ((text : String)
        → some "Traceback" ≡ some text
        → get "exception" (payload (filter outside line)) ≡ some text)
payload-filter_example = payload-filter outside line
