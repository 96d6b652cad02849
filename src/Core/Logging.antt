-- ===== src/Core/Logging.antt =====
-- core/logging.py: the configuration, and how a record becomes a line. What a configuration means is
-- the standard library's logging: handlers up the tree of loggers, levels by the nearest that has one.
use tradinghub.Base.{
  ℕ, String, Bool, true, false, not, ◌&&◌, Option, none, some, or_else, List, [], ◌∷◌, ◌++◌, leb,
  any, find?, keep, map, same_text, if◌then◌else◌,
}
use tradinghub.Core.Config.{
  Settings, LogFormat, LogLevel, debug, info, warning, error, resolve_log_format,
}
use tradinghub.Core.Middleware.{Context}

-- The name of a logger is the list of its parts, the last part first, so that the tail names its
-- parent. The root has no part.
abbrev pub LoggerName : Type 0
LoggerName = List String

abbrev pub same_name : LoggerName → LoggerName → Bool
same_name [] [] = true
same_name (x ∷ xs) (y ∷ ys) = same_text x y && same_name xs ys
same_name _ _ = false

-- An entry of "loggers": a level if it has one, its handlers, and whether its parent's are used too.
pub record LoggerConfig : Type 0 where
  pub level : Option LogLevel
  pub handlers : List String
  pub propagate : Bool

pub record Handler : Type 0 where
  pub name : String
  pub formatter : LogFormat
  pub filters : List String

pub record LoggingConfig : Type 0 where
  pub handlers : List Handler
  pub root_handlers : List String
  pub root_level : LogLevel
  pub loggers : List (LoggerName × LoggerConfig)

abbrev leveled : LogLevel → LoggerConfig
leveled level = record { level = some level; handlers = []; propagate = true }

-- THIRD_PARTY_LEVELS
abbrev pub third_party_levels : List (LoggerName × LogLevel)
third_party_levels =
    ("engine" ∷ "sqlalchemy" ∷ [], warning)
    ∷ ("pool" ∷ "sqlalchemy" ∷ [], warning)
    ∷ ("dialects" ∷ "sqlalchemy" ∷ [], warning)
    ∷ ("asyncpg" ∷ [], warning)
    ∷ ("asyncio" ∷ [], warning)
    ∷ ("watchfiles" ∷ [], warning)
    ∷ ("httpx" ∷ [], warning)
    ∷ ("httpcore" ∷ [], warning)
    ∷ ("python_multipart" ∷ [], warning)
    ∷ ("botocore" ∷ [], warning)
    ∷ ("boto3" ∷ [], warning)
    ∷ ("urllib3" ∷ [], warning)
    ∷ ("alembic" ∷ [], info)
    ∷ []

abbrev pub uvicorn_access : LoggerName
uvicorn_access = "access" ∷ "uvicorn" ∷ []

abbrev pub configured_loggers : List (LoggerName × LoggerConfig)
configured_loggers =
    map (λ l. (l.0, leveled l.1)) third_party_levels
    ++ ("uvicorn" ∷ [], record { level = none; handlers = []; propagate = true })
      ∷ ("error" ∷ "uvicorn" ∷ [], record { level = some info; handlers = []; propagate = true })
      ∷ (uvicorn_access, record { level = none; handlers = []; propagate = false })
      ∷ []

unfoldable pub build_logging_config : Settings → LoggingConfig
unfolding resolve_log_format
build_logging_config settings = record {
  handlers =
      record { name = "stdout"; formatter = resolve_log_format settings; filters = "context" ∷ [] }
      ∷ [];
  root_handlers = "stdout" ∷ [];
  root_level = settings.log_level;
  loggers = configured_loggers;
}

-- A logger that the configuration does not name has no level and no handler.
abbrev pub unnamed : LoggerConfig
unnamed = record { level = none; handlers = []; propagate = true }

abbrev pub entry_of : Option (LoggerName × LoggerConfig) → LoggerConfig
entry_of none = unnamed
entry_of (some e) = e.1

abbrev pub config_of : LoggingConfig → LoggerName → LoggerConfig
config_of config name = entry_of (find? (λ e. same_name e.0 name) config.loggers)

-- The handlers that a record of a logger comes to.
abbrev pub outlets : LoggingConfig → LoggerName → List String
outlets config [] = config.root_handlers
outlets config (part ∷ parent) =
    let own = config_of config (part ∷ parent) in
    own.handlers ++ (if own.propagate then outlets config parent else [])

abbrev pub effective_level : LoggingConfig → LoggerName → LogLevel
effective_level config [] = config.root_level
effective_level config (part ∷ parent) =
    or_else (config_of config (part ∷ parent)).level (effective_level config parent)

abbrev pub severity : LogLevel → ℕ
severity debug = 10
severity info = 20
severity warning = 30
severity error = 40

-- The handlers that write a line for a record of this level.
abbrev pub written_by : LoggingConfig → LoggerName → LogLevel → List String
written_by config name level =
    if leb (severity (effective_level config name)) (severity level)
    then outlets config name
    else []

-- A dict with texts as keys: setting a key replaces its value.
abbrev pub put {ℓ} : {A : Type ℓ} → String → A → List (String × A) → List (String × A)
put key value [] = (key, value) ∷ []
put key value (e ∷ es) =
    let rest = put key value es in if same_text e.0 key then (key, value) ∷ es else e ∷ rest

abbrev pub value_of {ℓ} : {A : Type ℓ} → Option (String × A) → Option A
value_of none = none
value_of (some e) = some e.1

abbrev pub get {ℓ} : {A : Type ℓ} → String → List (String × A) → Option A
get key es = value_of (find? (λ e. same_text e.0 key) es)

abbrev pub update_dict {ℓ} :
    {A : Type ℓ} → List (String × A) → List (String × A) → List (String × A)
update_dict [] es = es
update_dict (x ∷ xs) es = update_dict xs (put x.0 x.1 es)

-- A log record: its own attributes that the formatter reads, and the rest of its __dict__, which holds
-- what came from extra=.
pub record LogRecord : Type 0 where
  pub time : String
  pub levelname : String
  pub name : String
  pub message : String
  pub exception : Option String
  pub attributes : List (String × String)

-- The attributes of every record, and what is not extra either.
abbrev pub standard_fields : List String
standard_fields =
    "name" ∷ "msg" ∷ "args" ∷ "levelname" ∷ "levelno" ∷ "pathname" ∷ "filename" ∷ "module"
    ∷ "exc_info" ∷ "exc_text" ∷ "stack_info" ∷ "lineno" ∷ "funcName" ∷ "created" ∷ "msecs"
    ∷ "relativeCreated" ∷ "thread" ∷ "threadName" ∷ "processName" ∷ "process" ∷ "asctime"
    ∷ "message" ∷ "taskName" ∷ "color_message" ∷ "request_id" ∷ "user_id" ∷ []

abbrev pub is_extra : String × String → Bool
is_extra e = not (any (λ field. same_text field e.0) standard_fields)

-- ContextFilter.filter
unfoldable pub filter : Context → LogRecord → LogRecord
filter context record' = record record' {
  attributes =
      put "user_id" context.user_id (put "request_id" context.request_id record'.attributes);
}

abbrev pub with_exception : Option String → List (String × String) → List (String × String)
with_exception none payload = payload
with_exception (some text) payload = put "exception" text payload

-- The dict that JsonFormatter.format hands to json.dumps.
unfoldable pub payload : LogRecord → List (String × String)
payload r = with_exception r.exception (
    update_dict (keep is_extra r.attributes) (
      ("timestamp", r.time)
      ∷ ("level", r.levelname)
      ∷ ("logger", r.name)
      ∷ ("message", r.message)
      ∷ ("request_id", or_else (get "request_id" r.attributes) "-")
      ∷ ("user_id", or_else (get "user_id" r.attributes) "-")
      ∷ []))
