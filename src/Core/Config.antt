-- ===== src/Core/Config.antt =====
-- core/config.py, and resolve_log_format of core/logging.py.
use Prim.Native.String.{count}
use tradinghub.Base.{String, Bool, true, false, not, ◌&&◌, leb, ℕ, Option, none, some}

unfoldable pub jwt_secret_min_length : ℕ
jwt_secret_min_length = 32

pub data Environment : Type 0 where
  development production : Environment

pub data LogFormat : Type 0 where
  console json : LogFormat

pub data LogLevel : Type 0 where
  debug info warning error : LogLevel

pub record Settings : Type 0 where
  pub database_url : String
  pub frontend_origin : String
  pub cookie_domain : Option String
  pub cookie_secure : Bool
  pub environment : Environment
  pub log_level : LogLevel
  pub log_format : Option LogFormat
  pub jwt_secret : String
  pub redis_url : String

abbrev pub is_production : Environment → Bool
is_production development = false
is_production production = true

-- The bound on the secret and `_require_secure_cookies_in_production`: whether the settings can be
-- constructed from variables that are all present.
unfoldable pub accepts_settings : Settings → Bool
unfolding jwt_secret_min_length
accepts_settings s =
    leb jwt_secret_min_length (count s.jwt_secret)
    && not (is_production s.environment && not s.cookie_secure)

abbrev default_format : Environment → LogFormat
default_format production = json
default_format development = console

abbrev chosen_format : Option LogFormat → Environment → LogFormat
chosen_format (some f) e = f
chosen_format none e = default_format e

unfoldable pub resolve_log_format : Settings → LogFormat
resolve_log_format s = chosen_format s.log_format s.environment
