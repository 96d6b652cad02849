-- ===== src/Auth/Security/RateLimit.antt =====
-- auth/security/rate_limit.py. Redis runs the commands of a pipeline and answers each one.
use Prim.Native.String.{◌++◌ as text_append}
use tradinghub.Base.{ℕ, String, ◌||◌, Option, none, some, List, [], ◌∷◌, ltb, if◌then◌else◌}
use tradinghub.Core.Errors.{
  runtime_error, Result, ok, err, app_error, rate_limited, retry_after_seconds,
}

-- RATE_WINDOW_SECONDS is RateLimitedError.retry_after_seconds.
abbrev pub rate_window_seconds : ℕ
rate_window_seconds = retry_after_seconds

abbrev pub max_logins_per_email : ℕ
max_logins_per_email = 10

abbrev pub max_logins_per_ip : ℕ
max_logins_per_ip = 30

abbrev pub max_registrations_per_ip : ℕ
max_registrations_per_ip = 30

-- INCR, and EXPIRE with NX.
pub data Command : Type 0 where
  incr : String → Command
  expire_nx : String → ℕ → Command

-- The client: Pipeline.execute at an instant of the server's clock in seconds, with `none` for a
-- RedisError.
pub record Redis : Type 1 where
  pub State : Type 0
  pub execute : ℕ → List Command → State → Option (List ℕ) × State

abbrev pub commands : List String → List Command
commands [] = []
commands (key ∷ keys) = incr key ∷ expire_nx key rate_window_seconds ∷ commands keys

-- `replies[::2]`
abbrev pub every_other : List ℕ → List ℕ
every_other [] = []
every_other (n ∷ []) = n ∷ []
every_other (n ∷ _ ∷ ns) = n ∷ every_other ns

abbrev pub counts_of : Option (List ℕ) → Option (List ℕ)
counts_of none = none
counts_of (some replies) = some (every_other replies)

abbrev pub email_key : (String → String) → String → String
email_key casefold email = text_append "login:email:" (casefold email)

abbrev pub ip_key : String → String
ip_key ip = text_append "login:ip:" ip

abbrev pub registration_key : String → String
registration_key ip = text_append "register:ip:" ip

-- The two tests. Unpacking a list of another length is a ValueError.
abbrev pub judge_login : Option (List ℕ) → Result (Unit {0})
judge_login none = ok tt
judge_login (some (email_attempts ∷ ip_attempts ∷ [])) =
    if ltb max_logins_per_email email_attempts || ltb max_logins_per_ip ip_attempts
    then err (app_error rate_limited)
    else ok tt
judge_login (some _) = err runtime_error

abbrev pub judge_registration : Option (List ℕ) → Result (Unit {0})
judge_registration none = ok tt
judge_registration (some (count ∷ _)) =
    if ltb max_registrations_per_ip count then err (app_error rate_limited) else ok tt
judge_registration (some []) = err runtime_error

module _ (redis : Redis) where
  -- `_count`
  unfoldable pub count : ℕ → List String → redis.State → Option (List ℕ) × redis.State
  count now keys s =
      let (replies, s') = redis.execute now (commands keys) s in (counts_of replies, s')

  unfoldable pub count_login_attempt :
      (String → String) → ℕ → String → String → redis.State → Result (Unit {0}) × redis.State
  unfolding count
  count_login_attempt casefold now email ip s =
      let (counts, s') = count now (email_key casefold email ∷ ip_key ip ∷ []) s in
      (judge_login counts, s')

  unfoldable pub count_registration_attempt :
      ℕ → String → redis.State → Result (Unit {0}) × redis.State
  unfolding count
  count_registration_attempt now ip s =
      let (counts, s') = count now (registration_key ip ∷ []) s in (judge_registration counts, s')
