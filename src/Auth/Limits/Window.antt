-- ===== src/Auth/Limits/Window.antt =====
-- How many login attempts for one email pass in one window, whatever other attempts come between.
use mathlib.Core.Path.{subst}
use tradinghub.Base.{
  ℕ, suc, ◌+◌, ◌-◌, ◌≤◌, ◌<◌, String, Bool, true, false, some, or_else, List, [], ◌∷◌, ◌≡◌, sym, ap,
  ◌∙◌, arith, same_text, eq_iff, inl, inr, Bool-cases, if◌then◌else◌,
}
use tradinghub.Core.Errors.{Result, ok, err}
use tradinghub.Auth.Security.RateLimit.{
  Redis, email_key, count_login_attempt, rate_window_seconds, max_logins_per_email,
}
use tradinghub.Auth.Limits.{
  email_key≢ip_key, IsRedis, Counted, count_login_attempt-is_locked_out,
  count_login_attempt-Counted, count_login_attempt_other,
}

-- What Redis documents of time: until its deadline a key has its value and its deadline.
pub record IsTimed (redis : Redis) (laws : IsRedis redis) : Type 0 where
  pub lasting :
      (now later d : ℕ) (k : String) (s : redis.State)
      → laws.deadline now k s ≡ some d
      → now ≤ later
      → later < d
      → (laws.value later k s ≡ laws.value now k s) × (laws.deadline later k s ≡ some d)

pub record Attempt : Type 0 where
  pub now : ℕ
  pub email : String
  pub ip : String

module _ (redis : Redis) (laws : IsRedis redis) (timed : IsTimed redis laws)
    (casefold : String → String) (email : String) where
  abbrev pub answer_to : Attempt → redis.State → Result (Unit {0}) × redis.State
  answer_to x s = count_login_attempt redis casefold x.now x.email x.ip s

  abbrev key : String
  key = email_key casefold email

  -- Whether the attempt is at the email, up to case.
  abbrev pub is_at_email : Attempt → Bool
  is_at_email x = same_text (email_key casefold x.email) (email_key casefold email)

  abbrev pub passes : Result (Unit {0}) → ℕ
  passes (ok a) = 1
  passes (err e) = 0

  -- How many attempts at the email are let through.
  abbrev pub count_passed : List Attempt → redis.State → ℕ
  count_passed [] s = 0
  count_passed (x ∷ xs) s =
      let (r, s') = answer_to x s in (if is_at_email x then passes r else 0) + count_passed xs s'

  -- Attempts one after another before the deadline, each answered by Redis.
  abbrev pub IsWithin : ℕ → ℕ → List Attempt → redis.State → Type 0
  IsWithin now d [] s = Unit
  IsWithin now d (x ∷ xs) s =
      (now ≤ x.now)
      × (x.now < d)
      × (laws.reachable s ≡ true)
      × IsWithin x.now d xs (answer_to x s).1

  -- One attempt at the email: its count grows, and it passes only if that is at most ten.
  passed_step :
      (x : Attempt) (s : redis.State)
      → is_at_email x ≡ true
      → laws.reachable s ≡ true
      → Counted redis laws x.now key s (answer_to x s).1
        × (passes (answer_to x s).0 + (10 - suc (laws.value x.now key s))
            ≤ 10 - laws.value x.now key s)
  passed_step x s at up =
      let same_key : email_key casefold x.email ≡ key =
        (eq_iff (email_key casefold x.email) key).0 at in
      let same_value : laws.value x.now (email_key casefold x.email) s ≡ laws.value x.now key s =
        ap (λ k. laws.value x.now k s) same_key in
      (
        subst (λ k. Counted redis laws x.now k s (answer_to x s).1) same_key
            (count_login_attempt-Counted redis laws x.now casefold x.email x.ip s up).0,
        rw (count_login_attempt-is_locked_out redis laws x.now casefold x.email x.ip s)
            (ground (arith, up, same_value)),
      )

  other_step :
      (x : Attempt) (s : redis.State)
      → is_at_email x ≡ false
      → laws.reachable s ≡ true
      → (laws.value x.now key (answer_to x s).1 ≡ laws.value x.now key s)
        × (laws.deadline x.now key (answer_to x s).1 ≡ laws.deadline x.now key s)
  other_step x s away up =
      count_login_attempt_other redis laws x.now casefold x.email x.ip s key up
        (λ e. ground (arith, away, eq_iff (email_key casefold x.email) key))
        (λ e. email_key≢ip_key (casefold email) x.ip (sym e))

  within :
      (now d : ℕ) (xs : List Attempt) (s : redis.State)
      → laws.deadline now key s ≡ some d
      → IsWithin now d xs s
      → count_passed xs s ≤ 10 - laws.value now key s
  within now d [] s running h = omega arith
  within now d (x ∷ xs) s running (from, before, up, later) =
      let (value, deadline) = timed.lasting now x.now d key s running from before in
      elim (Bool-cases (is_at_email x)) [
        | inl at ↦
            let (counted, passed) = passed_step x s at up in
            let rest =
              within x.now d xs (answer_to x s).1
                (counted.window ∙ ap (λ o. some (or_else o (x.now + rate_window_seconds))) deadline)
                later in
            ground (arith, at, passed, rest, counted.value, value)
        | inr away ↦
            let (same, kept) = other_step x s away up in
            let rest = within x.now d xs (answer_to x s).1 (kept ∙ deadline) later in
            ground (arith, away, rest, same, value)
      ]

  -- Of an attempt at an email and whatever attempts follow it in the window that it is counted in, at
  -- most as many as the ten have room for pass at that email, if Redis answers them all and keeps a key
  -- until its deadline: ten if the email had no attempt before.
  pub count_passed-within :
      (x : Attempt) (xs : List Attempt) (s : redis.State)
      → is_at_email x ≡ true
      → laws.reachable s ≡ true
      → IsWithin x.now
          (or_else (laws.deadline x.now key s) (x.now + rate_window_seconds))
          xs
          (answer_to x s).1
      → count_passed (x ∷ xs) s ≤ max_logins_per_email - laws.value x.now key s
  count_passed-within x xs s at up h =
      let (counted, passed) = passed_step x s at up in
      let rest = within x.now _ xs (answer_to x s).1 counted.window h in
      ground (arith, at, passed, rest, counted.value)
