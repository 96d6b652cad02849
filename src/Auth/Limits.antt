-- ===== src/Auth/Limits.antt =====
-- What the rate limiter counts and when it refuses, from the documented behaviour of Redis.
pub mod Window
use Prim.Native.String.{◌++◌ as text_append}
use text.Mathlib.TextLemmas.{append_inj, append_assoc}
use tradinghub.Base.{
  inl, inr, Bool-cases, ◌&&◌, ℕ, suc, ◌+◌, ◌<◌, String, Bool, true, false, ◌||◌, Option, none, some,
  or_else, List, [], ◌∷◌, ◌≡◌, ◌≢◌, refl, sym, ◌∙◌, ap, arith, ltb, eq_iff, if◌then◌else◌,
}
use tradinghub.Core.Errors.{Result, ok, err, app_error, rate_limited}
use tradinghub.Auth.Security.RateLimit.{
  Redis, Command, incr, expire_nx, email_key, ip_key, registration_key, max_logins_per_email,
  max_logins_per_ip, max_registrations_per_ip, rate_window_seconds, count_login_attempt,
  count_registration_attempt,
}

-- Commands one after another, each with its reply.
abbrev pub run : {S : Type 0} → (Command → S → ℕ × S) → List Command → S → List ℕ × S
run step [] s = ([], s)
run step (c ∷ cs) s =
    let (reply, s') = step c s in let (replies, s'') = run step cs s' in (reply ∷ replies, s'')

-- What Redis documents of INCR, of EXPIRE with NX and of a pipeline: a key has a value at an instant,
-- 0 without one, and a deadline at which it is gone.
pub record IsRedis (redis : Redis) : Type 0 where
  pub reachable : redis.State → Bool
  pub step : ℕ → Command → redis.State → ℕ × redis.State
  pub value : ℕ → String → redis.State → ℕ
  pub deadline : ℕ → String → redis.State → Option ℕ
  pub down :
      (now : ℕ) (cs : List Command) (s : redis.State)
      → reachable s ≡ false
      → redis.execute now cs s ≡ (none, s)
  pub up :
      (now : ℕ) (cs : List Command) (s : redis.State)
      → reachable s ≡ true
      → redis.execute now cs s ≡ (let (replies, s') = run (step now) cs s in (some replies, s'))
  pub incr-reply :
      (now : ℕ) (k : String) (s : redis.State) → (step now (incr k) s).0 ≡ suc (value now k s)
  pub incr-value :
      (now : ℕ) (k : String) (s : redis.State)
      → value now k (step now (incr k) s).1 ≡ suc (value now k s)
  pub incr-other :
      (now : ℕ) (k k' : String) (s : redis.State)
      → k ≢ k'
      → value now k' (step now (incr k) s).1 ≡ value now k' s
  pub incr-deadline :
      (now : ℕ) (k k' : String) (s : redis.State)
      → deadline now k' (step now (incr k) s).1 ≡ deadline now k' s
  pub expire-value :
      (now n : ℕ) (k k' : String) (s : redis.State)
      → 0 < n
      → value now k' (step now (expire_nx k n) s).1 ≡ value now k' s
  pub expire-deadline :
      (now n : ℕ) (k : String) (s : redis.State)
      → 0 < n
      → deadline now k (step now (expire_nx k n) s).1 ≡ some (or_else (deadline now k s) (now + n))
  pub expire-other :
      (now n : ℕ) (k k' : String) (s : redis.State)
      → k ≢ k'
      → deadline now k' (step now (expire_nx k n) s).1 ≡ deadline now k' s

-- The keys of an email and of an address differ.
pub email_key≢ip_key : (email ip : String) → text_append "login:email:" email ≢ ip_key ip
email_key≢ip_key email ip e =
    let split : text_append "login:e" (text_append "mail:" email)
        ≡ text_append "login:i" (text_append "p:" ip) =
      sym (append_assoc "login:e" "mail:" email) ∙ e ∙ append_assoc "login:i" "p:" ip in
    absurd (ground (arith, eq_iff "login:e" "login:i", (append_inj split refl).0))

module _ (redis : Redis) (laws : IsRedis redis) (now : ℕ) where
  -- One attempt at a key: its value grows by one, and its window is the one it had, or starts now.
  pub record Counted (key : String) (s s' : redis.State) : Type 0 where
    pub value : laws.value now key s' ≡ suc (laws.value now key s)
    pub window :
        laws.deadline now key s'
        ≡ some (or_else (laws.deadline now key s) (now + rate_window_seconds))

  abbrev bumped : String → redis.State → redis.State
  bumped k s = (laws.step now (expire_nx k rate_window_seconds) (laws.step now (incr k) s).1).1

  bumped-Counted : (k : String) (s : redis.State) → Counted k s (bumped k s)
  bumped-Counted k s = record {
    value = laws.expire-value now _ k k _ (omega arith) ∙ laws.incr-value now k s;
    window =
        laws.expire-deadline now _ k _ (omega arith)
        ∙ ap (λ d. some (or_else d (now + rate_window_seconds))) (laws.incr-deadline now k k s);
  }

  bumped_other :
      (k k' : String) (s : redis.State)
      → k ≢ k'
      → (laws.value now k' (bumped k s) ≡ laws.value now k' s)
        × (laws.deadline now k' (bumped k s) ≡ laws.deadline now k' s)
  bumped_other k k' s ne = (
    laws.expire-value now _ k k' _ (omega arith) ∙ laws.incr-other now k k' s ne,
    laws.expire-other now _ k k' _ ne ∙ laws.incr-deadline now k k' s,
  )

  module _ (casefold : String → String) (email ip : String) (s : redis.State) where
    abbrev attempt : Result (Unit {0}) × redis.State
    attempt = count_login_attempt redis casefold now email ip s

    abbrev by_email : String
    by_email = email_key casefold email

    -- The email has had ten attempts in its window, or the address thirty.
    abbrev pub is_locked_out : Bool
    is_locked_out =
        ltb max_logins_per_email (suc (laws.value now by_email s))
        || ltb max_logins_per_ip (suc (laws.value now (ip_key ip) s))

    abbrev bumped_both : redis.State
    bumped_both = bumped (ip_key ip) (bumped by_email s)

    attempt_lem :
        laws.reachable s ≡ true
        → attempt ≡ (if is_locked_out then err (app_error rate_limited) else ok tt, bumped_both)
    unfolding count_login_attempt
    attempt_lem up =
        let other = bumped_other by_email (ip_key ip) s (email_key≢ip_key (casefold email) ip) in
        rw
          (
            laws.up now _ s up,
            laws.incr-reply now by_email s,
            laws.incr-reply now (ip_key ip) (bumped by_email s),
            other.0,
          )
          refl

    attempt_down : laws.reachable s ≡ false → attempt ≡ (ok tt, s)
    unfolding count_login_attempt
    attempt_down down = rw (laws.down now _ s down) refl

    -- A login attempt is refused exactly if Redis answers and the email has more than ten attempts in
    -- its window, this one included, or the address more than thirty. Without Redis it is allowed.
    pub count_login_attempt-is_locked_out :
        attempt.0
        ≡ (if laws.reachable s && is_locked_out then err (app_error rate_limited) else ok tt)
    count_login_attempt-is_locked_out = elim (Bool-cases (laws.reachable s)) [
      | inl up ↦ rw (up, attempt_lem up) refl
      | inr down ↦ rw (down, attempt_down down) refl
    ]

    -- An attempt that Redis answers is counted once for the email and once for the address, allowed or
    -- refused, and neither window that runs is prolonged by it.
    pub count_login_attempt-Counted :
        laws.reachable s ≡ true → Counted by_email s attempt.1 × Counted (ip_key ip) s attempt.1
    count_login_attempt-Counted up =
        let ek = by_email in
        let ik = ip_key ip in
        let ne = email_key≢ip_key (casefold email) ip in
        let first = bumped-Counted ek s in
        let second = bumped-Counted ik (bumped ek s) in
        let kept = bumped_other ik ek (bumped ek s) (λ e. ne (sym e)) in
        let before = bumped_other ek ik s ne in
        rw (attempt_lem up) (
          record { value = kept.0 ∙ first.value; window = kept.1 ∙ first.window },
          record {
            value = second.value ∙ ap suc before.0;
            window =
                second.window ∙ ap (λ d. some (or_else d (now + rate_window_seconds))) before.1;
          },
        )

    -- Every other key is left alone.
    pub count_login_attempt_other :
        (k : String)
        → laws.reachable s ≡ true
        → by_email ≢ k
        → ip_key ip ≢ k
        → (laws.value now k attempt.1 ≡ laws.value now k s)
          × (laws.deadline now k attempt.1 ≡ laws.deadline now k s)
    count_login_attempt_other k up not_email not_ip =
        let first = bumped_other by_email k s not_email in
        let second = bumped_other (ip_key ip) k (bumped by_email s) not_ip in
        rw (attempt_lem up) (second.0 ∙ first.0, second.1 ∙ first.1)

  -- A registration is refused exactly if Redis answers and the address has more than thirty attempts
  -- in its window, this one included.
  pub count_registration_attempt_lem :
      (ip : String) (s : redis.State)
      → (count_registration_attempt redis now ip s).0 ≡ (
          if laws.reachable s
            && ltb max_registrations_per_ip (suc (laws.value now (registration_key ip) s))
          then err (app_error rate_limited)
          else ok tt)
  unfolding count_registration_attempt
  count_registration_attempt_lem ip s = elim (Bool-cases (laws.reachable s)) [
    | inl up ↦ rw (up, laws.up now _ s up, laws.incr-reply now (registration_key ip) s) refl
    | inr down ↦ rw (laws.down now _ s down, down) refl
  ]
