-- ===== src/Auth/Tests/Server.antt =====
-- A key-value server that satisfies what Redis documents.
use tradinghub.Auth.Limits.Window.{IsTimed}
use tradinghub.Base.{
  ◌≤◌, ℕ, suc, ◌+◌, ◌<◌, String, Bool, true, false, Option, none, some, or_else, List, ◌≡◌, ◌≢◌,
  refl, sym, arith, inl, inr, Bool-cases, ltb, same_text, eq_iff, if◌then◌else◌,
}
use tradinghub.Auth.Security.RateLimit.{Redis, Command, incr, expire_nx}
use tradinghub.Auth.Limits.{IsRedis, run}

-- Whether the server is up, and the value and the deadline of each key.
pub record Server : Type 0 where
  pub up : Bool
  pub values : String → ℕ
  pub deadlines : String → Option ℕ

abbrev pub has_time : ℕ → Option ℕ → Bool
has_time now none = true
has_time now (some t) = ltb now t

abbrev pub live : ℕ → String → Server → Bool
live now k s = has_time now (s.deadlines k)

abbrev pub server_value : ℕ → String → Server → ℕ
server_value now k s = if live now k s then s.values k else 0

abbrev pub server_deadline : ℕ → String → Server → Option ℕ
server_deadline now k s = if live now k s then s.deadlines k else none

abbrev pub serve : ℕ → Command → Server → ℕ × Server
serve now (incr k) s = (
  suc (server_value now k s),
  record {
    up = s.up;
    values = λ j. if same_text j k then suc (server_value now k s) else s.values j;
    deadlines = λ j. if same_text j k then server_deadline now k s else s.deadlines j;
  },
)
serve now (expire_nx k n) s = (
  1,
  record {
    up = s.up;
    values = λ j. if same_text j k then server_value now k s else s.values j;
    deadlines = λ j.
        if same_text j k then some (or_else (server_deadline now k s) (now + n)) else s.deadlines j;
  },
)

abbrev pub pipeline : ℕ → List Command → Server → Option (List ℕ) × Server
pipeline now cs s =
    if s.up then (let (replies, s') = run (serve now) cs s in (some replies, s')) else (none, s)

abbrev pub server : Redis
server = record { State = Server; execute = pipeline }

pub itself : (k : String) → same_text k k ≡ true
itself k = (eq_iff k k).1 refl

pub another : (k j : String) → k ≢ j → same_text j k ≡ false
another k j ne = elim (Bool-cases (same_text j k)) [
  | inl same ↦ absurd (ne (sym ((eq_iff j k).0 same)))
  | inr other ↦ other
]

-- A deadline that was kept or dropped is not over.
pub live_again : (now : ℕ) (d : Option ℕ) → has_time now (if has_time now d then d else none) ≡ true
live_again now none = refl
live_again now (some t) = ground arith

pub live_renewed :
    (now n : ℕ) (d : Option ℕ)
    → 0 < n
    → has_time now (some (or_else (if has_time now d then d else none) (now + n))) ≡ true
live_renewed now n none h = ground arith
live_renewed now n (some t) h = ground arith

pub deadline_kept :
    (now : ℕ) (k j : String) (s : Server)
    → server_deadline now j (serve now (incr k) s).1 ≡ server_deadline now j s
deadline_kept now k j s = elim (Bool-cases (same_text j k)) [
  | inl same ↦ rw ((eq_iff j k).0 same, itself k, live_again now (s.deadlines k)) refl
  | inr other ↦ rw other refl
]

pub value_kept :
    (now n : ℕ) (k j : String) (s : Server)
    → 0 < n
    → server_value now j (serve now (expire_nx k n) s).1 ≡ server_value now j s
value_kept now n k j s h = elim (Bool-cases (same_text j k)) [
  | inl same ↦ rw ((eq_iff j k).0 same, itself k, live_renewed now n (s.deadlines k) h) refl
  | inr other ↦ rw other refl
]

unfoldable pub server_laws : IsRedis server
server_laws = record {
  reachable = λ s. s.up;
  step = serve;
  value = server_value;
  deadline = server_deadline;
  down = λ now cs s e. rw e refl;
  up = λ now cs s e. rw e refl;
  incr-reply = λ now k s. refl;
  incr-value = λ now k s. rw (itself k, live_again now (s.deadlines k)) refl;
  incr-other = λ now k j s ne. rw (another k j ne) refl;
  incr-deadline = λ now k j s. deadline_kept now k j s;
  expire-value = λ now n k j s h. value_kept now n k j s h;
  expire-deadline = λ now n k s h. rw (itself k, live_renewed now n (s.deadlines k) h) refl;
  expire-other = λ now n k j s ne. rw (another k j ne) refl;
}

-- An option of a deadline that is not over at one instant, and at a later one.
has_time_later :
    (now later d : ℕ) (o : Option ℕ) (v : ℕ)
    → (if has_time now o then o else none) ≡ some d
    → now ≤ later
    → later < d
    → ((if has_time later o then v else 0) ≡ (if has_time now o then v else 0))
      × ((if has_time later o then o else none) ≡ some d)
has_time_later now later d none v e from to = cc
has_time_later now later d (some t) v e from to = ground arith

pub server_timed : IsTimed server server_laws
unfolding server_laws
server_timed = record {
  lasting = λ now later d k s. has_time_later now later d (s.deadlines k) (s.values k);
}
