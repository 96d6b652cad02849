-- ===== src/App/Histories.antt =====
-- Any number of requests through the application, one after another.
use mathlib.Core.Path.{subst}
use tradinghub.Base.{ℕ, String, Bool, true, some, List, [], ◌∷◌, ◌≡◌, sym, ◌<◌, All}
use tradinghub.Core.Config.{Settings}
use tradinghub.Core.Database.{begin}
use tradinghub.Core.Middleware.{Context, Request}
use tradinghub.Auth.Services.{AuthSupply}
use tradinghub.Auth.Security.RateLimit.{Redis}
use tradinghub.Auth.Limits.{IsRedis}
use tradinghub.Auth.Failures.{is_fresh}
use tradinghub.Auth.Families.{IsNewFamily}
use tradinghub.Ledger.Consistent.Requests.{IsFresh}
use tradinghub.System.{IsSystem}
use tradinghub.App.{Call, State, serve}
use tradinghub.App.Guard.{serve-IsSystem, serve-answers}

-- What arrives: a call of some client, and what the server takes from outside while it answers.
pub record Arrival : Type 1 where
  pub supply : AuthSupply
  pub seconds : ℕ
  pub uuid : String
  pub request : Request
  pub ip : String
  pub known : request.client ≡ some ip
  pub call : Call
  pub before : Context

module _ (settings : Settings) (is_email : String → Bool) (redis : Redis)
    (collate : String → String → Bool) (fold : String → String) where
  -- The status that an arrival is answered with, and the state after it.
  abbrev pub answered_status : Arrival → State redis → ℕ
  answered_status x a =
      (serve settings is_email redis x.supply collate x.seconds x.uuid x.request x.call x.before
        a).0.0.status_code

  abbrev pub state_after : Arrival → State redis → State redis
  state_after x a =
      (serve settings is_email redis x.supply collate x.seconds x.uuid x.request x.call x.before
        a).1

  -- The case folding is the database's, and the uuid and the token are new where they go.
  pub record IsApt (x : Arrival) (a : State redis) : Type 0 where
    pub folds : x.supply.fold ≡ fold
    pub new_group : IsFresh x.supply.uuid a.store
    pub new_family : IsNewFamily x.supply.uuid a.store.tables
    pub new_token : is_fresh x.supply (begin a.store) ≡ true

  -- The statuses of the answers to a sequence of arrivals, the last one first.
  pub data Serving (start : State redis) : State redis → List ℕ → Type 1 where
    idle : Serving start start []
    next :
        {a : State redis} {statuses : List ℕ}
        → Serving start a statuses
        → (x : Arrival) → IsApt x a
        → Serving start (state_after x a) (answered_status x a ∷ statuses)

  Serving-IsSystem :
      {start a : State redis} {statuses : List ℕ}
      → IsSystem fold start.store
      → Serving start a statuses
      → IsSystem fold a.store
  Serving-IsSystem h idle = h
  Serving-IsSystem h (next {a = a} before x apt) =
      let sound = subst (λ φ. IsSystem φ a.store) (sym apt.folds) (Serving-IsSystem h before) in
      subst (λ φ. IsSystem φ (state_after x a).store) apt.folds
        (serve-IsSystem settings is_email redis x.supply collate x.seconds x.uuid x.request x.before
          a x.call sound apt.new_group apt.new_family)

  -- If Redis does what it documents and the server knows the addresses of its clients, then from a
  -- consistent database, with whatever requests to whatever endpoints, each with a uuid and a token that
  -- are new where they go, none is ever answered with a status of 500 or more, and the database stays
  -- consistent.
  pub Serving-answers :
      (laws : IsRedis redis) {start a : State redis} {statuses : List ℕ}
      → IsSystem fold start.store
      → Serving start a statuses
      → All (λ n. n < 500) statuses × IsSystem fold a.store
  Serving-answers laws {start = start} h run = (answers run, Serving-IsSystem h run)
    where
      answers : {b : State redis} {ns : List ℕ} → Serving start b ns → All (λ n. n < 500) ns
      answers idle = tt
      answers (next {a = b} before x apt) =
          let sound = subst (λ φ. IsSystem φ b.store) (sym apt.folds) (Serving-IsSystem h before) in
          (
            serve-answers settings is_email redis x.supply collate x.seconds x.uuid x.request
                x.before b laws x.ip x.call sound apt.new_token x.known,
            answers before,
          )
