-- ===== src/Auth/Families/Requests.antt =====
-- Whole requests to auth/routes.py keep the stored users and sessions consistent.
use tradinghub.Auth.Families.Keeping.{action, route-keeps}
use tradinghub.Base.{ℕ, String, Bool, Option}
use tradinghub.Core.Errors.{Result, ok, err}
use tradinghub.Core.Config.{Settings}
use tradinghub.Core.Database.{Store, Work, Action, begin, get_db, finish, commit, rollback}
use tradinghub.Auth.Security.RateLimit.{Redis}
use tradinghub.Auth.Services.{AuthSupply}
use tradinghub.Auth.Routes.{Request, handle}
use tradinghub.Auth.Families.{IsAuthConsistent, IsGood, IsNewFamily}
use tradinghub.Auth.Families.Actions.{IsGood-refresh_session, IsGood-logout_user}
use tradinghub.Auth.Families.SignIn.{IsGood-login_counted, IsGood-register_counted}

finish-IsAuthConsistent {ℓ} :
    (fold : String → String) {A : Type ℓ} (r : Result A) (w : Work)
    → IsGood fold w
    → IsAuthConsistent fold (finish r w).1.tables (finish r w).1.serials
unfolding finish commit rollback
finish-IsAuthConsistent fold (ok a) w h = h.current
finish-IsAuthConsistent fold (err e) w h = h.committed

-- A session that is good in the end leaves a consistent store.
pub get_db-IsAuthConsistent {ℓ} :
    (fold : String → String) {A : Type ℓ} (m : Action A) (a : Store)
    → IsGood fold (m (begin a)).1
    → IsAuthConsistent fold (get_db m a).1.tables (get_db m a).1.serials
unfolding get_db
get_db-IsAuthConsistent fold m a h = finish-IsAuthConsistent fold (m (begin a)).0 (m (begin a)).1 h

module _ (settings : Settings) (is_email : String → Bool) (s : AuthSupply) (redis : Redis)
    (seconds : ℕ) (client : Option String) (c : redis.State) where
  -- A request to the auth endpoints, accepted or refused, with a new uuid and from consistent users and
  -- sessions, stores consistent ones: emails and token hashes are unique, every session has an owner,
  -- and a family is of one user and has at most one unspent token.
  pub handle-IsAuthConsistent :
      (r : Request) (a : Store)
      → IsAuthConsistent s.fold a.tables a.serials
      → IsNewFamily s.uuid a.tables
      → IsAuthConsistent s.fold
          (handle settings is_email s redis seconds client r c a).1.1.tables
          (handle settings is_email s redis seconds client r c a).1.1.serials
  unfolding handle
  handle-IsAuthConsistent r a h new =
      let start : IsGood s.fold (begin a) = record { current = h; committed = h } in
      get_db-IsAuthConsistent s.fold (action settings is_email s redis seconds client c r) a (
        route-keeps settings is_email s redis seconds client c (IsGood s.fold) (begin a) start
          (λ email raw. IsGood-register_counted s (begin a) email raw start new)
          (λ email raw. IsGood-login_counted s (begin a) email raw start new)
          (λ t. IsGood-refresh_session s t (begin a) start)
          (λ t. IsGood-logout_user s t (begin a) start) r)
