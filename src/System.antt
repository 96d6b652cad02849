-- ===== src/System.antt =====
-- The endpoints of auth/routes.py and ledger/routes.py on one database: every request, in any order.
mod Tests
use mathlib.Core.Path.{subst}
use tradinghub.Base.{ℕ, String, Bool, Option, ◌≡◌, refl, sym, ◌<◌, All, arith}
use tradinghub.Core.Config.{Settings}
use tradinghub.Core.Database.{Store, Tables, Serials}
use tradinghub.Auth.Services.{AuthSupply}
use tradinghub.Auth.Security.RateLimit.{Redis}
use tradinghub.Auth.Routes as AuthRoutes
use tradinghub.Auth.Families.{IsAuthConsistent, IsNewFamily}
use tradinghub.Auth.Families.Requests.{handle-IsAuthConsistent}
use tradinghub.Auth.Families.Frame.{handle-SameLedger}
use tradinghub.Ledger.Routes as LedgerRoutes
use tradinghub.Ledger.Consistent.{IsConsistent}
use tradinghub.Ledger.Consistent.Requests.{IsFresh, handle-Served}

-- What holds between requests.
pub record IsSystem (fold : String → String) (a : Store) : Type 0 where
  pub ledger : IsConsistent fold a.tables a.serials
  pub auth : IsAuthConsistent fold a.tables a.serials

-- Requests one after another, each with a uuid that is new where it goes. The counters in Redis may be
-- any.
pub data Run (fold : String → String) (start : Store) : Store → Type 1 where
  stay : Run fold start start
  ledger_request :
      {before after : Store}
      → Run fold start before
      → (s : LedgerRoutes.Supply) (user_id : ℕ) (r : LedgerRoutes.Request) → s.fold ≡ fold
      → IsFresh s.uuid before
      → after ≡ (LedgerRoutes.handle s user_id r before).1
      → Run fold start after
  auth_request :
      {before after : Store}
      → Run fold start before
      → (settings : Settings) (is_email : String → Bool) (s : AuthSupply) (redis : Redis)
        (seconds : ℕ) (client : Option String) (r : AuthRoutes.Request) (c : redis.State)
      → s.fold ≡ fold
      → IsNewFamily s.uuid before.tables
      → after ≡ (AuthRoutes.handle settings is_email s redis seconds client r c before).1.1
      → Run fold start after

module _ (fold : String → String) (db db' : Tables) (n n' : Serials) where
  same_ledger-IsConsistent :
      db'.accounts ≡ db.accounts
      → db'.transactions ≡ db.transactions
      → n'.account_serial ≡ n.account_serial
      → n'.transaction_serial ≡ n.transaction_serial
      → IsConsistent fold db n
      → IsConsistent fold db' n'
  same_ledger-IsConsistent ea et na nt h = record {
    accounts_keyed = rw ea h.accounts_keyed;
    accounts_numbered = rw (ea, na) h.accounts_numbered;
    names = rw ea h.names;
    transactions_keyed = rw et h.transactions_keyed;
    transactions_numbered = rw (et, nt) h.transactions_numbered;
    owned = rw (ea, et) h.owned;
    signed = rw et h.signed;
    transfers = λ g. rw et (h.transfers g);
  }

  same_users-IsAuthConsistent :
      db'.users ≡ db.users
      → db'.sessions ≡ db.sessions
      → n'.user_serial ≡ n.user_serial
      → n'.session_serial ≡ n.session_serial
      → IsAuthConsistent fold db n
      → IsAuthConsistent fold db' n'
  same_users-IsAuthConsistent eu es nu ns h = record {
    users_keyed = rw eu h.users_keyed;
    users_numbered = rw (eu, nu) h.users_numbered;
    emails = rw eu h.emails;
    sessions_keyed = rw es h.sessions_keyed;
    sessions_numbered = rw (es, ns) h.sessions_numbered;
    hashes = rw es h.hashes;
    families = rw es h.families;
    owned = rw (eu, es) h.owned;
  }

-- A request to the ledger keeps both.
pub ledger-IsSystem :
    (s : LedgerRoutes.Supply) (u : ℕ) (r : LedgerRoutes.Request) (a : Store)
    → IsSystem s.fold a
    → IsFresh s.uuid a
    → IsSystem s.fold (LedgerRoutes.handle s u r a).1
ledger-IsSystem s u r a h fresh =
    let served = handle-Served s u r a h.ledger fresh in
    let b = (LedgerRoutes.handle s u r a).1 in
    record {
      ledger = served.consistent;
      auth =
          same_users-IsAuthConsistent s.fold a.tables b.tables a.serials b.serials
            served.others.users served.others.sessions served.users_serial served.sessions_serial
            h.auth;
    }

-- So does a request to auth.
pub auth-IsSystem :
    (settings : Settings) (is_email : String → Bool) (s : AuthSupply) (redis : Redis) (seconds : ℕ)
    (client : Option String) (r : AuthRoutes.Request) (c : redis.State) (a : Store)
    → IsSystem s.fold a
    → IsNewFamily s.uuid a.tables
    → IsSystem s.fold (AuthRoutes.handle settings is_email s redis seconds client r c a).1.1
auth-IsSystem settings is_email s redis seconds client r c a h new =
    let kept = handle-SameLedger settings is_email s redis seconds client c r a in
    let b = (AuthRoutes.handle settings is_email s redis seconds client r c a).1.1 in
    record {
      ledger =
          same_ledger-IsConsistent s.fold a.tables b.tables a.serials b.serials kept.accounts
            kept.transactions kept.account_serial kept.transaction_serial h.ledger;
      auth = handle-IsAuthConsistent settings is_email s redis seconds client c r a h.auth new;
    }

-- From a consistent database, after any sequence of requests to the auth and the ledger endpoints,
-- accepted or refused, each with a uuid that is new where it goes, users, sessions, accounts and transactions are consistent.
pub Run-IsSystem :
    (fold : String → String) (a : Store) {b : Store}
    → IsSystem fold a
    → Run fold a b
    → IsSystem fold b
Run-IsSystem fold a h stay = h
Run-IsSystem fold a h (ledger_request {before = m} run s u r f fresh e) =
    let sound = subst (λ φ. IsSystem φ m) (sym f) (Run-IsSystem fold a h run) in
    rw e (
      subst (λ φ. IsSystem φ (LedgerRoutes.handle s u r m).1) f
        (ledger-IsSystem s u r m sound fresh))
Run-IsSystem fold a h
      (auth_request {before = m} run settings is_email s redis seconds client r c f new e) =
    let sound = subst (λ φ. IsSystem φ m) (sym f) (Run-IsSystem fold a h run) in
    rw e (
      subst (λ φ. IsSystem φ (AuthRoutes.handle settings is_email s redis seconds client r c m).1.1)
        f (auth-IsSystem settings is_email s redis seconds client r c m sound new))
