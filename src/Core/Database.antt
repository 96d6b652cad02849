-- ===== src/Core/Database.antt =====
-- core/database.py: the tables, the transaction that a request works in, and the two session
-- dependencies. Postgres keeps the serial counters outside of every transaction.
use tradinghub.Base.{ℕ, Bool, List, if◌then◌else◌}
use tradinghub.Core.Errors.{AppError, Result, ok, err, app_error, integrity_error}
use tradinghub.Auth.Models.{User, Session}
use tradinghub.Ledger.Models.{Account, Transaction}

-- The tables of Base.metadata.
pub record Tables : Type 0 where
  pub users : List User
  pub sessions : List Session
  pub accounts : List Account
  pub transactions : List Transaction

-- The next value of each primary key's sequence.
pub record Serials : Type 0 where
  pub user_serial : ℕ
  pub session_serial : ℕ
  pub account_serial : ℕ
  pub transaction_serial : ℕ

-- What the database holds between requests.
pub record Store : Type 0 where
  pub tables : Tables
  pub serials : Serials

-- An AsyncSession: what is committed, and the tables as its open transaction sees them.
pub record Work : Type 0 where
  pub committed : Tables
  pub current : Tables
  pub open current use *
  pub serials : Serials

-- A coroutine that uses the session and may raise. What it wrote before it raised stays written in
-- the transaction, so the session comes back beside the exception.
abbrev pub Action {ℓ} : Type ℓ → Type ℓ
Action A = Work → Result A × Work

module _ {ℓ} {A : Type ℓ} where
  abbrev pub pure : A → Action A
  pure a w = (ok a, w)

  abbrev pub raise : AppError → Action A
  raise e w = (err (app_error e), w)

abbrev pub continue {ℓ κ} : {A : Type ℓ} {B : Type κ} → Result A → (A → Action B) → Action B
continue (ok a) f w = f a w
continue (err e) f w = (err e, w)

infixl 5 ◌>>=◌ ◌>>◌
abbrev pub ◌>>=◌ {ℓ κ} : {A : Type ℓ} {B : Type κ} → Action A → (A → Action B) → Action B
◌>>=◌ m f w = let (r, w') = m w in continue r f w'

abbrev pub ◌>>◌ {ℓ κ} : {A : Type ℓ} {B : Type κ} → Action A → Action B → Action B
m >> k = m >>= λ _. k

-- `if test: raise e`
abbrev pub raise_if : Bool → AppError → Action (Unit {0})
raise_if b e w = (if b then err (app_error e) else ok tt, w)

-- `except IntegrityError as error: raise e from error`
abbrev pub on_integrity {ℓ} : {A : Type ℓ} → AppError → Result A → Result A
on_integrity e (err integrity_error) = err (app_error e)
on_integrity e r = r

abbrev pub except_integrity {ℓ} : {A : Type ℓ} → Action A → AppError → Action A
except_integrity m e w = let (r, w') = m w in (on_integrity e r, w')

-- AsyncSession.commit and AsyncSession.rollback
unfoldable pub commit : Action (Unit {0})
commit w = (ok tt, record w { committed = w.current })

unfoldable pub rollback : Work → Work
rollback w = record w { current = w.committed }

-- SessionFactory(): the transaction begins at what is committed.
abbrev pub begin : Store → Work
begin s = record { committed = s.tables; current = s.tables; serials = s.serials }

abbrev pub close : Work → Store
close w = record { tables = w.committed; serials = w.serials }

-- The end of the `try` in get_db.
unfoldable pub finish {ℓ} : {A : Type ℓ} → Result A → Work → Result A × Store
unfolding commit rollback
finish (ok a) w = (ok a, close (commit w).1)
finish (err e) w = (err e, close (rollback w))

-- get_db around the body of a request.
unfoldable pub get_db {ℓ} : {A : Type ℓ} → Action A → Store → Result A × Store
unfolding finish
get_db body s = let (r, w) = body (begin s) in finish r w

-- get_snapshot_db: nothing is committed.
unfoldable pub get_snapshot_db {ℓ} : {A : Type ℓ} → Action A → Store → Result A × Store
get_snapshot_db body s = let (r, w) = body (begin s) in (r, close w)
