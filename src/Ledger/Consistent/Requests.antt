-- ===== src/Ledger/Consistent/Requests.antt =====
-- Every request keeps the ledger consistent, leaves other users' rows alone, and writes nothing if it
-- fails.
use tradinghub.Base.{
  ℕ, String, Bool, true, false, [], ◌≡◌, refl, inl, inr, Option-cases, find?, keep,
}
use tradinghub.Core.Errors.{Result, ok, err, Error}
use tradinghub.Core.Database.{
  Work, Store, Action, begin, finish, close, continue, get_db, get_snapshot_db, ◌>>=◌,
}
use tradinghub.Ledger.Schemas.{
  accepts_create, accepts_update, accepts_transfer, is_row_id, accepts_period, accepts_filters,
}
use tradinghub.Ledger.Routes.{
  Supply, Request, Response, route, handle, summary_route, create_account, list_accounts,
  get_account, update_account, create_transaction, list_transactions, get_transaction,
  update_transaction, delete_transaction, create_transfer, get_summary, refuse_unless,
}
use tradinghub.Ledger.Services.Accounts as AccountService
use tradinghub.Ledger.Services.Transactions as TransactionService
use tradinghub.Ledger.Services.Transfers as TransferService
use tradinghub.Ledger.Crud.Accounts as AccountCrud
use tradinghub.Ledger.Crud.Transactions as TransactionCrud
use tradinghub.Ledger.Crud.Transactions.{is_transaction}
use tradinghub.Ledger.Balances.{get_account_lem}
use tradinghub.Ledger.Consistent.{IsConsistent, Kept, SameOthers, in_group}
use tradinghub.Ledger.Consistent.Rows.{Kept-refl, SameOthers-refl, IsConsistent-grow}
use tradinghub.Ledger.Consistent.Services.{
  create_account-Kept, update_account-Kept, create_transaction-Kept, update_transaction-Kept,
  delete_transaction-Kept,
}
use tradinghub.Ledger.Consistent.Transfers.{create_transfer-Kept}

module _ (fold : String → String) (u : ℕ) (w : Work)
    (h : IsConsistent fold w.current w.serials) where
  -- A body that only reads after its service has the service's session.
  Kept-then :
      {A : Type 0} (m : Result A × Work) (f : A → Action Response)
      → ((a : A) (v : Work) → (f a v).1 ≡ v)
      → Kept fold u w m.1
      → Kept fold u w (continue m.0 f m.1).1
  Kept-then (ok a, v) f same k = rw (same a v) k
  Kept-then (err e, v) f same k = k

  Kept-guard :
      (b : Bool) (m : Action Response)
      → (b ≡ true → Kept fold u w (m w).1)
      → Kept fold u w ((refuse_unless b >>= λ _. m) w).1
  Kept-guard true m k = k refl
  Kept-guard false m k = Kept-refl fold u w h

get_transaction_reads : (i u : ℕ) (w : Work) → (TransactionService.get_transaction i u w).1 ≡ w
unfolding TransactionService.get_transaction
get_transaction_reads i u w = elim (Option-cases (find? (is_transaction i u) w.transactions)) [
  | inl missing ↦ rw missing
  | inr (t, found) ↦ rw found
]

module _ (s : Supply) (u : ℕ) (w : Work) (h : IsConsistent s.fold w.current w.serials) where
  route-Kept :
      (request : Request)
      → keep (in_group s.uuid) w.transactions ≡ []
      → Kept s.fold u w (route s u request w).1
  unfolding route summary_route AccountCrud.list_accounts_with_balances
      TransactionCrud.list_transactions
  route-Kept (create_account payload) fresh =
      Kept-then s.fold u w h (AccountService.create_account s.fold u payload w) _ (λ a v. refl)
        (create_account-Kept s.fold u w h payload)
  route-Kept list_accounts fresh = Kept-refl s.fold u w h
  route-Kept (get_account i) fresh = Kept-guard s.fold u w h (is_row_id i) _ (λ e.
      Kept-then s.fold u w h (AccountService.get_account i u w) _ (λ a v. refl)
        (rw (get_account_lem i u w h.accounts_keyed) (Kept-refl s.fold u w h)))
  route-Kept (update_account i payload) fresh = Kept-guard s.fold u w h (is_row_id i) _ (λ e.
      Kept-then s.fold u w h (AccountService.update_account s.fold s.now i u payload w) _
        (λ a v. refl) (update_account-Kept s.fold u w h s.now i payload))
  route-Kept (create_transaction payload) fresh =
      Kept-guard s.fold u w h (accepts_create payload) _ (λ e.
        Kept-then s.fold u w h (TransactionService.create_transaction u payload w) _ (λ a v. refl)
          (create_transaction-Kept s.fold u w h payload e))
  route-Kept (list_transactions filters) fresh =
      Kept-guard s.fold u w h (accepts_filters filters) _ (λ e. Kept-refl s.fold u w h)
  route-Kept (get_transaction i) fresh = Kept-guard s.fold u w h (is_row_id i) _ (λ e.
      Kept-then s.fold u w h (TransactionService.get_transaction i u w) _ (λ a v. refl)
        (rw (get_transaction_reads i u w) (Kept-refl s.fold u w h)))
  route-Kept (update_transaction i payload) fresh = Kept-guard s.fold u w h (is_row_id i) _ (λ _.
      Kept-guard s.fold u w h (accepts_update payload) _ (λ e.
        Kept-then s.fold u w h (TransactionService.update_transaction i u payload w) _ (λ a v. refl)
          (update_transaction-Kept s.fold u w h i payload e)))
  route-Kept (delete_transaction i) fresh = Kept-guard s.fold u w h (is_row_id i) _ (λ _.
      Kept-then s.fold u w h (TransactionService.delete_transaction i u w) _ (λ a v. refl)
        (delete_transaction-Kept s.fold u w h i))
  route-Kept (create_transfer payload) fresh =
      Kept-guard s.fold u w h (accepts_transfer payload) _ (λ e.
        Kept-then s.fold u w h (TransferService.create_transfer s.uuid u payload w) _ (λ a v. refl)
          (create_transfer-Kept s.fold u w h s.uuid payload fresh e))
  route-Kept (get_summary period) fresh =
      Kept-guard s.fold u w h (accepts_period period) _ (λ e. Kept-refl s.fold u w h)

-- What holds between requests.
abbrev pub IsSound : (String → String) → Store → Type 0
IsSound fold s = IsConsistent fold s.tables s.serials

-- What a request grants: the tables are consistent, other users' rows are as they were, and an error
-- of any kind leaves every table as it was. Ids of users and sessions are not used up.
pub record Served (fold : String → String) (u : ℕ) (a b : Store) (r : Result Response)
    : Type 0 where
  pub consistent : IsSound fold b
  pub others : SameOthers u a.tables b.tables
  pub users_serial : b.serials.user_serial ≡ a.serials.user_serial
  pub sessions_serial : b.serials.session_serial ≡ a.serials.session_serial
  pub unchanged : (e : Error) → r ≡ err e → b.tables ≡ a.tables

finish-Served :
    (fold : String → String) (u : ℕ) (a : Store) (r : Result Response) (w : Work)
    → IsSound fold a
    → Kept fold u (begin a) w
    → let (r', b) = finish r w in Served fold u a b r'
unfolding finish
finish-Served fold u a (ok x) w h k = record {
  consistent = k.consistent;
  others = k.others;
  users_serial = k.users_serial;
  sessions_serial = k.sessions_serial;
  unchanged = λ e same. cc;
}
finish-Served fold u a (err x) w h k = record {
  consistent =
      rw k.committed (
        IsConsistent-grow fold u a.tables a.serials w.serials k.accounts_grow k.transactions_grow
          h);
  others = rw k.committed (SameOthers-refl fold u a.tables);
  users_serial = k.users_serial;
  sessions_serial = k.sessions_serial;
  unchanged = λ e same. k.committed;
}

snapshot-Served :
    (fold : String → String) (u : ℕ) (a : Store) (r : Result Response) (w : Work)
    → IsSound fold a
    → Kept fold u (begin a) w
    → Served fold u a (close w) r
snapshot-Served fold u a r w h k = record {
  consistent =
      rw k.committed (
        IsConsistent-grow fold u a.tables a.serials w.serials k.accounts_grow k.transactions_grow
          h);
  others = rw k.committed (SameOthers-refl fold u a.tables);
  users_serial = k.users_serial;
  sessions_serial = k.sessions_serial;
  unchanged = λ e same. k.committed;
}

-- The uuid of the request stands on no row yet.
abbrev pub IsFresh : ℕ → Store → Type 0
IsFresh uuid s = keep (in_group uuid) s.tables.transactions ≡ []

-- Every request of a user, accepted or refused, keeps the ledger consistent, leaves the rows of all
-- other users as they were, and changes no table if it fails, provided that its uuid is fresh.
pub handle-Served :
    (s : Supply) (u : ℕ) (request : Request) (a : Store)
    → IsSound s.fold a
    → IsFresh s.uuid a
    → let (r, b) = handle s u request a in Served s.fold u a b r
unfolding handle get_db finish get_snapshot_db
handle-Served s u (get_summary period) a h fresh =
    let (r, w) = route s u (get_summary period) (begin a) in
    snapshot-Served s.fold u a r w h (route-Kept s u (begin a) h (get_summary period) fresh)
handle-Served s u request a h fresh =
    let (r, w) = route s u request (begin a) in
    finish-Served s.fold u a r w h (route-Kept s u (begin a) h request fresh)
