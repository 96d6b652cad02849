-- ===== src/Ledger/Failures.antt =====
-- What a request to the ledger's endpoints can fail with, and the answer that core/errors.py has for it.
use tradinghub.Base.{
  ℕ, String, Bool, true, false, none, some, ◌≡◌, refl, sym, ap, ◌∙◌, arith, inl, inr, Option-cases,
  find?, is_some, any-find?, ◌==◌,
}
use tradinghub.Core.Errors.{Error, err}
use tradinghub.Core.Database.{Work, Store, Action, begin, get_db, get_snapshot_db, ◌>>=◌}
use tradinghub.Core.Failures.{
  ends_well, well-then, finish-ends_well, IsClientError, foreseen-IsClientError,
}
use tradinghub.Core.Rendering.{rendered}
use tradinghub.Sql.Rows.{Keyed}
use tradinghub.Ledger.Routes.{
  Supply, Request, route, handle, summary_route, create_account, list_accounts, get_account,
  update_account, create_transaction, list_transactions, get_transaction, update_transaction,
  delete_transaction, create_transfer, get_summary, refuse_unless,
}
use tradinghub.Ledger.Services.Accounts as AccountService
use tradinghub.Ledger.Services.Transactions as TransactionService
use tradinghub.Ledger.Services.Transactions.{null_left, patched}
use tradinghub.Ledger.Services.Transfers as TransferService
use tradinghub.Ledger.Services.Transfers.{transfer_rows}
use tradinghub.Ledger.Crud.Accounts as AccountCrud
use tradinghub.Ledger.Crud.Accounts.{is_account, one_or_none, accounts_with_balances_statement}
use tradinghub.Ledger.Crud.Transactions as TransactionCrud
use tradinghub.Ledger.Crud.Transactions.{is_transaction, owns_account}
use tradinghub.Ledger.Schemas.{
  accepts_create, accepts_update, accepts_transfer, is_row_id, accepts_period, accepts_filters,
  AccountCreate, AccountUpdate, TransactionCreate, TransactionUpdate, TransferCreate,
}
use tradinghub.Ledger.Consistent.{account_key}
use tradinghub.Ledger.Editing.{null_left-accepted}
use tradinghub.Ledger.Transfers.{verdict}
use tradinghub.Ledger.Transfers.Verdict.{create_transfer-verdict, outcome}

module _ {A : Type 0} where
  well-guard :
      (b : Bool) (m : Action A) (w : Work)
      → (b ≡ true → ends_well (m w).0 ≡ true)
      → ends_well ((refuse_unless b >>= λ _. m) w).0 ≡ true
  well-guard true m w h = h refl
  well-guard false m w h = refl

create_account-ends_well :
    (fold : String → String) (u : ℕ) (d : AccountCreate) (w : Work)
    → ends_well (AccountService.create_account fold u d w).0 ≡ true
unfolding AccountService.create_account AccountCrud.create_account
create_account-ends_well fold u d w = ground arith

get_account-ends_well : (i u : ℕ) (w : Work) → ends_well (AccountService.get_account i u w).0 ≡ true
unfolding AccountService.get_account AccountCrud.get_account_with_balance
get_account-ends_well i u w =
    elim (one_or_none (accounts_with_balances_statement u (λ a. a.id == i) w.current))
      as (λ o. ends_well (AccountService.or_not_found o w).0 ≡ true) [ none ↦ refl | some a ↦ refl ]

update_account-ends_well :
    (fold : String → String) (now i u : ℕ) (d : AccountUpdate) (w : Work)
    → ends_well (AccountService.update_account fold now i u d w).0 ≡ true
unfolding AccountService.update_account AccountService.flush_account
update_account-ends_well fold now i u d w =
    well-then (AccountService.get_account i u w) _ (λ a _. ground arith)
      (get_account-ends_well i u w)

create_transaction-ends_well :
    (u : ℕ) (d : TransactionCreate) (w : Work)
    → ends_well (TransactionService.create_transaction u d w).0 ≡ true
unfolding TransactionService.create_transaction AccountCrud.get_account
    TransactionCrud.create_transaction TransactionService.new_transaction
create_transaction-ends_well u d w =
    elim (Option-cases (find? (is_account d.account_id u) w.accounts)) [
      | inl missing ↦ rw missing
      | inr (a, found) ↦
          let owned : owns_account w.accounts d.account_id u ≡ true =
            any-find? (is_account d.account_id u) w.accounts ∙ ap is_some found in
          rw (found, owned)
    ]

get_transaction-ends_well :
    (i u : ℕ) (w : Work) → ends_well (TransactionService.get_transaction i u w).0 ≡ true
unfolding TransactionService.get_transaction TransactionCrud.get_transaction
get_transaction-ends_well i u w =
    elim (find? (is_transaction i u) w.transactions)
      as (λ o. ends_well (TransactionService.or_not_found o w).0 ≡ true) [
        | none ↦ refl
        | some a ↦ refl
      ]

update_transaction-ends_well :
    (i u : ℕ) (d : TransactionUpdate) (w : Work)
    → accepts_update d ≡ true
    → ends_well (TransactionService.update_transaction i u d w).0 ≡ true
unfolding TransactionService.update_transaction TransactionService.flush_transaction
update_transaction-ends_well i u d w accepted =
    let no_null = null_left-accepted d accepted in
    well-then (TransactionService.get_transaction i u w) _ (λ t _. ground (arith, no_null))
      (get_transaction-ends_well i u w)

delete_transaction-ends_well :
    (i u : ℕ) (w : Work) → ends_well (TransactionService.delete_transaction i u w).0 ≡ true
unfolding TransactionService.delete_transaction TransactionCrud.delete_transaction
delete_transaction-ends_well i u w = ground arith

create_transfer-ends_well :
    (g u : ℕ) (d : TransferCreate) (w : Work)
    → Keyed account_key w.accounts
    → ends_well (TransferService.create_transfer g u d w).0 ≡ true
create_transfer-ends_well g u d w k =
    rw (create_transfer-verdict g u d w k)
      (elim (verdict u d w.accounts)
        as (λ o. ends_well (outcome o (transfer_rows u g d) w).0 ≡ true) [
          | none ↦ refl
          | some e ↦ refl
        ])

module _ (s : Supply) (u : ℕ) (w : Work) (k : Keyed account_key w.accounts) where
  route-ends_well : (request : Request) → ends_well (route s u request w).0 ≡ true
  unfolding route summary_route AccountCrud.list_accounts_with_balances
      TransactionCrud.list_transactions
  route-ends_well (create_account d) =
      well-then (AccountService.create_account s.fold u d w) _ (λ a e. refl)
        (create_account-ends_well s.fold u d w)
  route-ends_well list_accounts = refl
  route-ends_well (get_account i) = well-guard (is_row_id i) _ w (λ _.
      well-then (AccountService.get_account i u w) _ (λ a e. refl) (get_account-ends_well i u w))
  route-ends_well (update_account i d) = well-guard (is_row_id i) _ w (λ _.
      well-then (AccountService.update_account s.fold s.now i u d w) _ (λ a e. refl)
        (update_account-ends_well s.fold s.now i u d w))
  route-ends_well (create_transaction d) = well-guard (accepts_create d) _ w (λ _.
      well-then (TransactionService.create_transaction u d w) _ (λ a e. refl)
        (create_transaction-ends_well u d w))
  route-ends_well (list_transactions filters) = well-guard (accepts_filters filters) _ w (λ _. refl)
  route-ends_well (get_transaction i) = well-guard (is_row_id i) _ w (λ _.
      well-then (TransactionService.get_transaction i u w) _ (λ a e. refl)
        (get_transaction-ends_well i u w))
  route-ends_well (update_transaction i d) = well-guard (is_row_id i) _ w (λ _.
      well-guard (accepts_update d) _ w (λ accepted.
        well-then (TransactionService.update_transaction i u d w) _ (λ a e. refl)
          (update_transaction-ends_well i u d w accepted)))
  route-ends_well (delete_transaction i) = well-guard (is_row_id i) _ w (λ _.
      well-then (TransactionService.delete_transaction i u w) _ (λ a e. refl)
        (delete_transaction-ends_well i u w))
  route-ends_well (create_transfer d) = well-guard (accepts_transfer d) _ w (λ _.
      well-then (TransferService.create_transfer s.uuid u d w) _ (λ a e. refl)
        (create_transfer-ends_well s.uuid u d w k))
  route-ends_well (get_summary period) = well-guard (accepts_period period) _ w (λ _. refl)

pub handle-ends_well :
    (s : Supply) (u : ℕ) (request : Request) (a : Store)
    → Keyed account_key a.tables.accounts
    → ends_well (handle s u request a).0 ≡ true
unfolding handle get_db get_snapshot_db
handle-ends_well s u (get_summary period) a k = route-ends_well s u (begin a) k (get_summary period)
handle-ends_well s u request a k =
    finish-ends_well (route s u request (begin a)).0 (route s u request (begin a)).1
    ∙ route-ends_well s u (begin a) k request

-- Where account ids are distinct, whatever a request to the ledger's endpoints fails with has a
-- handler, which answers a status from 400 to 499: no IntegrityError and no KeyError escapes.
pub handle-IsClientError :
    (s : Supply) (u : ℕ) (request : Request) (a : Store)
    → Keyed account_key a.tables.accounts
    → (e : Error) → (handle s u request a).0 ≡ err e
    → IsClientError (rendered e)
handle-IsClientError s u request a k e failed =
    foreseen-IsClientError e (ap ends_well (sym failed) ∙ handle-ends_well s u request a k)
