-- ===== src/Ledger/Tests.antt =====
-- The ledger at concrete inputs: a user with two accounts and a transfer with its fee.
mod Reports
mod Moves
use tradinghub.Ledger.Consistent.{transaction_key}
use tradinghub.Ledger.Deleting.{deletion, delete_transaction-deletion}
use tradinghub.Ledger.Editing.{Edited, update_transaction-Edited}
use tradinghub.Ledger.Schemas.{AccountUpdate, TransactionUpdate, accepts_update, value, unset, null}
use tradinghub.Core.Errors.{account_name_taken, account_not_found, ok}
use tradinghub.Sql.{update}
use tradinghub.Base.{
  if◌then◌else◌, find?, ℕ, ℤ, pos, negsuc, neg, String, true, none, some, [], ◌∷◌, ◌≡◌, refl, arith,
}
use tradinghub.Core.Errors.{err, app_error}
use tradinghub.Core.Database.{Store, Work, begin}
use tradinghub.Ledger.Models.{Account, Transaction, cash, income}
use tradinghub.Ledger.Schemas.{TransferCreate}
use tradinghub.Ledger.Services.Transfers.{create_transfer, transfer_rows}
use tradinghub.Ledger.Routes.{
  Request, Supply, handle, delete_transaction, create_transfer as transfer_request,
}
use tradinghub.Ledger.Services.Accounts as AccountService
use tradinghub.Ledger.Services.Transactions as TransactionService
use tradinghub.Ledger.Services.Transfers as TransferService
use tradinghub.Ledger.Schemas.{accepts_transfer, is_row_id}
use tradinghub.Core.Errors.{transaction_not_found}
use tradinghub.Core.Database.{get_db}
use tradinghub.Ledger.Crud.Accounts.{is_account, accounts_with_balances_statement}
use tradinghub.Base.{map, ◌≢◌, ◌==◌, ◌&&◌, keep}
use tradinghub.Ledger.Balances.{
  accounts_with_balances_statement_lem, get_account_lem, with_balance, answer,
}
use tradinghub.Ledger.Transfers.{verdict}
use tradinghub.Core.Failures.{IsClientError}
use tradinghub.Core.Rendering.{rendered}
use tradinghub.Ledger.Updating.{Updated, is_name_taken, with_account, update_account-Updated}
use tradinghub.Ledger.Balances.{with_balance}
use tradinghub.Ledger.Services.Accounts as AccountService
use tradinghub.Ledger.Failures.{handle-IsClientError}
use tradinghub.Ledger.Transfers.Verdict.{create_transfer-verdict, outcome}
use tradinghub.Ledger.Consistent.Requests.{IsSound, Served, handle-Served}
use tradinghub.Ledger.Consistent.Histories.{
  History, History-IsSound, History-SameRows, SameRows, empty, request,
}

abbrev pub fold : String → String
fold s = s

abbrev supply : Supply
supply = record { fold = fold; collate = λ a b. true; now = 100; uuid = 7 }

abbrev wallet : Account
wallet = record {
  id = 1;
  user_id = 1;
  name = "wallet";
  unit = "GBP";
  type = cash;
  archived_at = none;
}

abbrev bank : Account
bank = record { id = 2; user_id = 1; name = "bank"; unit = "GBP"; type = cash; archived_at = none }

abbrev stranger : Account
stranger = record {
  id = 3;
  user_id = 2;
  name = "wallet";
  unit = "GBP";
  type = cash;
  archived_at = none;
}

abbrev salary : Transaction
salary = record {
  id = 1;
  user_id = 1;
  account_id = 1;
  amount = pos 500;
  kind = income;
  category = some "pay";
  occurred_at = 10;
  note = none;
  transfer_group_id = none;
}

abbrev start : Store
start = record {
  tables = record {
    users =
        record { id = 1; email = "a@example.com"; password_hash = "h" }
        ∷ record { id = 2; email = "b@example.com"; password_hash = "h" }
        ∷ [];
    sessions = [];
    accounts = wallet ∷ bank ∷ stranger ∷ [];
    transactions = salary ∷ [];
  };
  serials = record {
    user_serial = 3;
    session_serial = 1;
    account_serial = 4;
    transaction_serial = 2;
  };
}

pub start-IsSound : IsSound fold start
start-IsSound = record {
  accounts_keyed = omega arith;
  accounts_numbered = omega arith;
  names = ((refl, (refl, tt)), ((refl, tt), (tt, tt)));
  transactions_keyed = (tt, tt);
  transactions_numbered = omega arith;
  owned = (refl, tt);
  signed = omega arith;
  transfers = λ g. tt;
}

abbrev pub moved : TransferCreate
moved = record {
  from_account_id = 1;
  to_account_id = 2;
  amount_sent = pos 100;
  amount_received = pos 100;
  fee = some (pos 1);
  fee_account_id = some 1;
  fee_category = some "fees";
  occurred_at = 20;
  note = none;
}

abbrev after_transfer : Store
after_transfer = (handle supply 1 (transfer_request moved) start).1

abbrev cell : Transaction → ℕ × ℕ × ℤ
cell t = (t.id, t.account_id, t.amount)

-- The three rows of the transfer, as they are stored.
transfer_stores_three_rows :
    map cell after_transfer.tables.transactions
    ≡ (1, 1, pos 500) ∷ (2, 1, negsuc 99) ∷ (3, 2, pos 100) ∷ (4, 1, negsuc 0) ∷ []
unfolding handle get_db TransferService.create_transfer transfer_rows accepts_transfer neg
transfer_stores_three_rows = refl

-- Deleting the fee deletes the transfer, and the salary stays.
delete_takes_the_group :
    map
      (λ (t : Transaction). t.id)
      (handle supply 1 (delete_transaction 4) after_transfer).1.tables.transactions
    ≡ 1 ∷ []
unfolding handle get_db TransferService.create_transfer transfer_rows accepts_transfer neg is_row_id
    TransactionService.delete_transaction
delete_takes_the_group = refl

-- Another user's id is as good as none.
strangers_delete_is_refused :
    (handle supply 2 (delete_transaction 1) start).0 ≡ err (app_error transaction_not_found)
unfolding handle get_db is_row_id TransactionService.delete_transaction
strangers_delete_is_refused = refl

abbrev pub start_work : Work
start_work = begin start

accounts_with_balances_statement_lem_example :
    accounts_with_balances_statement 1 (λ a. true) start.tables
    ≡ map
        (with_balance start.tables.transactions)
        (keep (λ a. a.user_id == 1 && true) start.tables.accounts)
accounts_with_balances_statement_lem_example =
    accounts_with_balances_statement_lem 1 (λ a. true) start.tables start-IsSound.accounts_keyed

create_transfer-verdict_example :
    create_transfer 7 1 moved start_work
    ≡ outcome (verdict 1 moved start.tables.accounts) (transfer_rows 1 7 moved) start_work
create_transfer-verdict_example =
    create_transfer-verdict 7 1 moved start_work start-IsSound.accounts_keyed

handle-Served_example :
    let (r, b) = handle supply 1 (transfer_request moved) start in Served fold 1 start b r
handle-Served_example = handle-Served supply 1 (transfer_request moved) start start-IsSound refl

transfer-History : History fold (λ u. u ≢ 2) start after_transfer
transfer-History = request empty supply 1 (transfer_request moved) refl (omega arith) refl refl

History-SameRows_example : SameRows 2 start after_transfer
History-SameRows_example = History-SameRows fold 2 start start-IsSound transfer-History

delete_transaction-deletion_example :
    TransactionService.delete_transaction 1 1 start_work ≡ deletion start_work (some salary)
delete_transaction-deletion_example = delete_transaction-deletion fold 1 1 start_work start-IsSound

abbrev raise_pay : TransactionUpdate
raise_pay = record {
  amount = value (pos 700);
  kind = unset;
  category = null;
  occurred_at = unset;
  note = value "bonus";
}

update_transaction-Edited_example :
    (new : Transaction) × Edited raise_pay salary new
    × (TransactionService.update_transaction 1 1 raise_pay start_work ≡ (
      ok new,
      record start_work {
        current = record start_work.current {
          transactions = update transaction_key new start_work.transactions;
        };
      },
    ))
unfolding accepts_update
update_transaction-Edited_example =
    update_transaction-Edited fold 1 1 start_work start-IsSound raise_pay salary refl refl refl

abbrev to_nowhere : Request
to_nowhere = transfer_request (record moved { to_account_id = 99 })

to_nowhere_refused : (handle supply 1 to_nowhere start).0 ≡ err (app_error account_not_found)
unfolding handle get_db accepts_transfer create_transfer
to_nowhere_refused = refl

handle-IsClientError_example : IsClientError (rendered (app_error account_not_found))
handle-IsClientError_example =
    handle-IsClientError supply 1 to_nowhere start start-IsSound.accounts_keyed
      (app_error account_not_found) to_nowhere_refused

abbrev shut : AccountUpdate
shut = record { name = none; unit = none; type = none; archived = some true }

update_account-Updated_example :
    (find? (is_account 1 1) start_work.accounts ≡ none
      → AccountService.update_account fold 100 1 1 shut start_work
        ≡ (err (app_error account_not_found), start_work))
    × ((old : Account)
        → find? (is_account 1 1) start_work.accounts ≡ some old
        → (new : Account) × Updated shut 100 old new
          × (AccountService.update_account fold 100 1 1 shut start_work ≡ (
              if is_name_taken fold new start_work.accounts
              then (err (app_error account_name_taken), start_work)
              else (
                ok (record {
                  account = new;
                  balance = (with_balance start_work.transactions old).balance;
                }),
                with_account start_work new,
              ))))
update_account-Updated_example =
    update_account-Updated fold 100 1 1 shut start_work start-IsSound.accounts_keyed
