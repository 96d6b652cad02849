-- ===== src/Ledger/Tests/Moves.antt =====
-- What transfers do to the balances and to the summary of a concrete ledger.
use tradinghub.Base.{some, pos, ◌+ℤ◌, All, true, List, [], map, ◌≡◌, refl}
use tradinghub.Core.Errors.{ok}
use tradinghub.Core.Database.{Work}
use tradinghub.Ledger.Models.{Transaction}
use tradinghub.Ledger.Schemas.{TransferCreate}
use tradinghub.Ledger.Crud.Accounts.{accounts_with_balances_statement}
use tradinghub.Ledger.Crud.Summary.{get_balances_per_unit}
use tradinghub.Ledger.Services.Transfers.{create_transfer, transfer_rows}
use tradinghub.Ledger.Consistent.Rows.{new_rows, with_rows}
use tradinghub.Ledger.Summary.{unit_totals, value_of}
use tradinghub.Ledger.Booking.{changed, change_of, create_transfer-moves}
use tradinghub.Ledger.Conserving.Sums.{fee_in}
use tradinghub.Ledger.Conserving.{create_transfer-conserves}
use tradinghub.Ledger.Undoing.{create_transfer-delete_transaction}
use tradinghub.Ledger.Services.Transactions.{delete_transaction}
use tradinghub.Ledger.Schemas.{accepts_transfer}
use tradinghub.Ledger.Tests.{fold, moved, start_work, start-IsSound}

abbrev rows_of : TransferCreate → List Transaction
rows_of d = new_rows (transfer_rows 1 7 d) start_work

abbrev after : TransferCreate → Work
after d = with_rows (transfer_rows 1 7 d) start_work

moved_is_recorded : create_transfer 7 1 moved start_work ≡ (ok (rows_of moved), after moved)
unfolding create_transfer transfer_rows
moved_is_recorded = refl

create_transfer-moves_example :
    accounts_with_balances_statement 1 (λ a. true) (after moved).current
    ≡ map
        (changed (change_of moved))
        (accounts_with_balances_statement 1 (λ a. true) start_work.current)
create_transfer-moves_example =
    create_transfer-moves 7 1 moved start_work (after moved) (rows_of moved)
      start-IsSound.accounts_keyed moved_is_recorded 1 (λ a. true)

create_transfer-conserves_example :
    unit_totals "GBP" (value_of [] (get_balances_per_unit (λ a b. true) 1 (after moved)).0)
    ≡ unit_totals "GBP" (value_of [] (get_balances_per_unit (λ a b. true) 1 start_work).0)
      +ℤ fee_in "GBP" 1 start_work.accounts (some (pos 1)) (some 1)
create_transfer-conserves_example =
    create_transfer-conserves 7 1 moved start_work (after moved) (rows_of moved)
      start-IsSound.accounts_keyed moved_is_recorded (λ a b. true) "GBP" refl

create_transfer-delete_transaction_example :
    All
      (λ r.
        delete_transaction r.id 1 (after moved)
        ≡ (ok tt, record (after moved) { current = start_work.current }))
      (rows_of moved)
unfolding accepts_transfer
create_transfer-delete_transaction_example =
    create_transfer-delete_transaction fold 7 1 moved start_work (rows_of moved) (after moved)
      start-IsSound refl refl moved_is_recorded
