-- ===== src/Ledger/Transfers.antt =====
-- When a transfer is recorded, and which error stands in its way (ledger/services/transfers.py).
pub mod Counting
pub mod Verdict
use tradinghub.Base.{
  ℕ, ℤ, String, Bool, true, false, not, ◌&&◌, Option, none, some, List, [], ◌∷◌, ◌==◌, eqb_ℤ, all,
  find?, same_text, if◌then◌else◌,
}
use tradinghub.Core.Errors.{
  AppError, account_not_found, transfer_same_account, transfer_amounts_differ,
}
use tradinghub.Ledger.Models.{Account}
use tradinghub.Ledger.Schemas.{TransferCreate}
use tradinghub.Ledger.Crud.Accounts.{is_account}
use tradinghub.Ledger.Crud.Transactions.{owns_account}
use tradinghub.Ledger.Services.Transfers.{account_ids}

-- Whether two accounts of the user count in one unit.
abbrev pub same_units : Option Account → Option Account → Bool
same_units (some a) (some b) = same_text a.unit b.unit
same_units _ _ = false

-- The rule of the docstring, over what the user owns: the error that a transfer meets, if any.
unfoldable pub verdict : ℕ → TransferCreate → List Account → Option AppError
verdict u d accounts =
    if d.from_account_id == d.to_account_id
    then some transfer_same_account
    else if not (all (λ i. owns_account accounts i u) (account_ids d))
    then some account_not_found
    else if same_units (find? (is_account d.from_account_id u) accounts)
          (find? (is_account d.to_account_id u) accounts)
        && not (eqb_ℤ d.amount_sent d.amount_received)
    then some transfer_amounts_differ
    else none
