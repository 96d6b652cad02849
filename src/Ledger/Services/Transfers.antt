-- ===== src/Ledger/Services/Transfers.antt =====
-- ledger/services/transfers.py. `group` is what uuid4 returned.
use tradinghub.Base.{
  ℕ, ℤ, neg, eqb_ℤ, String, not, ◌&&◌, Option, none, some, List, [], ◌∷◌, ◌++◌, ◌==◌, same_text,
  length, find?, if◌then◌else◌,
}
use tradinghub.Core.Errors.{
  ok, err, runtime_error, account_not_found, transfer_same_account, transfer_amounts_differ,
}
use tradinghub.Core.Database.{Action, raise_if, ◌>>=◌, ◌>>◌}
use tradinghub.Ledger.Models.{Account, Transaction, TransactionKind, expense, transfer}
use tradinghub.Ledger.Schemas.{TransferCreate}
use tradinghub.Ledger.Crud.Accounts.{get_accounts, is_in}
use tradinghub.Ledger.Crud.Transactions.{create_transactions}

-- `account_ids.add(…)`
abbrev pub add : ℕ → List ℕ → List ℕ
add i is = if is_in is i then is else is ++ i ∷ []

abbrev pub add_fee_account : Option ℕ → List ℕ → List ℕ
add_fee_account none is = is
add_fee_account (some i) is = add i is

-- `{from, to}`, and the account of the fee.
abbrev pub account_ids : TransferCreate → List ℕ
account_ids d = add_fee_account d.fee_account_id (add d.to_account_id (d.from_account_id ∷ []))

-- `accounts[i]`: a KeyError if it is missing.
abbrev pub or_key_error : Option Account → Action Account
or_key_error none w = (err runtime_error, w)
or_key_error (some a) w = (ok a, w)

abbrev pub at : List Account → ℕ → Action Account
at accounts i = or_key_error (find? (λ (a : Account). a.id == i) accounts)

-- `_transaction_row`
unfoldable pub transaction_row :
    ℕ → ℕ → TransferCreate → ℕ → ℤ → TransactionKind → Option String → Transaction
transaction_row user_id group d account_id amount kind category = record {
  id = 0;
  user_id = user_id;
  account_id = account_id;
  amount = amount;
  kind = kind;
  category = category;
  occurred_at = d.occurred_at;
  note = d.note;
  transfer_group_id = some group;
}

abbrev pub fee_row : ℕ → ℕ → TransferCreate → Option ℤ → Option ℕ → List Transaction
fee_row user_id group d (some fee) (some account_id) =
    transaction_row user_id group d account_id (neg fee) expense d.fee_category ∷ []
fee_row user_id group d _ _ = []

unfoldable pub transfer_rows : ℕ → ℕ → TransferCreate → List Transaction
unfolding transaction_row
transfer_rows user_id group d =
    transaction_row user_id group d d.from_account_id (neg d.amount_sent) transfer none
    ∷ transaction_row user_id group d d.to_account_id d.amount_received transfer none
    ∷ fee_row user_id group d d.fee d.fee_account_id

unfoldable pub create_transfer : ℕ → ℕ → TransferCreate → Action (List Transaction)
unfolding get_accounts create_transactions
create_transfer group user_id details = do
  raise_if (details.from_account_id == details.to_account_id) transfer_same_account
  let ids = account_ids details
  accounts ← get_accounts ids user_id
  raise_if (not (length accounts == length ids)) account_not_found
  from ← at accounts details.from_account_id
  to ← at accounts details.to_account_id
  raise_if (same_text from.unit to.unit && not (eqb_ℤ details.amount_sent details.amount_received))
      transfer_amounts_differ
  create_transactions (transfer_rows user_id group details)
