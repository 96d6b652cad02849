-- ===== src/Ledger/Services/Transactions.antt =====
-- ledger/services/transactions.py.
use tradinghub.Base.{
  ℕ, ℤ, pos, neg, abs, eqb_ℤ, Bool, not, ◌&&◌, ◌||◌, Option, none, some, is_some, if◌then◌else◌,
}
use tradinghub.Sql.{update}
use tradinghub.Core.Errors.{
  ok, err, integrity_error, account_not_found, transaction_not_found, transfer_not_editable,
}
use tradinghub.Core.Database.{Action, pure, raise, raise_if, ◌>>=◌, ◌>>◌}
use tradinghub.Ledger.Models.{Transaction, TransactionKind, expense}
use tradinghub.Ledger.Schemas.{
  TransactionCreate, TransactionUpdate, Sent, unset, null, value, given, is_null,
}
use tradinghub.Ledger.Crud.Accounts
use tradinghub.Ledger.Crud.Transactions as Crud

-- `_signed`: out is negative.
unfoldable pub signed : ℤ → TransactionKind → ℤ
signed amount expense = neg amount
signed amount _ = amount

-- The object that the service builds, before its flush.
unfoldable pub new_transaction : ℕ → TransactionCreate → Transaction
unfolding signed
new_transaction user_id details = record {
  id = 0;
  user_id = user_id;
  account_id = details.account_id;
  amount = signed details.amount details.kind;
  kind = details.kind;
  category = details.category;
  occurred_at = details.occurred_at;
  note = details.note;
  transfer_group_id = none;
}

unfoldable pub create_transaction : ℕ → TransactionCreate → Action Transaction
unfolding new_transaction Accounts.get_account Crud.create_transaction
create_transaction user_id details = do
  account ← Accounts.get_account details.account_id user_id
  raise_if (not (is_some account)) account_not_found
  Crud.create_transaction (new_transaction user_id details)

abbrev pub or_not_found : Option Transaction → Action Transaction
or_not_found none = raise transaction_not_found
or_not_found (some t) = pure t

unfoldable pub get_transaction : ℕ → ℕ → Action Transaction
unfolding Crud.get_transaction
get_transaction transaction_id user_id = do
  transaction ← Crud.get_transaction transaction_id user_id
  or_not_found transaction

-- `changes.kind or transaction.kind`: no kind is falsy.
abbrev pub kind_or : Sent TransactionKind → TransactionKind → TransactionKind
kind_or (value k) d = k
kind_or _ d = d

-- `changes.amount or …`: a Decimal is falsy at zero.
abbrev pub amount_or : Sent ℤ → ℤ → ℤ
amount_or (value a) d = if eqb_ℤ a (pos 0) then d else a
amount_or _ d = d

-- A field of `sent` that the database requires.
abbrev pub set_required : {A : Type 0} → Sent A → A → A
set_required (value a) d = a
set_required _ d = d

-- A field of `sent` that may be cleared.
abbrev pub set_nullable : {A : Type 0} → Sent A → Option A → Option A
set_nullable unset d = d
set_nullable null d = none
set_nullable (value a) d = some a

-- `changes.amount is not None or changes.kind is not None`
abbrev pub changes_sign : TransactionUpdate → Bool
changes_sign u = given u.amount || given u.kind

unfoldable pub patched : TransactionUpdate → Transaction → Transaction
unfolding signed abs
patched u t = record t {
  amount =
      if changes_sign u
      then signed (amount_or u.amount (abs t.amount)) (kind_or u.kind t.kind)
      else t.amount;
  kind = set_required u.kind t.kind;
  category = set_nullable u.category t.category;
  occurred_at = set_required u.occurred_at t.occurred_at;
  note = set_nullable u.note t.note;
}

-- A null that is left in a required column, which the flush refuses.
abbrev pub null_left : TransactionUpdate → Bool
null_left u = (is_null u.amount && not (changes_sign u)) || is_null u.kind || is_null u.occurred_at

unfoldable pub flush_transaction : Bool → Transaction → Action Transaction
unfolding update
flush_transaction null_column t w = if null_column then (err integrity_error, w) else (
  ok t,
  record w {
    current = record w.current {
      transactions = update (λ (x : Transaction). x.id) t w.transactions;
    };
  },
)

unfoldable pub update_transaction : ℕ → ℕ → TransactionUpdate → Action Transaction
unfolding get_transaction patched flush_transaction
update_transaction transaction_id user_id changes = do
  transaction ← get_transaction transaction_id user_id
  raise_if (is_some transaction.transfer_group_id) transfer_not_editable
  flush_transaction (null_left changes) (patched changes transaction)

unfoldable pub delete_transaction : ℕ → ℕ → Action (Unit {0})
unfolding Crud.delete_transaction
delete_transaction transaction_id user_id = do
  deleted ← Crud.delete_transaction transaction_id user_id
  raise_if (not deleted) transaction_not_found
