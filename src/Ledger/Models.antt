-- ===== src/Ledger/Models.antt =====
-- ledger/models: the rows of the accounts and the transactions tables. A DateTime is an instant, a
-- count of microseconds since 1900; a NUMERIC(36, 18) is an integer, a count of 10⁻¹⁸.
use tradinghub.Base.{ℕ, ℤ, String, Bool, true, false, Option}

pub data AccountType : Type 0 where
  cash crypto stock : AccountType

pub record Account : Type 0 where
  pub id : ℕ
  pub user_id : ℕ
  pub name : String
  pub unit : String
  pub type : AccountType
  pub archived_at : Option ℕ

pub data TransactionKind : Type 0 where
  income expense transfer : TransactionKind

pub record Transaction : Type 0 where
  pub id : ℕ
  pub user_id : ℕ
  pub account_id : ℕ
  pub amount : ℤ
  pub kind : TransactionKind
  pub category : Option String
  pub occurred_at : ℕ
  pub note : Option String
  pub transfer_group_id : Option ℕ

-- Equality of two kinds.
abbrev pub same_kind : TransactionKind → TransactionKind → Bool
same_kind income income = true
same_kind expense expense = true
same_kind transfer transfer = true
same_kind _ _ = false
