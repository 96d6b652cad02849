-- ===== src/Ledger/Consistent.antt =====
-- What the ledger tables promise one another (ledger/models and the docstrings of the services), and
-- what an action of one user may change.
pub mod Rows
pub mod Transactions
pub mod Accounts
pub mod Services
pub mod Transfers
pub mod Requests
pub mod Histories
use tradinghub.Base.{
  ℕ, ℤ, pos, negsuc, zero, ◌≤ℤ◌, String, Bool, true, false, not, ◌&&◌, ◌⊎◌, Option, none, some,
  List, [], ◌∷◌, ◌≡◌, ◌≢◌, ◌≤◌, ◌<◌, ◌==◌, keep, All, Pairwise,
}
use tradinghub.Sql.{null_eq}
use tradinghub.Sql.Rows.{Keyed}
use tradinghub.Core.Database.{Tables, Serials, Work}
use tradinghub.Ledger.Models.{Account, Transaction, TransactionKind, income, expense, transfer}
use tradinghub.Ledger.Crud.Accounts.{names_clash}
use tradinghub.Ledger.Crud.Transactions.{owns_account}

abbrev pub account_key : Account → ℕ
account_key a = a.id

abbrev pub transaction_key : Transaction → ℕ
transaction_key t = t.id

-- Income is positive, an expense negative, and neither side of a transfer is zero.
abbrev pub HasSign : TransactionKind → ℤ → Type 0
HasSign income a = pos 1 ≤ℤ a
HasSign expense a = a ≤ℤ negsuc zero
HasSign transfer a = (pos 1 ≤ℤ a) ⊎ (a ≤ℤ negsuc zero)

abbrev pub in_group : ℕ → Transaction → Bool
in_group g t = null_eq t.transfer_group_id (some g)

-- A fee is one expense of the same user, at the same instant.
abbrev pub IsFee : Transaction → List Transaction → Type 0
IsFee out [] = Unit
IsFee out (fee ∷ []) =
    (fee.kind ≡ expense) × (fee.user_id ≡ out.user_id) × (fee.occurred_at ≡ out.occurred_at)
IsFee out (_ ∷ _ ∷ _) = ⊥

-- The rows of a group: none, or money that leaves one account of a user and arrives in another at
-- the same instant, with one fee at most.
abbrev pub IsTransfer : List Transaction → Type 0
IsTransfer [] = Unit
IsTransfer (_ ∷ []) = ⊥
IsTransfer (out ∷ into ∷ fees) =
    (out.kind ≡ transfer)
    × (into.kind ≡ transfer)
    × (out.amount ≤ℤ negsuc zero)
    × (pos 1 ≤ℤ into.amount)
    × (into.user_id ≡ out.user_id)
    × (out.account_id ≢ into.account_id)
    × (into.occurred_at ≡ out.occurred_at)
    × IsFee out fees

pub record IsConsistent (fold : String → String) (db : Tables) (s : Serials) : Type 0 where
  pub accounts_keyed : Keyed account_key db.accounts
  pub accounts_numbered : All (λ a. account_key a < s.account_serial) db.accounts
  pub names : Pairwise (λ a b. names_clash fold a b ≡ false) db.accounts
  pub transactions_keyed : Keyed transaction_key db.transactions
  pub transactions_numbered : All (λ t. transaction_key t < s.transaction_serial) db.transactions
  pub owned : All (λ t. owns_account db.accounts t.account_id t.user_id ≡ true) db.transactions
  pub signed : All (λ t. HasSign t.kind t.amount) db.transactions
  pub transfers : (g : ℕ) → IsTransfer (keep (in_group g) db.transactions)

abbrev pub of_others : {A : Type 0} → (A → ℕ) → ℕ → List A → List A
of_others owner u = keep (λ x. not (owner x == u))

abbrev pub account_owner : Account → ℕ
account_owner a = a.user_id

abbrev pub transaction_owner : Transaction → ℕ
transaction_owner t = t.user_id

-- The rows of every other user, and all users and sessions, are as they were.
pub record SameOthers (u : ℕ) (a b : Tables) : Type 0 where
  pub users : b.users ≡ a.users
  pub sessions : b.sessions ≡ a.sessions
  pub accounts : of_others account_owner u b.accounts ≡ of_others account_owner u a.accounts
  pub transactions :
      of_others transaction_owner u b.transactions ≡ of_others transaction_owner u a.transactions

-- What an action of the user `u` grants from `a` to `b`.
pub record Kept (fold : String → String) (u : ℕ) (a b : Work) : Type 0 where
  pub consistent : IsConsistent fold b.current b.serials
  pub accounts_grow : a.serials.account_serial ≤ b.serials.account_serial
  pub transactions_grow : a.serials.transaction_serial ≤ b.serials.transaction_serial
  pub users_serial : b.serials.user_serial ≡ a.serials.user_serial
  pub sessions_serial : b.serials.session_serial ≡ a.serials.session_serial
  pub committed : b.committed ≡ a.committed
  pub others : SameOthers u a.current b.current
