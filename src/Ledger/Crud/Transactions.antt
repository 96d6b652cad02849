-- ===== src/Ledger/Crud/Transactions.antt =====
-- ledger/crud/transactions.py.
use tradinghub.Base.{
  ℕ, suc, ◌+◌, String, Bool, true, false, not, ◌&&◌, ◌||◌, Option, none, some, List, [], ◌∷◌, ◌++◌,
  ◌==◌, ltb, leb, same_text, length, take, drop, keep, find?, any, all, if◌then◌else◌,
}
use tradinghub.Sql.{null_eq, order_by}
use tradinghub.Core.Errors.{ok, err, integrity_error}
use tradinghub.Core.Database.{Work, Action}
use tradinghub.Ledger.Models.{Account, Transaction, same_kind}
use tradinghub.Ledger.Schemas.{TransactionFilters}

abbrev pub is_transaction : ℕ → ℕ → Transaction → Bool
is_transaction transaction_id user_id t = t.id == transaction_id && t.user_id == user_id

unfoldable pub get_transaction : ℕ → ℕ → Action (Option Transaction)
get_transaction transaction_id user_id w =
    (ok (find? (is_transaction transaction_id user_id) w.transactions), w)

-- `if filter is not None: conditions.append(…)`
abbrev pub when {ℓ} : {A : Type ℓ} → Option A → (A → Bool) → Bool
when none test = true
when (some a) test = test a

-- `column = text` for a nullable column.
abbrev pub has_text : Option String → String → Bool
has_text none s = false
has_text (some c) s = same_text c s

unfoldable pub conditions : ℕ → TransactionFilters → Transaction → Bool
conditions user_id f t =
    t.user_id == user_id
    && when f.account_id (λ i. t.account_id == i)
    && when f.kind (λ k. same_kind t.kind k)
    && when f.category (λ c. has_text t.category c)
    && when f.occurred_from (λ from. leb from t.occurred_at)
    && when f.occurred_to (λ to. ltb t.occurred_at to)

-- ORDER BY occurred_at DESC, id DESC
abbrev pub newer : Transaction → Transaction → Bool
newer s t = ltb t.occurred_at s.occurred_at || (s.occurred_at == t.occurred_at && leb t.id s.id)

unfoldable pub list_transactions : ℕ → TransactionFilters → Action (List Transaction × ℕ)
unfolding conditions order_by
list_transactions user_id filters w =
    let matching = keep (conditions user_id filters) w.transactions in
    (ok (take filters.limit (drop filters.offset (order_by newer matching)), length matching), w)

-- The composite foreign key to accounts.
abbrev pub owns_account : List Account → ℕ → ℕ → Bool
owns_account accounts account_id user_id =
    any (λ (a : Account). a.id == account_id && a.user_id == user_id) accounts

-- An object that is not flushed yet has id 0; the flush numbers the objects in their order.
abbrev pub number : ℕ → List Transaction → List Transaction
number n [] = []
number n (t ∷ ts) = record t { id = n } ∷ number (suc n) ts

-- `add_all` and `flush`: all the rows or none.
unfoldable pub create_transactions : List Transaction → Action (List Transaction)
create_transactions transactions w =
    let rows = number w.serials.transaction_serial transactions in
    let w' : Work = record w {
      serials = record w.serials {
        transaction_serial = w.serials.transaction_serial + length transactions;
      };
    } in
    if all (λ t. owns_account w.accounts t.account_id t.user_id) rows
    then (
      ok rows,
      record w' { current = record w.current { transactions = w.transactions ++ rows } },
    )
    else (err integrity_error, w')

-- The flush of one new object.
abbrev pub the_one : List Transaction → Transaction → Transaction
the_one [] t = t
the_one (x ∷ xs) t = x

unfoldable pub create_transaction : Transaction → Action Transaction
unfolding create_transactions
create_transaction transaction w =
    let row = record transaction { id = w.serials.transaction_serial } in
    let w' : Work = record w {
      serials = record w.serials { transaction_serial = w.serials.transaction_serial + 1 };
    } in
    if owns_account w.accounts row.account_id row.user_id
    then (
      ok row,
      record w' { current = record w.current { transactions = w.transactions ++ row ∷ [] } },
    )
    else (err integrity_error, w')

-- The scalar subquery: NULL for no row, and for a row that is part of no transfer.
abbrev pub group_of : Option Transaction → Option ℕ
group_of none = none
group_of (some t) = t.transfer_group_id

abbrev pub target_group : ℕ → ℕ → List Transaction → Option ℕ
target_group transaction_id user_id ts = group_of (find? (is_transaction transaction_id user_id) ts)

-- The condition of the DELETE.
abbrev pub is_deleted : ℕ → ℕ → Option ℕ → Transaction → Bool
is_deleted transaction_id user_id target t =
    t.user_id == user_id && (t.id == transaction_id || null_eq t.transfer_group_id target)

unfoldable pub delete_transaction : ℕ → ℕ → Action Bool
delete_transaction transaction_id user_id w =
    let deleted =
      is_deleted transaction_id user_id (target_group transaction_id user_id w.transactions) in
    (
      ok (any deleted w.transactions),
      record w {
        current = record w.current { transactions = keep (λ t. not (deleted t)) w.transactions };
      },
    )
