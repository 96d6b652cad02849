-- ===== src/Ledger/Crud/Accounts.antt =====
-- ledger/crud/accounts.py. `fold` is the case folding of CITEXT, and `collate` the order of a text
-- column: both are the database's.
use tradinghub.Base.{
  ℕ, ℤ, pos, suc, String, Bool, true, false, not, ◌&&◌, ◌||◌, Option, none, some, List, [], ◌∷◌,
  ◌++◌, map, ◌==◌, same_text, keep, find?, any, if◌then◌else◌,
}
use tradinghub.Sql.{sum, coalesce, group_by, order_by, outer_join}
use tradinghub.Core.Errors.{ok, err, integrity_error}
use tradinghub.Core.Database.{Tables, Work, Action}
use tradinghub.Auth.Models.{User}
use tradinghub.Ledger.Models.{AccountType, Account, Transaction}

pub record AccountWithBalance : Type 0 where
  pub account : Account
  pub balance : ℤ

abbrev pub is_account : ℕ → ℕ → Account → Bool
is_account account_id user_id a = a.id == account_id && a.user_id == user_id

unfoldable pub get_account : ℕ → ℕ → Action (Option Account)
get_account account_id user_id w = (ok (find? (is_account account_id user_id) w.accounts), w)

-- `Account.id.in_(account_ids)`
abbrev pub is_in : List ℕ → ℕ → Bool
is_in [] n = false
is_in (i ∷ is) n = n == i || is_in is n

-- The dict has one entry for each row, since `id` is the primary key: its rows stand for it.
unfoldable pub get_accounts : List ℕ → ℕ → Action (List Account)
get_accounts account_ids user_id w =
    (ok (keep (λ a. is_in account_ids a.id && a.user_id == user_id) w.accounts), w)

-- Rows of `accounts LEFT OUTER JOIN transactions`.
abbrev pub JoinRow : Type 0
JoinRow = Account × Option Transaction

abbrev pub row_amount : JoinRow → Option ℤ
row_amount (a, none) = none
row_amount (a, some t) = some t.amount

abbrev pub of_account : Account → Transaction → Bool
of_account a t = t.account_id == a.id

abbrev pub same_account : JoinRow → JoinRow → Bool
same_account r s = r.0.id == s.0.id

abbrev pub select_balance : JoinRow × List JoinRow → AccountWithBalance
select_balance (r, rows) = record {
  account = r.0;
  balance = coalesce (sum (map row_amount rows)) (pos 0);
}

-- `_accounts_with_balances_statement`, with the further condition that its callers may add.
unfoldable pub accounts_with_balances_statement :
    ℕ → (Account → Bool) → Tables → List AccountWithBalance
unfolding group_by outer_join
accounts_with_balances_statement user_id condition db = map select_balance (
    group_by same_account (
      keep (λ r. r.0.user_id == user_id && condition r.0)
        (outer_join of_account db.accounts db.transactions)))

-- `one_or_none` of at most one row, as the primary key grants.
abbrev pub one_or_none {ℓ} : {A : Type ℓ} → List A → Option A
one_or_none [] = none
one_or_none (x ∷ xs) = some x

unfoldable pub get_account_with_balance : ℕ → ℕ → Action (Option AccountWithBalance)
unfolding accounts_with_balances_statement
get_account_with_balance account_id user_id w =
    let rows = accounts_with_balances_statement user_id (λ a. a.id == account_id) w.current in
    (ok (one_or_none rows), w)

unfoldable pub list_accounts_with_balances :
    (String → String → Bool) → ℕ → Action (List AccountWithBalance)
unfolding accounts_with_balances_statement order_by
list_accounts_with_balances collate user_id w =
    let rows = accounts_with_balances_statement user_id (λ a. true) w.current in
    (ok (order_by (λ x y. collate x.account.name y.account.name) rows), w)

-- UniqueConstraint("user_id", "name") over CITEXT: the two rows cannot stand together.
abbrev pub names_clash : (String → String) → Account → Account → Bool
names_clash fold a b = a.user_id == b.user_id && same_text (fold a.name) (fold b.name)

-- The unique constraint and the foreign key to users.
abbrev pub account_allowed : (String → String) → Tables → Account → Bool
account_allowed fold db a =
    any (λ (u : User). u.id == a.user_id) db.users && not (any (names_clash fold a) db.accounts)

-- The flush takes an id from the sequence, whether or not the row is accepted.
unfoldable pub create_account :
    (String → String) → ℕ → String → String → AccountType → Action Account
create_account fold user_id name unit type w =
    let account : Account = record {
      id = w.serials.account_serial;
      user_id = user_id;
      name = name;
      unit = unit;
      type = type;
      archived_at = none;
    } in
    let w' : Work = record w {
      serials = record w.serials { account_serial = suc w.serials.account_serial };
    } in
    if account_allowed fold w.current account
    then (
      ok account,
      record w' { current = record w.current { accounts = w.accounts ++ account ∷ [] } },
    )
    else (err integrity_error, w')
