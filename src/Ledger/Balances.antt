-- ===== src/Ledger/Balances.antt =====
-- What the balance query of ledger/crud/accounts.py returns, account by account.
use mathlib.Core.Path.{ap₂}
use mathlib.Core.Option
use tradinghub.Base.{
  none, some, Option, ℕ, ℤ, pos, Bool, ◌&&◌, some, List, [], ◌∷◌, map, ◌≡◌, refl, ap, ◌∙◌, arith,
  ◌==◌, keep, find?, All, Pairwise-keep,
}
use tradinghub.Sql.{group_by, sum, coalesce}
use tradinghub.Sql.Rows.{Keyed}
use tradinghub.Sql.Joins.{
  first, more, pairs, total, group_of_row, group_by-outer_join, keep-outer_join, coalesce-sum,
}
use tradinghub.Ledger.Services.Accounts as AccountService
use tradinghub.Core.Errors.{Result, err, app_error, account_not_found, ok}
use tradinghub.Core.Database.{Tables, Work}
use tradinghub.Ledger.Models.{Account, Transaction}
use tradinghub.Ledger.Crud.Accounts.{
  AccountWithBalance, row_amount, of_account, same_account, select_balance, is_account,
  accounts_with_balances_statement, get_account_with_balance, one_or_none,
}

abbrev pub account_number : Account → ℕ
account_number a = a.id

-- The sum of what was moved into and out of an account.
unfoldable pub balance_of : Account → List Transaction → ℤ
balance_of a ts = total (map (λ (t : Transaction). t.amount) (keep (of_account a) ts))

unfoldable pub with_balance : List Transaction → Account → AccountWithBalance
with_balance ts a = record { account = a; balance = balance_of a ts }

row_amounts :
    (a : Account) (ts : List Transaction)
    → map row_amount (pairs a (map some ts)) ≡ map some (map (λ (t : Transaction). t.amount) ts)
row_amounts a [] = refl
row_amounts a (t ∷ ts) = ap (◌∷◌ (some t.amount)) (row_amounts a ts)

amounts_of_row :
    (a : Account) (ts : List Transaction)
    → coalesce (sum (map row_amount ((a, first ts) ∷ pairs a (more ts)))) (pos 0)
      ≡ total (map (λ (t : Transaction). t.amount) ts)
amounts_of_row a [] = refl
amounts_of_row a (t ∷ ts) =
    ap (λ xs. coalesce (sum (some t.amount ∷ xs)) (pos 0)) (row_amounts a ts)
    ∙ coalesce-sum (t.amount ∷ map (λ (x : Transaction). x.amount) ts)

select_balance-group_of_row :
    (ts : List Transaction) (xs : List Account)
    → map select_balance (map (group_of_row account_number of_account ts) xs)
      ≡ map (with_balance ts) xs
unfolding with_balance balance_of
select_balance-group_of_row ts [] = refl
select_balance-group_of_row ts (a ∷ xs) =
    ap₂ (λ b rest. record { account = a; balance = b } ∷ rest)
      (amounts_of_row a (keep (of_account a) ts)) (select_balance-group_of_row ts xs)

-- Where ids are distinct, the balance query has one row for each account of the user that meets the
-- further condition, in the order of the table, and its balance is the sum of the account's
-- transactions: zero if there are none.
pub accounts_with_balances_statement_lem :
    (user_id : ℕ) (condition : Account → Bool) (db : Tables)
    → Keyed account_number db.accounts
    → accounts_with_balances_statement user_id condition db
      ≡ map
          (with_balance db.transactions)
          (keep (λ a. a.user_id == user_id && condition a) db.accounts)
unfolding accounts_with_balances_statement
accounts_with_balances_statement_lem user_id condition db d =
    let chosen : Account → Bool = λ a. a.user_id == user_id && condition a in
    ap (λ rows. map select_balance (group_by same_account rows))
      (keep-outer_join chosen of_account db.accounts db.transactions)
    ∙ ap (map select_balance) (
        group_by-outer_join account_number of_account (keep chosen db.accounts) db.transactions
          (Pairwise-keep _ chosen db.accounts d))
    ∙ select_balance-group_of_row db.transactions (keep chosen db.accounts)

one_or_none-keep :
    (p q : Account → Bool) (f : Account → AccountWithBalance) (xs : List Account)
    → All (λ a. p a ≡ q a) xs
    → one_or_none (map f (keep p xs)) ≡ Option.map f (find? q xs)
one_or_none-keep p q f [] h = refl
one_or_none-keep p q f (a ∷ xs) h = ground (arith, h.0, one_or_none-keep p q f xs h.1)

and_swap :
    (i u : ℕ) (xs : List Account) → All (λ a. (a.user_id == u && a.id == i) ≡ is_account i u a) xs
and_swap i u [] = tt
and_swap i u (a ∷ xs) = (ground arith, and_swap i u xs)

-- Where ids are distinct, the query for one account finds the user's account with that id, with the
-- sum of its transactions, and nothing if there is none.
pub get_account_with_balance_lem :
    (i user_id : ℕ) (w : Work)
    → Keyed account_number w.accounts
    → get_account_with_balance i user_id w
      ≡ (ok (Option.map (with_balance w.transactions) (find? (is_account i user_id) w.accounts)), w)
unfolding get_account_with_balance
get_account_with_balance_lem i user_id w d =
    ap (λ rows. (ok (one_or_none rows), w))
      (accounts_with_balances_statement_lem user_id (λ a. a.id == i) w.current d)
    ∙ ap (λ found. (ok found, w))
        (one_or_none-keep _ _ (with_balance w.transactions) w.accounts
          (and_swap i user_id w.accounts))

abbrev pub answer : List Transaction → Option Account → Result AccountWithBalance
answer ts none = err (app_error account_not_found)
answer ts (some a) = ok (with_balance ts a)

or_not_found-answer :
    (ts : List Transaction) (found : Option Account) (w : Work)
    → AccountService.or_not_found (Option.map (with_balance ts) found) w ≡ (answer ts found, w)
or_not_found-answer ts none w = refl
or_not_found-answer ts (some a) w = refl

-- Where ids are distinct, the service answers with the user's account of that id and the sum of its
-- transactions, raises AccountNotFoundError if the user has none, and changes nothing.
pub get_account_lem :
    (i user_id : ℕ) (w : Work)
    → Keyed account_number w.accounts
    → AccountService.get_account i user_id w
      ≡ (answer w.transactions (find? (is_account i user_id) w.accounts), w)
unfolding AccountService.get_account
get_account_lem i user_id w d =
    rw (get_account_with_balance_lem i user_id w d)
      (or_not_found-answer w.transactions (find? (is_account i user_id) w.accounts) w)
