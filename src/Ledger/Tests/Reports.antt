-- ===== src/Ledger/Tests/Reports.antt =====
-- Pages and summaries at a concrete ledger: two accounts of one user, an income and a transfer.
use mathlib.Core.List.{Permᴰ}
use mathlib.Core.List.Permᴰ
use tradinghub.Base.{
  zero, suc, List, length, ℕ, String, true, none, some, [], ◌∷◌, ◌≡◌, refl, arith,
}
use tradinghub.Core.Database.{Work, begin}
use tradinghub.Ledger.Models.{Account, Transaction, cash, income, expense}
use tradinghub.Base.{pos, negsuc, Bool}
use tradinghub.Ledger.Schemas.{TransactionFilters, SummaryPeriod}
use tradinghub.Ledger.Crud.Accounts.{AccountWithBalance, list_accounts_with_balances}
use tradinghub.Ledger.Crud.Transactions.{list_transactions}
use tradinghub.Ledger.Crud.Summary.{
  get_balances_per_unit, get_income_and_expenses_per_unit, get_expenses_by_category,
}
use tradinghub.Ledger.Pages.{page, pages, count, list_transactions-IsListing}
use tradinghub.Ledger.Pages.Wanted.{IsListing}
use tradinghub.Ledger.Consistent.{transaction_key}
use tradinghub.Sql.Rows.{Keyed}
use tradinghub.Ledger.Summary.{of_unit, unit_totals, category_totals, value_of}
use tradinghub.Ledger.Summary.Balances.{get_balances_per_unit-list_accounts_with_balances}
use tradinghub.Ledger.Summary.Expenses.{
  none_moved, get_income_and_expenses_per_unit-get_expenses_by_category,
}

abbrev account : ℕ → String → Account
account i name = record {
  id = i;
  user_id = 1;
  name = name;
  unit = "GBP";
  type = cash;
  archived_at = none;
}

abbrev earned : Transaction
earned = record {
  id = 1;
  user_id = 1;
  account_id = 1;
  amount = pos 500;
  kind = income;
  category = none;
  occurred_at = 10;
  note = none;
  transfer_group_id = none;
}

abbrev paid : Transaction
paid = record earned { id = 2; amount = negsuc 29; kind = expense; category = some "food" }

abbrev work : Work
work = begin (record {
  tables = record {
    users = record { id = 1; email = "a@example.com"; password_hash = "h" } ∷ [];
    sessions = [];
    accounts = account 1 "wallet" ∷ account 2 "bank" ∷ [];
    transactions = earned ∷ paid ∷ record paid { id = 3 } ∷ [];
  };
  serials = record {
    user_serial = 2;
    session_serial = 1;
    account_serial = 3;
    transaction_serial = 4;
  };
})

abbrev every : TransactionFilters
every = record {
  account_id = none;
  kind = none;
  category = none;
  occurred_from = none;
  occurred_to = none;
  limit = 2;
  offset = 0;
}

abbrev period : SummaryPeriod
period = record { occurred_from = 0; occurred_to = 100 }

abbrev rows : List Transaction
rows = earned ∷ paid ∷ record paid { id = 3 } ∷ []

-- After the first page the first two rows have changed places.
abbrev shuffled : Work
shuffled = record work {
  current = record work.current { transactions = paid ∷ earned ∷ record paid { id = 3 } ∷ [] };
}

abbrev work_at : ℕ → Work
work_at zero = work
work_at (suc j) = shuffled

moved : (j : ℕ) → Permᴰ rows (work_at j).transactions
moved zero = Permᴰ.refl rows
moved (suc j) = Permᴰ.swap refl refl

rows-Keyed : Keyed transaction_key rows
rows-Keyed = omega arith

-- Two pages of two rows have the three transactions, the later id first.
pages_of_two :
    pages 1 every rows work_at rows-Keyed moved 2 ≡ record paid { id = 3 } ∷ paid ∷ earned ∷ []
unfolding list_transactions
pages_of_two = refl

list_transactions-IsListing_example :
    IsListing 1 every rows (pages 1 every rows work_at rows-Keyed moved 2)
    × ((i start : ℕ)
        → count (page 1 every rows work_at rows-Keyed moved i start)
          ≡ length (pages 1 every rows work_at rows-Keyed moved 2))
unfolding list_transactions
list_transactions-IsListing_example =
    list_transactions-IsListing 1 every rows work_at rows-Keyed moved 2 1 0 (omega arith)

abbrev by_name : String → String → Bool
by_name a b = true

get_balances_per_unit-list_accounts_with_balances_example :
    unit_totals "GBP" (value_of [] (get_balances_per_unit by_name 1 work).0)
    ≡ of_unit
        (λ (x : AccountWithBalance). x.account.unit)
        (λ x. x.balance)
        "GBP"
        (value_of [] (list_accounts_with_balances by_name 1 work).0)
get_balances_per_unit-list_accounts_with_balances_example =
    get_balances_per_unit-list_accounts_with_balances by_name 1 work "GBP" (omega arith)

get_income_and_expenses_per_unit-get_expenses_by_category_example :
    unit_totals "GBP"
      (value_of none_moved (get_income_and_expenses_per_unit by_name 1 period work).0).expenses
    ≡ category_totals "GBP" (value_of [] (get_expenses_by_category by_name 1 period work).0)
get_income_and_expenses_per_unit-get_expenses_by_category_example =
    get_income_and_expenses_per_unit-get_expenses_by_category by_name 1 period work "GBP"
