-- ===== src/Ledger/Crud/Summary.antt =====
-- ledger/crud/summary.py. `collate` is the database's order of texts.
use tradinghub.Base.{
  ℕ, ℤ, pos, neg, leb_ℤ, String, Bool, ◌&&◌, Option, none, some, List, [], ◌∷◌, map, ◌==◌, ltb, leb,
  same_text, keep, if◌then◌else◌,
}
use tradinghub.Sql.{sum, coalesce, same_group_text, group_by, order_by, outer_join, join}
use tradinghub.Core.Errors.{ok}
use tradinghub.Core.Database.{Tables, Action}
use tradinghub.Ledger.Models.{Account, Transaction, TransactionKind, income, expense, same_kind}
use tradinghub.Ledger.Schemas.{SummaryPeriod}
use tradinghub.Ledger.Crud.Accounts.{JoinRow, row_amount, of_account}

-- ledger/schemas/summary.py
pub record UnitTotal : Type 0 where
  pub unit : String
  pub amount : ℤ

pub record CategoryTotal : Type 0 where
  pub category : Option String
  pub unit : String
  pub amount : ℤ

pub record IncomeAndExpenses : Type 0 where
  pub income : List UnitTotal
  pub expenses : List UnitTotal

abbrev pub same_unit : JoinRow → JoinRow → Bool
same_unit r s = same_text r.0.unit s.0.unit

abbrev pub select_unit_total : JoinRow × List JoinRow → UnitTotal
select_unit_total (r, rows) = record {
  unit = r.0.unit;
  amount = coalesce (sum (map row_amount rows)) (pos 0);
}

unfoldable pub get_balances_per_unit : (String → String → Bool) → ℕ → Action (List UnitTotal)
unfolding group_by order_by outer_join
get_balances_per_unit collate user_id w =
    let rows =
      keep (λ (r : JoinRow). r.0.user_id == user_id)
        (outer_join of_account w.accounts w.transactions) in
    (
      ok (
          order_by (λ (x y : UnitTotal). collate x.unit y.unit)
            (map select_unit_total (group_by same_unit rows))),
      w,
    )

-- Rows of `transactions JOIN accounts`.
abbrev pub MovementRow : Type 0
MovementRow = Transaction × Account

abbrev pub in_account : Transaction → Account → Bool
in_account t a = a.id == t.account_id

-- `_owned_and_within_period`
abbrev pub owned_and_within_period : ℕ → SummaryPeriod → MovementRow → Bool
owned_and_within_period user_id period (t, a) =
    t.user_id == user_id
    && leb period.occurred_from t.occurred_at
    && ltb t.occurred_at period.occurred_to

unfoldable pub movements : ℕ → SummaryPeriod → Tables → List MovementRow
unfolding join
movements user_id period db =
    keep (owned_and_within_period user_id period) (join in_account db.transactions db.accounts)

abbrev pub has_same_unit : MovementRow → MovementRow → Bool
has_same_unit r s = same_text r.1.unit s.1.unit

-- The argument of `SUM(amount) FILTER (WHERE kind = …)`.
abbrev pub amount_if : TransactionKind → MovementRow → Option ℤ
amount_if kind (t, a) = if same_kind t.kind kind then some t.amount else none

-- `-` of a nullable number
abbrev pub neg_null : Option ℤ → Option ℤ
neg_null none = none
neg_null (some a) = some (neg a)

abbrev pub select_movement : MovementRow × List MovementRow → String × Option ℤ × Option ℤ
select_movement (r, rows) =
    (r.1.unit, sum (map (amount_if income) rows), neg_null (sum (map (amount_if expense) rows)))

-- The comprehensions that leave out a unit with no amount.
abbrev pub unit_total : String → Option ℤ → List UnitTotal → List UnitTotal
unit_total unit none rest = rest
unit_total unit (some amount) rest = record { unit = unit; amount = amount } ∷ rest

abbrev pub income_of : List (String × Option ℤ × Option ℤ) → List UnitTotal
income_of [] = []
income_of ((unit, amount, _) ∷ rows) = unit_total unit amount (income_of rows)

abbrev pub expenses_of : List (String × Option ℤ × Option ℤ) → List UnitTotal
expenses_of [] = []
expenses_of ((unit, _, amount) ∷ rows) = unit_total unit amount (expenses_of rows)

unfoldable pub get_income_and_expenses_per_unit :
    (String → String → Bool) → ℕ → SummaryPeriod → Action IncomeAndExpenses
unfolding group_by order_by movements
get_income_and_expenses_per_unit collate user_id period w =
    let rows =
      order_by (λ (x y : String × Option ℤ × Option ℤ). collate x.0 y.0)
        (map select_movement (group_by has_same_unit (movements user_id period w.current))) in
    (ok (record { income = income_of rows; expenses = expenses_of rows }), w)

abbrev pub same_category_and_unit : MovementRow → MovementRow → Bool
same_category_and_unit r s =
    same_group_text r.0.category s.0.category && same_text r.1.unit s.1.unit

abbrev pub row_of_expense : MovementRow → Bool
row_of_expense (t, a) = same_kind t.kind expense

-- A group has a row, so its sum is not NULL.
abbrev pub spent : List MovementRow → ℤ
spent rows = neg (coalesce (sum (map (λ (r : MovementRow). some r.0.amount) rows)) (pos 0))

abbrev pub select_category : MovementRow × List MovementRow → CategoryTotal
select_category (r, rows) = record { category = r.0.category; unit = r.1.unit; amount = spent rows }

-- ORDER BY unit, spent DESC
abbrev pub by_unit_then_spent : (String → String → Bool) → CategoryTotal → CategoryTotal → Bool
by_unit_then_spent collate x y =
    if same_text x.unit y.unit then leb_ℤ y.amount x.amount else collate x.unit y.unit

unfoldable pub get_expenses_by_category :
    (String → String → Bool) → ℕ → SummaryPeriod → Action (List CategoryTotal)
unfolding group_by order_by movements
get_expenses_by_category collate user_id period w =
    let rows = keep row_of_expense (movements user_id period w.current) in
    (
      ok (
          order_by (by_unit_then_spent collate)
            (map select_category (group_by same_category_and_unit rows))),
      w,
    )
