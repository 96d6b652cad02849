-- ===== src/Ledger/Summary/Expenses.antt =====
-- The expenses of get_income_and_expenses_per_unit beside get_expenses_by_category.
use mathlib.Core.Path.{ap₂}
use tradinghub.Base.{
  same_text_comm, ℕ, ℤ, pos, neg, ◌+ℤ◌, zero-+ℤ, int_laws, String, Bool, true, false, ◌&&◌, Option,
  none, some, List, [], ◌∷◌, map, ◌≡◌, refl, sym, ap, ◌∙◌, inl, inr, arith, Bool-cases, same_text,
  eq_iff, keep, All-of,
}
use tradinghub.Sql.{group_by, order_by, sum, same_group_text}
use tradinghub.Sql.Group.{IsEquiv, map-ext}
use tradinghub.Sql.Sums.{sum_of, sum_of-order_by, group_by-total}
use tradinghub.Sql.Joins.{total, or_zero, coalesce-sum_null, neg-total}
use tradinghub.Core.Database.{Work}
use tradinghub.Ledger.Models.{expense, same_kind}
use tradinghub.Ledger.Schemas.{SummaryPeriod}
use tradinghub.Ledger.Crud.Summary.{
  MovementRow, CategoryTotal, IncomeAndExpenses, get_income_and_expenses_per_unit,
  get_expenses_by_category, has_same_unit, same_category_and_unit, amount_if, neg_null,
  select_movement, select_category, expenses_of, row_of_expense, movements, by_unit_then_spent,
}
use tradinghub.Ledger.Summary.{
  unit_totals, category_totals, value_of, total-keep-map, map-map, same_text_fits,
}

-- What a movement adds to the expenses.
abbrev outlay : MovementRow → ℤ
outlay r = neg (or_zero (amount_if expense r))

has_same_unit-IsEquiv : IsEquiv has_same_unit
has_same_unit-IsEquiv = record {
  reflexive = λ r. (eq_iff r.1.unit r.1.unit).1 refl;
  symmetric = λ r s. same_text_comm r.1.unit s.1.unit;
  congruent = λ r s t h. sym (same_text_fits r.1.unit s.1.unit t.1.unit h);
}

same_group_text_iff : (a b : Option String) → same_group_text a b ≡ true → a ≡ b
same_group_text_iff none none h = refl
same_group_text_iff none (some b) h = cc
same_group_text_iff (some a) none h = cc
same_group_text_iff (some a) (some b) h = ap some ((eq_iff a b).0 h)

same_group_text_refl : (a : Option String) → same_group_text a a ≡ true
same_group_text_refl none = refl
same_group_text_refl (some a) = (eq_iff a a).1 refl

same_group_text_comm : (a b : Option String) → same_group_text a b ≡ same_group_text b a
same_group_text_comm none none = refl
same_group_text_comm none (some b) = refl
same_group_text_comm (some a) none = refl
same_group_text_comm (some a) (some b) = same_text_comm a b

and_left : (a b : Bool) → (a && b) ≡ true → a ≡ true
and_left a b h = ground arith

and_right : (a b : Bool) → (a && b) ≡ true → b ≡ true
and_right a b h = ground arith

same_category_and_unit-IsEquiv : IsEquiv same_category_and_unit
same_category_and_unit-IsEquiv = record {
  reflexive = λ r. ap₂ ◌&&◌ (same_group_text_refl r.0.category) (has_same_unit-IsEquiv.reflexive r);
  symmetric = λ r s.
      ap₂ ◌&&◌ (same_group_text_comm r.0.category s.0.category)
        (has_same_unit-IsEquiv.symmetric r s);
  congruent = λ r s t h.
      ap₂ ◌&&◌
        (ap (λ c. same_group_text c t.0.category)
          (same_group_text_iff r.0.category s.0.category (and_left _ _ h)))
        (has_same_unit-IsEquiv.congruent r s t (and_right _ _ h));
}

neg_null-or_zero : (o : Option ℤ) → or_zero (neg_null o) ≡ neg (or_zero o)
neg_null-or_zero none = omega int_laws
neg_null-or_zero (some a) = refl

-- The rows that are left out add nothing.
expenses_of-total :
    (u : String) (rows : List (String × Option ℤ × Option ℤ))
    → unit_totals u (expenses_of rows)
      ≡ total (map (λ x. or_zero x.2) (keep (λ x. same_text x.0 u) rows))
expenses_of-total u [] = refl
expenses_of-total u ((unit, earned, none) ∷ rows) = elim (Bool-cases (same_text unit u)) [
  | inl e ↦ rw e (expenses_of-total u rows ∙ sym (zero-+ℤ _))
  | inr e ↦ rw e (expenses_of-total u rows)
]
expenses_of-total u ((unit, earned, some a) ∷ rows) = elim (Bool-cases (same_text unit u)) [
  | inl e ↦ rw e (ap (◌+ℤ◌ a) (expenses_of-total u rows))
  | inr e ↦ rw e (expenses_of-total u rows)
]

group_outlay :
    (g : MovementRow × List MovementRow) → or_zero (select_movement g).2 ≡ total (map outlay g.1)
group_outlay g =
    neg_null-or_zero (sum (map (amount_if expense) g.1))
    ∙ ap neg (coalesce-sum_null (map (amount_if expense) g.1))
    ∙ neg-total (map or_zero (map (amount_if expense) g.1))
    ∙ ap total (
        map-map neg or_zero (map (amount_if expense) g.1)
        ∙ map-map (λ o. neg (or_zero o)) (amount_if expense) g.1)

abbrev cost : MovementRow → ℤ
cost r = neg r.0.amount

group_cost :
    (g : MovementRow × List MovementRow) → (select_category g).amount ≡ total (map cost g.1)
group_cost g =
    let amounts = λ (r : MovementRow). some r.0.amount in
    ap neg (coalesce-sum_null (map amounts g.1))
    ∙ neg-total (map or_zero (map amounts g.1))
    ∙ ap total (map-map neg or_zero (map amounts g.1) ∙ map-map (λ o. neg (or_zero o)) amounts g.1)

outlay_expense : (r : MovementRow) → same_kind r.0.kind expense ≡ true → outlay r ≡ cost r
outlay_expense r e = rw e refl

outlay_other : (r : MovementRow) → same_kind r.0.kind expense ≡ false → outlay r ≡ pos 0
outlay_other r e = rw e (omega int_laws)

-- Only the expenses add to the outlay.
outlay-cost :
    (p : MovementRow → Bool) (rows : List MovementRow)
    → sum_of outlay p rows ≡ sum_of cost p (keep row_of_expense rows)
outlay-cost p [] = refl
outlay-cost p (r ∷ rows) = elim (Bool-cases (same_kind r.0.kind expense)) [
  | inl e ↦ elim (Bool-cases (p r)) [
    | inl h ↦ rw (e, h) (ap₂ ◌+ℤ◌ (outlay_expense r e) (outlay-cost p rows))
    | inr h ↦ rw (e, h) (outlay-cost p rows)
  ]
  | inr e ↦ elim (Bool-cases (p r)) [
    | inl h ↦ rw (e, h) (ap₂ ◌+ℤ◌ (outlay_other r e) (outlay-cost p rows) ∙ zero-+ℤ _)
    | inr h ↦ rw (e, h) (outlay-cost p rows)
  ]
]

-- The answer of a query that fails, which this one never does.
abbrev pub none_moved : IncomeAndExpenses
none_moved = record { income = []; expenses = [] }

module _ (collate : String → String → Bool) (user_id : ℕ) (period : SummaryPeriod) (w : Work)
    (unit : String) where
  abbrev moved : List MovementRow
  moved = movements user_id period w.current

  abbrev has_unit : MovementRow → Bool
  has_unit r = same_text r.1.unit unit

  expense_side :
      unit_totals unit
        (value_of none_moved (get_income_and_expenses_per_unit collate user_id period w).0).expenses
      ≡ sum_of outlay has_unit moved
  unfolding get_income_and_expenses_per_unit
  expense_side =
      let rows = map select_movement (group_by has_same_unit moved) in
      expenses_of-total unit (order_by (λ x y. collate x.0 y.0) rows)
      ∙ sum_of-order_by (λ (x : String × Option ℤ × Option ℤ). or_zero x.2) (λ x y. collate x.0 y.0)
          (λ x. same_text x.0 unit) rows
      ∙ total-keep-map select_movement (λ x. or_zero x.2) (λ x. same_text x.0 unit)
          (group_by has_same_unit moved)
      ∙ ap total (
          map-ext _ _ _
            (All-of group_outlay (keep (λ g. has_unit g.0) (group_by has_same_unit moved))))
      ∙ group_by-total has_same_unit has_same_unit-IsEquiv outlay has_unit
          (λ r s h. same_text_fits r.1.unit s.1.unit unit h) moved

  category_side :
      category_totals unit (value_of [] (get_expenses_by_category collate user_id period w).0)
      ≡ sum_of cost has_unit (keep row_of_expense moved)
  unfolding get_expenses_by_category
  category_side =
      let groups = group_by same_category_and_unit (keep row_of_expense moved) in
      sum_of-order_by (λ (x : CategoryTotal). x.amount) (by_unit_then_spent collate)
        (λ x. same_text x.unit unit) (map select_category groups)
      ∙ total-keep-map select_category (λ x. x.amount) (λ x. same_text x.unit unit) groups
      ∙ ap total (map-ext _ _ _ (All-of group_cost (keep (λ g. has_unit g.0) groups)))
      ∙ group_by-total same_category_and_unit same_category_and_unit-IsEquiv cost has_unit
          (λ r s h. same_text_fits r.1.unit s.1.unit unit (and_right _ _ h))
          (keep row_of_expense moved)

  -- In one snapshot and for one period, the expenses that the summary reports for a unit are the sum of
  -- the amounts that it reports for the categories of that unit.
  pub get_income_and_expenses_per_unit-get_expenses_by_category :
      unit_totals unit
        (value_of none_moved (get_income_and_expenses_per_unit collate user_id period w).0).expenses
      ≡ category_totals unit (value_of [] (get_expenses_by_category collate user_id period w).0)
  get_income_and_expenses_per_unit-get_expenses_by_category =
      expense_side ∙ outlay-cost has_unit moved ∙ sym category_side
