-- ===== src/Ledger/Summary/Balances.antt =====
-- get_balances_per_unit beside the list of accounts.
use mathlib.Core.Path.{ap₂}
use tradinghub.Sql.Group.{map-ext}
use tradinghub.Base.{
  same_text_comm, All-of, keep-ext, ℕ, ℤ, pos, ◌+ℤ◌, +ℤ-zero, String, Bool, true, ◌&&◌, some, List,
  [], ◌∷◌, map, ◌≡◌, refl, sym, ap, ◌∙◌, arith, ◌==◌, same_text, eq_iff, keep,
}
use tradinghub.Sql.{group_by, outer_join, padded}
use tradinghub.Sql.Group.{IsEquiv}
use tradinghub.Sql.Rows.{Keyed}
use tradinghub.Sql.Sums.{sum_of-order_by, group_by-total}
use tradinghub.Sql.Joins.{
  total, or_zero, coalesce-sum_null, total-append, map-append, pairs, keep-outer_join,
}
use tradinghub.Core.Database.{Work}
use tradinghub.Ledger.Models.{Account, Transaction}
use tradinghub.Ledger.Crud.Accounts.{
  accounts_with_balances_statement, JoinRow, row_amount, of_account, AccountWithBalance,
  list_accounts_with_balances,
}
use tradinghub.Ledger.Crud.Summary.{UnitTotal, get_balances_per_unit, same_unit, select_unit_total}
use tradinghub.Ledger.Balances.{
  account_number, balance_of, with_balance, accounts_with_balances_statement_lem,
}
use tradinghub.Ledger.Summary.{
  of_unit, unit_totals, value_of, total-keep-map, map-map, same_text_fits,
}

abbrev row_value : JoinRow → ℤ
row_value r = or_zero (row_amount r)

same_unit-IsEquiv : IsEquiv same_unit
same_unit-IsEquiv = record {
  reflexive = λ r. (eq_iff r.0.unit r.0.unit).1 refl;
  symmetric = λ r s. same_text_comm r.0.unit s.0.unit;
  congruent = λ r s t h. sym (same_text_fits r.0.unit s.0.unit t.0.unit h);
}

-- The joined rows of one account add up to its balance.
padded_value :
    (a : Account) (ts : List Transaction)
    → total (map row_value (pairs a (padded ts))) ≡ total (map (λ (t : Transaction). t.amount) ts)
padded_value a [] = +ℤ-zero (pos 0)
padded_value a (t ∷ ts) = ap (◌+ℤ◌ t.amount) (rest ts)
  where
    rest :
        (ts : List Transaction)
        → total (map row_value (pairs a (map some ts)))
          ≡ total (map (λ (t : Transaction). t.amount) ts)
    rest [] = refl
    rest (t ∷ ts) = ap (◌+ℤ◌ t.amount) (rest ts)

joined_value :
    (xs : List Account) (ts : List Transaction)
    → total (map row_value (outer_join of_account xs ts)) ≡ total (map (λ a. balance_of a ts) xs)
unfolding outer_join balance_of
joined_value [] ts = refl
joined_value (a ∷ xs) ts =
    ap total (map-append row_value (pairs a (padded (keep (of_account a) ts))) _)
    ∙ total-append (map row_value (pairs a (padded (keep (of_account a) ts)))) _
    ∙ ap₂ ◌+ℤ◌ (padded_value a (keep (of_account a) ts)) (joined_value xs ts)

group_value :
    (g : JoinRow × List JoinRow) → (select_unit_total g).amount ≡ total (map row_value g.1)
group_value g = coalesce-sum_null (map row_amount g.1) ∙ ap total (map-map or_zero row_amount g.1)

module _ (collate : String → String → Bool) (user_id : ℕ) (w : Work) (unit : String) where
  abbrev pub mine : Account → Bool
  mine a = a.user_id == user_id

  abbrev pub has_unit : Account → Bool
  has_unit a = same_text a.unit unit

  -- The figures of a unit add up to the balances of the user's accounts of that unit.
  pub summary_side :
      unit_totals unit (value_of [] (get_balances_per_unit collate user_id w).0)
      ≡ total (map (λ a. balance_of a w.transactions) (keep has_unit (keep mine w.accounts)))
  unfolding get_balances_per_unit
  summary_side =
      let rows : List JoinRow =
        keep (λ (r : JoinRow). mine r.0) (outer_join of_account w.accounts w.transactions) in
      sum_of-order_by (λ (x : UnitTotal). x.amount) _ _
        (map select_unit_total (group_by same_unit rows))
      ∙ total-keep-map select_unit_total _ _ (group_by same_unit rows)
      ∙ ap total (map-ext _ _ _ (All-of group_value (keep _ (group_by same_unit rows))))
      ∙ group_by-total same_unit same_unit-IsEquiv row_value (λ r. has_unit r.0)
          (λ r s h. same_text_fits r.0.unit s.0.unit unit h) rows
      ∙ ap (λ (rs : List JoinRow). total (map row_value (keep (λ (r : JoinRow). has_unit r.0) rs)))
          (keep-outer_join mine of_account w.accounts w.transactions)
      ∙ ap (λ (rs : List JoinRow). total (map row_value rs))
          (keep-outer_join has_unit of_account (keep mine w.accounts) w.transactions)
      ∙ joined_value (keep has_unit (keep mine w.accounts)) w.transactions

  listing_side :
      Keyed account_number w.accounts
      → of_unit
          (λ (x : AccountWithBalance). x.account.unit)
          (λ x. x.balance)
          unit
          (value_of [] (list_accounts_with_balances collate user_id w).0)
        ≡ total (map (λ a. balance_of a w.transactions) (keep has_unit (keep mine w.accounts)))
  unfolding list_accounts_with_balances with_balance
  listing_side d =
      let rows = accounts_with_balances_statement user_id (λ a. true) w.current in
      sum_of-order_by (λ (x : AccountWithBalance). x.balance)
        (λ x y. collate x.account.name y.account.name) (λ x. same_text x.account.unit unit) rows
      ∙ ap (of_unit (λ (x : AccountWithBalance). x.account.unit) (λ x. x.balance) unit)
          (accounts_with_balances_statement_lem user_id (λ a. true) w.current d)
      ∙ total-keep-map (with_balance w.transactions) (λ (x : AccountWithBalance). x.balance)
          (λ x. same_text x.account.unit unit) (keep (λ a. mine a && true) w.accounts)
      ∙ ap (λ xs. total (map (λ a. balance_of a w.transactions) (keep has_unit xs)))
          (keep-ext (λ a. mine a && true) mine w.accounts (All-of (λ a. ground arith) w.accounts))

  -- Where account ids are distinct, what the summary reports for a unit adds up to the balances that
  -- the list of accounts shows for the accounts of that unit.
  pub get_balances_per_unit-list_accounts_with_balances :
      Keyed account_number w.accounts
      → unit_totals unit (value_of [] (get_balances_per_unit collate user_id w).0)
        ≡ of_unit
            (λ (x : AccountWithBalance). x.account.unit)
            (λ x. x.balance)
            unit
            (value_of [] (list_accounts_with_balances collate user_id w).0)
  get_balances_per_unit-list_accounts_with_balances d = summary_side ∙ sym (listing_side d)
