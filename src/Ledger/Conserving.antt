-- ===== src/Ledger/Conserving.antt =====
-- A transfer inside one unit moves money and makes none: ledger/services/transfers.py beside the summary.
pub mod Sums
use tradinghub.Base.{
  eq_of_parts, eq_iff, false, ℕ, ℤ, pos, neg, ◌+ℤ◌, zero-+ℤ, +ℤ-zero, Bool, true, String, Option,
  none, some, List, [], ◌∷◌, ◌++◌, map, ◌≡◌, refl, sym, ap, ◌∙◌, inl, inr, arith, ◌&&◌, ◌==◌,
  Bool-cases, Option-cases, keep, All-of, if◌then◌else◌, find?, same_text, int_laws, All, ◌≢◌,
  keep-keep, All-map,
}
use mathlib.Core.Path.{ap₂}
use tradinghub.Sql.Group.{map-ext}
use tradinghub.Sql.Rows.{Keyed}
use tradinghub.Sql.Joins.{total}
use tradinghub.Core.Errors.{ok}
use tradinghub.Core.Database.{Work}
use tradinghub.Ledger.Models.{Account, Transaction}
use tradinghub.Ledger.Schemas.{TransferCreate}
use tradinghub.Ledger.Crud.Accounts.{is_account}
use tradinghub.Ledger.Crud.Summary.{get_balances_per_unit}
use tradinghub.Ledger.Services.Transfers.{create_transfer, transfer_rows}
use tradinghub.Ledger.Balances.{account_number, balance_of}
use tradinghub.Ledger.Booking.{
  change_of, fee_booked, booked, balance_of-append, transfer_rows_balance,
}
use tradinghub.Ledger.Consistent.Rows.{new_rows, with_rows}
use tradinghub.Ledger.Summary.{unit_totals, value_of}
use tradinghub.Ledger.Summary.Balances.{summary_side}
use tradinghub.Ledger.Transfers.{verdict, same_units}
use tradinghub.Ledger.Transfers.Verdict.{outcome, create_transfer-verdict}
use tradinghub.Ledger.Conserving.Sums.{
  total-map-+ℤ, sum_booked, counted, in_unit, fee_in, sum_booked-in_unit, sum_fee_booked,
}

verdict-same_amounts :
    (u : ℕ) (d : TransferCreate) (accounts : List Account)
    → verdict u d accounts ≡ none
    → same_units
        (find? (is_account d.from_account_id u) accounts)
        (find? (is_account d.to_account_id u) accounts)
      ≡ true
    → d.amount_sent ≡ d.amount_received
unfolding verdict
verdict-same_amounts u d accounts agreed same =
    eq_of_parts d.amount_sent d.amount_received (ground arith)

-- What one account sends and the other receives is nothing in sum, in the unit of both.
net :
    (o p : Option Account) (unit : String) (x y fee : ℤ)
    → same_units o p ≡ true
    → x ≡ y
    → in_unit unit o (neg x) +ℤ (in_unit unit p y +ℤ fee) ≡ fee
net none p unit x y fee same equal = cc
net (some a) none unit x y fee same equal = cc
net (some a) (some b) unit x y fee same equal =
    let one_unit : a.unit ≡ b.unit = (eq_iff a.unit b.unit).0 same in
    rw (sym one_unit, sym equal)
      (elim (Bool-cases (same_text a.unit unit)) [
        | inl e ↦ rw e (omega int_laws)
        | inr e ↦ rw e (omega int_laws)
      ])

module _ (g u : ℕ) (d : TransferCreate) (w after : Work) (rows : List Transaction)
    (k : Keyed account_number w.accounts) (done : create_transfer g u d w ≡ (ok rows, after)) where
  -- A transfer that is recorded has no error against it, and adds its rows.
  pub recorded : (verdict u d w.accounts ≡ none) × (with_rows (transfer_rows u g d) w ≡ after)
  recorded =
      let made = sym (create_transfer-verdict g u d w k) ∙ done in
      elim (Option-cases (verdict u d w.accounts)) [
        | inr (e, refused) ↦ cc
        | inl agreed ↦ (agreed, cc)
      ]

  -- It answers with these rows.
  pub recorded_rows : new_rows (transfer_rows u g d) w ≡ rows
  recorded_rows =
      let made = sym (create_transfer-verdict g u d w k) ∙ done in
      let agreed = recorded.0 in
      let accepted : outcome none (transfer_rows u g d) w ≡ (ok rows, after) = rw agreed at made in
      cc

  -- The balances of some accounts after a transfer, added up.
  balances_after :
      (xs : List Account)
      → total (map (λ a. balance_of a after.transactions) xs)
        ≡ total (map (λ a. balance_of a w.transactions) xs)
          +ℤ (sum_booked d.from_account_id (neg d.amount_sent) xs
              +ℤ (sum_booked d.to_account_id d.amount_received xs
                  +ℤ total (map (λ (a : Account). fee_booked d.fee d.fee_account_id a.id) xs)))
  balances_after xs =
      ap (λ (v : Work). total (map (λ a. balance_of a v.transactions) xs)) (sym recorded.1)
      ∙ ap total (map-ext _ _ xs (All-of each xs))
      ∙ total-map-+ℤ (λ a. balance_of a w.transactions) (λ a. change_of d a.id) xs
      ∙ ap (◌+ℤ◌ _) (
          total-map-+ℤ (λ (a : Account). booked d.from_account_id (neg d.amount_sent) a.id) _ xs
          ∙ ap (◌+ℤ◌ _)
              (total-map-+ℤ (λ (a : Account). booked d.to_account_id d.amount_received a.id) _ xs))
    where
      each :
          (a : Account)
          → balance_of a (w.transactions ++ new_rows (transfer_rows u g d) w)
            ≡ balance_of a w.transactions +ℤ change_of d a.id
      each a =
          balance_of-append a w.transactions _
          ∙ ap (◌+ℤ◌ (balance_of a w.transactions))
              (transfer_rows_balance a u g d w.serials.transaction_serial)

  -- What a transfer brings to a unit: what is sent, what is received, and the fee.
  create_transfer-totals :
      (collate : String → String → Bool) (unit : String)
      → unit_totals unit (value_of [] (get_balances_per_unit collate u after).0)
        ≡ unit_totals unit (value_of [] (get_balances_per_unit collate u w).0)
          +ℤ (in_unit unit (find? (is_account d.from_account_id u) w.accounts) (neg d.amount_sent)
              +ℤ (in_unit unit (find? (is_account d.to_account_id u) w.accounts) d.amount_received
                  +ℤ fee_in unit u w.accounts d.fee d.fee_account_id))
  create_transfer-totals collate unit =
      let xs = keep (counted u unit) w.accounts in
      let sent = sum_booked-in_unit u unit d.from_account_id (neg d.amount_sent) w.accounts k in
      let received = sum_booked-in_unit u unit d.to_account_id d.amount_received w.accounts k in
      let paid = sum_fee_booked u unit d.fee d.fee_account_id w.accounts k in
      summary_side collate u after unit
      ∙ ap (λ ys. total (map (λ a. balance_of a after.transactions) ys))
          (keep-keep _ _ after.accounts
            ∙ ap (λ (v : Work). keep (counted u unit) v.accounts) (sym recorded.1))
      ∙ balances_after xs
      ∙ ap₂ ◌+ℤ◌
          (ap (λ ys. total (map (λ a. balance_of a w.transactions) ys))
              (sym (keep-keep _ _ w.accounts))
            ∙ sym (summary_side collate u w unit))
          (ap₂ ◌+ℤ◌ sent (ap₂ ◌+ℤ◌ received paid))

  -- Where account ids are distinct, a transfer between two accounts of the user that count in one unit
  -- makes and loses no money: what the summary reports for the user, of this unit and of every other,
  -- changes by the fee alone, and that in the unit of the account that pays it.
  pub create_transfer-conserves :
      (collate : String → String → Bool) (unit : String)
      → same_units
          (find? (is_account d.from_account_id u) w.accounts)
          (find? (is_account d.to_account_id u) w.accounts)
        ≡ true
      → unit_totals unit (value_of [] (get_balances_per_unit collate u after).0)
        ≡ unit_totals unit (value_of [] (get_balances_per_unit collate u w).0)
          +ℤ fee_in unit u w.accounts d.fee d.fee_account_id
  create_transfer-conserves collate unit same =
      create_transfer-totals collate unit
      ∙ ap (◌+ℤ◌ _) (
          net _ _ unit d.amount_sent d.amount_received _ same
            (verdict-same_amounts u d w.accounts recorded.0 same))
