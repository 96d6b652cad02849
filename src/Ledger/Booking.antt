-- ===== src/Ledger/Booking.antt =====
-- What a transfer does to the balances that ledger/crud/accounts.py reports.
use tradinghub.Base.{
  ℕ, ℤ, pos, neg, ◌+ℤ◌, zero-+ℤ, +ℤ-zero, Bool, Option, none, some, List, [], ◌∷◌, ◌++◌, map, ◌≡◌,
  refl, sym, ap, ◌∙◌, inl, inr, ◌&&◌, ◌==◌, Bool-cases, Option-cases, keep, All-of, keep-append,
  if◌then◌else◌,
}
use tradinghub.Sql.Group.{map-ext}
use tradinghub.Sql.Rows.{Keyed}
use tradinghub.Sql.Joins.{total, total-append, map-append}
use tradinghub.Core.Errors.{ok}
use tradinghub.Core.Database.{Work}
use tradinghub.Ledger.Models.{Account, Transaction}
use tradinghub.Ledger.Schemas.{TransferCreate}
use tradinghub.Ledger.Crud.Accounts.{
  AccountWithBalance, of_account, accounts_with_balances_statement,
}
use tradinghub.Ledger.Crud.Transactions.{number}
use tradinghub.Ledger.Services.Transfers.{create_transfer, transfer_rows, fee_row}
use tradinghub.Ledger.Balances.{
  account_number, balance_of, with_balance, accounts_with_balances_statement_lem,
}
use tradinghub.Ledger.Consistent.Rows.{new_rows, with_rows}
use tradinghub.Ledger.Summary.{map-map}
use tradinghub.Ledger.Transfers.{verdict}
use tradinghub.Ledger.Transfers.Verdict.{create_transfer-verdict}

-- An amount booked to account `i`, as account `j` sees it.
abbrev pub booked : ℕ → ℤ → ℕ → ℤ
booked i amount j = if i == j then amount else pos 0

abbrev pub fee_booked : Option ℤ → Option ℕ → ℕ → ℤ
fee_booked (some fee) (some i) j = booked i (neg fee) j
fee_booked _ _ j = pos 0

-- What a transfer brings to an account: it sends, it receives, and it pays the fee.
abbrev pub change_of : TransferCreate → ℕ → ℤ
change_of d j =
    booked d.from_account_id (neg d.amount_sent) j
    +ℤ (booked d.to_account_id d.amount_received j +ℤ fee_booked d.fee d.fee_account_id j)

abbrev pub changed : (ℕ → ℤ) → AccountWithBalance → AccountWithBalance
changed change r = record r { balance = r.balance +ℤ change r.account.id }

module _ (a : Account) where
  balance_of-cons :
      (t : Transaction) (ts : List Transaction)
      → balance_of a (t ∷ ts) ≡ booked t.account_id t.amount a.id +ℤ balance_of a ts
  unfolding balance_of
  balance_of-cons t ts = elim (Bool-cases (t.account_id == a.id)) [
    | inl e ↦ rw e refl
    | inr e ↦ rw e (sym (zero-+ℤ _))
  ]

  balance_of-nil : balance_of a [] ≡ pos 0
  unfolding balance_of
  balance_of-nil = refl

  pub balance_of-append :
      (ts rows : List Transaction)
      → balance_of a (ts ++ rows) ≡ balance_of a ts +ℤ balance_of a rows
  unfolding balance_of
  balance_of-append ts rows =
      ap (λ xs. total (map (λ (t : Transaction). t.amount) xs)) (keep-append (of_account a) ts rows)
      ∙ ap total (map-append (λ (t : Transaction). t.amount) (keep (of_account a) ts) _)
      ∙ total-append (map (λ (t : Transaction). t.amount) (keep (of_account a) ts)) _

  fee_row_balance :
      (u g : ℕ) (d : TransferCreate) (fee : Option ℤ) (i : Option ℕ) (n : ℕ)
      → balance_of a (number n (fee_row u g d fee i)) ≡ fee_booked fee i a.id
  unfolding transfer_rows
  fee_row_balance u g d none i n = balance_of-nil
  fee_row_balance u g d (some x) none n = balance_of-nil
  fee_row_balance u g d (some x) (some i) n =
      balance_of-cons _ [] ∙ ap (◌+ℤ◌ (booked i (neg x) a.id)) balance_of-nil ∙ +ℤ-zero _

  -- The rows of a transfer add up to what it brings to the account.
  pub transfer_rows_balance :
      (u g : ℕ) (d : TransferCreate) (n : ℕ)
      → balance_of a (number n (transfer_rows u g d)) ≡ change_of d a.id
  unfolding transfer_rows
  transfer_rows_balance u g d n =
      balance_of-cons _ _
      ∙ ap (◌+ℤ◌ _)
          (balance_of-cons _ _ ∙ ap (◌+ℤ◌ _) (fee_row_balance u g d d.fee d.fee_account_id _))

-- Rows that are added change the reported balances by what they bring.
statement-append :
    (v : ℕ) (condition : Account → Bool) (w : Work) (rows : List Transaction) (change : ℕ → ℤ)
    → Keyed account_number w.accounts
    → ((a : Account) → balance_of a rows ≡ change a.id)
    → accounts_with_balances_statement v condition
        (record w.current { transactions = w.transactions ++ rows })
      ≡ map (changed change) (accounts_with_balances_statement v condition w.current)
unfolding with_balance
statement-append v condition w rows change d brought =
    let mine = keep (λ (a : Account). a.user_id == v && condition a) w.accounts in
    accounts_with_balances_statement_lem v condition
      (record w.current { transactions = w.transactions ++ rows }) d
    ∙ map-ext _ _ mine (
        All-of
          (λ a.
            ap (λ b. record { account = a; balance = b })
              (balance_of-append a w.transactions rows
                ∙ ap (◌+ℤ◌ (balance_of a w.transactions)) (brought a)))
          mine)
    ∙ sym (map-map (changed change) (with_balance w.transactions) mine)
    ∙ ap (map (changed change)) (sym (accounts_with_balances_statement_lem v condition w.current d))

-- Where account ids are distinct, a transfer that is recorded changes the balances that the balance
-- query reports, for whatever user and condition, by this: the one account sends the amount sent, the
-- other receives the amount received, the account of the fee pays it, and all else stays.
pub create_transfer-moves :
    (g u : ℕ) (d : TransferCreate) (w after : Work) (rows : List Transaction)
    → Keyed account_number w.accounts
    → create_transfer g u d w ≡ (ok rows, after)
    → (v : ℕ) (condition : Account → Bool)
    → accounts_with_balances_statement v condition after.current
      ≡ map (changed (change_of d)) (accounts_with_balances_statement v condition w.current)
create_transfer-moves g u d w after rows k done v condition =
    let made = sym (create_transfer-verdict g u d w k) ∙ done in
    elim (Option-cases (verdict u d w.accounts)) [
      | inr (e, refused) ↦ cc
      | inl agreed ↦
          let there : with_rows (transfer_rows u g d) w ≡ after = cc in
          ap (λ (x : Work). accounts_with_balances_statement v condition x.current) (sym there)
          ∙ statement-append v condition w (new_rows (transfer_rows u g d) w) (change_of d) k
              (λ a. transfer_rows_balance a u g d w.serials.transaction_serial)
    ]
