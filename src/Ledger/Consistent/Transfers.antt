-- ===== src/Ledger/Consistent/Transfers.antt =====
-- A transfer that is recorded keeps the tables consistent and every other user's rows.
use tradinghub.Base.{
  ℕ, ℤ, pos, neg, neg_parts, int_laws, suc, ◌≤ℤ◌, String, true, Option, none, some, [], ◌++◌, ◌≡◌,
  ◌≢◌, refl, sym, ◌∙◌, inl, inr, arith, ◌==◌, Bool-cases, Option-cases, keep, All, All-map,
  keep-append,
}
use tradinghub.Sql.Group.{keep_none, keep_all}
use mathlib.Core.List.{append-nil}
use tradinghub.Sql.Search.{all-true}
use tradinghub.Core.Database.{Work}
use tradinghub.Ledger.Models.{Transaction, expense, transfer}
use tradinghub.Ledger.Schemas.{TransferCreate, accepts_transfer}
use tradinghub.Ledger.Crud.Transactions.{number}
use tradinghub.Ledger.Services.Transfers.{create_transfer, transfer_rows, fee_row, transaction_row}
use tradinghub.Ledger.Transfers.{verdict}
use tradinghub.Ledger.Transfers.Verdict.{create_transfer-verdict, rows_accepted, verdict-none}
use tradinghub.Ledger.Consistent.{HasSign, IsConsistent, Kept, in_group, IsTransfer, IsFee}
use tradinghub.Ledger.Consistent.Rows.{Kept-refl, Kept-rows, new_rows}
use tradinghub.Ledger.Consistent.Services.{is_amount-pos}

module _ (u g : ℕ) (d : TransferCreate) where
  -- A condition on the rows of a transfer, checked on its two sides and on its fee.
  fee_All :
      (P : Transaction → Type 0) (fee : Option ℤ) (i : Option ℕ) (n : ℕ)
      → ((x : ℤ) (a m : ℕ)
          → fee ≡ some x
          → P (record (transaction_row u g d a (neg x) expense d.fee_category) { id = m }))
      → All P (number n (fee_row u g d fee i))
  fee_All P none i n h = tt
  fee_All P (some x) none n h = tt
  fee_All P (some x) (some a) n h = (h x a n refl, tt)

  rows_All :
      (P : Transaction → Type 0) (n : ℕ)
      → ((a m : ℕ)
          → P (record (transaction_row u g d a (neg d.amount_sent) transfer none) { id = m }))
      → ((a m : ℕ)
          → P (record (transaction_row u g d a d.amount_received transfer none) { id = m }))
      → ((x : ℤ) (a m : ℕ)
          → d.fee ≡ some x
          → P (record (transaction_row u g d a (neg x) expense d.fee_category) { id = m }))
      → All P (number n (transfer_rows u g d))
  unfolding transfer_rows
  rows_All P n out into fee = (
    out d.from_account_id n,
    (into d.to_account_id (suc n), fee_All P d.fee d.fee_account_id (suc (suc n)) fee),
  )

  number-fee_row-IsFee :
      (out : Transaction) (fee : Option ℤ) (i : Option ℕ) (n : ℕ)
      → out.user_id ≡ u
      → out.occurred_at ≡ d.occurred_at
      → IsFee out (number n (fee_row u g d fee i))
  unfolding transaction_row
  number-fee_row-IsFee out none i n own at = tt
  number-fee_row-IsFee out (some x) none n own at = tt
  number-fee_row-IsFee out (some x) (some a) n own at = (refl, sym own, sym at)

  module _ (accepted : accepts_transfer d ≡ true) where
    sent_pos : pos 1 ≤ℤ d.amount_sent
    unfolding accepts_transfer
    sent_pos = is_amount-pos d.amount_sent (ground arith)

    received_pos : pos 1 ≤ℤ d.amount_received
    unfolding accepts_transfer
    received_pos = is_amount-pos d.amount_received (ground arith)

    fee_pos : (x : ℤ) → d.fee ≡ some x → pos 1 ≤ℤ x
    unfolding accepts_transfer
    fee_pos x e = is_amount-pos x (ground arith)

    new_group :
        (n : ℕ) → d.from_account_id ≢ d.to_account_id → IsTransfer (number n (transfer_rows u g d))
    unfolding transfer_rows transaction_row
    new_group n ne = (
      refl,
      refl,
      omega (int_laws, neg_parts d.amount_sent, sent_pos),
      received_pos,
      refl,
      ne,
      refl,
      number-fee_row-IsFee
          (record (transaction_row u g d d.from_account_id (neg d.amount_sent) transfer none) {
            id = n;
          })
          d.fee d.fee_account_id (suc (suc n)) refl refl,
    )

    rows_signed : (n : ℕ) → All (λ t. HasSign t.kind t.amount) (number n (transfer_rows u g d))
    unfolding transaction_row
    rows_signed n =
        rows_All _ n (λ a m. inr (omega (int_laws, neg_parts d.amount_sent, sent_pos)))
          (λ a m. inl received_pos) (λ x a m e. omega (int_laws, neg_parts x, fee_pos x e))

    pub rows_mine : (n : ℕ) → All (λ t. t.user_id ≡ u) (number n (transfer_rows u g d))
    unfolding transaction_row
    rows_mine n = rows_All _ n (λ a m. refl) (λ a m. refl) (λ x a m e. refl)

    pub rows_grouped :
        (n g' : ℕ) → All (λ t. in_group g' t ≡ (g == g')) (number n (transfer_rows u g d))
    unfolding transaction_row
    rows_grouped n g' = rows_All _ n (λ a m. refl) (λ a m. refl) (λ x a m e. refl)

module _ (fold : String → String) (u : ℕ) (w : Work)
    (h : IsConsistent fold w.current w.serials) where
  module _ (g : ℕ) (d : TransferCreate) (fresh : keep (in_group g) w.transactions ≡ [])
      (accepted : accepts_transfer d ≡ true) where
    groups_whole :
        d.from_account_id ≢ d.to_account_id
        → (g' : ℕ)
        → IsTransfer (keep (in_group g') (w.transactions ++ new_rows (transfer_rows u g d) w))
    groups_whole ne g' =
        let rows = new_rows (transfer_rows u g d) w in
        let grouped = rows_grouped u g d accepted w.serials.transaction_serial g' in
        rw (keep-append (in_group g') w.transactions rows) (elim (Bool-cases (g == g')) [
          | inl e ↦
              let same : g ≡ g' = ground arith in
              let old : keep (in_group g') w.transactions ≡ [] = rw same at fresh in
              rw (old, keep_all (in_group g') rows (All-map (λ t f. f ∙ e) rows grouped))
                (new_group u g d accepted w.serials.transaction_serial ne)
          | inr e ↦
              rw (keep_none (in_group g') rows (All-map (λ t f. f ∙ e) rows grouped), append-nil)
                (h.transfers g')
        ])

    pub create_transfer-Kept : Kept fold u w (create_transfer g u d w).1
    create_transfer-Kept =
        rw (create_transfer-verdict g u d w h.accounts_keyed)
          (elim (Option-cases (verdict u d w.accounts)) [
            | inr (e, refused) ↦ rw refused (Kept-refl fold u w h)
            | inl agreed ↦
                let (ne, owned) = verdict-none g u d w agreed in
                rw agreed (
                  Kept-rows fold u (transfer_rows u g d) w h
                    (rows_mine u g d accepted w.serials.transaction_serial)
                    (all-true _ _ (rows_accepted g u d w owned ne))
                    (rows_signed u g d accepted w.serials.transaction_serial) (groups_whole ne))
          ])
