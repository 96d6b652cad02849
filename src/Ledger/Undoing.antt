-- ===== src/Ledger/Undoing.antt =====
-- A transfer that is recorded and deleted again, by whichever of its rows: ledger/services.
use tradinghub.Base.{
  ℕ, ◌+◌, ◌≤◌, ◌<◌, String, Bool, true, false, not, ◌==◌, Option, none, some, List, [], ◌∷◌, ◌++◌,
  ◌≡◌, refl, sym, ap, ◌∙◌, inl, inr, arith, Bool-cases, Option-cases, find?, find?-All, find?-holds,
  any, any-find?, keep, keep-append, All, All-map, All-both, All-append, length,
}
use mathlib.Core.Path.{subst, ap₂}
use mathlib.Core.List.{append-nil}
use tradinghub.Sql.{null_eq}
use tradinghub.Sql.Group.{keep_all, keep_none}
use tradinghub.Core.Errors.{ok}
use tradinghub.Core.Database.{Work}
use tradinghub.Ledger.Models.{Transaction}
use tradinghub.Ledger.Schemas.{TransferCreate, accepts_transfer}
use tradinghub.Ledger.Crud.Transactions.{is_transaction}
use tradinghub.Ledger.Services.Transactions.{delete_transaction}
use tradinghub.Ledger.Services.Transfers.{create_transfer, transfer_rows}
use tradinghub.Ledger.Consistent.{IsConsistent, in_group}
use tradinghub.Ledger.Consistent.Rows.{new_rows, with_rows, number_bounds}
use tradinghub.Ledger.Consistent.Transfers.{create_transfer-Kept, rows_mine, rows_grouped}
use tradinghub.Ledger.Conserving.{recorded_rows, recorded}
use tradinghub.Ledger.Deleting.{goes_with, delete_transaction-deletion}

module _ {ℓ} {A : Type ℓ} where
  -- Rows that each pass the test that they stand for are found by it.
  any_self :
      (p : A → A → Bool) (xs : List A)
      → All (λ x. p x x ≡ true) xs
      → All (λ x. any (p x) xs ≡ true) xs
  any_self p [] h = tt
  any_self p (x ∷ xs) (self, h) =
      (rw self refl, All-map (λ y m. ground (arith, m)) xs (any_self p xs h))

  any_later : (p : A → Bool) (xs ys : List A) → any p ys ≡ true → any p (xs ++ ys) ≡ true
  any_later p [] ys h = h
  any_later p (x ∷ xs) ys h = ground (arith, any_later p xs ys h)

  none_kept : (p : A → Bool) (xs : List A) → keep p xs ≡ [] → All (λ x. p x ≡ false) xs
  none_kept p [] h = tt
  none_kept p (x ∷ xs) h = elim (Bool-cases (p x)) [
    | inl e ↦ ground (arith, e, h)
    | inr e ↦ (e, none_kept p xs (rw e at h))
  ]

grouped : (g : ℕ) (o : Option ℕ) → null_eq o (some g) ≡ true → o ≡ some g
grouped g none h = cc
grouped g (some a) h = ap some (ground arith)

-- Rows of one group go together.
goes_with_group :
    (g : ℕ) (t x : Transaction) → in_group g t ≡ true → in_group g x ≡ true → goes_with t x ≡ true
goes_with_group g t x ht hx = rw (grouped g t.transfer_group_id ht, hx) (ground arith)

-- An earlier row of another group stays.
stays_outside :
    (g : ℕ) (t x : Transaction)
    → in_group g t ≡ true
    → in_group g x ≡ false
    → x.id < t.id
    → goes_with t x ≡ false
stays_outside g t x ht hx lt =
    let other : (x.id == t.id) ≡ false = ground arith in
    rw (grouped g t.transfer_group_id ht, hx, other) refl

module _ (fold : String → String) (g u : ℕ) (d : TransferCreate) (w : Work)
    (rows : List Transaction) (after : Work) (h : IsConsistent fold w.current w.serials)
    (fresh : keep (in_group g) w.transactions ≡ []) (accepted : accepts_transfer d ≡ true)
    (done : create_transfer g u d w ≡ (ok rows, after)) where
  abbrev added : List Transaction
  added = new_rows (transfer_rows u g d) w

  abbrev first : ℕ
  first = w.serials.transaction_serial

  abbrev between : Work
  between = with_rows (transfer_rows u g d) w

  added_at : All (λ t. (first ≤ t.id) × (t.id < first + length (transfer_rows u g d))) added
  added_at = number_bounds first (transfer_rows u g d)

  added_grouped : All (λ t. in_group g t ≡ true) added
  added_grouped = All-map (λ t e. e ∙ ground arith) added (rows_grouped u g d accepted first g)

  -- A row from the serial on is one of the transfer.
  later_grouped : All (λ t. first ≤ t.id → in_group g t ≡ true) (w.transactions ++ added)
  later_grouped =
      All-append _ w.transactions added
        (All-map (λ t lt le. absurd (omega arith)) w.transactions h.transactions_numbered)
        (All-map (λ t e le. e) added added_grouped)

  -- What stays beside a row of the transfer.
  undone :
      (t : Transaction)
      → first ≤ t.id
      → in_group g t ≡ true
      → keep (λ x. not (goes_with t x)) (w.transactions ++ added) ≡ w.transactions
  undone t le member =
      let old =
        All-map (λ x f. ap not (stays_outside g t x member f.0 (omega (arith, f.1)))) w.transactions
          (All-both _ _ w.transactions (none_kept (in_group g) w.transactions fresh)
            h.transactions_numbered) in
      let new = All-map (λ x e. ap not (goes_with_group g t x member e)) added added_grouped in
      keep-append _ w.transactions added
      ∙ ap₂ ◌++◌ (keep_all _ w.transactions old) (keep_none _ added new)
      ∙ append-nil w.transactions

  between_is : between ≡ after
  between_is = (recorded g u d w after rows h.accounts_keyed done).1

  consistent : IsConsistent fold between.current between.serials
  consistent =
      subst (λ (v : Work). IsConsistent fold v.current v.serials)
        (ap (λ r. r.1) done ∙ sym between_is)
        (create_transfer-Kept fold u w h g d fresh accepted).consistent

  deleted_by :
      (r : Transaction)
      → any (is_transaction r.id u) (w.transactions ++ added) ≡ true
      → first ≤ r.id
      → delete_transaction r.id u between ≡ (ok tt, record between { current = w.current })
  deleted_by r there le =
      delete_transaction-deletion fold r.id u between consistent
      ∙ elim (Option-cases (find? (is_transaction r.id u) (w.transactions ++ added))) [
        | inl e ↦ cc (any-find? (is_transaction r.id u) (w.transactions ++ added), e)
        | inr (t, e) ↦
            let one : t.id ≡ r.id =
              ground (arith, find?-holds (is_transaction r.id u) (w.transactions ++ added) e) in
            let later : first ≤ t.id = omega arith in
            let member : in_group g t ≡ true =
              find?-All _ (is_transaction r.id u) (w.transactions ++ added) later_grouped e later in
            rw e (
              ap
                (λ ts. (ok tt, record between { current = record w.current { transactions = ts } }))
                (undone t later member))
      ]

  added_found : All (λ r. any (is_transaction r.id u) (w.transactions ++ added) ≡ true) added
  added_found =
      All-map (λ r m. any_later (is_transaction r.id u) w.transactions added m) added
        (any_self (λ r. is_transaction r.id u) added
          (All-map (λ t own. ground (arith, own)) added (rows_mine u g d accepted first)))

  -- From a consistent ledger and with a fresh uuid, whichever row of a recorded transfer is then deleted,
  -- the transfer goes as a whole: every table is what it was before it.
  pub create_transfer-delete_transaction :
      All
        (λ r. delete_transaction r.id u after ≡ (ok tt, record after { current = w.current }))
        rows
  create_transfer-delete_transaction =
      rw (sym between_is, sym (recorded_rows g u d w after rows h.accounts_keyed done))
        (All-map (λ r f. deleted_by r f.0 f.1) added
          (All-both _ _ added added_found (All-map (λ r b. b.0) added added_at)))
