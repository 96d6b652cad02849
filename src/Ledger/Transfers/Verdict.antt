-- ===== src/Ledger/Transfers/Verdict.antt =====
-- create_transfer does what its rule says: the declared errors in their order, or the rows.
use tradinghub.Base.{
  ℕ, ℤ, suc, Bool, true, not, ◌&&◌, Option, none, some, List, ◌≡◌, ◌≢◌, refl, ◌∙◌, inl, inr, arith,
  ◌==◌, eqb_ℤ, same_text, Bool-cases, Option-cases, length, keep, find?, any-find?, all,
}
use tradinghub.Core.Errors.{Result, ok, err, app_error, AppError}
use tradinghub.Core.Database.{Work}
use tradinghub.Sql.Rows.{Keyed}
use tradinghub.Ledger.Models.{Account, Transaction}
use tradinghub.Ledger.Schemas.{TransferCreate}
use tradinghub.Ledger.Crud.Accounts.{is_account}
use tradinghub.Ledger.Crud.Transactions.{owns_account, number}
use tradinghub.Ledger.Services.Transfers.{fee_row, account_ids, transfer_rows, create_transfer}
use tradinghub.Ledger.Consistent.{account_key}
use tradinghub.Ledger.Consistent.Rows.{new_rows, with_rows}
use tradinghub.Ledger.Transfers.{verdict}
use tradinghub.Ledger.Transfers.Counting.{
  chosen, count_owned, all_iff_length, all-is_in, find?-chosen, account_ids_lem, fee_in_ids,
}

-- The outcome that a verdict stands for.
abbrev pub outcome : Option AppError → List Transaction → Work → Result (List Transaction) × Work
outcome (some e) rows w = (err (app_error e), w)
outcome none rows w = (ok (new_rows rows w), with_rows rows w)

module _ (g u : ℕ) (d : TransferCreate) (w : Work) where
  abbrev pub owns : ℕ → Bool
  owns i = owns_account w.accounts i u

  fee_accepted :
      (fee : Option ℤ) (i : Option ℕ) (n : ℕ)
      → ((a : ℕ) → i ≡ some a → owns a ≡ true)
      → all (λ t. owns_account w.accounts t.account_id t.user_id) (number n (fee_row u g d fee i))
        ≡ true
  unfolding transfer_rows
  fee_accepted (some x) (some i) n h = rw (h i refl)
  fee_accepted (some x) none n h = refl
  fee_accepted none i n h = refl

  -- The foreign key accepts the rows of a transfer between accounts of the user.
  pub rows_accepted :
      all owns (account_ids d) ≡ true
      → d.from_account_id ≢ d.to_account_id
      → all (λ t. owns_account w.accounts t.account_id t.user_id) (new_rows (transfer_rows u g d) w)
        ≡ true
  unfolding transfer_rows
  rows_accepted h ne =
      let (_, member_from, member_to) = account_ids_lem d ne in
      rw
        (
          all-is_in owns (account_ids d) d.from_account_id h member_from,
          all-is_in owns (account_ids d) d.to_account_id h member_to,
        )
        (fee_accepted d.fee d.fee_account_id (suc (suc w.serials.transaction_serial))
          (λ a e. all-is_in owns (account_ids d) a h (fee_in_ids d a e)))

  owned_found :
      (i : ℕ) → owns i ≡ true → (a : Account) × (find? (is_account i u) w.accounts ≡ some a)
  owned_found i h = elim (Option-cases (find? (is_account i u) w.accounts)) [
    | inl e ↦ cc (any-find? (is_account i u) w.accounts, e)
    | inr found ↦ found
  ]

  owned_count :
      Keyed account_key w.accounts
      → d.from_account_id ≢ d.to_account_id
      → (length (keep (chosen (account_ids d) u) w.accounts) == length (account_ids d))
        ≡ all owns (account_ids d)
  owned_count k ne =
      rw (count_owned u (account_ids d) w.accounts (account_ids_lem d ne).0 k)
        (all_iff_length owns (account_ids d))

  -- With distinct ids, the service raises the first error that the rule names and writes nothing, or
  -- it writes the rows of the transfer and returns them; no KeyError and no IntegrityError escapes.
  pub create_transfer-verdict :
      Keyed account_key w.accounts
      → create_transfer g u d w ≡ outcome (verdict u d w.accounts) (transfer_rows u g d) w
  unfolding create_transfer verdict
  create_transfer-verdict k = elim (Bool-cases (d.from_account_id == d.to_account_id)) [
    | inl e ↦ rw (e)
    | inr e ↦
        let ne : d.from_account_id ≢ d.to_account_id = ground arith in
        elim (Bool-cases (all owns (account_ids d))) [
          | inr none_of ↦ rw (e, owned_count k ne, none_of)
          | inl owned ↦
              let (_, member_from, member_to) = account_ids_lem d ne in
              let (a, from) =
                owned_found d.from_account_id
                  (all-is_in owns (account_ids d) d.from_account_id owned member_from) in
              let (b, to) =
                owned_found d.to_account_id
                  (all-is_in owns (account_ids d) d.to_account_id owned member_to) in
              let from' =
                find?-chosen d.from_account_id u (account_ids d) w.accounts member_from ∙ from in
              let to' = find?-chosen d.to_account_id u (account_ids d) w.accounts member_to ∙ to in
              elim (Bool-cases
                (same_text a.unit b.unit && not (eqb_ℤ d.amount_sent d.amount_received))) [
                  | inl t ↦ rw (e, owned_count k ne, owned, from', to', from, to, t)
                  | inr t ↦
                      rw (
                        e,
                        owned_count k ne,
                        owned,
                        from',
                        to',
                        from,
                        to,
                        t,
                        rows_accepted owned ne,
                      )
                ]
        ]
  ]

  -- An accepted transfer is between two accounts, and every account is the user's.
  pub verdict-none :
      verdict u d w.accounts ≡ none
      → (d.from_account_id ≢ d.to_account_id) × (all owns (account_ids d) ≡ true)
  unfolding verdict
  verdict-none e = (ground arith, ground arith)
