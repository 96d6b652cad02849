-- ===== src/Ledger/Deleting.antt =====
-- What delete_transaction of ledger/services/transactions.py removes.
use tradinghub.Base.{
  ℕ, String, Bool, true, false, not, ◌||◌, ◌==◌, Option, none, some, ◌≡◌, refl, sym, ap, ◌∙◌, inl,
  inr, arith, Bool-cases, Option-cases, find?, find?-All, find?-holds, any, any-find?, keep,
  keep-ext, All, All-map, All-both, All-of,
}
use tradinghub.Sql.{null_eq}
use tradinghub.Sql.Group.{keep_all}
use tradinghub.Sql.Search.{only_key, any_found, All-unkeep, any-false, none_pass}
use tradinghub.Core.Errors.{Result, ok, err, app_error, transaction_not_found}
use tradinghub.Core.Database.{Work}
use tradinghub.Ledger.Models.{Transaction}
use tradinghub.Ledger.Crud.Transactions.{is_transaction, is_deleted}
use tradinghub.Ledger.Services.Transactions.{delete_transaction}
use tradinghub.Ledger.Consistent.{IsConsistent, transaction_key, in_group}
use tradinghub.Ledger.Consistent.Transactions.{group_users}

-- What goes when a transaction goes: itself, and every row of its transfer.
abbrev pub goes_with : Transaction → Transaction → Bool
goes_with t x = x.id == t.id || null_eq x.transfer_group_id t.transfer_group_id

-- The rule of the docstring, of the transaction that the user has by the id.
abbrev pub deletion : Work → Option Transaction → Result (Unit {0}) × Work
deletion w none = (err (app_error transaction_not_found), w)
deletion w (some t) = (
  ok tt,
  record w {
    current = record w.current { transactions = keep (λ x. not (goes_with t x)) w.transactions };
  },
)

null_eq-none : (o : Option ℕ) → null_eq o none ≡ false
null_eq-none none = refl
null_eq-none (some a) = refl

module _ (fold : String → String) (i u : ℕ) (w : Work)
    (h : IsConsistent fold w.current w.serials) where
  abbrev asked : Transaction → Bool
  asked = is_transaction i u

  abbrev found : Option Transaction
  found = find? asked w.transactions

  none_gone : found ≡ none → All (λ t. is_deleted i u none t ≡ false) w.transactions
  none_gone e =
      All-map (λ t no. rw (null_eq-none t.transfer_group_id) (ground (arith, no))) w.transactions
        (any-false asked w.transactions (any-find? asked w.transactions ∙ rw e refl))

  -- The rows of the found row's transfer are the user's.
  same_user :
      (t : Transaction)
      → found ≡ some t
      → All
          (λ x. null_eq x.transfer_group_id t.transfer_group_id ≡ true → x.user_id ≡ u)
          w.transactions
  same_user t e = elim (Option-cases t.transfer_group_id) [
    | inl single ↦
        All-of (λ x yes. absurd (ground (arith, null_eq-none x.transfer_group_id, single, yes)))
          w.transactions
    | inr (g, grouped) ↦
        let users = group_users (keep (in_group g) w.transactions) (h.transfers g) in
        let members = All-unkeep _ (in_group g) w.transactions users.1 in
        let of_t : t.user_id ≡ users.0 =
          find?-All _ asked w.transactions members e (rw grouped (ground arith)) in
        let mine : t.user_id ≡ u = ground (arith, find?-holds asked w.transactions e) in
        All-map (λ x m yes. m (rw grouped at yes) ∙ sym of_t ∙ mine) w.transactions members
  ]

  alike :
      (t x : Transaction)
      → asked t ≡ true
      → (x.id ≡ t.id → x ≡ t)
      → (null_eq x.transfer_group_id t.transfer_group_id ≡ true → x.user_id ≡ u)
      → not (is_deleted i u t.transfer_group_id x) ≡ not (goes_with t x)
  alike t x is_t one mine = elim (Bool-cases (x.id == t.id)) [
    | inl e ↦
        let it : x.user_id ≡ t.user_id = ap (λ y. y.user_id) (one (ground arith)) in
        ground (arith, it)
    | inr e ↦ elim (Bool-cases (null_eq x.transfer_group_id t.transfer_group_id)) [
      | inl m ↦ ground (arith, mine m)
      | inr m ↦ ground arith
    ]
  ]

  gone_with :
      (t : Transaction)
      → found ≡ some t
      → All (λ x. not (is_deleted i u t.transfer_group_id x) ≡ not (goes_with t x)) w.transactions
  gone_with t e =
      let is_t : asked t ≡ true = find?-holds asked w.transactions e in
      All-map (λ x f. alike t x is_t f.0 f.1) w.transactions
        (All-both _ _ w.transactions
          (only_key transaction_key asked t w.transactions h.transactions_keyed e) (same_user t e))

  -- In a consistent ledger the service deletes the user's transaction of that id and every other row of
  -- its transfer, and nothing else. Without such a transaction it raises TransactionNotFoundError and
  -- deletes nothing.
  pub delete_transaction-deletion : delete_transaction i u w ≡ deletion w found
  unfolding delete_transaction
  delete_transaction-deletion = elim (Option-cases found) [
    | inl e ↦
        let spared = is_deleted i u none in
        let nobody : any spared w.transactions ≡ false =
          none_pass spared w.transactions (none_gone e) in
        let all_stay : keep (λ t. not (spared t)) w.transactions ≡ w.transactions =
          keep_all _ w.transactions (All-map (λ t no. ap not no) w.transactions (none_gone e)) in
        rw (e, nobody, all_stay) refl
    | inr (t, e) ↦
        let doomed = is_deleted i u t.transfer_group_id in
        let somebody : any doomed w.transactions ≡ true =
          any_found doomed asked w.transactions e
            (ground (arith, find?-holds asked w.transactions e)) in
        let stay : keep (λ x. not (doomed x)) w.transactions
            ≡ keep (λ x. not (goes_with t x)) w.transactions =
          keep-ext _ _ w.transactions (gone_with t e) in
        rw (e, somebody, stay) refl
  ]
