-- ===== src/Ledger/Consistent/Transactions.antt =====
-- An UPDATE and a DELETE of transactions keep the tables consistent and other users' rows.
use tradinghub.Base.{
  keep_swap, ℕ, zero, ◌<◌, String, Bool, true, false, not, ◌&&◌, Option, none, some, List, [], ◌∷◌,
  ◌≡◌, refl, sym, ◌∙◌, inl, inr, arith, ◌==◌, Bool-cases, keep, find?, find?-All, find?-holds, All,
  All-map, All-keep, Pairwise-keep, keep-ext, keep-keep, All-of, All-both, Option-cases,
}
use tradinghub.Sql.Search.{find?-keep}
use tradinghub.Sql.{update, null_eq}
use tradinghub.Sql.Rows.{All-update, Keyed-update, keep-update}
use tradinghub.Sql.Group.{keep_none, keep_all}
use tradinghub.Core.Database.{Work}
use tradinghub.Ledger.Models.{Transaction}
use tradinghub.Ledger.Crud.Transactions.{owns_account, is_transaction, target_group, is_deleted}
use tradinghub.Ledger.Consistent.{
  transaction_key, in_group, HasSign, IsTransfer, IsConsistent, Kept,
}
use tradinghub.Sql.Search.{keep-holds-test, keep-holds, found_only}

is_transaction-key : (i u : ℕ) (t : Transaction) → is_transaction i u t ≡ true → t.id ≡ i
is_transaction-key i u t h = ground arith

is_transaction-owner : (i u : ℕ) (t : Transaction) → is_transaction i u t ≡ true → t.user_id ≡ u
is_transaction-owner i u t h = ground arith

-- The rows of a transfer belong to one user.
pub group_users : (ts : List Transaction) → IsTransfer ts → (o : ℕ) × All (λ t. t.user_id ≡ o) ts
group_users [] h = (zero, tt)
group_users (out ∷ []) h = elim h [ ]
group_users (out ∷ into ∷ []) h = (out.user_id, (refl, (h.4, tt)))
group_users (out ∷ into ∷ fee ∷ []) h = (out.user_id, (refl, (h.4, (h.7.1, tt))))
group_users (out ∷ into ∷ fee ∷ more ∷ ts) h = elim (h.7) [ ]

module _ (fold : String → String) (u i : ℕ) (w : Work)
    (h : IsConsistent fold w.current w.serials) where
  abbrev pub with_update : Transaction → Work
  with_update t = record w {
    current = record w.current { transactions = update transaction_key t w.transactions };
  }

  -- A row of no transfer that the user's search finds is replaced by a row of the same id, user and
  -- account, of no transfer, with the right sign.
  pub Kept-update :
      (old new : Transaction)
      → find? (is_transaction i u) w.transactions ≡ some old
      → old.transfer_group_id ≡ none
      → new.id ≡ old.id
      → new.user_id ≡ old.user_id
      → new.account_id ≡ old.account_id
      → new.transfer_group_id ≡ none
      → HasSign new.kind new.amount
      → Kept fold u w (with_update new)
  Kept-update old new found no_group same_id same_user same_account still_none sign =
      let found_it : is_transaction i u old ≡ true =
        find?-holds (is_transaction i u) w.transactions found in
      let mine : old.user_id ≡ u = is_transaction-owner i u old found_it in
      let key : old.id ≡ i = is_transaction-key i u old found_it in
      let owned : owns_account w.accounts old.account_id old.user_id ≡ true =
        find?-All _ (is_transaction i u) w.transactions h.owned found in
      let below : old.id < w.serials.transaction_serial =
        find?-All _ (is_transaction i u) w.transactions h.transactions_numbered found in
      record {
        consistent = record {
          accounts_keyed = h.accounts_keyed;
          accounts_numbered = h.accounts_numbered;
          names = h.names;
          transactions_keyed = Keyed-update transaction_key new w.transactions h.transactions_keyed;
          transactions_numbered =
              All-update transaction_key _ new w.transactions (omega arith) h.transactions_numbered;
          owned =
              All-update transaction_key _ new w.transactions (rw (same_user, same_account) owned)
                h.owned;
          signed = All-update transaction_key _ new w.transactions sign h.signed;
          transfers = λ g.
              rw
                (keep-update transaction_key (in_group g) (is_transaction i u) i old new
                  w.transactions h.transactions_keyed (is_transaction-key i u) found (same_id ∙ key)
                  (rw no_group) (rw still_none))
                (h.transfers g);
        };
        accounts_grow = omega arith;
        transactions_grow = omega arith;
        users_serial = refl;
        sessions_serial = refl;
        committed = refl;
        others = record {
          users = refl;
          sessions = refl;
          accounts = refl;
          transactions =
              keep-update transaction_key (λ t. not (t.user_id == u)) (is_transaction i u) i old new
                w.transactions h.transactions_keyed (is_transaction-key i u) found (same_id ∙ key)
                (ground arith) (ground arith);
        };
      }

  abbrev target : Option ℕ
  target = target_group i u w.transactions

  abbrev deleted : Transaction → Bool
  deleted = is_deleted i u target

  abbrev pub with_delete : Work
  with_delete = record w {
    current = record w.current { transactions = keep (λ t. not (deleted t)) w.transactions };
  }

  deleted_only_mine :
      (t : Transaction) → (not (deleted t) && not (t.user_id == u)) ≡ not (t.user_id == u)
  deleted_only_mine t = ground arith

  -- A row of a group that is not the target stays: were it the row asked for, its group would be.
  spared :
      (g : ℕ) (t : Transaction)
      → null_eq (some g) target ≡ false
      → in_group g t ≡ true
      → (is_transaction i u t ≡ true → find? (is_transaction i u) w.transactions ≡ some t)
      → not (deleted t) ≡ true
  spared g t other member only = elim (Bool-cases (is_transaction i u t)) [
    | inl asked ↦ absurd (ground (arith, only asked))
    | inr not_asked ↦ ground arith
  ]

  dropped :
      (g : ℕ) (t : Transaction)
      → target ≡ some g
      → in_group g t ≡ true
      → t.user_id ≡ u
      → not (deleted t) ≡ false
  dropped g t e member mine = ground arith

  abbrev pack : ℕ → List Transaction
  pack g = keep (in_group g) w.transactions

  group_spared :
      (g : ℕ) → null_eq (some g) target ≡ false → IsTransfer (keep (λ t. not (deleted t)) (pack g))
  group_spared g other =
      rw
        (keep_all (λ t. not (deleted t)) (pack g)
          (All-map (λ t f. spared g t other f.0 f.1) (pack g)
            (keep-holds _ (in_group g) w.transactions (
              found_only transaction_key (is_transaction i u) i w.transactions h.transactions_keyed
                (is_transaction-key i u)))))
        (h.transfers g)

  group_dropped :
      (g : ℕ) (t : Transaction)
      → find? (is_transaction i u) w.transactions ≡ some t
      → t.transfer_group_id ≡ some g
      → IsTransfer (keep (λ t. not (deleted t)) (pack g))
  group_dropped g t found member =
      let (o, same) = group_users (pack g) (h.transfers g) in
      let mine : t.user_id ≡ u =
        is_transaction-owner i u t (find?-holds (is_transaction i u) w.transactions found) in
      let its : t.user_id ≡ o =
        find?-All _ (is_transaction i u) (pack g) same
          (find?-keep (in_group g) (is_transaction i u) w.transactions found (ground arith)) in
      let aimed : target ≡ some g = rw found member in
      let members : All (λ x. (in_group g x ≡ true) × (x.user_id ≡ o)) (pack g) =
        All-both _ _ (pack g) (keep-holds-test (in_group g) w.transactions) same in
      rw
        (keep_none (λ t. not (deleted t)) (pack g)
          (All-map (λ x f. dropped g x aimed f.0 (f.1 ∙ sym its ∙ mine)) (pack g) members))
        tt

  -- A group loses all its rows or none.
  group_whole : (g : ℕ) → IsTransfer (keep (λ t. not (deleted t)) (pack g))
  group_whole g = elim (Bool-cases (null_eq (some g) target)) [
    | inr other ↦ group_spared g other
    | inl aimed ↦ elim (Option-cases (find? (is_transaction i u) w.transactions)) [
      | inl nothing ↦ absurd (ground arith)
      | inr (t, found) ↦ group_dropped g t found (ground arith)
    ]
  ]

  pub Kept-delete : Kept fold u w with_delete
  Kept-delete =
      let kept : Transaction → Bool = λ t. not (deleted t) in
      record {
        consistent = record {
          accounts_keyed = h.accounts_keyed;
          accounts_numbered = h.accounts_numbered;
          names = h.names;
          transactions_keyed = Pairwise-keep _ kept w.transactions h.transactions_keyed;
          transactions_numbered = All-keep _ kept w.transactions h.transactions_numbered;
          owned = All-keep _ kept w.transactions h.owned;
          signed = All-keep _ kept w.transactions h.signed;
          transfers = λ g. rw (keep_swap (in_group g) kept w.transactions) (group_whole g);
        };
        accounts_grow = omega arith;
        transactions_grow = omega arith;
        users_serial = refl;
        sessions_serial = refl;
        committed = refl;
        others = record {
          users = refl;
          sessions = refl;
          accounts = refl;
          transactions =
              keep-keep (λ t. not (t.user_id == u)) kept w.transactions
              ∙ keep-ext _ _ w.transactions (All-of deleted_only_mine w.transactions);
        };
      }
