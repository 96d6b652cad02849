-- ===== src/Ledger/Consistent/Services.antt =====
-- Each service that writes keeps the tables consistent, and every other user's rows.
use tradinghub.Base.{
  find?-All, any-find?, is_some, ℕ, ℤ, pos, neg_parts, abs, int_laws, ◌≤ℤ◌, String, true, false,
  none, [], ◌∷◌, ◌++◌, ◌≡◌, refl, sym, ◌∙◌, inl, inr, arith, Bool-cases, Option-cases, keep, find?,
  keep-append,
}
use tradinghub.Sql.Group.{keep_none}
use mathlib.Core.List.{append-nil}
use tradinghub.Core.Database.{Work}
use tradinghub.Ledger.Models.{Account, Transaction, TransactionKind, income, expense, transfer}
use tradinghub.Ledger.Schemas.{
  accepts_update, accepts_create, AccountCreate, AccountUpdate, TransactionCreate,
  TransactionUpdate, Sent, value, is_amount,
}
use tradinghub.Ledger.Crud.Accounts.{account_allowed, is_account}
use tradinghub.Ledger.Crud.Transactions.{owns_account, is_transaction}
use tradinghub.Ledger.Services.Accounts as AccountService
use tradinghub.Ledger.Services.Transactions as TransactionService
use tradinghub.Ledger.Services.Transactions.{signed, patched, null_left}
use tradinghub.Ledger.Balances.{get_account_lem, with_balance}
use tradinghub.Ledger.Consistent.{HasSign, IsConsistent, Kept, in_group, IsTransfer}
use tradinghub.Ledger.Consistent.Rows.{Kept-refl, Kept-serials, Kept-rows}
use tradinghub.Ledger.Consistent.Transactions.{Kept-update, Kept-delete}
use tradinghub.Ledger.Consistent.Accounts.{Kept-account, Kept-account_update}

module _ (fold : String → String) (u : ℕ) (w : Work)
    (h : IsConsistent fold w.current w.serials) where
  pub create_account-Kept :
      (details : AccountCreate) → Kept fold u w (AccountService.create_account fold u details w).1
  unfolding AccountService.create_account
  create_account-Kept details =
      let a : Account = record {
        id = w.serials.account_serial;
        user_id = u;
        name = details.name;
        unit = details.unit;
        type = details.type;
        archived_at = none;
      } in
      elim (Bool-cases (account_allowed fold w.current a)) [
        | inl e ↦ rw e (Kept-account fold u w h a refl refl (ground arith))
        | inr e ↦ rw e (Kept-serials fold u w _ (omega arith) (omega arith) refl refl h)
      ]

  pub delete_transaction-Kept :
      (i : ℕ) → Kept fold u w (TransactionService.delete_transaction i u w).1
  unfolding TransactionService.delete_transaction
  delete_transaction-Kept i = Kept-delete fold u i w h

  pub update_account-Kept :
      (now i : ℕ) (changes : AccountUpdate)
      → Kept fold u w (AccountService.update_account fold now i u changes w).1
  unfolding AccountService.update_account with_balance
  update_account-Kept now i changes = elim (Option-cases (find? (is_account i u) w.accounts)) [
    | inl missing ↦ rw (get_account_lem i u w h.accounts_keyed, missing) (Kept-refl fold u w h)
    | inr (old, found) ↦
        let new = AccountService.changed changes now old in
        elim (Bool-cases (AccountService.clashes_with_other fold new w.accounts)) [
          | inl e ↦ rw (get_account_lem i u w h.accounts_keyed, found, e) (Kept-refl fold u w h)
          | inr e ↦
              rw (get_account_lem i u w h.accounts_keyed, found, e)
                (Kept-account_update fold u w h i old new found refl refl e)
        ]
  ]

-- A positive amount has the sign of its kind, once `_signed` has seen it.
pub signed-HasSign : (a : ℤ) (k : TransactionKind) → pos 1 ≤ℤ a → HasSign k (signed a k)
unfolding signed
signed-HasSign a income h = h
signed-HasSign a expense h = omega (int_laws, neg_parts a)
signed-HasSign a transfer h = inl h

-- The amount that a field of an update holds.
abbrev amount_of : Sent ℤ → ℤ
amount_of (value a) = a
amount_of _ = pos 0

-- The magnitude that an update signs: a new amount, or the size of a stored one.
magnitude_pos : (k : TransactionKind) (a : ℤ) → HasSign k a → pos 1 ≤ℤ abs a
unfolding abs
magnitude_pos income a h = omega arith
magnitude_pos expense a h = omega arith
magnitude_pos transfer a h = omega arith

pub is_amount-pos : (a : ℤ) → is_amount a ≡ true → pos 1 ≤ℤ a
unfolding is_amount
is_amount-pos a h = ground arith

pub patched-HasSign :
    (changes : TransactionUpdate) (t : Transaction)
    → accepts_update changes ≡ true
    → HasSign t.kind t.amount
    → HasSign (patched changes t).kind (patched changes t).amount
unfolding patched accepts_update
patched-HasSign changes t ok h = ground (
  arith,
  magnitude_pos t.kind t.amount h,
  is_amount-pos (amount_of changes.amount),
  signed-HasSign (amount_of changes.amount) (TransactionService.kind_or changes.kind t.kind),
  signed-HasSign (abs t.amount) (TransactionService.kind_or changes.kind t.kind),
)

accepts_create-pos : (d : TransactionCreate) → accepts_create d ≡ true → pos 1 ≤ℤ d.amount
unfolding accepts_create
accepts_create-pos d h = is_amount-pos d.amount (ground arith)

module _ (fold : String → String) (u : ℕ) (w : Work)
    (h : IsConsistent fold w.current w.serials) where
  -- A row of no transfer adds nothing to a group.
  no_new_member :
      (g : ℕ) (t : Transaction)
      → t.transfer_group_id ≡ none
      → IsTransfer (keep (in_group g) (w.transactions ++ t ∷ []))
  no_new_member g t alone =
      rw
        (
          keep-append (in_group g) w.transactions (t ∷ []),
          keep_none (in_group g) (t ∷ []) (rw alone, tt),
          append-nil,
        )
        (h.transfers g)

  pub create_transaction-Kept :
      (details : TransactionCreate)
      → accepts_create details ≡ true
      → Kept fold u w (TransactionService.create_transaction u details w).1
  unfolding TransactionService.create_transaction
  create_transaction-Kept details accepted =
      elim (Bool-cases (owns_account w.accounts details.account_id u)) [
        | inl owned ↦
            let known : is_some (find? (is_account details.account_id u) w.accounts) ≡ true =
              sym (any-find? (is_account details.account_id u) w.accounts) ∙ owned in
            rw (known, owned)
              (Kept-rows fold u (TransactionService.new_transaction u details ∷ []) w h (refl, tt)
                (owned, tt)
                (
                  signed-HasSign details.amount details.kind (accepts_create-pos details accepted),
                  tt,
                )
                (λ g. no_new_member g _ refl))
        | inr not_owned ↦
            let unknown : is_some (find? (is_account details.account_id u) w.accounts) ≡ false =
              sym (any-find? (is_account details.account_id u) w.accounts) ∙ not_owned in
            rw unknown (Kept-refl fold u w h)
      ]

  pub update_transaction-Kept :
      (i : ℕ) (changes : TransactionUpdate)
      → accepts_update changes ≡ true
      → Kept fold u w (TransactionService.update_transaction i u changes w).1
  unfolding TransactionService.update_transaction
  update_transaction-Kept i changes accepted =
      elim (Option-cases (find? (is_transaction i u) w.transactions)) [
        | inl missing ↦ rw missing (Kept-refl fold u w h)
        | inr (old, found) ↦ elim (Option-cases old.transfer_group_id) [
          | inr (g, grouped) ↦
              let in_transfer : is_some old.transfer_group_id ≡ true = rw grouped in
              rw (found, in_transfer) (Kept-refl fold u w h)
          | inl alone ↦
              let lone : is_some old.transfer_group_id ≡ false = rw alone in
              elim (Bool-cases (null_left changes)) [
                | inl e ↦ rw (found, lone, e) (Kept-refl fold u w h)
                | inr e ↦
                    rw (found, lone, e)
                      (Kept-update fold u i w h old (patched changes old) found alone refl refl refl
                        alone
                        (patched-HasSign changes old accepted
                          (find?-All _ (is_transaction i u) w.transactions h.signed found)))
              ]
        ]
      ]
