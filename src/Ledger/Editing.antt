-- ===== src/Ledger/Editing.antt =====
-- What update_transaction of ledger/services/transactions.py makes of a transaction.
use mathlib.Core.Path.{subst}
use tradinghub.Base.{
  ℕ, ℤ, neg, abs, String, Bool, true, false, ◌||◌, none, some, ◌≡◌, refl, ap, ◌∙◌, arith, find?,
  sym, Option, find?-All, if◌then◌else◌,
}
use tradinghub.Sql.{update}
use tradinghub.Core.Errors.{ok}
use tradinghub.Core.Database.{Work}
use tradinghub.Ledger.Models.{Transaction, TransactionKind, income, expense, transfer}
use tradinghub.Ledger.Schemas.{
  given, for_value, TransactionUpdate, Sent, unset, null, value, is_amount, accepts_update,
}
use tradinghub.Ledger.Crud.Transactions.{is_transaction}
use tradinghub.Ledger.Services.Transactions.{
  signed, patched, null_left, set_required, set_nullable, update_transaction, amount_or, kind_or,
}
use tradinghub.Ledger.Consistent.{IsConsistent, HasSign, transaction_key}
use tradinghub.Ledger.Consistent.Services.{patched-HasSign}

-- A required field after the update: the value that was sent, or the old one. A null is never accepted.
abbrev pub Takes : {A : Type 0} → Sent A → A → A → Type 0
Takes unset old new = (new ≡ old)
Takes null old new = (new ≡ old)
Takes (value a) old new = (new ≡ a)

-- A nullable field after the update: the value that was sent, nothing for a null, or the old one.
abbrev pub TakesOrClears : {A : Type 0} → Sent A → Option A → Option A → Type 0
TakesOrClears unset old new = (new ≡ old)
TakesOrClears null old new = (new ≡ none)
TakesOrClears (value a) old new = (new ≡ some a)

-- The new row: a field that was sent has its new value, a null clears the category and the note, a
-- field that was not sent has its old value, the amount has the sent magnitude or the old one, and the
-- sign of the new kind.
pub record Edited (changes : TransactionUpdate) (old new : Transaction) : Type 0 where
  pub id : new.id ≡ old.id
  pub user_id : new.user_id ≡ old.user_id
  pub account_id : new.account_id ≡ old.account_id
  pub transfer_group_id : new.transfer_group_id ≡ old.transfer_group_id
  pub kind : Takes changes.kind old.kind new.kind
  pub magnitude : Takes changes.amount (abs old.amount) (abs new.amount)
  pub sign : HasSign new.kind new.amount
  pub category : TakesOrClears changes.category old.category new.category
  pub occurred_at : Takes changes.occurred_at old.occurred_at new.occurred_at
  pub note : TakesOrClears changes.note old.note new.note

set_required-Takes : {A : Type 0} (sent : Sent A) (old : A) → Takes sent old (set_required sent old)
set_required-Takes unset old = refl
set_required-Takes null old = refl
set_required-Takes (value a) old = refl

set_nullable-TakesOrClears :
    {A : Type 0} (sent : Sent A) (old : Option A) → TakesOrClears sent old (set_nullable sent old)
set_nullable-TakesOrClears unset old = refl
set_nullable-TakesOrClears null old = refl
set_nullable-TakesOrClears (value a) old = refl

abs-signed : (a : ℤ) (k : TransactionKind) → abs (signed a k) ≡ abs a
unfolding abs signed neg
abs-signed a income = refl
abs-signed a transfer = refl
abs-signed a expense = ground arith

abs-abs : (a : ℤ) → abs (abs a) ≡ abs a
unfolding abs
abs-abs a = ground arith

abs-pos : (a : ℤ) → is_amount a ≡ true → abs a ≡ a
unfolding abs is_amount
abs-pos a h = ground arith

amount_or-pos : (a d : ℤ) → is_amount a ≡ true → amount_or (value a) d ≡ a
unfolding is_amount
amount_or-pos a d h = ground arith

edited_magnitude :
    (a : Sent ℤ) (kind_given : Bool) (k : TransactionKind) (old : ℤ)
    → for_value a is_amount ≡ true
    → abs (if given a || kind_given then signed (amount_or a (abs old)) k else old)
      ≡ set_required a (abs old)
edited_magnitude unset true k old h = abs-signed (abs old) k ∙ abs-abs old
edited_magnitude unset false k old h = refl
edited_magnitude null true k old h = abs-signed (abs old) k ∙ abs-abs old
edited_magnitude null false k old h = refl
edited_magnitude (value a) g k old h =
    abs-signed (amount_or (value a) (abs old)) k
    ∙ ap abs (amount_or-pos a (abs old) h)
    ∙ abs-pos a h

patched_magnitude :
    (changes : TransactionUpdate) (t : Transaction)
    → accepts_update changes ≡ true
    → abs (patched changes t).amount ≡ set_required changes.amount (abs t.amount)
unfolding patched accepts_update
patched_magnitude changes t h =
    edited_magnitude changes.amount (given changes.kind) (kind_or changes.kind t.kind) t.amount
      (ground arith)

pub null_left-accepted :
    (changes : TransactionUpdate) → accepts_update changes ≡ true → null_left changes ≡ false
unfolding accepts_update
null_left-accepted changes h = ground arith

module _ (fold : String → String) (i u : ℕ) (w : Work)
    (h : IsConsistent fold w.current w.serials) where
  -- From a consistent ledger, accepted changes of a transaction of the user that is no part of a
  -- transfer replace its row, and only its row, by one in which what was sent is taken, what was not
  -- sent is kept, a null clears the category or the note, and the sign is that of the kind.
  pub update_transaction-Edited :
      (changes : TransactionUpdate) (old : Transaction)
      → accepts_update changes ≡ true
      → find? (is_transaction i u) w.transactions ≡ some old
      → old.transfer_group_id ≡ none
      → (new : Transaction) × Edited changes old new
        × (update_transaction i u changes w ≡ (
          ok new,
          record w {
            current = record w.current { transactions = update transaction_key new w.transactions };
          },
        ))
  unfolding update_transaction
  update_transaction-Edited changes old accepted found alone = (
    patched changes old,
    record {
      id = refl;
      user_id = refl;
      account_id = refl;
      transfer_group_id = refl;
      kind = set_required-Takes changes.kind old.kind;
      magnitude =
          subst (Takes changes.amount (abs old.amount))
            (sym (patched_magnitude changes old accepted))
            (set_required-Takes changes.amount (abs old.amount));
      sign =
          patched-HasSign changes old accepted
            (find?-All _ (is_transaction i u) w.transactions h.signed found);
      category = set_nullable-TakesOrClears changes.category old.category;
      occurred_at = set_required-Takes changes.occurred_at old.occurred_at;
      note = set_nullable-TakesOrClears changes.note old.note;
    },
    rw (found, alone, null_left-accepted changes accepted) refl,
  )
