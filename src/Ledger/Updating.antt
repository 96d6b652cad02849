-- ===== src/Ledger/Updating.antt =====
-- What update_account makes of an account, and what stands in its way (ledger/services/accounts.py).
use tradinghub.Base.{
  ℕ, String, Bool, true, false, not, ◌&&◌, Option, none, some, or_else, List, ◌==◌, ◌≡◌, refl, inl,
  inr, Bool-cases, find?, any, if◌then◌else◌,
}
use tradinghub.Sql.Rows.{Keyed}
use tradinghub.Sql.{update}
use tradinghub.Core.Errors.{ok, err, app_error, account_not_found, account_name_taken}
use tradinghub.Core.Database.{Work}
use tradinghub.Ledger.Models.{Account}
use tradinghub.Ledger.Schemas.{AccountUpdate}
use tradinghub.Ledger.Crud.Accounts.{is_account, names_clash}
use tradinghub.Ledger.Services.Accounts.{update_account, changed, archive}
use tradinghub.Ledger.Balances.{account_number, get_account_lem, with_balance}

-- The new row: a field that was sent has its new value, and the others their old ones. An account that
-- is archived keeps the date at which it first was, and one that is restored has none.
pub record Updated (changes : AccountUpdate) (now : ℕ) (old new : Account) : Type 0 where
  pub id : new.id ≡ old.id
  pub user_id : new.user_id ≡ old.user_id
  pub name : new.name ≡ or_else changes.name old.name
  pub unit : new.unit ≡ or_else changes.unit old.unit
  pub type : new.type ≡ or_else changes.type old.type
  pub archived : changes.archived ≡ some true → new.archived_at ≡ some (or_else old.archived_at now)
  pub restored : changes.archived ≡ some false → new.archived_at ≡ none
  pub left : changes.archived ≡ none → new.archived_at ≡ old.archived_at

-- Whether the user has another account of that name.
abbrev pub is_name_taken : (String → String) → Account → List Account → Bool
is_name_taken fold new accounts = any (λ x. not (x.id == new.id) && names_clash fold new x) accounts

abbrev pub with_account : Work → Account → Work
with_account w a = record w {
  current = record w.current { accounts = update account_number a w.accounts };
}

archive-archived :
    (o : Option Bool) (now : ℕ) (at : Option ℕ)
    → o ≡ some true
    → archive o now at ≡ some (or_else at now)
archive-archived none now at e = cc
archive-archived (some false) now at e = cc
archive-archived (some true) now none e = refl
archive-archived (some true) now (some t) e = refl

archive-restored :
    (o : Option Bool) (now : ℕ) (at : Option ℕ) → o ≡ some false → archive o now at ≡ none
archive-restored none now at e = cc
archive-restored (some false) now at e = refl
archive-restored (some true) now at e = cc

archive-left : (o : Option Bool) (now : ℕ) (at : Option ℕ) → o ≡ none → archive o now at ≡ at
archive-left none now at e = refl
archive-left (some b) now at e = cc

changed-Updated :
    (changes : AccountUpdate) (now : ℕ) (old : Account)
    → Updated changes now old (changed changes now old)
unfolding changed
changed-Updated changes now old = record {
  id = refl;
  user_id = refl;
  name = refl;
  unit = refl;
  type = refl;
  archived = archive-archived changes.archived now old.archived_at;
  restored = archive-restored changes.archived now old.archived_at;
  left = archive-left changes.archived now old.archived_at;
}

module _ (fold : String → String) (now i u : ℕ) (changes : AccountUpdate) (w : Work)
    (keyed : Keyed account_number w.accounts) where
  -- Where account ids are distinct, changes of an account that the user does not have are refused, and
  -- so are those that would give it the name of another account of the user, without a change; all
  -- others replace its row, and only its row, by one with the sent fields and the old ones elsewhere,
  -- and answer with it and its balance.
  pub update_account-Updated :
      (find? (is_account i u) w.accounts ≡ none
        → update_account fold now i u changes w ≡ (err (app_error account_not_found), w))
      × ((old : Account)
          → find? (is_account i u) w.accounts ≡ some old
          → (new : Account) × Updated changes now old new
            × (update_account fold now i u changes w ≡ (
                if is_name_taken fold new w.accounts
                then (err (app_error account_name_taken), w)
                else (
                  ok (record {
                    account = new;
                    balance = (with_balance w.transactions old).balance;
                  }),
                  with_account w new,
                ))))
  unfolding update_account with_balance
  update_account-Updated = (
    λ missing. rw (get_account_lem i u w keyed, missing) refl,
    λ old found.
        let new = changed changes now old in
        (
          new,
          changed-Updated changes now old,
          elim (Bool-cases (is_name_taken fold new w.accounts)) [
            | inl taken ↦ rw (get_account_lem i u w keyed, found, taken) refl
            | inr free ↦ rw (get_account_lem i u w keyed, found, free) refl
          ],
        ),
  )
