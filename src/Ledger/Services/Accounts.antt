-- ===== src/Ledger/Services/Accounts.antt =====
-- ledger/services/accounts.py. `fold` is the case folding of CITEXT, `now` the clock's reading.
use tradinghub.Base.{
  ℕ, pos, String, Bool, true, false, not, ◌&&◌, Option, none, some, List, ◌==◌, any, or_else,
  if◌then◌else◌,
}
use tradinghub.Sql.{update}
use tradinghub.Core.Errors.{ok, err, integrity_error, account_not_found, account_name_taken}
use tradinghub.Core.Database.{Action, pure, raise, except_integrity, ◌>>=◌, ◌>>◌}
use tradinghub.Ledger.Models.{Account}
use tradinghub.Ledger.Schemas.{AccountCreate, AccountUpdate}
use tradinghub.Ledger.Crud.Accounts as Crud
use tradinghub.Ledger.Crud.Accounts.{AccountWithBalance, names_clash}

unfoldable pub create_account : (String → String) → ℕ → AccountCreate → Action AccountWithBalance
unfolding Crud.create_account
create_account fold user_id details = do
  account ←
      except_integrity (Crud.create_account fold user_id details.name details.unit details.type)
        account_name_taken
  pure (record { account = account; balance = pos 0 })

abbrev pub or_not_found : Option AccountWithBalance → Action AccountWithBalance
or_not_found none = raise account_not_found
or_not_found (some a) = pure a

unfoldable pub get_account : ℕ → ℕ → Action AccountWithBalance
get_account account_id user_id = do
  found ← Crud.get_account_with_balance account_id user_id
  or_not_found found

-- `if changes.archived is False … elif changes.archived and account.archived_at is None`
abbrev pub archive : Option Bool → ℕ → Option ℕ → Option ℕ
archive (some false) now at = none
archive (some true) now none = some now
archive (some true) now (some at) = some at
archive none now at = at

unfoldable pub changed : AccountUpdate → ℕ → Account → Account
changed u now a = record a {
  name = or_else u.name a.name;
  unit = or_else u.unit a.unit;
  type = or_else u.type a.type;
  archived_at = archive u.archived now a.archived_at;
}

-- Another row of the same user holds the name.
abbrev pub clashes_with_other : (String → String) → Account → List Account → Bool
clashes_with_other fold a = any (λ x. not (x.id == a.id) && names_clash fold a x)

unfoldable pub flush_account : (String → String) → Account → Action (Unit {0})
unfolding update
flush_account fold a w =
    if clashes_with_other fold a w.accounts then (err integrity_error, w) else (
      ok tt,
      record w {
        current = record w.current { accounts = update (λ (x : Account). x.id) a w.accounts };
      },
    )

unfoldable pub update_account :
    (String → String) → ℕ → ℕ → ℕ → AccountUpdate → Action AccountWithBalance
unfolding changed flush_account
update_account fold now account_id user_id changes = do
  account_with_balance ← get_account account_id user_id
  let account = changed changes now account_with_balance.account
  except_integrity (flush_account fold account) account_name_taken
  pure (record account_with_balance { account = account })
