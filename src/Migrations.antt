-- ===== src/Migrations.antt =====
-- The revisions of alembic/versions as one chain: a database goes up to the next or down to the last.
pub mod Versions
pub mod Metadata
pub mod Comparison
pub mod Stages
pub mod Chain
mod Tests
use tradinghub.Base.{
  String, Bool, true, false, Option, none, some, List, [], ◌∷◌, find?, same_text, ◌≡◌, ◌⊎◌, map,
}
use tradinghub.Sql.Schema.{Schema, Statement, Table, Index, empty_schema, execute_all}
use tradinghub.Migrations.Versions.{
  Revision, create_users_table, add_sessions_table, add_accounts_and_transactions,
  index_transactions_by_account, drop_transfer_group_id, restore_transfer_group_id,
}

unfoldable pub revisions : List Revision
revisions =
    create_users_table ∷ add_sessions_table ∷ add_accounts_and_transactions
    ∷ index_transactions_by_account ∷ drop_transfer_group_id ∷ restore_transfer_group_id ∷ []

-- A database: the row of alembic_version, if there is one, and the schema.
pub record Deployment : Type 0 where
  pub version : Option String
  pub schema : Schema

abbrev same_version : Option String → Option String → Bool
same_version none none = true
same_version (some a) (some b) = same_text a b
same_version _ _ = false

abbrev migrated : Option String → Option Schema → Option Deployment
migrated version none = none
migrated version (some schema) = some (record { version = version; schema = schema })

-- The revision that comes after a version, and the one of a version.
abbrev pub next_revision : Option String → Option Revision
unfolding revisions
next_revision version = find? (λ r. same_version r.down_revision version) revisions

abbrev pub get_revision : Option String → Option Revision
unfolding revisions
get_revision version = find? (λ r. same_version (some r.revision) version) revisions

abbrev pub run_upgrade : Schema → Option Revision → Option Deployment
unfolding execute_all
run_upgrade s none = none
run_upgrade s (some r) = migrated (some r.revision) (execute_all r.upgrade s)

abbrev pub run_downgrade : Schema → Option Revision → Option Deployment
unfolding execute_all
run_downgrade s none = none
run_downgrade s (some r) = migrated r.down_revision (execute_all r.downgrade s)

-- One step up or down; `none` at the end of the chain, and if a statement fails.
unfoldable pub upgrade_once : Deployment → Option Deployment
upgrade_once d = run_upgrade d.schema (next_revision d.version)

unfoldable pub downgrade_once : Deployment → Option Deployment
downgrade_once d = run_downgrade d.schema (get_revision d.version)
