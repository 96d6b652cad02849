-- ===== src/Migrations/Stages.antt =====
-- The ten states that the migrations can leave a database in, and what each step makes of them.
use tradinghub.Base.{String, true, false, Option, none, some, List, [], ◌∷◌, ◌++◌, ◌≡◌, refl}
use tradinghub.Sql.Schema.{
  uuid, Table, Index, Schema, empty_schema, without_column, execute, execute_all,
}
use tradinghub.Migrations.{Deployment, revisions, upgrade_once, downgrade_once}
use tradinghub.Migrations.Versions.{
  optional, index, users_table, sessions_table, accounts_table, transactions_table,
}

-- A downgrade keeps the extension, and returns a dropped column at the end of its table.
pub data Stage : Type 0 where
  nothing emptied users_made sessions_made accounts_made accounts_remade : Stage
  indexed reindexed dropped restored : Stage

abbrev version_of : Stage → Option String
version_of nothing = none
version_of emptied = none
version_of users_made = some "155d0e9ee80f"
version_of sessions_made = some "0742d8e39597"
version_of accounts_made = some "badbca0b15e5"
version_of accounts_remade = some "badbca0b15e5"
version_of indexed = some "bfa69a57006e"
version_of reindexed = some "bfa69a57006e"
version_of dropped = some "79bce17ac2e6"
version_of restored = some "095fd0b06881"

-- The table of transactions after its column was dropped, and after it came back.
abbrev ungrouped_table : Table
ungrouped_table = without_column "transfer_group_id" transactions_table

abbrev regrouped_table : Table
regrouped_table = record ungrouped_table {
  columns = ungrouped_table.columns ++ (optional "transfer_group_id" uuid ∷ []);
}

abbrev session_indexes : List Index
session_indexes =
    index "ix_sessions_family_id" "sessions" ("family_id" ∷ []) false
    ∷ index "ix_sessions_hashed_refresh_token" "sessions" ("hashed_refresh_token" ∷ []) true
    ∷ []

abbrev listing_indexes : List Index
listing_indexes =
    session_indexes
    ++ (index "ix_transactions_user_id_occurred_at" "transactions" ("user_id" ∷ "occurred_at" ∷ [])
          false
        ∷ [])

abbrev all_made_indexes : List Index
all_made_indexes =
    listing_indexes
    ++ (index "ix_transactions_account_id" "transactions" ("account_id" ∷ []) false ∷ [])

abbrev schema : List Table → List Index → Schema
schema tables indexes = record { extensions = "citext" ∷ []; tables = tables; indexes = indexes }

abbrev ledger_schema : Table → List Index → Schema
ledger_schema t = schema (users_table ∷ sessions_table ∷ accounts_table ∷ t ∷ [])

abbrev schema_of : Stage → Schema
schema_of nothing = empty_schema
schema_of emptied = schema [] []
schema_of users_made = schema (users_table ∷ []) []
schema_of sessions_made = schema (users_table ∷ sessions_table ∷ []) session_indexes
schema_of accounts_made = ledger_schema transactions_table listing_indexes
schema_of accounts_remade = ledger_schema regrouped_table listing_indexes
schema_of indexed = ledger_schema transactions_table all_made_indexes
schema_of reindexed = ledger_schema regrouped_table all_made_indexes
schema_of dropped = ledger_schema ungrouped_table all_made_indexes
schema_of restored = ledger_schema regrouped_table all_made_indexes

abbrev pub at : Stage → Deployment
at g = record { version = version_of g; schema = schema_of g }

abbrev pub after_upgrade : Stage → Option Stage
after_upgrade nothing = some users_made
after_upgrade emptied = some users_made
after_upgrade users_made = some sessions_made
after_upgrade sessions_made = some accounts_made
after_upgrade accounts_made = some indexed
after_upgrade accounts_remade = some reindexed
after_upgrade indexed = some dropped
after_upgrade reindexed = some dropped
after_upgrade dropped = some restored
after_upgrade restored = none

abbrev pub after_downgrade : Stage → Option Stage
after_downgrade nothing = none
after_downgrade emptied = none
after_downgrade users_made = some emptied
after_downgrade sessions_made = some users_made
after_downgrade accounts_made = some sessions_made
after_downgrade accounts_remade = some sessions_made
after_downgrade indexed = some accounts_made
after_downgrade reindexed = some accounts_remade
after_downgrade dropped = some reindexed
after_downgrade restored = some dropped

abbrev pub at_stage : Option Stage → Option Deployment
at_stage none = none
at_stage (some g) = some (at g)

-- One step up from each of them, by running its statements.
upgrade_once-nothing : upgrade_once (at nothing) ≡ at_stage (after_upgrade nothing)
unfolding upgrade_once revisions execute_all execute
upgrade_once-nothing = refl

upgrade_once-emptied : upgrade_once (at emptied) ≡ at_stage (after_upgrade emptied)
unfolding upgrade_once revisions execute_all execute
upgrade_once-emptied = refl

upgrade_once-users_made : upgrade_once (at users_made) ≡ at_stage (after_upgrade users_made)
unfolding upgrade_once revisions execute_all execute
upgrade_once-users_made = refl

upgrade_once-sessions_made :
    upgrade_once (at sessions_made) ≡ at_stage (after_upgrade sessions_made)
unfolding upgrade_once revisions execute_all execute
upgrade_once-sessions_made = refl

upgrade_once-accounts_made :
    upgrade_once (at accounts_made) ≡ at_stage (after_upgrade accounts_made)
unfolding upgrade_once revisions execute_all execute
upgrade_once-accounts_made = refl

upgrade_once-accounts_remade :
    upgrade_once (at accounts_remade) ≡ at_stage (after_upgrade accounts_remade)
unfolding upgrade_once revisions execute_all execute
upgrade_once-accounts_remade = refl

upgrade_once-indexed : upgrade_once (at indexed) ≡ at_stage (after_upgrade indexed)
unfolding upgrade_once revisions execute_all execute
upgrade_once-indexed = refl

upgrade_once-reindexed : upgrade_once (at reindexed) ≡ at_stage (after_upgrade reindexed)
unfolding upgrade_once revisions execute_all execute
upgrade_once-reindexed = refl

upgrade_once-dropped : upgrade_once (at dropped) ≡ at_stage (after_upgrade dropped)
unfolding upgrade_once revisions execute_all execute
upgrade_once-dropped = refl

upgrade_once-restored : upgrade_once (at restored) ≡ at_stage (after_upgrade restored)
unfolding upgrade_once revisions execute_all execute
upgrade_once-restored = refl

pub upgrade_once-at : (g : Stage) → upgrade_once (at g) ≡ at_stage (after_upgrade g)
upgrade_once-at nothing = upgrade_once-nothing
upgrade_once-at emptied = upgrade_once-emptied
upgrade_once-at users_made = upgrade_once-users_made
upgrade_once-at sessions_made = upgrade_once-sessions_made
upgrade_once-at accounts_made = upgrade_once-accounts_made
upgrade_once-at accounts_remade = upgrade_once-accounts_remade
upgrade_once-at indexed = upgrade_once-indexed
upgrade_once-at reindexed = upgrade_once-reindexed
upgrade_once-at dropped = upgrade_once-dropped
upgrade_once-at restored = upgrade_once-restored

-- One step down from each of them, by running its statements.
downgrade_once-nothing : downgrade_once (at nothing) ≡ at_stage (after_downgrade nothing)
unfolding downgrade_once revisions execute_all execute
downgrade_once-nothing = refl

downgrade_once-emptied : downgrade_once (at emptied) ≡ at_stage (after_downgrade emptied)
unfolding downgrade_once revisions execute_all execute
downgrade_once-emptied = refl

downgrade_once-users_made : downgrade_once (at users_made) ≡ at_stage (after_downgrade users_made)
unfolding downgrade_once revisions execute_all execute
downgrade_once-users_made = refl

downgrade_once-sessions_made :
    downgrade_once (at sessions_made) ≡ at_stage (after_downgrade sessions_made)
unfolding downgrade_once revisions execute_all execute
downgrade_once-sessions_made = refl

downgrade_once-accounts_made :
    downgrade_once (at accounts_made) ≡ at_stage (after_downgrade accounts_made)
unfolding downgrade_once revisions execute_all execute
downgrade_once-accounts_made = refl

downgrade_once-accounts_remade :
    downgrade_once (at accounts_remade) ≡ at_stage (after_downgrade accounts_remade)
unfolding downgrade_once revisions execute_all execute
downgrade_once-accounts_remade = refl

downgrade_once-indexed : downgrade_once (at indexed) ≡ at_stage (after_downgrade indexed)
unfolding downgrade_once revisions execute_all execute
downgrade_once-indexed = refl

downgrade_once-reindexed : downgrade_once (at reindexed) ≡ at_stage (after_downgrade reindexed)
unfolding downgrade_once revisions execute_all execute
downgrade_once-reindexed = refl

downgrade_once-dropped : downgrade_once (at dropped) ≡ at_stage (after_downgrade dropped)
unfolding downgrade_once revisions execute_all execute
downgrade_once-dropped = refl

downgrade_once-restored : downgrade_once (at restored) ≡ at_stage (after_downgrade restored)
unfolding downgrade_once revisions execute_all execute
downgrade_once-restored = refl

pub downgrade_once-at : (g : Stage) → downgrade_once (at g) ≡ at_stage (after_downgrade g)
downgrade_once-at nothing = downgrade_once-nothing
downgrade_once-at emptied = downgrade_once-emptied
downgrade_once-at users_made = downgrade_once-users_made
downgrade_once-at sessions_made = downgrade_once-sessions_made
downgrade_once-at accounts_made = downgrade_once-accounts_made
downgrade_once-at accounts_remade = downgrade_once-accounts_remade
downgrade_once-at indexed = downgrade_once-indexed
downgrade_once-at reindexed = downgrade_once-reindexed
downgrade_once-at dropped = downgrade_once-dropped
downgrade_once-at restored = downgrade_once-restored
