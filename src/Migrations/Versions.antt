-- ===== src/Migrations/Versions.antt =====
-- alembic/versions: the revisions of the schema, each with the statements of its upgrade and downgrade.
use tradinghub.Base.{String, Bool, true, false, Option, none, some, List, [], ◌∷◌}
use tradinghub.Sql.Schema.{
  ColumnType, integer, citext, varchar, uuid, timestamptz, numeric, enumeration, Column, Rule,
  primary_key, unique, foreign_key, one_of, Constraint, Table, Index, Statement,
  create_extension_if_not_exists, create_table, drop_table, create_index, drop_index, add_column,
  drop_column,
}

pub record Revision : Type 0 where
  pub revision : String
  pub down_revision : Option String
  pub upgrade : List Statement
  pub downgrade : List Statement

abbrev pub column : String → ColumnType → Bool → Option String → Column
column name type nullable server_default = record {
  name = name;
  type = type;
  nullable = nullable;
  server_default = server_default;
}

abbrev pub constraint : String → Rule → Constraint
constraint name rule = record { name = name; rule = rule }

abbrev pub index : String → String → List String → Bool → Index
index name table columns is_unique = record {
  name = name;
  table = table;
  columns = columns;
  is_unique = is_unique;
}

-- A column of a row's own, a required column, and the time at which a row was written.
abbrev required : String → ColumnType → Column
required name type = column name type false none

abbrev pub optional : String → ColumnType → Column
optional name type = column name type true none

abbrev stamp : String → Column
stamp name = column name timestamptz false (some "now()")

abbrev pub users_table : Table
users_table = record {
  name = "users";
  columns =
      required "id" integer
      ∷ required "email" citext
      ∷ required "password_hash" varchar
      ∷ stamp "created_at"
      ∷ stamp "updated_at"
      ∷ [];
  constraints =
      constraint "pk_users" (primary_key ("id" ∷ []))
      ∷ constraint "uq_users_email" (unique ("email" ∷ []))
      ∷ [];
}

abbrev pub create_users_table : Revision
create_users_table = record {
  revision = "155d0e9ee80f";
  down_revision = none;
  upgrade = create_extension_if_not_exists "citext" ∷ create_table users_table ∷ [];
  downgrade = drop_table "users" ∷ [];
}

abbrev pub sessions_table : Table
sessions_table = record {
  name = "sessions";
  columns =
      required "id" integer
      ∷ required "user_id" integer
      ∷ required "family_id" uuid
      ∷ required "hashed_refresh_token" varchar
      ∷ optional "used_at" timestamptz
      ∷ required "expires_at" timestamptz
      ∷ stamp "created_at"
      ∷ [];
  constraints =
      constraint "fk_sessions_user_id_users"
        (foreign_key ("user_id" ∷ []) "users" ("id" ∷ []) (some "CASCADE"))
      ∷ constraint "pk_sessions" (primary_key ("id" ∷ []))
      ∷ [];
}

abbrev pub add_sessions_table : Revision
add_sessions_table = record {
  revision = "0742d8e39597";
  down_revision = some "155d0e9ee80f";
  upgrade =
      create_table sessions_table
      ∷ create_index (index "ix_sessions_family_id" "sessions" ("family_id" ∷ []) false)
      ∷ create_index
          (index "ix_sessions_hashed_refresh_token" "sessions" ("hashed_refresh_token" ∷ []) true)
      ∷ [];
  downgrade =
      drop_index "ix_sessions_hashed_refresh_token"
      ∷ drop_index "ix_sessions_family_id"
      ∷ drop_table "sessions"
      ∷ [];
}

abbrev pub accounts_table : Table
accounts_table = record {
  name = "accounts";
  columns =
      required "id" integer
      ∷ required "user_id" integer
      ∷ required "name" citext
      ∷ required "unit" varchar
      ∷ required "type" (enumeration ("cash" ∷ "crypto" ∷ "stock" ∷ []) 20)
      ∷ optional "archived_at" timestamptz
      ∷ stamp "created_at"
      ∷ stamp "updated_at"
      ∷ [];
  constraints =
      constraint "ck_accounts_accounttype" (one_of "type" ("cash" ∷ "crypto" ∷ "stock" ∷ []))
      ∷ constraint "fk_accounts_user_id_users"
          (foreign_key ("user_id" ∷ []) "users" ("id" ∷ []) (some "CASCADE"))
      ∷ constraint "pk_accounts" (primary_key ("id" ∷ []))
      ∷ constraint "uq_accounts_id" (unique ("id" ∷ "user_id" ∷ []))
      ∷ constraint "uq_accounts_user_id" (unique ("user_id" ∷ "name" ∷ []))
      ∷ [];
}

abbrev pub transactions_table : Table
transactions_table = record {
  name = "transactions";
  columns =
      required "id" integer
      ∷ required "user_id" integer
      ∷ required "account_id" integer
      ∷ required "amount" (numeric 36 18)
      ∷ required "kind" (enumeration ("income" ∷ "expense" ∷ "transfer" ∷ []) 20)
      ∷ optional "category" varchar
      ∷ required "occurred_at" timestamptz
      ∷ optional "note" varchar
      ∷ optional "transfer_group_id" uuid
      ∷ stamp "created_at"
      ∷ stamp "updated_at"
      ∷ [];
  constraints =
      constraint "ck_transactions_transactionkind"
        (one_of "kind" ("income" ∷ "expense" ∷ "transfer" ∷ []))
      ∷ constraint "fk_transactions_account_id_accounts" (
          foreign_key ("account_id" ∷ "user_id" ∷ []) "accounts" ("id" ∷ "user_id" ∷ [])
            (some "CASCADE"))
      ∷ constraint "pk_transactions" (primary_key ("id" ∷ []))
      ∷ [];
}

abbrev pub add_accounts_and_transactions : Revision
add_accounts_and_transactions = record {
  revision = "badbca0b15e5";
  down_revision = some "0742d8e39597";
  upgrade =
      create_table accounts_table
      ∷ create_table transactions_table
      ∷ create_index (
          index "ix_transactions_user_id_occurred_at" "transactions"
            ("user_id" ∷ "occurred_at" ∷ []) false)
      ∷ [];
  downgrade =
      drop_index "ix_transactions_user_id_occurred_at"
      ∷ drop_table "transactions"
      ∷ drop_table "accounts"
      ∷ [];
}

abbrev pub index_transactions_by_account : Revision
index_transactions_by_account = record {
  revision = "bfa69a57006e";
  down_revision = some "badbca0b15e5";
  upgrade =
      create_index (index "ix_transactions_account_id" "transactions" ("account_id" ∷ []) false)
      ∷ [];
  downgrade = drop_index "ix_transactions_account_id" ∷ [];
}

abbrev pub drop_transfer_group_id : Revision
drop_transfer_group_id = record {
  revision = "79bce17ac2e6";
  down_revision = some "bfa69a57006e";
  upgrade = drop_column "transactions" "transfer_group_id" ∷ [];
  downgrade = add_column "transactions" (optional "transfer_group_id" uuid) ∷ [];
}

abbrev pub restore_transfer_group_id : Revision
restore_transfer_group_id = record {
  revision = "095fd0b06881";
  down_revision = some "79bce17ac2e6";
  upgrade = add_column "transactions" (optional "transfer_group_id" uuid) ∷ [];
  downgrade = drop_column "transactions" "transfer_group_id" ∷ [];
}
