-- ===== src/Migrations/Metadata.antt =====
-- Base.metadata: the tables that the models declare, with the names that NAMING_CONVENTION of
-- core/database.py gives to what they leave unnamed.
use Prim.Native.String.{◌++◌ as text_append}
use tradinghub.Base.{String, true, false, Option, none, some, List, [], ◌∷◌, ◌++◌, map}
use tradinghub.Sql.Schema.{
  ColumnType, integer, citext, varchar, uuid, timestamptz, numeric, enumeration, Column, Rule,
  primary_key, unique, foreign_key, one_of, Constraint, Table, Index,
}
use tradinghub.Migrations.Versions.{column, constraint, index}
use tradinghub.Ledger.Models.{
  AccountType, cash, crypto, stock, TransactionKind, income, expense, transfer,
}

-- What a mapped_column says of its column. A key is unique, indexed or both, and then it is a unique index.
pub data Key : Type 0 where
  plain primary unique_key indexed unique_indexed : Key
  refers : String → String → String → Key

pub record MappedColumn : Type 0 where
  pub column : Column
  pub key : Key

-- A class of the models: its columns, and its __table_args__.
pub record Model : Type 0 where
  pub tablename : String
  pub columns : List MappedColumn
  pub checks : List (String × Rule)
  pub keys : List Rule
  pub indexes : List (String × List String)

abbrev joined : List String → String
joined [] = ""
joined (x ∷ xs) = text_append x (joined xs)

abbrev first_name : List String → String
first_name [] = ""
first_name (x ∷ xs) = x

-- NAMING_CONVENTION: "ix" and, for each rule, "pk", "uq", "fk" and "ck".
abbrev index_name : String → List String → String
index_name table columns = joined ("ix_" ∷ table ∷ "_" ∷ first_name columns ∷ [])

abbrev pub constraint_name : String → Option String → Rule → String
constraint_name table given (primary_key columns) = joined ("pk_" ∷ table ∷ [])
constraint_name table given (unique columns) =
    joined ("uq_" ∷ table ∷ "_" ∷ first_name columns ∷ [])
constraint_name table given (foreign_key columns referred names on_delete) =
    joined ("fk_" ∷ table ∷ "_" ∷ first_name columns ∷ "_" ∷ referred ∷ [])
constraint_name table none (one_of column values) = joined ("ck_" ∷ table ∷ "_" ∷ [])
constraint_name table (some name) (one_of column values) = joined ("ck_" ∷ table ∷ "_" ∷ name ∷ [])

abbrev named : String → Option String → Rule → Constraint
named table given rule = constraint (constraint_name table given rule) rule

abbrev rules_of : String → Key → List Rule
rules_of name primary = primary_key (name ∷ []) ∷ []
rules_of name unique_key = unique (name ∷ []) ∷ []
rules_of name (refers table referred on_delete) =
    foreign_key (name ∷ []) table (referred ∷ []) (some on_delete) ∷ []
rules_of name _ = []

abbrev indexes_of : String → String → Key → List Index
indexes_of table name indexed = index (index_name table (name ∷ [])) table (name ∷ []) false ∷ []
indexes_of table name unique_indexed =
    index (index_name table (name ∷ [])) table (name ∷ []) true ∷ []
indexes_of table name _ = []

abbrev rules_of_all : List MappedColumn → List Rule
rules_of_all [] = []
rules_of_all (c ∷ cs) = rules_of c.column.name c.key ++ rules_of_all cs

abbrev indexes_of_all : String → List MappedColumn → List Index
indexes_of_all table [] = []
indexes_of_all table (c ∷ cs) = indexes_of table c.column.name c.key ++ indexes_of_all table cs

abbrev pub table_of : Model → Table
table_of m = record {
  name = m.tablename;
  columns = map (λ c. c.column) m.columns;
  constraints =
      map (λ c. named m.tablename (some c.0) c.1) m.checks
      ++ map (named m.tablename none) m.keys
      ++ map (named m.tablename none) (rules_of_all m.columns);
}

abbrev pub model_indexes : Model → List Index
model_indexes m =
    indexes_of_all m.tablename m.columns ++ map (λ i. index i.0 m.tablename i.1 false) m.indexes

abbrev mapped : String → ColumnType → Key → MappedColumn
mapped name type key = record { column = column name type false none; key = key }

abbrev nullable : String → ColumnType → MappedColumn
nullable name type = record { column = column name type true none; key = plain }

abbrev timestamp : String → MappedColumn
timestamp name = record { column = column name timestamptz false (some "now()"); key = plain }

-- The members of the enumerations, and the values that values_callable gives for them.
abbrev account_type_value : AccountType → String
account_type_value cash = "cash"
account_type_value crypto = "crypto"
account_type_value stock = "stock"

abbrev account_types : List AccountType
account_types = cash ∷ crypto ∷ stock ∷ []

abbrev transaction_kind_value : TransactionKind → String
transaction_kind_value income = "income"
transaction_kind_value expense = "expense"
transaction_kind_value transfer = "transfer"

abbrev transaction_kinds : List TransactionKind
transaction_kinds = income ∷ expense ∷ transfer ∷ []

abbrev pub users : Model
users = record {
  tablename = "users";
  columns =
      mapped "id" integer primary
      ∷ mapped "email" citext unique_key
      ∷ mapped "password_hash" varchar plain
      ∷ timestamp "created_at"
      ∷ timestamp "updated_at"
      ∷ [];
  checks = [];
  keys = [];
  indexes = [];
}

abbrev pub sessions : Model
sessions = record {
  tablename = "sessions";
  columns =
      mapped "id" integer primary
      ∷ mapped "user_id" integer (refers "users" "id" "CASCADE")
      ∷ mapped "family_id" uuid indexed
      ∷ mapped "hashed_refresh_token" varchar unique_indexed
      ∷ nullable "used_at" timestamptz
      ∷ mapped "expires_at" timestamptz plain
      ∷ timestamp "created_at"
      ∷ [];
  checks = [];
  keys = [];
  indexes = [];
}

abbrev pub accounts : Model
accounts = record {
  tablename = "accounts";
  columns =
      mapped "id" integer primary
      ∷ mapped "user_id" integer (refers "users" "id" "CASCADE")
      ∷ mapped "name" citext plain
      ∷ mapped "unit" varchar plain
      ∷ mapped "type" (enumeration (map account_type_value account_types) 20) plain
      ∷ nullable "archived_at" timestamptz
      ∷ timestamp "created_at"
      ∷ timestamp "updated_at"
      ∷ [];
  checks = ("accounttype", one_of "type" ("cash" ∷ "crypto" ∷ "stock" ∷ [])) ∷ [];
  keys = unique ("user_id" ∷ "name" ∷ []) ∷ unique ("id" ∷ "user_id" ∷ []) ∷ [];
  indexes = [];
}

abbrev pub transactions : Model
transactions = record {
  tablename = "transactions";
  columns =
      mapped "id" integer primary
      ∷ mapped "user_id" integer plain
      ∷ mapped "account_id" integer plain
      ∷ mapped "amount" (numeric 36 18) plain
      ∷ mapped "kind" (enumeration (map transaction_kind_value transaction_kinds) 20) plain
      ∷ nullable "category" varchar
      ∷ mapped "occurred_at" timestamptz plain
      ∷ nullable "note" varchar
      ∷ nullable "transfer_group_id" uuid
      ∷ timestamp "created_at"
      ∷ timestamp "updated_at"
      ∷ [];
  checks = ("transactionkind", one_of "kind" ("income" ∷ "expense" ∷ "transfer" ∷ [])) ∷ [];
  keys =
      foreign_key ("account_id" ∷ "user_id" ∷ []) "accounts" ("id" ∷ "user_id" ∷ [])
        (some "CASCADE")
      ∷ [];
  indexes =
      ("ix_transactions_user_id_occurred_at", "user_id" ∷ "occurred_at" ∷ [])
      ∷ ("ix_transactions_account_id", "account_id" ∷ [])
      ∷ [];
}

-- Every model that the packages import, and what they declare together.
abbrev pub metadata : List Model
metadata = users ∷ sessions ∷ accounts ∷ transactions ∷ []

abbrev pub all_indexes : List Model → List Index
all_indexes [] = []
all_indexes (m ∷ ms) = model_indexes m ++ all_indexes ms
