-- ===== src/Sql/Schema.antt =====
-- The statements of the data definition language that the migrations execute, on a schema: tables with
-- their columns and constraints, indexes and extensions. `none` is an error of the database.
use tradinghub.Base.{
  ℕ, String, Bool, true, false, not, ◌&&◌, ◌||◌, Option, none, some, List, [], ◌∷◌, ◌++◌, map, any,
  all, find?, keep, is_some, same_text, if◌then◌else◌,
}

-- An enumeration that is not native is a VARCHAR of the given length.
pub data ColumnType : Type 0 where
  integer citext varchar uuid timestamptz : ColumnType
  numeric : ℕ → ℕ → ColumnType
  enumeration : List String → ℕ → ColumnType

pub record Column : Type 0 where
  pub name : String
  pub type : ColumnType
  pub nullable : Bool
  pub server_default : Option String

-- `one_of column values` is CHECK (column IN (values)); a foreign key may say what ON DELETE does.
pub data Rule : Type 0 where
  primary_key : List String → Rule
  unique : List String → Rule
  foreign_key : List String → String → List String → Option String → Rule
  one_of : String → List String → Rule

pub record Constraint : Type 0 where
  pub name : String
  pub rule : Rule

pub record Table : Type 0 where
  pub name : String
  pub columns : List Column
  pub constraints : List Constraint

pub record Index : Type 0 where
  pub name : String
  pub table : String
  pub columns : List String
  pub is_unique : Bool

pub record Schema : Type 0 where
  pub extensions : List String
  pub tables : List Table
  pub indexes : List Index

abbrev pub empty_schema : Schema
empty_schema = record { extensions = []; tables = []; indexes = [] }

pub data Statement : Type 0 where
  create_extension_if_not_exists : String → Statement
  create_table : Table → Statement
  drop_table : String → Statement
  create_index : Index → Statement
  drop_index : String → Statement
  add_column : String → Column → Statement
  drop_column : String → String → Statement

abbrev pub includes : List String → String → Bool
includes names name = any (same_text name) names

-- Two lists of columns that name the same ones.
abbrev same_columns : List String → List String → Bool
same_columns xs ys = all (includes xs) ys && all (includes ys) xs

abbrev has_column : Table → String → Bool
has_column t name = any (λ c. same_text c.name name) t.columns

abbrev find_table : Schema → String → Option Table
find_table s name = find? (λ t. same_text t.name name) s.tables

-- Whether a rule makes some columns unique together: what a foreign key may refer to.
abbrev identifies : List String → Rule → Bool
identifies names (primary_key columns) = same_columns names columns
identifies names (unique columns) = same_columns names columns
identifies names _ = false

abbrev refers_to : String → Rule → Bool
refers_to table (foreign_key columns referred names on_delete) = same_text referred table
refers_to table _ = false

abbrev refers_to_column : String → String → Rule → Bool
refers_to_column table column (foreign_key columns referred names on_delete) =
    same_text referred table && includes names column
refers_to_column table column _ = false

abbrev involves : String → Rule → Bool
involves column (primary_key columns) = includes columns column
involves column (unique columns) = includes columns column
involves column (foreign_key columns referred names on_delete) = includes columns column
involves column (one_of tested values) = same_text tested column

abbrev identified : List String → Option Table → Bool
identified names none = false
identified names (some t) = any (λ c. identifies names c.rule) t.constraints

abbrev is_possible_rule : Schema → Table → Rule → Bool
is_possible_rule s t (primary_key columns) = all (has_column t) columns
is_possible_rule s t (unique columns) = all (has_column t) columns
is_possible_rule s t (foreign_key columns referred names on_delete) =
    all (has_column t) columns && identified names (find_table s referred)
is_possible_rule s t (one_of column values) = has_column t column

-- CITEXT is a type of the extension of that name.
abbrev is_known_type : Schema → ColumnType → Bool
is_known_type s citext = includes s.extensions "citext"
is_known_type s _ = true

-- A table, an index and the index behind a key share one space of names.
abbrev key_names : List Constraint → List String
key_names [] = []
key_names (c ∷ cs) =
    let rest = key_names cs in
    elim c.rule [ primary_key columns ↦ c.name ∷ rest | unique columns ↦ c.name ∷ rest | _ ↦ rest ]

abbrev table_names : Table → List String
table_names t = t.name ∷ key_names t.constraints

abbrev is_taken : Schema → String → Bool
is_taken s name =
    any (λ t. includes (table_names t) name) s.tables || any (λ i. same_text i.name name) s.indexes

abbrev is_possible_table : Schema → Table → Bool
is_possible_table s t =
    not (any (is_taken s) (table_names t))
    && all (λ c. is_known_type s c.type) t.columns
    && all (λ c. is_possible_rule s t c.rule) t.constraints

abbrev is_referred : Schema → String → Bool
is_referred s name =
    any (λ t. not (same_text t.name name) && any (λ c. refers_to name c.rule) t.constraints)
      s.tables

abbrev is_referred_column : Schema → String → String → Bool
is_referred_column s table column =
    any (λ t. any (λ c. refers_to_column table column c.rule) t.constraints) s.tables

abbrev is_possible_index : Schema → Index → Option Table → Bool
is_possible_index s i none = false
is_possible_index s i (some t) = not (is_taken s i.name) && all (has_column t) i.columns

-- The schema with one of its tables changed.
abbrev with_table : String → (Table → Table) → Schema → Schema
with_table name f s = record s {
  tables = map (λ t. if same_text t.name name then f t else t) s.tables;
}

abbrev is_possible_column : Schema → Column → Option Table → Bool
is_possible_column s c none = false
is_possible_column s c (some t) = not (has_column t c.name) && is_known_type s c.type

abbrev is_droppable_column : Schema → String → Option Table → Bool
is_droppable_column s column none = false
is_droppable_column s column (some t) =
    has_column t column && not (is_referred_column s t.name column)

-- A dropped column takes with it the constraints and the indexes that it has a part in.
abbrev pub without_column : String → Table → Table
without_column column t = record t {
  columns = keep (λ c. not (same_text c.name column)) t.columns;
  constraints = keep (λ c. not (involves column c.rule)) t.constraints;
}

abbrev guarded : Bool → Schema → Option Schema
guarded true s = some s
guarded false s = none

unfoldable pub execute : Statement → Schema → Option Schema
execute (create_extension_if_not_exists name) s =
    some (if includes s.extensions name then s else record s { extensions = name ∷ s.extensions })
execute (create_table t) s =
    guarded (is_possible_table s t) (record s { tables = s.tables ++ (t ∷ []) })
execute (drop_table name) s =
    guarded (is_some (find_table s name) && not (is_referred s name)) (record s {
      tables = keep (λ t. not (same_text t.name name)) s.tables;
      indexes = keep (λ i. not (same_text i.table name)) s.indexes;
    })
execute (create_index i) s =
    guarded (is_possible_index s i (find_table s i.table))
      (record s { indexes = s.indexes ++ (i ∷ []) })
execute (drop_index name) s =
    guarded (any (λ i. same_text i.name name) s.indexes)
      (record s { indexes = keep (λ i. not (same_text i.name name)) s.indexes })
execute (add_column table c) s =
    guarded (is_possible_column s c (find_table s table))
      (with_table table (λ t. record t { columns = t.columns ++ (c ∷ []) }) s)
execute (drop_column table column) s =
    guarded (is_droppable_column s column (find_table s table))
      (record (with_table table (without_column column) s) {
        indexes = keep (λ i. not (same_text i.table table && includes i.columns column)) s.indexes;
      })

-- Statements one after another, in one transaction: the first error undoes them all.
unfoldable pub execute_all : List Statement → Schema → Option Schema
execute_all [] s = some s
execute_all (x ∷ xs) s = elim (execute x s) [ none ↦ none | some s' ↦ execute_all xs s' ]
