-- ===== src/Migrations/Comparison.antt =====
-- Tables and schemas that differ only in the order of columns, constraints and indexes.
use mathlib.Core.List.{Permᴰ}
use mathlib.Core.List.Permᴰ as Perm
use tradinghub.Base.{List, [], ◌∷◌, map, ◌≡◌, refl}
use tradinghub.Sql.Schema.{Schema, Table}
use tradinghub.Migrations.Metadata.{metadata, table_of, all_indexes}

-- One table up to the order of its columns and of its constraints.
pub record SameTable (t u : Table) : Type 0 where
  pub name : t.name ≡ u.name
  pub columns : Permᴰ t.columns u.columns
  pub constraints : Permᴰ t.constraints u.constraints

pub data SameTables : List Table → List Table → Type 0 where
  none_left : SameTables [] []
  both :
      {t u : Table} {ts us : List Table}
      → SameTable t u
      → SameTables ts us
      → SameTables (t ∷ ts) (u ∷ us)

pub record SameSchema (s s' : Schema) : Type 0 where
  pub tables : SameTables s.tables s'.tables
  pub indexes : Permᴰ s.indexes s'.indexes

-- The schema is what the models declare.
abbrev pub IsDeclared : Schema → Type 0
IsDeclared s = SameTables s.tables (map table_of metadata) × Permᴰ s.indexes (all_indexes metadata)

pub same_table : (t : Table) → SameTable t t
same_table t = record {
  name = refl;
  columns = Perm.refl t.columns;
  constraints = Perm.refl t.constraints;
}

pub same_tables : (ts : List Table) → SameTables ts ts
same_tables [] = none_left
same_tables (t ∷ ts) = both (same_table t) (same_tables ts)

pub same_schema : (s : Schema) → SameSchema s s
same_schema s = record { tables = same_tables s.tables; indexes = Perm.refl s.indexes }

-- An element behind two others, before them.
before_two {ℓ} : {A : Type ℓ} {a b c : A} → Permᴰ (a ∷ b ∷ c ∷ []) (c ∷ a ∷ b ∷ [])
before_two {a = a} {b} {c} = Perm.middle c (a ∷ b ∷ []) []

-- The columns of transactions: transfer_group_id stands last, or before the two stamps.
pub grouped_columns {ℓ} :
    {A : Type ℓ} {a b c d e f g h x y z : A}
    → Permᴰ
        (a ∷ b ∷ c ∷ d ∷ e ∷ f ∷ g ∷ h ∷ x ∷ y ∷ z ∷ [])
        (a ∷ b ∷ c ∷ d ∷ e ∷ f ∷ g ∷ h ∷ z ∷ x ∷ y ∷ [])
grouped_columns {a = a} {b} {c} {d} {e} {f} {g} {h} =
    Perm.append_left (a ∷ b ∷ c ∷ d ∷ e ∷ f ∷ g ∷ h ∷ []) before_two
