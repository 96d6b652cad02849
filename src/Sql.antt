-- ===== src/Sql.antt =====
-- What the statements of crud/ mean as SQL: rows that meet a condition, joins, groups, sums, order.
-- A NULL is `none`. Without ORDER BY the rows come in the order of the table.
pub mod Group
pub mod Joins
pub mod Order
pub mod Arranged
pub mod Members
pub mod Sums
pub mod Rows
pub mod Search
pub mod Schema
use tradinghub.Base.{
  ℕ, ℤ, pos, ◌+ℤ◌, Bool, true, false, not, Option, none, some, List, [], ◌∷◌, ◌++◌, map, ◌==◌,
  same_text, keep, if◌then◌else◌, String,
}

-- `=` between two nullable values: NULL equals nothing, itself included.
abbrev pub null_eq : Option ℕ → Option ℕ → Bool
null_eq (some a) (some b) = a == b
null_eq _ _ = false

-- Equality of two nullable texts as GROUP BY has it: NULL is one group.
abbrev pub same_group_text : Option String → Option String → Bool
same_group_text none none = true
same_group_text (some a) (some b) = same_text a b
same_group_text _ _ = false

-- SUM over the values that are not NULL, and NULL if there is none.
abbrev pub add_null : ℤ → Option ℤ → Option ℤ
add_null a none = some a
add_null a (some b) = some (a +ℤ b)

abbrev pub sum : List (Option ℤ) → Option ℤ
sum [] = none
sum (none ∷ xs) = sum xs
sum (some a ∷ xs) = add_null a (sum xs)

abbrev pub coalesce : Option ℤ → ℤ → ℤ
coalesce none d = d
coalesce (some a) d = a

module _ {ℓ} {A : Type ℓ} where
  -- UPDATE … WHERE key = …, with all the columns of the new row.
  unfoldable pub update : (A → ℕ) → A → List A → List A
  update key a [] = []
  update key a (x ∷ xs) = (if key x == key a then a else x) ∷ update key a xs

  -- One row for each group, and the rows of the group.
  unfoldable pub distinct : (A → A → Bool) → List A → List A
  distinct same [] = []
  distinct same (x ∷ xs) = x ∷ keep (λ y. not (same x y)) (distinct same xs)

  unfoldable pub group_by : (A → A → Bool) → List A → List (A × List A)
  unfolding distinct
  group_by same rows = map (λ x. (x, keep (same x) rows)) (distinct same rows)

  unfoldable pub insert : (A → A → Bool) → A → List A → List A
  insert before x [] = x ∷ []
  insert before x (y ∷ ys) =
      let rest = insert before x ys in if before x y then x ∷ y ∷ ys else y ∷ rest

  unfoldable pub order_by : (A → A → Bool) → List A → List A
  unfolding insert
  order_by before [] = []
  order_by before (x ∷ xs) = insert before x (order_by before xs)

-- The rows of an outer join for one row of the left table: one at least.
abbrev pub padded {ℓ} : {B : Type ℓ} → List B → List (Option B)
padded [] = none ∷ []
padded (b ∷ bs) = some b ∷ map some bs

module _ {ℓ} {A B : Type ℓ} where
  unfoldable pub outer_join : (A → B → Bool) → List A → List B → List (A × Option B)
  outer_join on [] bs = []
  outer_join on (a ∷ xs) bs = map (λ b. (a, b)) (padded (keep (on a) bs)) ++ outer_join on xs bs

  unfoldable pub join : (A → B → Bool) → List A → List B → List (A × B)
  join on [] bs = []
  join on (a ∷ xs) bs = map (λ b. (a, b)) (keep (on a) bs) ++ join on xs bs
