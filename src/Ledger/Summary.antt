-- ===== src/Ledger/Summary.antt =====
-- The totals that ledger/crud/summary.py reports, added up for one unit.
pub mod Balances
pub mod Expenses
use tradinghub.Base.{
  ℤ, pos, neg, String, Bool, true, false, List, [], ◌∷◌, map, ◌≡◌, refl, ap, ◌∙◌, inl, inr,
  Bool-cases, same_text, eq_iff, keep, Option, none, some, sym, arith,
}
use tradinghub.Core.Errors.{Result, ok, err}
use tradinghub.Sql.Joins.{total}
use tradinghub.Ledger.Crud.Summary.{UnitTotal, CategoryTotal}

-- The sum of the figures of one unit in a list of figures.
abbrev pub of_unit {ℓ} : {A : Type ℓ} → (A → String) → (A → ℤ) → String → List A → ℤ
of_unit unit amount u rows = total (map amount (keep (λ x. same_text (unit x) u) rows))

abbrev pub unit_totals : String → List UnitTotal → ℤ
unit_totals = of_unit (λ x. x.unit) (λ x. x.amount)

abbrev pub category_totals : String → List CategoryTotal → ℤ
category_totals = of_unit (λ x. x.unit) (λ x. x.amount)

abbrev pub value_of {ℓ} : {A : Type ℓ} → A → Result A → A
value_of d (ok a) = a
value_of d (err e) = d

module _ {ℓ κ} {A : Type ℓ} {B : Type κ} where
  -- A filter and a sum after a map.
  pub total-keep-map :
      (f : A → B) (v : B → ℤ) (p : B → Bool) (xs : List A)
      → total (map v (keep p (map f xs))) ≡ total (map (λ x. v (f x)) (keep (λ x. p (f x)) xs))
  total-keep-map f v p [] = refl
  total-keep-map f v p (x ∷ xs) = elim (Bool-cases (p (f x))) [
    | inl e ↦ rw (e, total-keep-map f v p xs) refl
    | inr e ↦ rw e (total-keep-map f v p xs)
  ]

pub map-map {ℓ} :
    {A B C : Type ℓ} (g : B → C) (f : A → B) (xs : List A)
    → map g (map f xs) ≡ map (λ x. g (f x)) xs
map-map g f [] = refl
map-map g f (x ∷ xs) = ap (◌∷◌ (g (f x))) (map-map g f xs)

-- Texts that are equal are equal to the same texts.
pub same_text_fits : (a b u : String) → same_text a b ≡ true → same_text b u ≡ same_text a u
same_text_fits a b u h = ap (λ t. same_text t u) (sym ((eq_iff a b).0 h))
