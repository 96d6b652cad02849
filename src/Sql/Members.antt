-- ===== src/Sql/Members.antt =====
-- The rows of a statement as members of the table.
use mathlib.Core.List.{Mem, mem-cons_self, mem-cons_of_mem}
use tradinghub.Base.{
  inl, inr, Bool, true, List, [], ◌∷◌, ◌≡◌, keep, All, All-map, All-both, Pairwise, Bool-cases,
}

module _ {ℓ κ λ'} {A : Type ℓ} {R : A → A → Type κ} {Q : A → A → Type λ'} where
  pub Pairwise-map : ((x y : A) → R x y → Q x y) → (xs : List A) → Pairwise R xs → Pairwise Q xs
  Pairwise-map f [] h = tt
  Pairwise-map f (x ∷ xs) h = (All-map (λ y r. f x y r) xs h.0, Pairwise-map f xs h.1)

module _ {ℓ} {A : Type ℓ} {R S Q : A → A → Type 0} where
  pub Pairwise-both :
      ((x y : A) → R x y → S x y → Q x y)
      → (xs : List A) → Pairwise R xs
      → Pairwise S xs
      → Pairwise Q xs
  Pairwise-both f [] h k = tt
  Pairwise-both f (x ∷ xs) h k =
      (All-map (λ y r. f x y r.0 r.1) xs (All-both _ _ xs h.0 k.0), Pairwise-both f xs h.1 k.1)

pub All-mem {ℓ} : {A : Type ℓ} (xs : List A) → All (λ x. Mem x xs) xs
All-mem [] = tt
All-mem (x ∷ xs) = (mem-cons_self, All-map (λ y m. mem-cons_of_mem x m) xs (All-mem xs))

keep_longer {ℓ} :
    {A : Type ℓ} (p : A → Bool) (x y : A) (xs : List A)
    → Mem y (keep p xs)
    → Mem y (keep p (x ∷ xs))
keep_longer p x y xs m = elim (Bool-cases (p x)) [
  | inl e ↦ rw e (mem-cons_of_mem x m)
  | inr e ↦ rw e m
]

-- A filter keeps what passes.
pub keep-mem {ℓ} :
    {A : Type ℓ} (p : A → Bool) (xs : List A) → All (λ x. p x ≡ true → Mem x (keep p xs)) xs
keep-mem p [] = tt
keep-mem p (x ∷ xs) =
    (λ e. rw e mem-cons_self, All-map (λ y m e. keep_longer p x y xs (m e)) xs (keep-mem p xs))
