-- ===== src/Sql/Order.antt =====
-- ORDER BY, LIMIT and OFFSET: the rows come sorted, each of them once, and pages in a row are one page.
use native.Mathlib.Nat
use tradinghub.Base.{
  ℕ, zero, suc, ◌+◌, ◌≤◌, Bool, true, false, List, [], ◌∷◌, ◌++◌, ◌≡◌, refl, sym, ap, ◌∙◌, inl, inr,
  arith, Bool-cases, length, take, drop, keep, All, All-map, Pairwise, if◌then◌else◌,
}
use tradinghub.Sql.{insert, order_by}

-- A total preorder.
pub record IsOrder {ℓ} {A : Type ℓ} (before : A → A → Bool) : Type ℓ where
  pub total : (x y : A) → before x y ≡ false → before y x ≡ true
  pub transitive : (x y z : A) → before x y ≡ true → before y z ≡ true → before x z ≡ true

module _ {ℓ} {A : Type ℓ} (before : A → A → Bool) where
  abbrev pub Sorted : List A → Type 0
  Sorted = Pairwise (λ x y. before x y ≡ true)

  All-insert {κ} :
      (P : A → Type κ) (x : A) (ys : List A) → P x → All P ys → All P (insert before x ys)
  unfolding insert
  All-insert P x [] px h = (px, tt)
  All-insert P x (y ∷ ys) px h =
      elim (before x y) as (λ b. All P (if b then x ∷ y ∷ ys else y ∷ insert before x ys)) [
        | true ↦ (px, h)
        | false ↦ (h.0, All-insert P x ys px h.1)
      ]

  insert-Sorted :
      (laws : IsOrder before) (x : A) (ys : List A) → Sorted ys → Sorted (insert before x ys)
  unfolding insert
  insert-Sorted laws x [] h = (tt, tt)
  insert-Sorted laws x (y ∷ ys) h = elim (Bool-cases (before x y)) [
    | inl e ↦ rw e ((e, All-map (λ z r. laws.transitive x y z e r) ys h.0), h)
    | inr e ↦ rw e (All-insert _ x ys (laws.total x y e) h.0, insert-Sorted laws x ys h.1)
  ]

  pub order_by-Sorted : IsOrder before → (xs : List A) → Sorted (order_by before xs)
  unfolding order_by
  order_by-Sorted laws [] = tt
  order_by-Sorted laws (x ∷ xs) =
      insert-Sorted laws x (order_by before xs) (order_by-Sorted laws xs)

  length-keep-insert :
      (p : A → Bool) (x : A) (ys : List A)
      → length (keep p (insert before x ys)) ≡ length (keep p (x ∷ ys))
  unfolding insert
  length-keep-insert p x [] = refl
  length-keep-insert p x (y ∷ ys) = ground (arith, length-keep-insert p x ys)

  -- Every test is passed by as many rows as before.
  pub length-keep-order_by :
      (p : A → Bool) (xs : List A) → length (keep p (order_by before xs)) ≡ length (keep p xs)
  unfolding order_by
  length-keep-order_by p [] = refl
  length-keep-order_by p (x ∷ xs) =
      length-keep-insert p x (order_by before xs) ∙ ground (arith, length-keep-order_by p xs)

module _ {ℓ} {A : Type ℓ} where
  take-nil : (n : ℕ) → take {A = A} n [] ≡ []
  take-nil zero = refl
  take-nil (suc n) = refl

  pub take_add : (m n : ℕ) (xs : List A) → take m xs ++ take n (drop m xs) ≡ take (m + n) xs
  take_add zero n xs = rw Nat.zero-add refl
  take_add (suc m) zero [] = sym (take-nil (suc m + zero))
  take_add (suc m) (suc n) [] = sym (take-nil (suc m + suc n))
  take_add (suc m) n (x ∷ xs) = rw Nat.suc-add (ap (◌∷◌ x) (take_add m n xs))

  pub take_all : (n : ℕ) (xs : List A) → length xs ≤ n → take n xs ≡ xs
  take_all zero [] h = refl
  take_all zero (x ∷ xs) h = absurd (omega arith)
  take_all (suc n) [] h = refl
  take_all (suc n) (x ∷ xs) h = ap (◌∷◌ x) (take_all n xs (omega arith))

  keep-true : (xs : List A) → keep (λ x. true) xs ≡ xs
  keep-true [] = refl
  keep-true (x ∷ xs) = ap (◌∷◌ x) (keep-true xs)

  pub length-order_by :
      (before : A → A → Bool) (xs : List A) → length (order_by before xs) ≡ length xs
  length-order_by before xs =
      ap length (sym (keep-true (order_by before xs)))
      ∙ length-keep-order_by before (λ x. true) xs
      ∙ ap length (keep-true xs)
