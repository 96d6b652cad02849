-- ===== src/Sql/Arranged.antt =====
-- The rows of a table stand in no order that lasts: what ORDER BY makes of them wherever they stand.
use mathlib.Core.Path.{subst}
use mathlib.Core.List.{Permᴰ}
use mathlib.Core.List.Permᴰ
use tradinghub.Base.{
  Bool, true, not, List, [], ◌∷◌, ◌≡◌, refl, sym, ap, ◌∙◌, inl, inr, arith, Bool-cases, keep, All,
  Pairwise,
}
use tradinghub.Sql.{insert, order_by}
use tradinghub.Sql.Order.{IsOrder}

module _ {ℓ} {A : Type ℓ} where
  pub All-perm {κ} : (P : A → Type κ) {xs ys : List A} → Permᴰ xs ys → All P xs → All P ys
  All-perm P Permᴰ.nil h = tt
  All-perm P (Permᴰ.cons e p) h = (subst P e h.0, All-perm P p h.1)
  All-perm P (Permᴰ.swap e e') h = (subst P e' h.1.0, (subst P e h.0, h.1.1))
  All-perm P (Permᴰ.trans p q) h = All-perm P q (All-perm P p h)

  pub Pairwise-perm {κ} :
      (R : A → A → Type κ) {xs ys : List A}
      → ((x y : A) → R x y → R y x)
      → Permᴰ xs ys
      → Pairwise R xs
      → Pairwise R ys
  Pairwise-perm R flip Permᴰ.nil h = tt
  Pairwise-perm R flip (Permᴰ.cons {l₁ = l} e p) h =
      (All-perm (R _) p (subst (λ z. All (R z) l) e h.0), Pairwise-perm R flip p h.1)
  Pairwise-perm R flip (Permᴰ.swap {a = a} {b = b} {b' = b'} {l = l} e e') h = (
    (subst (λ z. R z b') e' (subst (R b) e (flip a b h.0.0)), subst (λ z. All (R z) l) e' h.1.0),
    (subst (λ z. All (R z) l) e h.0.1, h.1.1),
  )
  Pairwise-perm R flip (Permᴰ.trans p q) h = Pairwise-perm R flip q (Pairwise-perm R flip p h)

  module _ (before : A → A → Bool) where
    insert-Permᴰ : (x : A) (ys : List A) → Permᴰ (insert before x ys) (x ∷ ys)
    unfolding insert
    insert-Permᴰ x [] = Permᴰ.refl (x ∷ [])
    insert-Permᴰ x (y ∷ ys) = elim (Bool-cases (before x y)) [
      | inl e ↦ rw e (Permᴰ.refl (x ∷ y ∷ ys))
      | inr e ↦ rw e (Permᴰ.trans (Permᴰ.cons refl (insert-Permᴰ x ys)) (Permᴰ.swap refl refl))
    ]

    pub order_by-Permᴰ : (xs : List A) → Permᴰ (order_by before xs) xs
    unfolding order_by
    order_by-Permᴰ [] = Permᴰ.nil
    order_by-Permᴰ (x ∷ xs) =
        Permᴰ.trans (insert-Permᴰ x (order_by before xs)) (Permᴰ.cons refl (order_by-Permᴰ xs))

    -- No tie: one of the two comes first, and not the other.
    abbrev pub IsDecided : A → A → Type 0
    IsDecided x y = (before x y ≡ not (before y x))

    flip-IsDecided : (x y : A) → IsDecided x y → IsDecided y x
    flip-IsDecided x y h = ground arith

    module _ (laws : IsOrder before) where
      insert_swap :
          (x y : A) (zs : List A)
          → IsDecided x y
          → insert before x (insert before y zs) ≡ insert before y (insert before x zs)
      unfolding insert
      insert_swap x y [] h = ground arith
      insert_swap x y (z ∷ zs) h =
          let over : before x y ≡ true → before y z ≡ true → before x z ≡ true =
            laws.transitive x y z in
          let under : before y x ≡ true → before x z ≡ true → before y z ≡ true =
            laws.transitive y x z in
          ground (arith, insert_swap x y zs h, over, under)

      -- Without ties, the sorted rows that pass a test are the same wherever the rows stand.
      pub order_by-keep-perm :
          (p : A → Bool) {xs ys : List A}
          → Permᴰ xs ys
          → Pairwise IsDecided xs
          → order_by before (keep p xs) ≡ order_by before (keep p ys)
      unfolding order_by
      order_by-keep-perm p Permᴰ.nil h = refl
      order_by-keep-perm p (Permᴰ.cons {a = a} {l₁ = l} {l₂ = l'} e perm) h =
          let rest = order_by-keep-perm p perm h.1 in
          rw (sym e) (elim (Bool-cases (p a)) [
            | inl inside ↦ rw inside (ap (insert before a) rest)
            | inr outside ↦ rw outside rest
          ])
      order_by-keep-perm p (Permᴰ.swap {a = a} {b = b} {l = l} e e') h =
          rw (sym e, sym e')
            (elim (Bool-cases (p a)) [
              | inl inside ↦ elim (Bool-cases (p b)) [
                | inl in_b ↦ rw (inside, in_b) (insert_swap a b (order_by before (keep p l)) h.0.0)
                | inr out_b ↦ rw (inside, out_b) refl
              ]
              | inr outside ↦ rw outside refl
            ])
      order_by-keep-perm p (Permᴰ.trans q r) h =
          order_by-keep-perm p q h
          ∙ order_by-keep-perm p r (Pairwise-perm IsDecided flip-IsDecided q h)
