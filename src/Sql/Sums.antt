-- ===== src/Sql/Sums.antt =====
-- Sums over the groups of GROUP BY are sums over the rows, and ORDER BY changes no sum.
use tradinghub.Base.{
  ℕ, zero, suc, ◌≤◌, ℤ, pos, ◌+ℤ◌, +ℤ_assoc, +ℤ_swap, zero-+ℤ, Bool, true, false, not, ◌&&◌, List,
  [], ◌∷◌, map, ◌≡◌, refl, sym, ap, ◌∙◌, inl, inr, arith, Bool-cases, length, keep, keep-keep,
  keep-ext, All-map, All-of,
}
use mathlib.Core.Path.{ap₂}
use tradinghub.Sql.{distinct, group_by, insert, order_by}
use tradinghub.Sql.Group.{IsEquiv, distinct-keep, map-ext, group_by-nil, All-distinct, keep_none}
use tradinghub.Sql.Search.{keep-holds-test}
use tradinghub.Sql.Joins.{total}

module _ {ℓ} {A : Type ℓ} (v : A → ℤ) where
  -- The sum of the values of the rows that pass a test.
  abbrev pub sum_of : (A → Bool) → List A → ℤ
  sum_of p xs = total (map v (keep p xs))

  sum_of-split :
      (s t : A → Bool) (xs : List A)
      → sum_of t xs ≡ sum_of (λ x. s x && t x) xs +ℤ sum_of (λ x. not (s x) && t x) xs
  sum_of-split s t [] = sym (zero-+ℤ (pos 0))
  sum_of-split s t (x ∷ xs) = elim (Bool-cases (t x)) [
    | inl e ↦ elim (Bool-cases (s x)) [
      | inl h ↦ rw (e, h) (ap (◌+ℤ◌ (v x)) (sum_of-split s t xs) ∙ sym (+ℤ_assoc (v x) _ _))
      | inr h ↦ rw (e, h) (ap (◌+ℤ◌ (v x)) (sum_of-split s t xs) ∙ +ℤ_swap (v x) _ _)
    ]
    | inr e ↦ elim (Bool-cases (s x)) [
      | inl h ↦ rw (e, h) (sum_of-split s t xs)
      | inr h ↦ rw (e, h) (sum_of-split s t xs)
    ]
  ]

  sum_of-insert :
      (before : A → A → Bool) (p : A → Bool) (x : A) (ys : List A)
      → sum_of p (insert before x ys) ≡ sum_of p (x ∷ ys)
  unfolding insert
  sum_of-insert before p x [] = refl
  sum_of-insert before p x (y ∷ ys) = elim (Bool-cases (before x y)) [
    | inl e ↦ rw e refl
    | inr e ↦ elim (Bool-cases (p x)) [
      | inl hx ↦ elim (Bool-cases (p y)) [
        | inl hy ↦ rw (e, hy, sum_of-insert before p x ys, hx) (+ℤ_swap (v y) (v x) _)
        | inr hy ↦ rw (e, hy, sum_of-insert before p x ys, hx) refl
      ]
      | inr hx ↦ elim (Bool-cases (p y)) [
        | inl hy ↦ rw (e, hy, sum_of-insert before p x ys, hx) refl
        | inr hy ↦ rw (e, hy, sum_of-insert before p x ys, hx) refl
      ]
    ]
  ]

  pub sum_of-order_by :
      (before : A → A → Bool) (p : A → Bool) (xs : List A)
      → sum_of p (order_by before xs) ≡ sum_of p xs
  unfolding order_by
  sum_of-order_by before p [] = refl
  sum_of-order_by before p (x ∷ xs) =
      sum_of-insert before p x (order_by before xs) ∙ elim (Bool-cases (p x)) [
        | inl e ↦ rw e (ap (◌+ℤ◌ (v x)) (sum_of-order_by before p xs))
        | inr e ↦ rw e (sum_of-order_by before p xs)
      ]

module _ {ℓ} {A : Type ℓ} (same : A → A → Bool) (equiv : IsEquiv same) where
  abbrev apart : A → A → Bool
  apart x y = not (same x y)

  abbrev groups : List A → List A → List (A × List A)
  groups rows = map (λ y. (y, keep (same y) rows))

  -- What is like a row apart from `x` is apart from `x`.
  members_apart :
      (x y : A) (xs : List A)
      → apart x y ≡ true
      → keep (same y) (x ∷ xs) ≡ keep (same y) (keep (apart x) xs)
  members_apart x y xs h =
      let unlike : same y x ≡ false = equiv.symmetric y x ∙ ground arith in
      rw unlike
        (sym (keep-keep (same y) (apart x) xs ∙ keep-ext _ _ xs (All-of (λ z. both_pass z) xs)))
    where
      both_pass : (z : A) → (apart x z && same y z) ≡ same y z
      both_pass z = elim (Bool-cases (same y z)) [
        | inl e ↦
            let far : same x z ≡ false =
              equiv.symmetric x z
              ∙ sym (equiv.congruent y z x e)
              ∙ equiv.symmetric y x
              ∙ ground arith in
            rw (e, far) refl
        | inr e ↦ rw e (ground arith)
      ]

  -- The first row's group, and the groups of the rows apart from it.
  group_by-cons :
      (x : A) (xs : List A)
      → group_by same (x ∷ xs) ≡ (x, x ∷ keep (same x) xs) ∷ group_by same (keep (apart x) xs)
  unfolding group_by distinct
  group_by-cons x xs =
      ap₂ (λ members rest. (x, members) ∷ rest) (rw (equiv.reflexive x) refl)
        (ap (groups (x ∷ xs)) (distinct-keep same equiv x xs)
          ∙ map-ext _ _ (distinct same (keep (apart x) xs)) (
              All-map (λ y h. ap (λ zs. (y, zs)) (members_apart x y xs h)) _
                (All-distinct _ same (keep (apart x) xs) (keep-holds-test (apart x) xs))))

  length-keep-le : (p : A → Bool) (xs : List A) → length (keep p xs) ≤ length xs
  length-keep-le p [] = omega arith
  length-keep-le p (x ∷ xs) = ground (arith, length-keep-le p xs)

  module _ (v : A → ℤ) (t : A → Bool) (fits : (x y : A) → same x y ≡ true → t y ≡ t x) where
    -- The sum of the sums of the groups whose first row passes the test.
    abbrev pub sum_of_groups : List (A × List A) → ℤ
    sum_of_groups gs = total (map (λ g. total (map v g.1)) (keep (λ g. t g.0) gs))

    of_group : A → List A → ℤ
    of_group x xs = total (map v (keep (λ y. same x y && t y) xs))

    in_group :
        (x : A) (xs : List A) → t x ≡ true → keep (λ y. same x y && t y) xs ≡ keep (same x) xs
    in_group x xs h = keep-ext _ _ xs (
        All-of
          (λ y. elim (Bool-cases (same x y)) [
            | inl e ↦ rw (e, fits x y e, h) refl
            | inr e ↦ rw e refl
          ])
          xs)

    no_group : (x : A) (xs : List A) → t x ≡ false → keep (λ y. same x y && t y) xs ≡ []
    no_group x xs h = keep_none _ xs (
        All-of
          (λ y. elim (Bool-cases (same x y)) [
            | inl e ↦ rw (e, fits x y e, h) refl
            | inr e ↦ rw e refl
          ])
          xs)

    outside :
        (x : A) (xs : List A) → sum_of v (λ y. apart x y && t y) xs ≡ sum_of v t (keep (apart x) xs)
    outside x xs = ap (λ ys. total (map v ys)) (sym (keep-keep t (apart x) xs))

    group_by-total_within :
        (n : ℕ) (xs : List A) → length xs ≤ n → sum_of_groups (group_by same xs) ≡ sum_of v t xs
    group_by-total_within n [] h = rw (group_by-nil same) refl
    group_by-total_within zero (x ∷ xs) h = absurd (omega arith)
    group_by-total_within (suc n) (x ∷ xs) h =
        let others = keep (apart x) xs in
        let later : sum_of_groups (group_by same others) ≡ sum_of v t others =
          group_by-total_within n others (omega (arith, length-keep-le (apart x) xs)) in
        elim (Bool-cases (t x)) [
          | inl e ↦
              rw (group_by-cons x xs, e, later)
                (+ℤ_assoc (v x) _ _
                  ∙ ap (◌+ℤ◌ (v x)) (
                      sym (
                        sum_of-split v (same x) t xs
                        ∙ ap₂ ◌+ℤ◌ (ap (λ ys. total (map v ys)) (in_group x xs e)) (outside x xs))))
          | inr e ↦
              rw (group_by-cons x xs, e, later)
                (sym (
                  sum_of-split v (same x) t xs
                  ∙ ap₂ ◌+ℤ◌ (ap (λ ys. total (map v ys)) (no_group x xs e)) (outside x xs)
                  ∙ zero-+ℤ _))
        ]

    -- The groups whose first row passes a test, which rows of one group pass alike, have the sum of
    -- all rows that pass it.
    pub group_by-total : (xs : List A) → sum_of_groups (group_by same xs) ≡ sum_of v t xs
    group_by-total xs = group_by-total_within (length xs) xs (omega arith)
