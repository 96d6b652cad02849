-- ===== src/Sql/Group.antt =====
-- GROUP BY: one group for each class of equal keys, and the groups of an outer join.
use tradinghub.Base.{
  keep_swap, Bool, true, false, not, List, [], ◌∷◌, ◌++◌, map, ◌≡◌, refl, sym, ap, ◌∙◌, inl, inr,
  arith, Bool-cases, keep, All, All-keep, keep-append, keep-ext,
}
use mathlib.Core.Path.{ap₂}
use mathlib.Core.List.{append-nil}
use tradinghub.Sql.{distinct, group_by}

-- Rows with equal keys.
pub record IsEquiv {ℓ} {A : Type ℓ} (same : A → A → Bool) : Type ℓ where
  pub reflexive : (x : A) → same x x ≡ true
  pub symmetric : (x y : A) → same x y ≡ same y x
  pub congruent : (x y z : A) → same x y ≡ true → same x z ≡ same y z

module _ {ℓ} {A : Type ℓ} where
  pub keep_all : (p : A → Bool) (xs : List A) → All (λ x. p x ≡ true) xs → keep p xs ≡ xs
  keep_all p [] h = refl
  keep_all p (x ∷ xs) h = ground (arith, h.0, keep_all p xs h.1)

  pub keep_none : (p : A → Bool) (xs : List A) → All (λ x. p x ≡ false) xs → keep p xs ≡ []
  keep_none p [] h = refl
  keep_none p (x ∷ xs) h = ground (arith, h.0, keep_none p xs h.1)

  pub map-ext {κ} :
      {B : Type κ} (f g : A → B) (xs : List A) → All (λ x. f x ≡ g x) xs → map f xs ≡ map g xs
  map-ext f g [] h = refl
  map-ext f g (x ∷ xs) h = ground (arith, h.0, map-ext f g xs h.1)

  keep_twice : (p : A → Bool) (xs : List A) → keep p (keep p xs) ≡ keep p xs
  keep_twice p [] = refl
  keep_twice p (x ∷ xs) = ground (arith, keep_twice p xs)

  pub group_by-nil : (same : A → A → Bool) → group_by same [] ≡ []
  unfolding group_by
  group_by-nil same = refl

  pub All-distinct {κ} :
      (P : A → Type κ) (same : A → A → Bool) (xs : List A) → All P xs → All P (distinct same xs)
  unfolding distinct
  All-distinct P same [] h = tt
  All-distinct P same (x ∷ xs) h =
      (h.0, All-keep P (λ y. not (same x y)) (distinct same xs) (All-distinct P same xs h.1))

module _ {ℓ} {A : Type ℓ} (same : A → A → Bool) (equiv : IsEquiv same) where
  abbrev apart : A → A → Bool
  apart x y = not (same x y)

  apart_alike : (x y : A) (zs : List A) → same x y ≡ true → All (λ z. apart y z ≡ apart x z) zs
  apart_alike x y [] h = tt
  apart_alike x y (z ∷ zs) h = (ap not (sym (equiv.congruent x y z h)), apart_alike x y zs h)

  pub distinct-keep :
      (x : A) (ys : List A) → keep (apart x) (distinct same ys) ≡ distinct same (keep (apart x) ys)
  unfolding distinct
  distinct-keep x [] = refl
  distinct-keep x (y ∷ ys) =
      let rest = distinct same ys in
      elim (Bool-cases (same x y)) [
        | inl e ↦ rw e (
            ap (keep (apart x)) (keep-ext (apart y) (apart x) rest (apart_alike x y rest e))
            ∙ keep_twice (apart x) rest
            ∙ distinct-keep x ys)
        | inr e ↦ rw e (
            ap (◌∷◌ y)
              (keep_swap (apart x) (apart y) rest ∙ ap (keep (apart y)) (distinct-keep x ys)))
      ]

  not_same : (x : A) (ys : List A) → All (λ y. same x y ≡ false) ys → All (λ y. apart x y ≡ true) ys
  not_same x [] h = tt
  not_same x (y ∷ ys) h = (ap not h.0, not_same x ys h.1)

  are_same : (x : A) (ys : List A) → All (λ y. same x y ≡ true) ys → All (λ y. apart x y ≡ false) ys
  are_same x [] h = tt
  are_same x (y ∷ ys) h = (ap not h.0, are_same x ys h.1)

  unlike :
      (x y : A) (zs : List A)
      → same x y ≡ false
      → All (λ z. same x z ≡ true) zs
      → All (λ z. same y z ≡ false) zs
  unlike x y [] e h = tt
  unlike x y (z ∷ zs) e h =
      (equiv.symmetric y z ∙ sym (equiv.congruent x z y h.0) ∙ e, unlike x y zs e h.1)

  module _ (x : A) (xs rest : List A) (alike : All (λ y. same x y ≡ true) xs)
      (others : All (λ y. same x y ≡ false) rest) where
    distinct_block : distinct same ((x ∷ xs) ++ rest) ≡ x ∷ distinct same rest
    unfolding distinct
    distinct_block = ap (◌∷◌ x) (
        distinct-keep x (xs ++ rest)
        ∙ ap (distinct same) (
            keep-append (apart x) xs rest
            ∙ ap (λ zs. zs ++ keep (apart x) rest) (keep_none (apart x) xs (are_same x xs alike))
            ∙ keep_all (apart x) rest (not_same x rest others)))

    members_of_block : keep (same x) ((x ∷ xs) ++ rest) ≡ x ∷ xs
    members_of_block =
        keep-append (same x) (x ∷ xs) rest
        ∙ ap (λ zs. keep (same x) (x ∷ xs) ++ zs) (keep_none (same x) rest others)
        ∙ append-nil (keep (same x) (x ∷ xs))
        ∙ keep_all (same x) (x ∷ xs) (equiv.reflexive x, alike)

    no_member : (y : A) → same x y ≡ false → keep (same y) ((x ∷ xs) ++ rest) ≡ keep (same y) rest
    no_member y e =
        keep-append (same y) (x ∷ xs) rest
        ∙ ap (λ zs. zs ++ keep (same y) rest)
            (keep_none (same y) (x ∷ xs) (unlike x y (x ∷ xs) e (equiv.reflexive x, alike)))

    same_members :
        (ys : List A)
        → All (λ y. same x y ≡ false) ys
        → All
            (λ y.
              ◌≡◌ {A = A × List A} (y, keep (same y) ((x ∷ xs) ++ rest)) (y, keep (same y) rest))
            ys
    same_members [] h = tt
    same_members (y ∷ ys) h = (ap (λ zs. (y, zs)) (no_member y h.0), same_members ys h.1)

    -- A block of equal keys in front of other keys is a group of its own.
    pub group_block : group_by same ((x ∷ xs) ++ rest) ≡ (x, x ∷ xs) ∷ group_by same rest
    unfolding group_by
    group_block =
        ap (map (λ y. (y, keep (same y) ((x ∷ xs) ++ rest)))) distinct_block
        ∙ ap₂ (λ zs tail. (x, zs) ∷ tail) members_of_block
            (map-ext _ _ (distinct same rest)
              (same_members (distinct same rest) (All-distinct _ same rest others)))
