-- ===== src/Sql/Search.antt =====
-- Lists of keyed rows: the one row that a search can find, and what a DELETE leaves.
use mathlib.Core.Bool.{false}
use tradinghub.Base.{
  find?-All, ◌≢◌, none, ap, Pairwise, refl, ℕ, Bool, true, some, List, [], ◌∷◌, ◌++◌, ◌≡◌, sym, ◌∙◌,
  inl, inr, arith, Bool-cases, keep, find?, any, all, All, All-map,
}
use tradinghub.Sql.Rows.{Keyed}

module _ {ℓ} {A : Type ℓ} where
  pub any-append : (p : A → Bool) (xs ys : List A) → any p xs ≡ true → any p (xs ++ ys) ≡ true
  any-append p [] ys h = cc
  any-append p (x ∷ xs) ys h = ground (arith, any-append p xs ys)

  -- What a filter keeps passes its test, and every condition on the whole list.
  pub keep-holds {κ} :
      (P : A → Type κ) (p : A → Bool) (xs : List A)
      → All P xs
      → All (λ x. (p x ≡ true) × P x) (keep p xs)
  keep-holds P p [] h = tt
  keep-holds P p (x ∷ xs) h = elim (Bool-cases (p x)) [
    | inl e ↦ rw e ((e, h.0), keep-holds P p xs h.1)
    | inr e ↦ rw e (keep-holds P p xs h.1)
  ]

  pub any-false : (p : A → Bool) (xs : List A) → any p xs ≡ false → All (λ x. p x ≡ false) xs
  any-false p [] h = tt
  any-false p (x ∷ xs) h = (ground arith, any-false p xs (ground arith))

  pub all-true : (p : A → Bool) (xs : List A) → all p xs ≡ true → All (λ x. p x ≡ true) xs
  all-true p [] h = tt
  all-true p (x ∷ xs) h = (ground arith, all-true p xs (ground arith))

  pub keep-holds-test : (p : A → Bool) (xs : List A) → All (λ x. p x ≡ true) (keep p xs)
  keep-holds-test p [] = tt
  keep-holds-test p (x ∷ xs) = elim (Bool-cases (p x)) [
    | inl e ↦ rw e (e, keep-holds-test p xs)
    | inr e ↦ rw e (keep-holds-test p xs)
  ]

  -- A filter that the found row passes does not hide it.
  pub find?-keep :
      (p q : A → Bool) (xs : List A) {a : A}
      → find? q xs ≡ some a
      → p a ≡ true
      → find? q (keep p xs) ≡ some a
  find?-keep p q [] e h = cc
  find?-keep p q (x ∷ xs) {a} e h = ground (arith, find?-keep p q xs {a = a})

module _ {ℓ} {A : Type ℓ} (key : A → ℕ) where
  -- A test that only one key can pass is passed only by the row that a search finds.
  pub found_only :
      (q : A → Bool) (k : ℕ) (xs : List A)
      → Keyed key xs
      → ((x : A) → q x ≡ true → key x ≡ k)
      → All (λ x. q x ≡ true → find? q xs ≡ some x) xs
  found_only q k [] d hq = tt
  found_only q k (x ∷ xs) d hq = elim (Bool-cases (q x)) [
    | inl here ↦ (λ _. rw here, All-map (λ y ne e. absurd (ne (hq x here ∙ sym (hq y e)))) xs d.0)
    | inr there ↦ (λ e. cc, All-map (λ y f e. rw there (f e)) xs (found_only q k xs d.1 hq))
  ]

  -- The row that a search finds is the only one of its key.
  pub only_key :
      (q : A → Bool) (a : A) (xs : List A)
      → Keyed key xs
      → find? q xs ≡ some a
      → All (λ x. key x ≡ key a → x ≡ a) xs
  only_key q a [] d e = tt
  only_key q a (x ∷ xs) d e = elim (Bool-cases (q x)) [
    | inl here ↦
        let is_a : x ≡ a = ground arith in
        (λ _. is_a, All-map (λ y ne same. absurd (ne (ap key is_a ∙ sym same))) xs d.0)
    | inr there ↦
        let later : find? q xs ≡ some a = ground arith in
        (
          λ same. absurd (find?-All (λ y. key x ≢ key y) q xs d.0 later same),
          only_key q a xs d.1 later,
        )
  ]

module _ {ℓ} {A : Type ℓ} where
  pub find?-append :
      (q : A → Bool) (xs ys : List A) {a : A} → find? q xs ≡ some a → find? q (xs ++ ys) ≡ some a
  find?-append q [] ys e = cc
  find?-append q (x ∷ xs) ys {a} e = ground (arith, find?-append q xs ys {a = a})

  pub none_pass : (q : A → Bool) (xs : List A) → All (λ x. q x ≡ false) xs → any q xs ≡ false
  none_pass q [] h = refl
  none_pass q (x ∷ xs) h = ground (arith, h.0, none_pass q xs h.1)

  -- What no row passes is found in no part of them.
  pub find?-keep-none :
      (p q : A → Bool) (xs : List A) → any q xs ≡ false → find? q (keep p xs) ≡ none
  find?-keep-none p q [] h = refl
  find?-keep-none p q (x ∷ xs) h = ground (arith, find?-keep-none p q xs)

  -- When no other row passes the test, a filter that drops the found row hides it.
  pub find?-keep_lost {κ} :
      (R : A → A → Type κ) (p q : A → Bool) (xs : List A) {a : A}
      → ((x y : A) → q x ≡ true → R x y → q y ≡ false)
      → Pairwise R xs
      → find? q xs ≡ some a
      → p a ≡ false
      → find? q (keep p xs) ≡ none
  find?-keep_lost R p q [] alone d e h = refl
  find?-keep_lost R p q (x ∷ xs) {a} alone d e h = elim (Bool-cases (q x)) [
    | inl here ↦
        let is_a : x ≡ a = ground arith in
        let gone : p x ≡ false = ap p is_a ∙ h in
        rw gone (find?-keep-none p q xs (none_pass q xs (All-map (λ y r. alone x y here r) xs d.0)))
    | inr there ↦ ground (arith, find?-keep_lost R p q xs {a = a} alone d.1 (ground arith) h)
  ]

  pub any_found :
      (p q : A → Bool) (xs : List A) {a : A} → find? q xs ≡ some a → p a ≡ true → any p xs ≡ true
  any_found p q [] e h = cc
  any_found p q (x ∷ xs) {a} e h = ground (arith, any_found p q xs {a = a})

  -- A condition on what a filter keeps is one on what passes its test.
  pub All-unkeep {κ} :
      (P : A → Type κ) (p : A → Bool) (xs : List A)
      → All P (keep p xs)
      → All (λ x. p x ≡ true → P x) xs
  All-unkeep P p [] h = tt
  All-unkeep P p (x ∷ xs) h = elim (Bool-cases (p x)) [
    | inl e ↦ let g = rw e at h in (λ _. g.0, All-unkeep P p xs g.1)
    | inr e ↦ (λ yes. cc, All-unkeep P p xs (rw e at h))
  ]

-- The last of the rows, if none before passes.
pub find?-last {ℓ} :
    {A : Type ℓ} (p : A → Bool) (xs : List A) (a : A)
    → any p xs ≡ false
    → p a ≡ true
    → find? p (xs ++ a ∷ []) ≡ some a
find?-last p [] a none_before here = ground arith
find?-last p (x ∷ xs) a none_before here = ground (arith, find?-last p xs a)
