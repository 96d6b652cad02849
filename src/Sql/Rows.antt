-- ===== src/Sql/Rows.antt =====
-- Rows with a numeric key: what an UPDATE by key, a DELETE and a lookup do to them.
use mathlib.Core.Path.{subst}
use tradinghub.Base.{
  any, ap, All-map, ℕ, Bool, true, false, some, List, [], ◌∷◌, ◌≡◌, ◌≢◌, refl, sym, inl, inr, arith,
  ◌==◌, Bool-cases, if◌then◌else◌, keep, find?, All, Pairwise, ◌∙◌, find?-All, find?-holds,
}
use tradinghub.Sql.{update}

module _ {ℓ} {A : Type ℓ} (key : A → ℕ) where
  -- No key stands twice.
  abbrev pub Keyed : List A → Type 0
  Keyed = Pairwise (λ x y. key x ≢ key y)

  pub All-update {κ} :
      (P : A → Type κ) (a : A) (xs : List A) → P a → All P xs → All P (update key a xs)
  unfolding update
  All-update P a [] pa h = tt
  All-update P a (x ∷ xs) pa h =
      elim (key x == key a) as (λ b. P (if b then a else x) × All P (update key a xs)) [
        | true ↦ (pa, All-update P a xs pa h.1)
        | false ↦ (h.0, All-update P a xs pa h.1)
      ]

  key_of_updated : (a x : A) → key (if key x == key a then a else x) ≡ key x
  key_of_updated a x = ground arith

  ne-update :
      (k : ℕ) (a : A) (xs : List A)
      → All (λ y. k ≢ key y) xs
      → All (λ y. k ≢ key y) (update key a xs)
  unfolding update
  ne-update k a [] h = tt
  ne-update k a (x ∷ xs) h = (rw (key_of_updated a x) (h.0), ne-update k a xs h.1)

  pub Keyed-update : (a : A) (xs : List A) → Keyed xs → Keyed (update key a xs)
  unfolding update
  Keyed-update a [] h = tt
  Keyed-update a (x ∷ xs) h =
      (rw (key_of_updated a x) (ne-update (key x) a xs h.0), Keyed-update a xs h.1)

  -- Without the key an UPDATE changes nothing.
  pub update_absent : (a : A) (xs : List A) → All (λ y. key a ≢ key y) xs → update key a xs ≡ xs
  unfolding update
  update_absent a [] h = refl
  update_absent a (x ∷ xs) h = ground (arith, h.0, update_absent a xs h.1)

  -- The row that a keyed lookup finds is the only one that an UPDATE replaces, so a test that
  -- fails on the old row and on the new one keeps the same rows.
  pub keep-update :
      (p q : A → Bool) (k : ℕ) (old new : A) (xs : List A)
      → Keyed xs
      → ((x : A) → q x ≡ true → key x ≡ k)
      → find? q xs ≡ some old
      → key new ≡ k
      → p old ≡ false
      → p new ≡ false
      → keep p (update key new xs) ≡ keep p xs
  unfolding update
  keep-update p q k old new [] d hq found kn po pn = refl
  keep-update p q k old new (x ∷ xs) d hq found kn po pn = elim (Bool-cases (q x)) [
    | inl here ↦
        let same : key x ≡ key new = hq x here ∙ sym kn in
        let absent : All (λ y. key new ≢ key y) xs = rw same at d.0 in
        ground (arith, update_absent new xs absent)
    | inr there ↦
        let later : find? q xs ≡ some old = ground arith in
        let other : key x ≢ key old = find?-All (λ y. key x ≢ key y) q xs d.0 later in
        ground (
          arith,
          hq old (find?-holds q xs later),
          keep-update p q k old new xs d.1 hq later kn po pn,
        )
  ]

  -- A relation of all pairs survives an UPDATE of the found row, when the new row is related to what
  -- the old one was.
  pub Pairwise-update {κ} :
      (R : A → A → Type κ) (q : A → Bool) (old new : A) (xs : List A)
      → Keyed xs
      → find? q xs ≡ some old
      → key new ≡ key old
      → ((x : A) → R old x → R new x)
      → ((x : A) → R x old → R x new)
      → Pairwise R xs
      → Pairwise R (update key new xs)
  unfolding update
  Pairwise-update R q old new [] d found kn fwd bwd p = tt
  Pairwise-update R q old new (x ∷ xs) d found kn fwd bwd p = elim (Bool-cases (q x)) [
    | inl here ↦
        let is_old : x ≡ old = ground arith in
        let same : key x ≡ key new = ap key is_old ∙ sym kn in
        let absent : All (λ y. key new ≢ key y) xs = rw same at d.0 in
        let hit : (key x == key new) ≡ true = ground arith in
        rw (hit, update_absent new xs absent)
          (All-map (λ y r. fwd y (subst (λ z. R z y) is_old r)) xs p.0, p.1)
    | inr there ↦
        let later : find? q xs ≡ some old = ground arith in
        let other : key x ≢ key old = find?-All (λ y. key x ≢ key y) q xs d.0 later in
        let miss : (key x == key new) ≡ false = ground arith in
        rw miss (
          All-update (R x) new xs (bwd x (find?-All (R x) q xs p.0 later)) p.0,
          Pairwise-update R q old new xs d.1 later kn fwd bwd p.1,
        )
  ]

  -- After the UPDATE of a found row all rows satisfy what the new row does, and what follows from being
  -- related to the old one.
  pub All-update_found {κ λ'} :
      (P : A → Type λ') (R : A → A → Type κ) (q : A → Bool) (old new : A) (xs : List A)
      → Keyed xs
      → find? q xs ≡ some old
      → key new ≡ key old
      → P new
      → ((x : A) → R old x → P x)
      → ((x : A) → R x old → P x)
      → Pairwise R xs
      → All P (update key new xs)
  unfolding update
  All-update_found P R q old new [] d found kn pn fwd bwd p = tt
  All-update_found P R q old new (x ∷ xs) d found kn pn fwd bwd p = elim (Bool-cases (q x)) [
    | inl here ↦
        let is_old : x ≡ old = ground arith in
        let same : key x ≡ key new = ap key is_old ∙ sym kn in
        let absent : All (λ y. key new ≢ key y) xs = rw same at d.0 in
        let hit : (key x == key new) ≡ true = ground arith in
        rw (hit, update_absent new xs absent)
          (pn, All-map (λ y r. fwd y (subst (λ z. R z y) is_old r)) xs p.0)
    | inr there ↦
        let later : find? q xs ≡ some old = ground arith in
        let other : key x ≢ key old = find?-All (λ y. key x ≢ key y) q xs d.0 later in
        let miss : (key x == key new) ≡ false = ground arith in
        rw miss (
          bwd x (find?-All (R x) q xs p.0 later),
          All-update_found P R q old new xs d.1 later kn pn fwd bwd p.1,
        )
  ]

  -- A search that the new row passes finds it in the place of the old one.
  pub find?-update :
      (q : A → Bool) (old new : A) (xs : List A)
      → Keyed xs
      → find? q xs ≡ some old
      → key new ≡ key old
      → q new ≡ true
      → find? q (update key new xs) ≡ some new
  unfolding update
  find?-update q old new [] d found kn h = cc
  find?-update q old new (x ∷ xs) d found kn h = elim (Bool-cases (q x)) [
    | inl here ↦ let hit : (key x == key new) ≡ true = ground arith in rw (hit, h) refl
    | inr there ↦
        let later : find? q xs ≡ some old = ground arith in
        let other : key x ≢ key old = find?-All (λ y. key x ≢ key y) q xs d.0 later in
        let miss : (key x == key new) ≡ false = ground arith in
        rw (miss, there) (find?-update q old new xs d.1 later kn h)
  ]

  -- A test that the new row passes as the old one did is passed by some row as before.
  pub any-update :
      (q p : A → Bool) (old new : A) (xs : List A)
      → Keyed xs
      → find? q xs ≡ some old
      → key new ≡ key old
      → p new ≡ p old
      → any p (update key new xs) ≡ any p xs
  unfolding update
  any-update q p old new [] d found kn h = refl
  any-update q p old new (x ∷ xs) d found kn h = elim (Bool-cases (q x)) [
    | inl here ↦
        let is_old : x ≡ old = ground arith in
        let same : key x ≡ key new = ap key is_old ∙ sym kn in
        let absent : All (λ y. key new ≢ key y) xs = rw same at d.0 in
        let hit : (key x == key new) ≡ true = ground arith in
        rw (hit, update_absent new xs absent) (rw (h, is_old) refl)
    | inr there ↦
        let later : find? q xs ≡ some old = ground arith in
        let other : key x ≢ key old = find?-All (λ y. key x ≢ key y) q xs d.0 later in
        let miss : (key x == key new) ≡ false = ground arith in
        rw (miss, any-update q p old new xs d.1 later kn h) refl
  ]
