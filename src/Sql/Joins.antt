-- ===== src/Sql/Joins.antt =====
-- Joins under a condition on the left table, and an outer join grouped by the left table's key.
use tradinghub.Base.{
  neg, neg-+ℤ, zero-+ℤ, +ℤ_assoc, int_laws, ℕ, ℤ, pos, ◌+ℤ◌, +ℤ-zero, Bool, Option, some, none,
  List, [], ◌∷◌, ◌++◌, map, ◌≡◌, refl, sym, ap, ◌∙◌, inl, inr, arith, ◌==◌, Bool-cases, keep, All,
  All-append, All-map, keep-append,
}
use tradinghub.Sql.{group_by, outer_join, padded, sum, add_null, coalesce}
use tradinghub.Sql.Rows.{Keyed}
use tradinghub.Sql.Group.{IsEquiv, group_block, group_by-nil, keep_all, keep_none}

-- The first row that an outer join pairs with a row of the left table, and the further ones.
abbrev pub first {ℓ} : {B : Type ℓ} → List B → Option B
first [] = none
first (b ∷ bs) = some b

abbrev pub more {ℓ} : {B : Type ℓ} → List B → List (Option B)
more [] = []
more (b ∷ bs) = map some bs

padded-first {ℓ} : {B : Type ℓ} (bs : List B) → padded bs ≡ first bs ∷ more bs
padded-first [] = refl
padded-first (b ∷ bs) = refl

module _ {ℓ} {A B : Type ℓ} where
  abbrev pub pairs : A → List (Option B) → List (A × Option B)
  pairs a = map (λ b. (a, b))

  All-pairs {κ} :
      (P : A × Option B → Type κ) (a : A) (bs : List (Option B))
      → ((b : Option B) → P (a, b))
      → All P (pairs a bs)
  All-pairs P a [] h = tt
  All-pairs P a (b ∷ bs) h = (h b, All-pairs P a bs h)

  All-outer_join {κ} :
      (P : A × Option B → Type κ) (on : A → B → Bool) (xs : List A) (bs : List B)
      → All (λ a. (b : Option B) → P (a, b)) xs
      → All P (outer_join on xs bs)
  unfolding outer_join
  All-outer_join P on [] bs h = tt
  All-outer_join P on (a ∷ xs) bs h =
      All-append P (pairs a (padded (keep (on a) bs))) (outer_join on xs bs)
        (All-pairs P a (padded (keep (on a) bs)) h.0) (All-outer_join P on xs bs h.1)

  -- A condition on the left table may be applied before the join.
  pub keep-outer_join :
      (p : A → Bool) (on : A → B → Bool) (xs : List A) (bs : List B)
      → keep (λ r. p r.0) (outer_join on xs bs) ≡ outer_join on (keep p xs) bs
  unfolding outer_join
  keep-outer_join p on [] bs = refl
  keep-outer_join p on (a ∷ xs) bs = elim (Bool-cases (p a)) [
    | inl e ↦
        keep-append (λ r. p r.0) (pairs a (padded (keep (on a) bs))) (outer_join on xs bs)
        ∙ rw (
          e,
          keep_all (λ r. p r.0) (pairs a (padded (keep (on a) bs))) (All-pairs _ a _ (λ b. e)),
          keep-outer_join p on xs bs,
        )
    | inr e ↦
        keep-append (λ r. p r.0) (pairs a (padded (keep (on a) bs))) (outer_join on xs bs)
        ∙ rw
            (
              e,
              keep_none (λ r. p r.0) (pairs a (padded (keep (on a) bs))) (All-pairs _ a _ (λ b. e)),
            )
            (keep-outer_join p on xs bs)
  ]

  module _ (key : A → ℕ) (on : A → B → Bool) where
    abbrev pub same_key : A × Option B → A × Option B → Bool
    same_key r s = key r.0 == key s.0

    same_key-IsEquiv : IsEquiv same_key
    same_key-IsEquiv = record {
      reflexive = λ x. ground arith;
      symmetric = λ x y. ground arith;
      congruent = λ x y z h. ground arith;
    }

    abbrev pub group_of_row : List B → A → (A × Option B) × List (A × Option B)
    group_of_row bs a =
        let matching = keep (on a) bs in
        ((a, first matching), (a, first matching) ∷ pairs a (more matching))

    -- With distinct keys, an outer join grouped by the key has one group for each row.
    pub group_by-outer_join :
        (xs : List A) (bs : List B)
        → Keyed key xs
        → group_by same_key (outer_join on xs bs) ≡ map (group_of_row bs) xs
    unfolding outer_join
    group_by-outer_join [] bs d = group_by-nil same_key
    group_by-outer_join (a ∷ xs) bs d =
        let matching = keep (on a) bs in
        ap (λ rows. group_by same_key (pairs a rows ++ outer_join on xs bs)) (padded-first matching)
        ∙ group_block same_key same_key-IsEquiv (a, first matching) (pairs a (more matching))
            (outer_join on xs bs) (All-pairs _ a (more matching) (λ b. ground arith))
            (All-outer_join _ on xs bs (All-map (λ a' ne b. ground arith) xs d.0))
        ∙ ap (◌∷◌ (group_of_row bs a)) (group_by-outer_join xs bs d.1)

-- The plain sum of a list of amounts.
abbrev pub total : List ℤ → ℤ
total [] = pos 0
total (a ∷ xs) = a +ℤ total xs

coalesce-add_null :
    (a : ℤ) (o : Option ℤ) → coalesce (add_null a o) (pos 0) ≡ a +ℤ coalesce o (pos 0)
coalesce-add_null a none = sym (+ℤ-zero a)
coalesce-add_null a (some b) = refl

pub coalesce-sum : (xs : List ℤ) → coalesce (sum (map some xs)) (pos 0) ≡ total xs
coalesce-sum [] = refl
coalesce-sum (a ∷ xs) = coalesce-add_null a (sum (map some xs)) ∙ ap (◌+ℤ◌ a) (coalesce-sum xs)

abbrev pub or_zero : Option ℤ → ℤ
or_zero o = coalesce o (pos 0)

-- SUM of nullable values, with zero for NULL, is the sum with zero for each NULL.
pub coalesce-sum_null : (xs : List (Option ℤ)) → or_zero (sum xs) ≡ total (map or_zero xs)
coalesce-sum_null [] = refl
coalesce-sum_null (none ∷ xs) = coalesce-sum_null xs ∙ sym (zero-+ℤ _)
coalesce-sum_null (some a ∷ xs) = coalesce-add_null a (sum xs) ∙ ap (◌+ℤ◌ a) (coalesce-sum_null xs)

pub neg-total : (xs : List ℤ) → neg (total xs) ≡ total (map neg xs)
neg-total [] = omega int_laws
neg-total (a ∷ xs) = neg-+ℤ a (total xs) ∙ ap (◌+ℤ◌ (neg a)) (neg-total xs)

pub map-append :
    {A B : Type 0} (f : A → B) (xs ys : List A) → map f (xs ++ ys) ≡ map f xs ++ map f ys
map-append f [] ys = refl
map-append f (x ∷ xs) ys = ap (◌∷◌ (f x)) (map-append f xs ys)

pub total-append : (xs ys : List ℤ) → total (xs ++ ys) ≡ total xs +ℤ total ys
total-append [] ys = sym (zero-+ℤ (total ys))
total-append (x ∷ xs) ys = ap (◌+ℤ◌ x) (total-append xs ys) ∙ sym (+ℤ_assoc x _ _)
