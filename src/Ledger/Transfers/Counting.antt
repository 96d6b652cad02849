-- ===== src/Ledger/Transfers/Counting.antt =====
-- The count of rows that a query by a set of ids returns, against the count of the ids.
use tradinghub.Base.{
  ◌++◌, ℕ, ◌+◌, ◌≤◌, Bool, true, false, ◌&&◌, some, List, [], ◌∷◌, ◌≡◌, ◌≢◌, refl, ap, ◌∙◌, inl,
  inr, arith, ◌==◌, Bool-cases, length, keep, find?, all, All, All-of, Pairwise, if◌then◌else◌,
}
use tradinghub.Sql.Group.{keep_none}
use tradinghub.Ledger.Models.{Account}
use tradinghub.Ledger.Schemas.{TransferCreate}
use tradinghub.Ledger.Crud.Accounts.{is_in, is_account}
use tradinghub.Ledger.Crud.Transactions.{owns_account}
use tradinghub.Ledger.Services.Transfers.{account_ids, add}
use tradinghub.Ledger.Consistent.{account_key}

abbrev pub chosen : List ℕ → ℕ → Account → Bool
chosen ids u a = is_in ids a.id && a.user_id == u

not-is_in : (i : ℕ) (is : List ℕ) → All (λ j. i ≢ j) is → is_in is i ≡ false
not-is_in i [] h = refl
not-is_in i (j ∷ is) h = ground (arith, h.0, not-is_in i is h.1)

count_none :
    (i u : ℕ) (xs : List Account)
    → All (λ a. i ≢ account_key a) xs
    → (length (keep (is_account i u) xs) ≡ 0) × (owns_account xs i u ≡ false)
count_none i u [] h = (refl, refl)
count_none i u (x ∷ xs) h =
    let (c, o) = count_none i u xs h.1 in (ground (arith, h.0), ground (arith, h.0))

-- One row for an id that the user owns, and none for any other.
count_one :
    (i u : ℕ) (xs : List Account)
    → Pairwise (λ x y. account_key x ≢ account_key y) xs
    → length (keep (is_account i u) xs) ≡ (if owns_account xs i u then 1 else 0)
count_one i u [] d = refl
count_one i u (x ∷ xs) d = elim (Bool-cases (is_account i u x)) [
  | inl here ↦
      let e : account_key x ≡ i = ground arith in
      let absent : All (λ a. i ≢ account_key a) xs = rw e at d.0 in
      rw (here, (count_none i u xs absent).0)
  | inr there ↦ rw (there, count_one i u xs d.1)
]

count_split :
    (i u : ℕ) (is : List ℕ) (xs : List Account)
    → is_in is i ≡ false
    → length (keep (chosen (i ∷ is) u) xs)
      ≡ length (keep (is_account i u) xs) + length (keep (chosen is u) xs)
count_split i u is [] h = omega arith
count_split i u is (x ∷ xs) h = elim (Bool-cases (x.id == i)) [
  | inl e ↦
      let same : x.id ≡ i = ground arith in
      let other : is_in is x.id ≡ false = rw same h in ground (arith, count_split i u is xs h)
  | inr e ↦ ground (arith, count_split i u is xs h)
]

-- A query by distinct ids returns as many rows as there are ids that the user owns.
pub count_owned :
    (u : ℕ) (is : List ℕ) (xs : List Account)
    → Pairwise (λ i j. i ≢ j) is
    → Pairwise (λ x y. account_key x ≢ account_key y) xs
    → length (keep (chosen is u) xs) ≡ length (keep (λ i. owns_account xs i u) is)
count_owned u [] xs p d = ap length (keep_none (chosen [] u) xs (All-of (λ a. refl) xs))
count_owned u (i ∷ is) xs p d =
    count_split i u is xs (not-is_in i is p.0)
    ∙ rw (count_one i u xs d, count_owned u is xs p.1 d) (ground arith)

pub length-keep-le : (p : ℕ → Bool) (is : List ℕ) → length (keep p is) ≤ length is
length-keep-le p [] = omega arith
length-keep-le p (i ∷ is) = ground (arith, length-keep-le p is)

pub all_iff_length : (p : ℕ → Bool) (is : List ℕ) → (length (keep p is) == length is) ≡ all p is
all_iff_length p [] = refl
all_iff_length p (i ∷ is) = ground (arith, length-keep-le p is, all_iff_length p is)

pub all-is_in :
    (p : ℕ → Bool) (is : List ℕ) (i : ℕ) → all p is ≡ true → is_in is i ≡ true → p i ≡ true
all-is_in p [] i h m = cc
all-is_in p (j ∷ is) i h m = elim (Bool-cases (i == j)) [
  | inl e ↦ let same : i ≡ j = ground arith in rw same (ground arith)
  | inr e ↦ all-is_in p is i (ground arith) (ground arith)
]

-- The dict finds an id of the set exactly where the user's account of that id is.
pub find?-chosen :
    (i u : ℕ) (is : List ℕ) (xs : List Account)
    → is_in is i ≡ true
    → find? (λ (a : Account). a.id == i) (keep (chosen is u) xs) ≡ find? (is_account i u) xs
find?-chosen i u is [] m = refl
find?-chosen i u is (x ∷ xs) m = elim (Bool-cases (x.id == i)) [
  | inl e ↦
      let same : x.id ≡ i = ground arith in
      let member : is_in is x.id ≡ true = rw same m in ground (arith, find?-chosen i u is xs m)
  | inr e ↦ ground (arith, find?-chosen i u is xs m)
]

pub account_ids_lem :
    (d : TransferCreate)
    → d.from_account_id ≢ d.to_account_id
    → Pairwise (λ i j. i ≢ j) (account_ids d)
      × (is_in (account_ids d) d.from_account_id ≡ true)
      × (is_in (account_ids d) d.to_account_id ≡ true)
account_ids_lem d ne = ground arith

is_in-last : (i : ℕ) (is : List ℕ) → is_in (is ++ i ∷ []) i ≡ true
is_in-last i [] = ground arith
is_in-last i (j ∷ is) = ground (arith, is_in-last i is)

is_in-add : (i : ℕ) (is : List ℕ) → is_in (add i is) i ≡ true
is_in-add i is = elim (Bool-cases (is_in is i)) [ inl e ↦ rw e e | inr e ↦ rw e (is_in-last i is) ]

pub fee_in_ids :
    (d : TransferCreate) (i : ℕ) → d.fee_account_id ≡ some i → is_in (account_ids d) i ≡ true
fee_in_ids d i e = rw e (is_in-add i (add d.to_account_id (d.from_account_id ∷ [])))
