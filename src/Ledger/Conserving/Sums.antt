-- ===== src/Ledger/Conserving/Sums.antt =====
-- What is booked to accounts, added up over the accounts of a user that count in one unit.
use tradinghub.Base.{
  false, ℕ, ℤ, pos, neg, ◌+ℤ◌, zero-+ℤ, +ℤ-zero, Bool, true, String, Option, none, some, List, [],
  ◌∷◌, map, ◌≡◌, refl, sym, ap, ◌∙◌, inl, inr, arith, ◌&&◌, ◌==◌, Bool-cases, Option-cases, keep,
  if◌then◌else◌, find?, same_text, int_laws, All, ◌≢◌, All-map,
}
use tradinghub.Sql.Rows.{Keyed}
use tradinghub.Sql.Joins.{total}
use tradinghub.Ledger.Models.{Account}
use tradinghub.Ledger.Crud.Accounts.{is_account}
use tradinghub.Ledger.Balances.{account_number}
use tradinghub.Ledger.Booking.{fee_booked, booked}

module _ {ℓ} {A : Type ℓ} where
  -- The sum of a sum.
  pub total-map-+ℤ :
      (f g : A → ℤ) (xs : List A)
      → total (map (λ x. f x +ℤ g x) xs) ≡ total (map f xs) +ℤ total (map g xs)
  total-map-+ℤ f g [] = omega int_laws
  total-map-+ℤ f g (x ∷ xs) = ap (◌+ℤ◌ (f x +ℤ g x)) (total-map-+ℤ f g xs) ∙ omega int_laws

-- What is booked to an account, added up over accounts.
abbrev pub sum_booked : ℕ → ℤ → List Account → ℤ
sum_booked i x xs = total (map (λ (a : Account). booked i x a.id) xs)

sum_booked-nowhere :
    (i : ℕ) (x : ℤ) (q : Account → Bool) (xs : List Account)
    → All (λ (a : Account). i ≢ a.id) xs
    → sum_booked i x (keep q xs) ≡ pos 0
sum_booked-nowhere i x q [] h = refl
sum_booked-nowhere i x q (a ∷ xs) (ne, h) =
    let other : (i == a.id) ≡ false = ground (arith, ne) in
    elim (Bool-cases (q a)) [
      | inl e ↦ rw (e, other, sum_booked-nowhere i x q xs h) (zero-+ℤ (pos 0))
      | inr e ↦ rw e (sum_booked-nowhere i x q xs h)
    ]

total-zeros : (xs : List Account) → total (map (λ (a : Account). pos 0) xs) ≡ pos 0
total-zeros [] = refl
total-zeros (a ∷ xs) = ap (◌+ℤ◌ (pos 0)) (total-zeros xs) ∙ zero-+ℤ (pos 0)

-- An amount, as far as it is in the unit.
abbrev pub in_unit : String → Option Account → ℤ → ℤ
in_unit unit none x = pos 0
in_unit unit (some a) x = if same_text a.unit unit then x else pos 0

-- The fee of a transfer, as far as it is in the unit.
abbrev pub fee_in : String → ℕ → List Account → Option ℤ → Option ℕ → ℤ
fee_in unit u accounts (some fee) (some i) =
    in_unit unit (find? (is_account i u) accounts) (neg fee)
fee_in unit u accounts _ _ = pos 0

module _ (u : ℕ) (unit : String) where
  -- The accounts of the user in the unit.
  abbrev pub counted : Account → Bool
  counted a = a.user_id == u && same_text a.unit unit

module _ (u : ℕ) (unit : String) (i : ℕ) (x : ℤ) where
  sum_booked-found :
      (b : Account) (xs : List Account)
      → Keyed account_number xs
      → find? (is_account i u) xs ≡ some b
      → sum_booked i x (keep (counted u unit) xs) ≡ (if same_text b.unit unit then x else pos 0)
  sum_booked-found b [] k found = cc
  sum_booked-found b (a ∷ xs) (apart, k) found = elim (Bool-cases (is_account i u a)) [
    | inl e ↦
        let here : i ≡ a.id = ground arith in
        let booked_here : (i == a.id) ≡ true = ground arith in
        let owned : (a.user_id == u) ≡ true = ground arith in
        let found_here : some a ≡ some b = rw e at found in
        let is_b : a ≡ b = cc in
        let nowhere =
          sum_booked-nowhere i x (counted u unit) xs
            (All-map (λ c ne j. ne (sym here ∙ j)) xs apart) in
        rw (sym (ap (λ (c : Account). same_text c.unit unit) is_b))
          (elim (Bool-cases (same_text a.unit unit)) [
            | inl t ↦ rw (owned, t, booked_here, nowhere) (+ℤ-zero x)
            | inr t ↦ rw (owned, t) nowhere
          ])
    | inr e ↦
        let later : find? (is_account i u) xs ≡ some b = rw e at found in
        let rest = sum_booked-found b xs k later in
        elim (Bool-cases (counted u unit a)) [
          | inl c ↦
              let other : (i == a.id) ≡ false = ground arith in rw (c, other, rest) (zero-+ℤ _)
          | inr c ↦ rw (c, rest)
        ]
  ]

  sum_booked-missing :
      (xs : List Account)
      → find? (is_account i u) xs ≡ none
      → sum_booked i x (keep (counted u unit) xs) ≡ pos 0
  sum_booked-missing [] missing = refl
  sum_booked-missing (a ∷ xs) missing = elim (Bool-cases (is_account i u a)) [
    | inl e ↦ cc (rw e at missing)
    | inr e ↦
        let later : find? (is_account i u) xs ≡ none = rw e at missing in
        let rest = sum_booked-missing xs later in
        elim (Bool-cases (counted u unit a)) [
          | inl c ↦
              let other : (i == a.id) ≡ false = ground arith in rw (c, other, rest) (zero-+ℤ _)
          | inr c ↦ rw (c, rest)
        ]
  ]

  -- What is booked to an account comes to its unit, if the user has the account.
  pub sum_booked-in_unit :
      (xs : List Account)
      → Keyed account_number xs
      → sum_booked i x (keep (counted u unit) xs) ≡ in_unit unit (find? (is_account i u) xs) x
  sum_booked-in_unit xs k = elim (Option-cases (find? (is_account i u) xs)) [
    | inl missing ↦ rw missing (sum_booked-missing xs missing)
    | inr (b, found) ↦ rw found (sum_booked-found b xs k found)
  ]

-- So does the fee.
pub sum_fee_booked :
    (u : ℕ) (unit : String) (fee : Option ℤ) (i : Option ℕ) (xs : List Account)
    → Keyed account_number xs
    → total (map (λ (a : Account). fee_booked fee i a.id) (keep (counted u unit) xs))
      ≡ fee_in unit u xs fee i
sum_fee_booked u unit none i xs k = total-zeros (keep (counted u unit) xs)
sum_fee_booked u unit (some x) none xs k = total-zeros (keep (counted u unit) xs)
sum_fee_booked u unit (some x) (some i) xs k = sum_booked-in_unit u unit i (neg x) xs k
