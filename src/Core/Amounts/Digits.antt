-- ===== src/Core/Amounts/Digits.antt =====
-- Lists of digits, the heaviest first: the number that they write, and what zeros do to it.
use native.Mathlib.Nat.{zero-add, suc-add, mul_assoc, mul_comm, add-mul, pow-zero, pow-suc}
use tradinghub.Base.{
  ℕ, zero, suc, ◌+◌, ◌-◌, ◌*◌, ◌/◌, ◌%◌, ◌^◌, ◌<◌, Bool, false, List, [], ◌∷◌, ◌++◌, ◌==◌, ltb,
  length, take, drop, ◌≡◌, refl, sym, ap, ◌∙◌, arith, inl, inr, Bool-cases,
}
use tradinghub.Core.Schemas.{keep_digit, strip_zeros, zeros, digits_from}

-- The number that digits write, the first the heaviest.
abbrev pub number : List ℕ → ℕ
number [] = 0
number (d ∷ ds) = d * 10 ^ length ds + number ds

abbrev pub ends_in_zero : List ℕ → Bool
ends_in_zero [] = false
ends_in_zero (d ∷ []) = d == 0
ends_in_zero (d ∷ e ∷ ds) = ends_in_zero (e ∷ ds)

pub pow_add : (a m n : ℕ) → a ^ (m + n) ≡ a ^ m * a ^ n
pow_add a zero n = rw (pow-zero a, zero-add) (omega arith)
pow_add a (suc m) n =
    ap (λ k. a ^ k) (suc-add m n)
    ∙ pow-suc a (m + n)
    ∙ ap (λ x. x * a) (pow_add a m n)
    ∙ mul_assoc (a ^ m) (a ^ n) a
    ∙ ap (λ x. a ^ m * x) (mul_comm (a ^ n) a)
    ∙ sym (mul_assoc (a ^ m) a (a ^ n))
    ∙ ap (λ x. x * a ^ n) (sym (pow-suc a m))

pub length-append : (xs ys : List ℕ) → length (xs ++ ys) ≡ length xs + length ys
length-append [] ys = omega arith
length-append (x ∷ xs) ys = omega (arith, length-append xs ys)

pub number-append : (xs ys : List ℕ) → number (xs ++ ys) ≡ number xs * 10 ^ length ys + number ys
number-append [] ys = omega arith
number-append (x ∷ xs) ys =
    let weight : x * 10 ^ length (xs ++ ys) ≡ x * 10 ^ length xs * 10 ^ length ys =
      ap (λ n. x * 10 ^ n) (length-append xs ys)
      ∙ ap (λ p. x * p) (pow_add 10 (length xs) (length ys))
      ∙ sym (mul_assoc x (10 ^ length xs) (10 ^ length ys)) in
    let split : (x * 10 ^ length xs + number xs) * 10 ^ length ys
        ≡ x * 10 ^ length xs * 10 ^ length ys + number xs * 10 ^ length ys =
      add-mul (x * 10 ^ length xs) (number xs) (10 ^ length ys) in
    omega (arith, weight, split, number-append xs ys)

pub number-zeros : (n : ℕ) → number (zeros n) ≡ 0
number-zeros zero = refl
number-zeros (suc n) = omega (arith, number-zeros n)

pub length-zeros : (n : ℕ) → length (zeros n) ≡ n
length-zeros zero = refl
length-zeros (suc n) = ap suc (length-zeros n)

-- What is stripped are zeros, and their number the exponent.
pub strip_zeros_lem : (ds : List ℕ) → ds ≡ (strip_zeros ds).0 ++ zeros (strip_zeros ds).1
strip_zeros_lem [] = refl
strip_zeros_lem (d ∷ ds) = kept (strip_zeros ds) (strip_zeros_lem ds)
  where
    kept :
        (s : List ℕ × ℕ)
        → ds ≡ s.0 ++ zeros s.1
        → d ∷ ds ≡ (keep_digit d s).0 ++ zeros (keep_digit d s).1
    kept (x ∷ xs, k) h = ap (λ r. d ∷ r) h
    kept ([], k) h = ground (arith, h)

pub stripped_end : (ds : List ℕ) → ends_in_zero (strip_zeros ds).0 ≡ false
stripped_end [] = refl
stripped_end (d ∷ ds) = kept (strip_zeros ds) (stripped_end ds)
  where
    kept : (s : List ℕ × ℕ) → ends_in_zero s.0 ≡ false → ends_in_zero (keep_digit d s).0 ≡ false
    kept ([], k) h = ground arith
    kept (x ∷ xs, k) h = h

pub number-digits_from :
    (fuel n : ℕ) (ds : List ℕ)
    → n < fuel
    → number (digits_from fuel n ds) ≡ n * 10 ^ length ds + number ds
number-digits_from zero n ds h = absurd (omega arith)
number-digits_from (suc fuel) n ds h = elim (Bool-cases (ltb n 10)) [
  | inl small ↦ rw small refl
  | inr large ↦
      let rest = number-digits_from fuel (n / 10) (n % 10 ∷ ds) (ground arith) in
      let weight = 10 ^ length ds in
      let shifted : n / 10 * 10 ^ suc (length ds) ≡ n / 10 * 10 * weight =
        ap (λ p. n / 10 * p) (pow-suc 10 (length ds) ∙ mul_comm weight 10)
        ∙ sym (mul_assoc (n / 10) 10 weight) in
      let parts : n * weight ≡ n / 10 * 10 * weight + n % 10 * weight =
        ap (λ m. m * weight) (omega arith) ∙ add-mul (n / 10 * 10) (n % 10) weight in
      rw large (omega (arith, rest, shifted, parts))
]

pub take-drop : (n : ℕ) (xs : List ℕ) → take n xs ++ drop n xs ≡ xs
take-drop zero xs = refl
take-drop (suc n) [] = refl
take-drop (suc n) (x ∷ xs) = ap (λ r. x ∷ r) (take-drop n xs)

pub length-drop : (n : ℕ) (xs : List ℕ) → length (drop n xs) ≡ length xs - n
length-drop zero xs = omega arith
length-drop (suc n) [] = omega arith
length-drop (suc n) (x ∷ xs) = omega (arith, length-drop n xs)

pub ends_in_zero-drop :
    (n : ℕ) (ds : List ℕ) → ends_in_zero ds ≡ false → ends_in_zero (drop n ds) ≡ false
ends_in_zero-drop zero ds h = h
ends_in_zero-drop (suc n) [] h = refl
ends_in_zero-drop (suc zero) (d ∷ []) h = refl
ends_in_zero-drop (suc (suc n)) (d ∷ []) h = refl
ends_in_zero-drop (suc n) (d ∷ e ∷ ds) h = ends_in_zero-drop n (e ∷ ds) h

pub ends_in_zero-padded :
    (n : ℕ) (d : ℕ) (ds : List ℕ)
    → ends_in_zero (d ∷ ds) ≡ false
    → ends_in_zero (zeros n ++ d ∷ ds) ≡ false
ends_in_zero-padded zero d ds h = h
ends_in_zero-padded (suc zero) d ds h = h
ends_in_zero-padded (suc (suc n)) d ds h = ends_in_zero-padded (suc n) d ds h

pub number_shifted : (ds : List ℕ) (n : ℕ) → number (ds ++ zeros n) ≡ number ds * 10 ^ n
number_shifted ds n =
    number-append ds (zeros n)
    ∙ ap (λ k. number ds * 10 ^ k + number (zeros n)) (length-zeros n)
    ∙ ap (λ z. number ds * 10 ^ n + z) (number-zeros n)
    ∙ omega arith
