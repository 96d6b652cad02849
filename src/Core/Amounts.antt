-- ===== src/Core/Amounts.antt =====
-- What the text of an amount says: reading it gives the amount back, and no digit of it could be left out.
pub mod Digits
use native.Mathlib.Nat.{zero-add, suc-add, mul_assoc, mul_comm, add-mul, mul-add, pow-zero, pow-suc}
use tradinghub.Base.{
  ℕ, zero, suc, ◌+◌, ◌-◌, ◌*◌, ◌/◌, ◌%◌, ◌^◌, ◌≤◌, ◌<◌, ℤ, pos, negsuc, ◌+ℤ◌, Bool, true, false,
  List, [], ◌∷◌, ◌++◌, map, ◌==◌, ltb, leb, length, take, drop, if◌then◌else◌, ◌≡◌, ◌≢◌, refl, sym,
  ap, ◌∙◌, arith, inl, inr, Bool-cases,
}
use tradinghub.Core.Amounts.Digits.{
  number, ends_in_zero, pow_add, length-append, number-append, number-zeros, length-zeros,
  strip_zeros_lem, stripped_end, number-digits_from, take-drop, length-drop, ends_in_zero-drop,
  ends_in_zero-padded, number_shifted,
}
use tradinghub.Core.Schemas.{
  Decimal, Symbol, minus, point, digit, keep_digit, strip_zeros, zeros, written, signed_text,
  with_point, fixed_text, format_fixed, normal_form, normalize, exact_string, digits_from, numeric,
}

-- The digits before the point, and behind it.
abbrev pub whole_part : List Symbol → List ℕ
whole_part [] = []
whole_part (digit d ∷ t) = d ∷ whole_part t
whole_part (_ ∷ t) = []

abbrev pub fraction_part : List Symbol → List ℕ
fraction_part [] = []
fraction_part (point ∷ t) = whole_part t
fraction_part (_ ∷ t) = fraction_part t

abbrev pub magnitude : List Symbol → ℕ
magnitude t =
    number (whole_part t) * 10 ^ 18
    + number (fraction_part t) * 10 ^ (18 - length (fraction_part t))

abbrev pub negated : ℕ → ℤ
negated zero = pos 0
negated (suc n) = negsuc n

-- A text read as a count of 10⁻¹⁸.
abbrev pub units : List Symbol → ℤ
units (minus ∷ t) = negated (magnitude t)
units t = pos (magnitude t)

whole_part-written : (ds : List ℕ) → whole_part (written ds) ≡ ds
whole_part-written [] = refl
whole_part-written (d ∷ ds) = ap (λ r. d ∷ r) (whole_part-written ds)

fraction_part-written : (ds : List ℕ) → fraction_part (written ds) ≡ []
fraction_part-written [] = refl
fraction_part-written (d ∷ ds) = fraction_part-written ds

whole_part-point : (ds : List ℕ) (t : List Symbol) → whole_part (written ds ++ point ∷ t) ≡ ds
whole_part-point [] t = refl
whole_part-point (d ∷ ds) t = ap (λ r. d ∷ r) (whole_part-point ds t)

fraction_part-point : (ds es : List ℕ) → fraction_part (written ds ++ point ∷ written es) ≡ es
fraction_part-point [] es = whole_part-written es
fraction_part-point (d ∷ ds) es = fraction_part-point ds es

-- What a text of digits with the point so many places from the end says.
module _ (places : ℕ) (d : ℕ) (ds : List ℕ) where
  abbrev padded : List ℕ
  padded = zeros (suc places - length (d ∷ ds)) ++ d ∷ ds

  abbrev whole : ℕ
  whole = length padded - places

  number-padded : number padded ≡ number (d ∷ ds)
  number-padded =
      let zero_part = number-zeros (suc places - length (d ∷ ds)) in
      number-append (zeros (suc places - length (d ∷ ds))) (d ∷ ds)
      ∙ ap (λ z. z * 10 ^ length (d ∷ ds) + number (d ∷ ds)) zero_part
      ∙ omega arith

  fraction_length : length (drop whole padded) ≡ places
  fraction_length =
      let sizes = length-append (zeros (suc places - length (d ∷ ds))) (d ∷ ds) in
      let front = length-zeros (suc places - length (d ∷ ds)) in
      omega (arith, length-drop whole padded, sizes, front)

  magnitude-with_point :
      (k : ℕ) → places + k ≡ 18 → magnitude (with_point places (d ∷ ds)) ≡ number (d ∷ ds) * 10 ^ k
  magnitude-with_point k h =
      let front = take whole padded in
      let back = drop whole padded in
      let text = with_point places (d ∷ ds) in
      let a = number front in
      let b = number back in
      let p = 10 ^ places in
      let scale : 10 ^ 18 ≡ p * 10 ^ k = ap (λ n. 10 ^ n) (sym h) ∙ pow_add 10 places k in
      let left : 18 - length back ≡ k = omega (arith, fraction_length, h) in
      let together : a * p + b ≡ number (d ∷ ds) =
        ap (λ n. a * 10 ^ n + b) (sym fraction_length)
        ∙ sym (number-append front back)
        ∙ ap number (take-drop whole padded)
        ∙ number-padded in
      ap
        (λ w.
          number w * 10 ^ 18
          + number (fraction_part text) * 10 ^ (18 - length (fraction_part text)))
        (whole_part-point front (written back))
      ∙ ap (λ f. a * 10 ^ 18 + number f * 10 ^ (18 - length f)) (fraction_part-point front back)
      ∙ ap (λ n. a * 10 ^ 18 + b * 10 ^ n) left
      ∙ ap (λ q. a * q + b * 10 ^ k) scale
      ∙ ap (λ q. q + b * 10 ^ k) (sym (mul_assoc a p (10 ^ k)))
      ∙ sym (add-mul (a * p) b (10 ^ k))
      ∙ ap (λ n. n * 10 ^ k) together

  fraction-with_point :
      ends_in_zero (d ∷ ds) ≡ false
      → ends_in_zero (fraction_part (with_point places (d ∷ ds))) ≡ false
  fraction-with_point h =
      ap ends_in_zero (fraction_part-point (take whole padded) (drop whole padded))
      ∙ ends_in_zero-drop whole padded (ends_in_zero-padded (suc places - length (d ∷ ds)) d ds h)

magnitude-written : (ds : List ℕ) → magnitude (written ds) ≡ number ds * 10 ^ 18
magnitude-written ds =
    ap
      (λ w.
        number w * 10 ^ 18
        + number (fraction_part (written ds)) * 10 ^ (18 - length (fraction_part (written ds))))
      (whole_part-written ds)
    ∙ ap (λ f. number ds * 10 ^ 18 + number f * 10 ^ (18 - length f)) (fraction_part-written ds)
    ∙ omega arith

-- The digits of a stripped number and the zeros that it lost, written from the exponent on.
module _ (d : ℕ) (ds : List ℕ) (k : ℕ) (shortest : ends_in_zero (d ∷ ds) ≡ false) where
  abbrev text : List Symbol
  text = fixed_text (d ∷ ds) (negsuc 17 +ℤ pos k)

  few_zeros : k < 18 → (negsuc 17 +ℤ pos k) ≡ negsuc (17 - k)
  unfolding ◌+ℤ◌
  few_zeros h = ground arith

  many_zeros : 18 ≤ k → (negsuc 17 +ℤ pos k) ≡ pos (k - 18)
  unfolding ◌+ℤ◌
  many_zeros h = ground arith

  text_lem :
      (magnitude text ≡ number (d ∷ ds ++ zeros k)) × (ends_in_zero (fraction_part text) ≡ false)
  text_lem = elim (Bool-cases (ltb k 18)) [
    | inl few ↦ rw (few_zeros (ground arith)) (
        (
          magnitude-with_point (suc (17 - k)) d ds k (ground arith)
              ∙ sym (number_shifted (d ∷ ds) k),
          fraction-with_point (suc (17 - k)) d ds shortest,
        ))
    | inr many ↦ rw (many_zeros (ground arith)) (
      magnitude-written (d ∷ ds ++ zeros (k - 18))
          ∙ ap (λ n. n * 10 ^ 18) (number_shifted (d ∷ ds) (k - 18))
          ∙ mul_assoc (number (d ∷ ds)) (10 ^ (k - 18)) (10 ^ 18)
          ∙ ap (λ q. number (d ∷ ds) * q)
              (sym (pow_add 10 (k - 18) 18) ∙ ap (λ n. 10 ^ n) (ground arith))
          ∙ sym (number_shifted (d ∷ ds) k),
      ap ends_in_zero (fraction_part-written (d ∷ ds ++ zeros (k - 18))),
    )
  ]

-- A text of digits and a point has no sign.
units-written : (ds : List ℕ) → units (written ds) ≡ pos (magnitude (written ds))
units-written [] = refl
units-written (d ∷ ds) = refl

units-point :
    (ds : List ℕ) (t : List Symbol)
    → units (written ds ++ point ∷ t) ≡ pos (magnitude (written ds ++ point ∷ t))
units-point [] t = refl
units-point (d ∷ ds) t = refl

units-fixed_text :
    (ds : List ℕ) (e : ℤ) → units (fixed_text ds e) ≡ pos (magnitude (fixed_text ds e))
units-fixed_text ds (pos n) = units-written (ds ++ zeros n)
units-fixed_text ds (negsuc n) = units-point _ _

module _ (round : ℕ → Decimal → Decimal) where
  -- What the digits of an amount are written as.
  abbrev normal : List ℕ → Decimal
  normal ds = normal_form false (negsuc 17) (strip_zeros ds)

  abbrev body : List ℕ → List Symbol
  body ds = fixed_text (normal ds).digits (normal ds).exponent

  body_lem :
      (ds : List ℕ)
      → (magnitude (body ds) ≡ number ds) × (ends_in_zero (fraction_part (body ds)) ≡ false)
  body_lem ds = stripped (strip_zeros ds) (strip_zeros_lem ds) (stripped_end ds)
    where
      stripped :
          (s : List ℕ × ℕ)
          → ds ≡ s.0 ++ zeros s.1
          → ends_in_zero s.0 ≡ false
          → (let n = normal_form false (negsuc 17) s in
              (magnitude (fixed_text n.digits n.exponent) ≡ number ds)
              × (ends_in_zero (fraction_part (fixed_text n.digits n.exponent)) ≡ false))
      stripped ([], k) e h = (sym (ap number e ∙ number-zeros k), refl)
      stripped (d ∷ ds', k) e h =
          let (value, end) = text_lem d ds' k h in (value ∙ ap number (sym e), end)

  leb_refl : (n : ℕ) → leb n n ≡ true
  leb_refl n = ground arith

  -- The precision of the context is the number of the digits, so nothing is rounded.
  exact_string_lem :
      (negative : Bool) (ds : List ℕ)
      → exact_string round (record { negative = negative; digits = ds; exponent = negsuc 17 })
        ≡ signed_text negative (body ds)
  unfolding exact_string normalize format_fixed
  exact_string_lem negative ds = rw (leb_refl (length ds)) (formatted (strip_zeros ds))
    where
      formatted :
          (s : List ℕ × ℕ)
          → format_fixed (normal_form negative (negsuc 17) s)
            ≡ signed_text negative (
                fixed_text
                  (normal_form false (negsuc 17) s).digits
                  (normal_form false (negsuc 17) s).exponent)
      formatted ([], k) = refl
      formatted (d ∷ ds, k) = refl

  number_digits : (n : ℕ) → number (digits_from (suc n) n []) ≡ n
  number_digits n = number-digits_from (suc n) n [] (omega arith) ∙ omega arith

  -- An amount, written by _exact_string and read again, is the same amount, whatever the context would
  -- round to; and its fraction does not end in a zero.
  pub units-exact_string :
      (a : ℤ)
      → (units (exact_string round (numeric a)) ≡ a)
        × (ends_in_zero (fraction_part (exact_string round (numeric a))) ≡ false)
  unfolding numeric
  units-exact_string (pos n) =
      let ds = digits_from (suc n) n [] in
      let (value, end) = body_lem ds in
      rw (exact_string_lem false ds) (
        (
          units-fixed_text (normal ds).digits (normal ds).exponent
              ∙ ap pos (value ∙ number_digits n),
          end,
        ))
  units-exact_string (negsuc n) =
      let ds = digits_from (suc (suc n)) (suc n) [] in
      let (value, end) = body_lem ds in
      rw (exact_string_lem true ds) ((ap negated (value ∙ number_digits (suc n)), end))
