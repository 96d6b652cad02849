-- ===== src/Core/Schemas.antt =====
-- core/schemas.py, _exact_string: how an amount is written in JSON. A Decimal is what as_tuple() gives
-- of it, and a text is the list of its symbols.
use tradinghub.Base.{
  ℕ, zero, suc, ◌-◌, ◌/◌, ◌%◌, ℤ, pos, negsuc, ◌+ℤ◌, Bool, true, false, List, [], ◌∷◌, ◌++◌, map,
  ◌==◌, ltb, leb, length, take, drop, if◌then◌else◌,
}

pub record Decimal : Type 0 where
  pub negative : Bool
  pub digits : List ℕ
  pub exponent : ℤ

pub data Symbol : Type 0 where
  minus point : Symbol
  digit : ℕ → Symbol

-- The digits without the zeros at their end, and how many those were.
abbrev pub keep_digit : ℕ → List ℕ × ℕ → List ℕ × ℕ
keep_digit d ([], k) = if d == 0 then ([], suc k) else (d ∷ [], k)
keep_digit d (x ∷ xs, k) = (d ∷ x ∷ xs, k)

abbrev pub strip_zeros : List ℕ → List ℕ × ℕ
strip_zeros [] = ([], 0)
strip_zeros (d ∷ ds) = keep_digit d (strip_zeros ds)

abbrev pub normal_form : Bool → ℤ → List ℕ × ℕ → Decimal
normal_form negative exponent ([], k) = record {
  negative = negative;
  digits = 0 ∷ [];
  exponent = pos 0;
}
normal_form negative exponent (d ∷ ds, k) = record {
  negative = negative;
  digits = d ∷ ds;
  exponent = exponent +ℤ pos k;
}

abbrev pub zeros : ℕ → List ℕ
zeros zero = []
zeros (suc n) = 0 ∷ zeros n

abbrev pub written : List ℕ → List Symbol
written ds = map digit ds

abbrev pub signed_text : Bool → List Symbol → List Symbol
signed_text true t = minus ∷ t
signed_text false t = t

-- The digits with the point so many places from the end, and a zero before it if there is nothing else.
abbrev pub with_point : ℕ → List ℕ → List Symbol
with_point places ds =
    let padded = zeros (suc places - length ds) ++ ds in
    let whole = length padded - places in
    written (take whole padded) ++ point ∷ written (drop whole padded)

abbrev pub fixed_text : List ℕ → ℤ → List Symbol
fixed_text ds (pos n) = written (ds ++ zeros n)
fixed_text ds (negsuc n) = with_point (suc n) ds

-- format(value, "f")
unfoldable pub format_fixed : Decimal → List Symbol
format_fixed d = signed_text d.negative (fixed_text d.digits d.exponent)

-- `round` is what a context does to a value that has more digits than its precision.
module _ (round : ℕ → Decimal → Decimal) where
  abbrev pub to_precision : ℕ → Decimal → Decimal
  to_precision precision d = if leb (length d.digits) precision then d else round precision d

  -- Decimal.normalize(Context(prec=precision))
  unfoldable pub normalize : ℕ → Decimal → Decimal
  normalize precision value =
      let d = to_precision precision value in
      normal_form d.negative d.exponent (strip_zeros d.digits)

  -- `_exact_string`
  unfoldable pub exact_string : Decimal → List Symbol
  unfolding normalize format_fixed
  exact_string value = format_fixed (normalize (length value.digits) value)

-- The digits of a number, first digit first.
abbrev pub digits_from : ℕ → ℕ → List ℕ → List ℕ
digits_from zero n ds = ds
digits_from (suc fuel) n ds =
    let rest = digits_from fuel (n / 10) (n % 10 ∷ ds) in if ltb n 10 then n ∷ ds else rest

-- NUMERIC(36, 18), given back with 18 decimal places: the Decimal of a count of 10⁻¹⁸.
unfoldable pub numeric : ℤ → Decimal
numeric (pos n) = record {
  negative = false;
  digits = digits_from (suc n) n [];
  exponent = negsuc 17;
}
numeric (negsuc n) = record {
  negative = true;
  digits = digits_from (suc (suc n)) (suc n) [];
  exponent = negsuc 17;
}
