-- ===== src/Float.antt =====
-- Go's float64, by its bit pattern (IEEE 754, binary64): its exact value, the comparisons, and the
-- conversion to an int. A value is a sign and a magnitude in units of 2 ^ -1074, the smallest float64
-- above zero, so that every finite float64 has a whole number of units.
use filemagic_backend.Prelude.{
  ℕ, ◌+◌, ◌-◌, ◌*◌, ◌/◌, ◌%◌, ◌^◌, Bool, true, false, not, ◌&&◌, ◌||◌, ltb, leb, ◌==◌,
  if◌then◌else◌,
}

pub record Number : Type 0 where
  pub negative : Bool
  pub units : ℕ

-- 2 ^ 1074
abbrev pub one_unit : ℕ
one_unit = 2 ^ 1074

unfoldable pub exponent_of : ℕ → ℕ
exponent_of b = b / 2 ^ 52 % 2048

unfoldable pub is_nan : ℕ → Bool
is_nan b = exponent_of b == 2047 && not (b % 2 ^ 52 == 0)

-- An infinity has more units than any finite value.
unfoldable pub value : ℕ → Number
value b = record {
  negative = b / 2 ^ 63 % 2 == 1;
  units =
      if exponent_of b == 0 then b % 2 ^ 52 else (2 ^ 52 + b % 2 ^ 52) * 2 ^ (exponent_of b - 1);
}

-- The constants n, -n and n / 2 ^ k of the source.
abbrev pub whole : ℕ → Number
whole n = record { negative = false; units = n * one_unit }

abbrev pub minus : ℕ → Number
minus n = record { negative = true; units = n * one_unit }

abbrev pub fraction : ℕ → ℕ → Number
fraction n k = record { negative = false; units = n * 2 ^ (1074 - k) }

unfoldable pub less : Number → Number → Bool
less x y =
    if x.negative
    then (if y.negative then ltb y.units x.units else ltb 0 (x.units + y.units))
    else if y.negative
    then false
    else ltb x.units y.units

-- `v < c` and `v > c`, false of a NaN.
unfoldable pub is_below : ℕ → Number → Bool
is_below b c = not (is_nan b) && less (value b) c

unfoldable pub is_above : ℕ → Number → Bool
is_above b c = not (is_nan b) && less c (value b)

-- `v == c`
unfoldable pub equals : ℕ → Number → Bool
equals b c = not (is_nan b) && not (less (value b) c) && not (less c (value b))

-- `v == float64(int(v))`, for a value that an int holds.
unfoldable pub is_whole : ℕ → Bool
is_whole b = not (is_nan b) && (value b).units % one_unit == 0

-- An int: `pos n` is n, `negsuc n` is -(n + 1).
pub data Integer : Type 0 where
  pos negsuc : ℕ → Integer

unfoldable pub signed : Bool → ℕ → Integer
signed negative n = if negative then (if n == 0 then pos 0 else negsuc (n - 1)) else pos n

-- `int(v)`: toward zero. What it gives outside the range of an int64 is left to the implementation, the
-- argument `other`.
unfoldable pub to_int : (ℕ → Integer) → ℕ → Integer
to_int other b =
    let n = (value b).units / one_unit in
    if is_nan b || leb (2 ^ 63) n then other b else signed (value b).negative n

-- The part of an int that is not negative.
unfoldable pub at_least_zero : Integer → ℕ
at_least_zero (pos n) = n
at_least_zero (negsuc n) = 0

unfoldable pub is_negative : Integer → Bool
is_negative (pos n) = false
is_negative (negsuc n) = true

-- Comparisons of an int with a constant.
unfoldable pub clamp_int : ℕ → ℕ → Integer → ℕ
clamp_int low high i =
    let n = at_least_zero i in if ltb n low then low else if ltb high n then high else n

-- `n <= i`, for a size n.
unfoldable pub at_most : ℕ → Integer → Bool
at_most n (pos i) = leb n i
at_most n (negsuc i) = false

unfoldable pub is_positive : Integer → Bool
is_positive (pos n) = ltb 0 n
is_positive (negsuc n) = false

unfoldable pub is_zero : Integer → Bool
is_zero (pos n) = n == 0
is_zero (negsuc n) = false
