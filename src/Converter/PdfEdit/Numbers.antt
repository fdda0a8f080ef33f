-- ===== src/Converter/PdfEdit/Numbers.antt =====
-- What the tests on numbers in the editor's options (internal/converter/pdf_editor.go) say of the
-- numbers that the float64 values stand for.
use native.Mathlib.Nat.{mul-le-mul_right}
use native.Mathlib.Omega.{div_any}
use filemagic_backend.Prelude.{
  ℕ, zero, suc, leb, ◌+◌, ◌*◌, ◌/◌, ◌%◌, ◌≤◌, ◌<◌, ◌≡◌, ◌⊎◌, inl, inr, Bool, true, false, not, ◌&&◌,
  ◌||◌, arith, ◌==◌, Bool-cases,
}
use filemagic_backend.Float.{
  Number, one_unit, whole, value, less, is_nan, is_below, is_above, equals, is_whole,
}
use filemagic_backend.Converter.PdfEdit.{is_bad_page, is_bad_angle}

-- The float64 is the number n, from 1 to 500.
abbrev pub IsPage : ℕ → Type 0
IsPage b = (n : ℕ) × (1 ≤ n) × (n ≤ 500) × (value b ≡ whole n)

abbrev pub IsAngle : ℕ → Type 0
IsAngle b = (value b ≡ whole 90) ⊎ (value b ≡ whole 180) ⊎ (value b ≡ whole 270)

pub number_lem :
    (x : Number) (u : ℕ)
    → x.negative ≡ false
    → x.units ≡ u
    → x ≡ record { negative = false; units = u }
number_lem x u e1 e2 = cc

-- Between two bounds of which the lower is above zero.
pub between :
    (x : Number) (a b : ℕ)
    → 0 < a
    → less x (record { negative = false; units = a }) ≡ false
    → less (record { negative = false; units = b }) x ≡ false
    → (x.negative ≡ false) × (a ≤ x.units) × (x.units ≤ b)
unfolding less
between x a b h low high = ground arith

pub at_least_501 : (q : ℕ) → leb 501 q ≡ true → 501 ≤ q
at_least_501 q e = ground arith

pub at_most_500 : (q : ℕ) → leb 501 q ≡ false → q ≤ 500
at_most_500 q e = ground arith

pub page_range : (q k u : ℕ) → 0 < k → k * q ≡ u → 1 * k ≤ u → u ≤ 500 * k → (1 ≤ q) × (q ≤ 500)
page_range zero k u hk e low high = absurd (omega arith)
page_range (suc q) k u hk e low high = elim (Bool-cases (leb 501 (suc q))) [
  | inl over ↦ absurd (omega (arith, mul-le-mul_right k (at_least_501 (suc q) over)))
  | inr within ↦ (omega arith, at_most_500 (suc q) within)
]

pub exact_quotient : (q r k u : ℕ) → k * q + r ≡ u → (r == 0) ≡ true → k * q ≡ u
exact_quotient q r k u e h = ground arith

-- In any unit: a number from 1 to 500 that is whole.
pub whole_page :
    (x : Number) (k : ℕ)
    → 0 < k
    → less x (record { negative = false; units = 1 * k }) ≡ false
    → less (record { negative = false; units = 500 * k }) x ≡ false
    → (x.units % k == 0) ≡ true
    → (n : ℕ) × (1 ≤ n) × (n ≤ 500) × (x ≡ record { negative = false; units = n * k })
whole_page x k hk low high exact =
    let (positive, above, below) = between x (1 * k) (500 * k) (omega arith) low high in
    let e = exact_quotient (x.units / k) (x.units % k) k x.units (div_any x.units k) exact in
    let (one, many) = page_range (x.units / k) k x.units hk e above below in
    (x.units / k, one, many, number_lem x (x.units / k * k) positive (omega (arith, e)))

pub whole_number :
    (x : Number) (u : ℕ)
    → 0 < u
    → less x (record { negative = false; units = u }) ≡ false
    → less (record { negative = false; units = u }) x ≡ false
    → x ≡ record { negative = false; units = u }
whole_number x u hu low high =
    let (positive, above, below) = between x u u hu low high in
    number_lem x u positive (omega arith)

-- The tests of the code.
pub page_tests :
    (nan low high exact : Bool)
    → ((not nan && low) || (not nan && high) || not (not nan && exact)) ≡ false
    → (low ≡ false) × (high ≡ false) × (exact ≡ true)
page_tests nan low high exact e = (ground arith, ground arith, ground arith)

pub is_bad_page-IsPage : (b : ℕ) → is_bad_page b ≡ false → IsPage b
unfolding is_bad_page is_below is_above is_whole
is_bad_page-IsPage b e =
    let (low, high, exact) =
      page_tests (is_nan b) (less (value b) (whole 1)) (less (whole 500) (value b))
        ((value b).units % one_unit == 0) e in
    whole_page (value b) one_unit (omega arith) low high exact

pub equal_tests :
    (nan low high : Bool) → (not nan && not low && not high) ≡ true → (low ≡ false) × (high ≡ false)
equal_tests nan low high e = (ground arith, ground arith)

pub equals_lem : (b n : ℕ) → 0 < n * one_unit → equals b (whole n) ≡ true → value b ≡ whole n
unfolding equals
equals_lem b n h e =
    let (low, high) =
      equal_tests (is_nan b) (less (value b) (whole n)) (less (whole n) (value b)) e in
    whole_number (value b) (n * one_unit) h low high

pub is_bad_angle-IsAngle : (b : ℕ) → is_bad_angle b ≡ false → IsAngle b
unfolding is_bad_angle
is_bad_angle-IsAngle b e = elim (Bool-cases (equals b (whole 90))) [
  | inl same ↦ inl (equals_lem b 90 (omega arith) same)
  | inr other ↦ elim (Bool-cases (equals b (whole 180))) [
    | inl same ↦ inr (inl (equals_lem b 180 (omega arith) same))
    | inr others ↦ inr (inr (equals_lem b 270 (omega arith) (ground arith)))
  ]
]
