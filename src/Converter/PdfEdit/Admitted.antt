-- ===== src/Converter/PdfEdit/Admitted.antt =====
-- What the options of the PDF editor are, once they have been validated (validatePDFEditOptions in
-- internal/converter/pdf_editor.go).
use filemagic_backend.Prelude.{
  ℕ, ◌≤◌, ◌≡◌, refl, inl, inr, Bool, true, false, Option, none, some, arith, Text, codes,
  Option-cases,
}
use filemagic_backend.Json.{
  Fields, Value, null, bool, float, int, str, arr, obj, Items, nil, cons, end, field, field_value,
}
use filemagic_backend.Converter.Listed.{item_count}
use filemagic_backend.Converter.PdfEdit.{
  ◌orelse◌, field_count, if_present, to_float64, is_bad, any_bad, any_bad_field, is_bad_page,
  check_pages, is_bad_angle, check_rotations, validate_pdf_edit_options,
}
use filemagic_backend.Converter.PdfEdit.Numbers.{
  IsPage, IsAngle, is_bad_page-IsPage, is_bad_angle-IsAngle,
}

abbrev pub AllItems : (Value → Type 0) → Items → Type 0
AllItems P nil = Unit
AllItems P (cons v vs) = P v × AllItems P vs

abbrev pub AllFields : (Value → Type 0) → Fields → Type 0
AllFields P end = Unit
AllFields P (field k v rest) = P v × AllFields P rest

module _ (float_of : ℕ → ℕ) where
  -- A number, as `toFloat64` reads it, with a property.
  abbrev pub IsNumber : (ℕ → Type 0) → Value → Type 0
  IsNumber P v = (b : ℕ) × (to_float64 float_of v ≡ some b) × P b

  is_bad-IsNumber :
      (bad : ℕ → Bool) (P : ℕ → Type 0)
      → ((b : ℕ) → bad b ≡ false → P b)
      → (v : Value) → is_bad float_of bad v ≡ false
      → IsNumber P v
  unfolding is_bad
  is_bad-IsNumber bad P f v e = elim (Option-cases (to_float64 float_of v)) [
    | inl e1 ↦ absurd (no_number e1 e)
    | inr (b, e1) ↦ (b, e1, f b (good e1 e))
  ]
    where
      no_number :
          to_float64 float_of v ≡ none
          → elim (to_float64 float_of v) [ none ↦ true | some n ↦ bad n ] ≡ false
          → ⊥
      no_number e1 e2 = ground arith

      good :
          {b : ℕ}
          → to_float64 float_of v ≡ some b
          → elim (to_float64 float_of v) [ none ↦ true | some n ↦ bad n ] ≡ false
          → bad b ≡ false
      good e1 e2 = ground arith

  module _ (bad : ℕ → Bool) (P : ℕ → Type 0) (f : (b : ℕ) → bad b ≡ false → P b) where
    items-AllItems : (vs : Items) → any_bad float_of bad vs ≡ false → AllItems (IsNumber P) vs
    unfolding any_bad
    items-AllItems nil e = tt
    items-AllItems (cons v vs) e =
        (is_bad-IsNumber bad P f v (ground arith), items-AllItems vs (ground arith))

    fields-AllFields :
        (m : Fields) → any_bad_field float_of bad m ≡ false → AllFields (IsNumber P) m
    unfolding any_bad_field
    fields-AllFields end e = tt
    fields-AllFields (field k v rest) e =
        (is_bad-IsNumber bad P f v (ground arith), fields-AllFields rest (ground arith))

  -- `pages`: at most 500 of them.
  abbrev pub IsPageList : Value → Type 0
  IsPageList v = (vs : Items) × (v ≡ arr vs) × (item_count vs ≤ 500) × AllItems (IsNumber IsPage) vs

  abbrev pub IsRotation : Value → Type 0
  IsRotation v = (m : Fields) × (v ≡ obj m) × (field_count m ≤ 500) × AllFields (IsNumber IsAngle) m

  pages-IsPageList : (v : Value) → check_pages float_of v ≡ none → IsPageList v
  unfolding check_pages
  pages-IsPageList (arr vs) e = (
    vs,
    refl,
    ground arith,
    items-AllItems is_bad_page IsPage is_bad_page-IsPage vs (ground arith),
  )
  pages-IsPageList null e = absurd (ground arith)
  pages-IsPageList (bool b) e = absurd (ground arith)
  pages-IsPageList (float b) e = absurd (ground arith)
  pages-IsPageList (int n) e = absurd (ground arith)
  pages-IsPageList (str t) e = absurd (ground arith)
  pages-IsPageList (obj m) e = absurd (ground arith)

  rotations-IsRotation : (v : Value) → check_rotations float_of v ≡ none → IsRotation v
  unfolding check_rotations
  rotations-IsRotation (obj m) e = (
    m,
    refl,
    ground arith,
    fields-AllFields is_bad_angle IsAngle is_bad_angle-IsAngle m (ground arith),
  )
  rotations-IsRotation null e = absurd (ground arith)
  rotations-IsRotation (bool b) e = absurd (ground arith)
  rotations-IsRotation (float b) e = absurd (ground arith)
  rotations-IsRotation (int n) e = absurd (ground arith)
  rotations-IsRotation (str t) e = absurd (ground arith)
  rotations-IsRotation (arr vs) e = absurd (ground arith)

  first_passes : (a b : Option Text) → (a orelse b) ≡ none → (a ≡ none) × (b ≡ none)
  first_passes none b e = (refl, e)
  first_passes (some x) b e = absurd (ground arith)

  present_passes :
      (key : Text) (m : Fields) (f : Value → Option Text) (v : Value)
      → if_present key m f ≡ none
      → field_value key m ≡ some v
      → f v ≡ none
  unfolding if_present
  present_passes key m f v e1 e2 = ground arith

  -- If the options pass the validation and have `pages`, then it is a list of at most 500 whole numbers
  -- from 1 to 500.
  pub validated_pages :
      (opts : Fields) (v : Value)
      → validate_pdf_edit_options float_of opts ≡ none
      → field_value (codes "pages") opts ≡ some v
      → IsPageList v
  unfolding validate_pdf_edit_options
  validated_pages opts v e e1 =
      let (pages, rest) =
        first_passes (if_present (codes "pages") opts (check_pages float_of)) _ e in
      pages-IsPageList v (present_passes _ opts _ v pages e1)

  -- If the options pass the validation and have `rotations`, then it is an object of at most 500 angles of
  -- 90, 180 or 270 degrees.
  pub validated_rotations :
      (opts : Fields) (v : Value)
      → validate_pdf_edit_options float_of opts ≡ none
      → field_value (codes "rotations") opts ≡ some v
      → IsRotation v
  unfolding validate_pdf_edit_options
  validated_rotations opts v e e1 =
      let (pages, rest) =
        first_passes (if_present (codes "pages") opts (check_pages float_of)) _ e in
      let (rotations, others) =
        first_passes (if_present (codes "rotations") opts (check_rotations float_of)) _ rest in
      rotations-IsRotation v (present_passes _ opts _ v rotations e1)
