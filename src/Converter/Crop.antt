-- ===== src/Converter/Crop.antt =====
-- Crops and sizes, as the image converter and the image compressor read them from the options
-- (internal/converter: image.go and image_compress.go).
use filemagic_backend.Prelude.{
  ℕ, not, ◌&&◌, ◌||◌, List, [], ◌∷◌, ◌++◌, none, some, if◌then◌else◌, Text, codes,
}
use filemagic_backend.Json.{Fields}
use filemagic_backend.Float.{Integer, at_least_zero, is_positive, is_negative}
use filemagic_backend.Converter.{World, int_of, float_option}

-- What `applyCrop` makes of the options.
pub data Crop : Type 0 where
  not_requested bad_size bad_offset : Crop
  area : ℕ → ℕ → ℕ → ℕ → Crop

module _ (w : World) where
  unfoldable pub crop_area : Integer → Integer → Integer → Integer → Crop
  crop_area x y width height =
      if not (is_positive width) || not (is_positive height)
      then bad_size
      else if is_negative x || is_negative y
      then bad_offset
      else area (at_least_zero x) (at_least_zero y) (at_least_zero width) (at_least_zero height)

  unfoldable pub crop_of : Fields → Crop
  crop_of options = elim (float_option (codes "cropX") options) [
    | none ↦ not_requested
    | some x ↦ elim (float_option (codes "cropY") options) [
      | none ↦ not_requested
      | some y ↦ elim (float_option (codes "cropWidth") options) [
        | none ↦ not_requested
        | some width ↦ elim (float_option (codes "cropHeight") options) [
          | none ↦ not_requested
          | some height ↦ crop_area (int_of w x) (int_of w y) (int_of w width) (int_of w height)
        ]
      ]
    ]
  ]

  unfoldable pub crop_args : Text → Text → ℕ → ℕ → ℕ → ℕ → List Text
  crop_args input output x y width height =
      codes "/usr/bin/vips"
      ∷ codes "crop"
      ∷ input
      ∷ output
      ∷ w.print x
      ∷ w.print y
      ∷ w.print width
      ∷ w.print height
      ∷ []

  -- The size for vipsthumbnail, of which one number at least is above zero.
  unfoldable pub thumbnail_size : Integer → Integer → Text
  thumbnail_size width height =
      if is_positive width && is_positive height
      then w.print (at_least_zero width) ++ codes "x" ++ w.print (at_least_zero height)
      else if is_positive width
      then w.print (at_least_zero width)
      else codes "x" ++ w.print (at_least_zero height)

  -- `int(v)` of an option, or a default.
  unfoldable pub int_option : Text → Integer → Fields → Integer
  int_option key d options = elim (float_option key options) [ none ↦ d | some v ↦ int_of w v ]
