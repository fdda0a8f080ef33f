-- ===== src/ImageDimensions.antt =====
-- The guard against decompression bombs (internal/converter/image_dimensions.go). The output of
-- `vipsheader` for each command, or its error, is a parameter, and so is `fmt.Fscan` into two numbers. A
-- number below 1 is 0, since the code treats all of these alike.
pub mod Bounds
mod Examples
use filemagic_backend.Prelude.{
  ℕ, ◌*◌, Bool, true, false, ◌||◌, List, [], ◌∷◌, Option, none, some, ltb, ◌==◌, if◌then◌else◌,
  Text, codes,
}
use filemagic_backend.Gate.{trim_space}
use filemagic_backend.Archive.{parse_size}

abbrev pub max_image_dimension : ℕ
max_image_dimension = 16384

abbrev pub max_image_pixels : ℕ
max_image_pixels = 100000000

pub data DimensionError : Type 0 where
  check_failed not_parsed side_too_long too_many_pixels : DimensionError

-- The width and the height, or an error.
pub data Dimensions : Type 0 where
  rejected : DimensionError → Dimensions
  measured : ℕ → ℕ → Dimensions

abbrev pub header_command : Text → List Text
header_command input_file =
    codes "/usr/bin/vipsheader"
    ∷ codes "-f"
    ∷ codes "width"
    ∷ codes "-f"
    ∷ codes "height"
    ∷ input_file
    ∷ []

abbrev pub field_command : Text → Text → List Text
field_command input_file name = codes "/usr/bin/vipsheader" ∷ codes "-f" ∷ name ∷ input_file ∷ []

unfoldable pub parse_vips_dimension_field : Text → ℕ
parse_vips_dimension_field out = elim (parse_size (trim_space out)) [ none ↦ 0 | some n ↦ n ]

module _ (run : List Text → Option Text) (fscan : Text → ℕ × ℕ) (input_file : Text) where
  unfoldable pub parse_vips_dimensions : Text → ℕ × ℕ
  parse_vips_dimensions out = fscan (trim_space out)

  unfoldable pub read_vips_dimension_field : Text → Option ℕ
  read_vips_dimension_field name = elim (run (field_command input_file name)) [
    | none ↦ none
    | some out ↦ some (parse_vips_dimension_field out)
  ]

  unfoldable pub read_vips_dimensions_separately : Option (ℕ × ℕ)
  read_vips_dimensions_separately = elim (read_vips_dimension_field (codes "width")) [
    | none ↦ none
    | some width ↦ elim (read_vips_dimension_field (codes "height")) [
      | none ↦ none
      | some height ↦ some (width, height)
    ]
  ]

  -- The comparisons with the limits.
  unfoldable pub within_limits : ℕ → ℕ → Dimensions
  within_limits width height =
      if ltb max_image_dimension width || ltb max_image_dimension height
      then rejected side_too_long
      else if ltb max_image_pixels (width * height)
      then rejected too_many_pixels
      else measured width height

  unfoldable pub validate_image_dimensions : Dimensions
  validate_image_dimensions = elim (run (header_command input_file)) [
    | none ↦ rejected check_failed
    | some out ↦
        let (width, height) = parse_vips_dimensions out in
        if width == 0 || height == 0
        then elim read_vips_dimensions_separately [
          | none ↦ rejected check_failed
          | some (w, h) ↦ if w == 0 || h == 0 then rejected not_parsed else within_limits w h
        ]
        else within_limits width height
  ]
