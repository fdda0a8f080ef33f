-- ===== src/ImageDimensions/Bounds.antt =====
-- What is known of an image that passes the guard (internal/converter/image_dimensions.go).
use filemagic_backend.Prelude.{
  ℕ, ◌*◌, ◌≤◌, ◌<◌, ◌≡◌, ap, ◌∙◌, ◌⊎◌, inl, inr, ◌||◌, List, Option, some, arith, ◌==◌, Text,
  Bool-cases, Option-cases,
}
use filemagic_backend.ImageDimensions.{
  measured, max_image_dimension, max_image_pixels, header_command, parse_vips_dimensions,
  read_vips_dimensions_separately, within_limits, validate_image_dimensions,
}

-- Within the limits of a side and of the number of pixels.
abbrev pub IsSmall : ℕ → ℕ → Type 0
IsSmall width height =
    (0 < width)
    × (width ≤ max_image_dimension)
    × (0 < height)
    × (height ≤ max_image_dimension)
    × (width * height ≤ max_image_pixels)

module _ (run : List Text → Option Text) (fscan : Text → ℕ × ℕ) (input_file : Text) where
  within_limits_cases :
      (w h width height : ℕ)
      → within_limits run fscan input_file w h ≡ measured width height
      → (width ≡ w)
        × (height ≡ h)
        × (w ≤ max_image_dimension)
        × (h ≤ max_image_dimension)
        × (w * h ≤ max_image_pixels)
  unfolding within_limits
  within_limits_cases w h width height e = ground arith

  -- An image that passes the guard has sides of 1 to 16384 pixels and at most 100 million pixels, by what
  -- `vipsheader` printed for both sides at once, or else for each side.
  pub passed-IsSmall :
      (width height : ℕ)
      → validate_image_dimensions run fscan input_file ≡ measured width height
      → IsSmall width height
        × (((out : Text) × (run (header_command input_file) ≡ some out)
              × (parse_vips_dimensions run fscan input_file out ≡ (width, height)))
            ⊎ (read_vips_dimensions_separately run fscan input_file ≡ some (width, height)))
  unfolding validate_image_dimensions
  passed-IsSmall width height e = elim (Option-cases (run (header_command input_file))) [
    | inl none_printed ↦ absurd (ground arith)
    | inr (out, printed) ↦
        let both = parse_vips_dimensions run fscan input_file out in
        elim (Bool-cases (both.0 == 0 || both.1 == 0)) [
          | inr scanned ↦
              let (w, h, fits_w, fits_h, fits) =
                within_limits_cases both.0 both.1 width height (ground arith) in
              (ground arith, inl (out, printed, ground arith))
          | inl unscanned ↦
              elim (Option-cases (read_vips_dimensions_separately run fscan input_file)) [
                | inl failed ↦ absurd (ground arith)
                | inr (each, known) ↦
                    let (w, h, fits_w, fits_h, fits) =
                      within_limits_cases each.0 each.1 width height (ground arith) in
                    (ground arith, inr (known ∙ ap some (ground arith)))
              ]
        ]
  ]
