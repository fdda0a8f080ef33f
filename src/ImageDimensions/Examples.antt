-- ===== src/ImageDimensions/Examples.antt =====
-- A header that prints both sides, and the theorem at it.
use filemagic_backend.Prelude.{ℕ, ◌≡◌, refl, ◌⊎◌, List, Option, some, Text, codes}
use filemagic_backend.ImageDimensions.{
  header_command, parse_vips_dimensions, read_vips_dimensions_separately, within_limits,
  validate_image_dimensions,
}
use filemagic_backend.ImageDimensions.Bounds.{IsSmall, passed-IsSmall}

abbrev print : List Text → Option Text
print command = some (codes "640 480")

abbrev scan : Text → ℕ × ℕ
scan out = (640, 480)

passed-IsSmall_example :
    IsSmall 640 480
    × (((out : Text) × (print (header_command (codes "/in")) ≡ some out)
          × (parse_vips_dimensions print scan (codes "/in") out ≡ (640, 480)))
        ⊎ (read_vips_dimensions_separately print scan (codes "/in") ≡ some (640, 480)))
unfolding validate_image_dimensions parse_vips_dimensions within_limits
passed-IsSmall_example = passed-IsSmall print scan (codes "/in") 640 480 refl
