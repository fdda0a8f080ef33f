-- ===== src/Converter/Image.antt =====
-- The converter of image formats (internal/converter/image.go). Parameters: the number that `fmt.Sscanf`
-- finds (one below 1 as 0), and the quotient of two sizes by `%f`.
use filemagic_backend.Prelude.{
  ℕ, Bool, true, false, not, ◌||◌, List, [], ◌∷◌, ◌++◌, Option, none, some, ◌==◌, if◌then◌else◌,
  Text, codes, eq_text,
}
use filemagic_backend.Json.{Fields, field_value}
use filemagic_backend.Gate.{trim_space}
use filemagic_backend.Paths.{join_path, dir}
use filemagic_backend.Float.{Integer, pos, at_least_zero, is_positive}
use filemagic_backend.Validator.Names.{one_of, to_lower}
use filemagic_backend.Converter.{
  World, int_of, Task, pure, fail, need, check, ◌>>=◌, ◌>>◌, get_job, text_option, float_option,
  bool_option, or_else, Dirs, prepare_job_dir, capture, run_wrapped, finish,
}
use filemagic_backend.Converter.Ocr.{guard_dimensions}
use filemagic_backend.Converter.Listed.{copy_policy}
use filemagic_backend.Converter.Crop.{
  Crop, not_requested, bad_size, bad_offset, area, crop_of, crop_args, thumbnail_size, int_option,
}
use filemagic_backend.Converter.Watermark.{Glyphs, apply_watermark}

abbrev pub valid_output_formats : List Text
valid_output_formats =
    codes "jpg" ∷ codes "png" ∷ codes "webp" ∷ codes "tiff" ∷ codes "ico" ∷ codes "pdf" ∷ []

unfoldable pub format_output_arg : Text → Text → Text
format_output_arg output_file format =
    if eq_text format (codes "jpg")
    then output_file ++ codes "[Q=90]"
    else if eq_text format (codes "png")
    then output_file ++ codes "[compression=6]"
    else if eq_text format (codes "webp")
    then output_file ++ codes "[Q=85]"
    else if eq_text format (codes "tiff")
    then output_file ++ codes "[compression=lzw]"
    else output_file

unfoldable pub build_save_cmd : Text → Text → Text → List Text
build_save_cmd input_file output_file format =
    let save : Text → Text → Text → List Text =
      λ name option v. codes "/usr/bin/vips" ∷ name ∷ input_file ∷ output_file ∷ option ∷ v ∷ [] in
    if eq_text format (codes "jpg")
    then save (codes "jpegsave") (codes "--Q") (codes "90")
    else if eq_text format (codes "png")
    then save (codes "pngsave") (codes "--compression") (codes "6")
    else if eq_text format (codes "webp")
    then save (codes "webpsave") (codes "--Q") (codes "85")
    else if eq_text format (codes "tiff")
    then save (codes "tiffsave") (codes "--compression") (codes "lzw")
    else codes "/usr/bin/vips" ∷ codes "copy" ∷ input_file ∷ output_file ∷ []

-- The angles that are accepted, as vips spells them.
unfoldable pub vips_angle : Integer → Option Text
vips_angle i =
    let n = at_least_zero i in
    if n == 90
    then some (codes "d90")
    else if n == 180
    then some (codes "d180")
    else if n == 270
    then some (codes "d270")
    else none

unfoldable pub keeps_aspect : Fields → Bool
keeps_aspect options = elim (field_value (codes "keepAspect") options) [
  | none ↦ true
  | some v ↦ or_else (bool_option (codes "keepAspect") options) false
]

module _ (w : World) where
  abbrev with_vips : Dirs → Text → List Text → Task (Unit {0})
  with_vips d words args =
      run_wrapped w words
        (record { args = args; job_dir = d.job_dir; profile = codes "image.cfg"; seconds = 120 })

  unfoldable pub crop_by : Dirs → Text → Crop → Task Text
  crop_by d input_file not_requested = pure input_file
  crop_by d input_file bad_size = fail (codes "invalid crop dimensions")
  crop_by d input_file bad_offset = fail (codes "invalid crop offset")
  crop_by d input_file (area x y width height) = do
    let cropped = join_path d.output_dir (codes "cropped.png")
    with_vips d (codes "crop failed: ") (crop_args w input_file cropped x y width height)
    pure cropped

  unfoldable pub apply_crop : Dirs → Text → Task Text
  apply_crop d input_file = do job ← get_job; crop_by d input_file (crop_of w job.options)

  -- The angle of the option, if it is there: none if it is not accepted.
  unfoldable pub rotation_of : Fields → Option (Option Text)
  rotation_of options = elim (float_option (codes "rotation") options) [
    | none ↦ none
    | some v ↦ some (vips_angle (int_of w v))
  ]

  unfoldable pub rotate_by : Dirs → Text → Option (Option Text) → Task Text
  rotate_by d input_file none = pure input_file
  rotate_by d input_file (some none) = fail (codes "invalid rotation angle")
  rotate_by d input_file (some (some angle)) = do
    let rotated = join_path d.output_dir (codes "rotated.v")
    with_vips d (codes "rotation failed: ")
        (codes "/usr/bin/vips" ∷ codes "rot" ∷ input_file ∷ rotated ∷ angle ∷ [])
    pure rotated

  unfoldable pub apply_rotation : Dirs → Text → Task Text
  apply_rotation d input_file = do job ← get_job; rotate_by d input_file (rotation_of job.options)

  -- `convertToPDF` and `convertToICO`: through a PNG; `args` follow it in the command of ImageMagick.
  unfoldable pub convert_by_png : Dirs → Text → Text → Text → List Text → Task (Unit {0})
  convert_by_png d words input_file output_file args = do
    let png = join_path d.output_dir (codes "intermediate.png")
    with_vips d (codes "vips PNG conversion failed: ") (build_save_cmd input_file png (codes "png"))
    run_wrapped w words (record {
      args = codes "/usr/bin/convert" ∷ png ∷ args ++ output_file ∷ [];
      job_dir = d.job_dir;
      profile = codes "image_to_pdf.cfg";
      seconds = 30;
    })
    finish w output_file

  abbrev side : Dirs → Text → Text → Text → Task Text
  side d words name input_file = do
    out ← capture w (record {
      args = codes "/usr/bin/vipsheader" ∷ codes "-f" ∷ name ∷ input_file ∷ [];
      job_dir = d.job_dir;
      profile = codes "image.cfg";
      seconds = 10;
    })
    need out words

  -- `convertWithResize`, the exact size.
  unfoldable pub resize_exactly :
      (Text → ℕ) → (ℕ → ℕ → Text) → Dirs → Text → Text → Text → ℕ → ℕ → Task (Unit {0})
  resize_exactly scan_int print_scale d input_file output_file format width height = do
    width_out ← side d (codes "failed to read input width") (codes "width") input_file
    height_out ← side d (codes "failed to read input height") (codes "height") input_file
    let input_width = scan_int (trim_space width_out)
    let input_height = scan_int (trim_space height_out)
    check (not (input_width == 0 || input_height == 0)) (codes "invalid input dimensions")
    let resized = join_path (dir output_file) (codes "resized.v")
    with_vips d (codes "resize failed: ") (
        codes "/usr/bin/vips"
        ∷ codes "resize"
        ∷ input_file
        ∷ resized
        ∷ print_scale width input_width
        ∷ codes "--vscale"
        ∷ print_scale height input_height
        ∷ [])
    with_vips d (codes "format conversion after resize failed: ")
        (build_save_cmd resized output_file format)

  unfoldable pub convert_with_resize :
      (Text → ℕ) → (ℕ → ℕ → Text) → Dirs → Text → Text → Text → Integer → Integer → Task (Unit {0})
  convert_with_resize scan_int print_scale d input_file output_file format width height = do
    job ← get_job
    (if keeps_aspect job.options || not (is_positive width) || not (is_positive height)
        then with_vips d [] (
            codes "/usr/bin/vipsthumbnail"
            ∷ input_file
            ∷ codes "--size"
            ∷ thumbnail_size w width height
            ∷ codes "-o"
            ∷ format_output_arg output_file format
            ∷ [])
        else resize_exactly scan_int print_scale d input_file output_file format
            (at_least_zero width) (at_least_zero height))
    finish w output_file

  -- `ImageConverter.Convert`, once the input has been cropped, rotated and marked.
  unfoldable pub save_image : (Text → ℕ) → (ℕ → ℕ → Text) → Dirs → Text → Text → Task (Unit {0})
  save_image scan_int print_scale d input_file format = do
    job ← get_job
    let output_file = join_path d.output_dir (codes "output." ++ format)
    let width = int_option w (codes "resizeWidth") (pos 0) job.options
    let height = int_option w (codes "resizeHeight") (pos 0) job.options
    if eq_text format (codes "ico")
        then convert_by_png d (codes "ImageMagick ICO conversion failed: ") input_file output_file
            (codes "-define" ∷ codes "icon:auto-resize=256,128,64,48,32,16" ∷ [])
        else if eq_text format (codes "pdf")
        then convert_by_png d (codes "ImageMagick PDF conversion failed: ") input_file output_file
            []
        else if is_positive width || is_positive height
        then convert_with_resize scan_int print_scale d input_file output_file format width height
        else with_vips d [] (build_save_cmd input_file output_file format) >> finish w output_file

  unfoldable pub convert_image :
      (Text → ℕ × ℕ) → Glyphs → (Text → ℕ) → (ℕ → ℕ → Text) → Task (Unit {0})
  convert_image fscan glyphs scan_int print_scale = do
    job ← get_job
    given ←
        need (text_option (codes "outputFormat") job.options) (codes "missing outputFormat option")
    let format = to_lower w.unicode_lower given
    check (one_of format valid_output_formats) (codes "unsupported output format")
    d ← prepare_job_dir w
    copy_policy w d.job_dir
    guard_dimensions w fscan d (codes "image.cfg") job.input_path
    cropped ← apply_crop d job.input_path
    rotated ← apply_rotation d cropped
    marked ← apply_watermark w glyphs d rotated
    save_image scan_int print_scale d marked format
