-- ===== src/Converter/ImageCompress.antt =====
-- The image compressor (internal/converter/image_compress.go); its search for a target size stands in
-- TargetSize.
use filemagic_backend.Prelude.{
  ℕ, ◌-◌, ◌/◌, Bool, ◌&&◌, ◌||◌, List, [], ◌∷◌, ◌++◌, ltb, leb, if◌then◌else◌, Text, codes, eq_text,
}
use filemagic_backend.Json.{Fields}
use filemagic_backend.Paths.{join_path, ext}
use filemagic_backend.Float.{
  Integer, pos, whole, is_above, at_least_zero, is_positive, is_zero, clamp_int,
}
use filemagic_backend.Validator.Names.{to_lower}
use filemagic_backend.TargetSize
use filemagic_backend.Converter.{
  World, int_of, Task, pure, fail, ◌>>=◌, ◌>>◌, get_job, float_option, or_else, prepare_job_dir,
  run_tool, run_wrapped, copy_file, file_size, set_output, set_input,
}
use filemagic_backend.Converter.Ocr.{guard_dimensions}
use filemagic_backend.Converter.Crop.{
  Crop, not_requested, bad_size, bad_offset, area, crop_of, crop_args, thumbnail_size, int_option,
}

-- `.jpeg` is written `.jpg`.
abbrev pub output_extension : Text → Text
output_extension e = if eq_text e (codes ".jpeg") then codes ".jpg" else e

abbrev pub is_jpeg_extension : Text → Bool
is_jpeg_extension e = eq_text e (codes ".jpg") || eq_text e (codes ".jpeg")

-- The compression of a PNG, for a quality of at most 100: no subtraction falls below 0.
abbrev pub png_compression : ℕ → ℕ
png_compression quality = let c = 9 - quality / 12 in if ltb 9 c then 9 else c

module _ (w : World) where
  -- One side of the box: the exact size before the greatest one.
  unfoldable pub side_option : Text → Text → Fields → Integer
  side_option exact greatest options =
      let e = int_option w exact (pos 0) options in
      if is_positive e then e else int_option w greatest (pos 0) options

  unfoldable pub quality_option : Fields → ℕ
  quality_option options = clamp_int 1 100 (int_option w (codes "quality") (pos 80) options)

  unfoldable pub compress_args : Bool → Text → Text → ℕ → Integer → Integer → List Text
  compress_args jpeg input_file output_file quality width height =
      if is_positive width || is_positive height
      then codes "/usr/bin/vipsthumbnail"
        ∷ input_file
        ∷ codes "--size"
        ∷ thumbnail_size w width height
        ∷ codes "-o"
        ∷ (output_file
            ++ (if jpeg
                then codes "[Q=" ++ w.print quality
                else codes "[compression=" ++ w.print (9 - quality / 12))
            ++ codes "]")
        ∷ []
      else if jpeg
      then codes "/usr/bin/vips"
        ∷ codes "jpegsave"
        ∷ input_file
        ∷ output_file
        ∷ codes "--Q"
        ∷ w.print quality
        ∷ []
      else codes "/usr/bin/vips"
        ∷ codes "pngsave"
        ∷ input_file
        ∷ output_file
        ∷ codes "--compression"
        ∷ w.print (png_compression quality)
        ∷ []

  unfoldable pub crop_input_by : Crop → Task (Unit {0})
  crop_input_by not_requested = pure tt
  crop_input_by bad_size = fail (codes "invalid crop dimensions")
  crop_input_by bad_offset = fail (codes "invalid crop offset")
  crop_input_by (area x y width height) = do
    d ← prepare_job_dir w
    job ← get_job
    let e = to_lower w.unicode_lower (ext job.original_name)
    let cropped = join_path d.output_dir (codes "cropped" ++ output_extension e)
    run_wrapped w (codes "crop failed: ") (record {
      args = crop_args w job.input_path cropped x y width height;
      job_dir = d.job_dir;
      profile = codes "image.cfg";
      seconds = 120;
    })
    size ← file_size w (codes "cropped file not found: ") cropped
    set_input cropped size

  unfoldable pub crop_input : Task (Unit {0})
  crop_input = do job ← get_job; crop_input_by (crop_of w job.options)

  -- The end of `compressWithQuality`: the smaller of the two files, unless a size was asked for.
  unfoldable pub keep_smaller : Text → Text → Integer → Integer → Task (Unit {0})
  keep_smaller input_file output_file width height = do
    job ← get_job
    size ← file_size w (codes "output file not found: ") output_file
    if is_zero width && is_zero height && leb job.input_size size && ltb 0 job.input_size
        then copy_file w (codes "failed to copy original") input_file output_file
          >> set_output output_file job.input_size
        else set_output output_file size

  unfoldable pub compress_image_quality : (Text → ℕ × ℕ) → Task (Unit {0})
  compress_image_quality fscan = do
    job ← get_job
    let width = side_option (codes "resizeWidth") (codes "maxWidth") job.options
    let height = side_option (codes "resizeHeight") (codes "maxHeight") job.options
    d ← prepare_job_dir w
    guard_dimensions w fscan d (codes "image.cfg") job.input_path
    let e = to_lower w.unicode_lower (ext job.original_name)
    let output_file = join_path d.output_dir (codes "output" ++ output_extension e)
    run_tool w d (codes "image.cfg") 120 (
        compress_args (is_jpeg_extension e) job.input_path output_file (quality_option job.options)
          width height)
    keep_smaller job.input_path output_file width height

  -- `ImageCompressor.Convert`; `to_target` is the search for a target size.
  unfoldable pub compress_image : (Text → ℕ × ℕ) → (Integer → Task (Unit {0})) → Task (Unit {0})
  compress_image fscan to_target = do
    crop_input
    job ← get_job
    let target = or_else (float_option (codes "targetSize") job.options) 0
    if is_above target (whole 0) then to_target (int_of w target) else compress_image_quality fscan

  -- What the search for a target size ended with.
  unfoldable pub store_verdict : Text → TargetSize.Workshop × TargetSize.Verdict → Task (Unit {0})
  store_verdict output_file (end, TargetSize.failed f) = fail (codes "compression failed")
  store_verdict output_file (end, TargetSize.stored size) = set_output output_file size
  store_verdict output_file (end, TargetSize.unset) = pure tt

  -- `compressToTargetSize` around the search. What the search runs is not in the log, and `tools` tells
  -- what it finds. The target is one that an int64 holds.
  unfoldable pub search_target : TargetSize.Tools → (Text → ℕ × ℕ) → Integer → Task (Unit {0})
  search_target tools fscan target = do
    d ← prepare_job_dir w
    job ← get_job
    guard_dimensions w fscan d (codes "image.cfg") job.input_path
    let e = to_lower w.unicode_lower (ext job.original_name)
    let output_file = join_path d.output_dir (codes "output" ++ output_extension e)
    let bytes = at_least_zero target
    let begin : TargetSize.Workshop = record { output = 0; log = [] }
    if ltb 0 job.input_size && leb job.input_size bytes
        then copy_file w (codes "failed to copy original") job.input_path output_file
          >> set_output output_file job.input_size
        else if is_jpeg_extension e
        then store_verdict output_file (TargetSize.jpeg_target_size tools bytes begin)
        else store_verdict output_file (TargetSize.png_target_size tools bytes begin)
