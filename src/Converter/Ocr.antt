-- ===== src/Converter/Ocr.antt =====
-- Text recognition (internal/converter/ocr.go), and the guard of internal/converter/image_dimensions.go
-- as a converter calls it. Whether a path is a directory and `fmt.Fscan` are parameters.
pub mod Types
pub mod Guard
use filemagic_backend.Prelude.{
  ℕ, Bool, true, false, not, ◌||◌, List, [], ◌∷◌, ◌++◌, Option, none, some, take, ◌==◌,
  if◌then◌else◌, Text, codes, eq_text, non_empty,
}
use filemagic_backend.Json.{Fields, Items, nil, cons, str}
use filemagic_backend.Gate.{trim_space}
use filemagic_backend.Paths.{join_path, join_with, ext}
use filemagic_backend.Validator.Names.{one_of, to_lower, valid_ocr_languages}
use filemagic_backend.ImageDimensions.{
  header_command, field_command, parse_vips_dimension_field, within_limits, Dimensions, rejected,
  measured,
}
use filemagic_backend.Converter.{
  World, Task, pure, fail, need, check, ◌>>=◌, ◌>>◌, get_job, list_option, Dirs, prepare_job_dir,
  capture, run_wrapped, try_run, finish,
}

abbrev pub tessdata_paths : List Text
tessdata_paths =
    codes "/usr/share/tessdata"
    ∷ codes "/usr/share/tesseract-ocr/5/tessdata"
    ∷ codes "/usr/share/tesseract-ocr/4.00/tessdata"
    ∷ []

-- `detectTessdataDir`, over the paths that are left.
unfoldable pub detect_tessdata_dir : (Text → Bool) → List Text → Text
detect_tessdata_dir is_dir [] = []
detect_tessdata_dir is_dir (p ∷ ps) = if is_dir p then p else detect_tessdata_dir is_dir ps

-- The strings among the items that name a language.
unfoldable pub valid_languages : Items → List Text
valid_languages nil = []
valid_languages (cons v vs) =
    let rest = valid_languages vs in
    elim v [ str s ↦ if one_of s valid_ocr_languages then s ∷ rest else rest | _ ↦ rest ]

unfoldable pub parse_languages : Fields → List Text
parse_languages options = elim (list_option (codes "languages") options) [
  | none ↦ codes "eng" ∷ []
  | some items ↦ elim (valid_languages items) [ [] ↦ codes "eng" ∷ [] | l ∷ ls ↦ l ∷ [] ]
]

-- What `preprocess` does with a file, by its extension.
pub data Preparation : Type 0 where
  downsampled to_png to_tiff refused : Preparation

unfoldable pub preparation : Text → Preparation
preparation e =
    if one_of e (codes ".jpg" ∷ codes ".jpeg" ∷ codes ".png" ∷ codes ".bmp" ∷ [])
    then downsampled
    else if one_of e (codes ".heic" ∷ codes ".webp" ∷ [])
    then to_png
    else if eq_text e (codes ".pdf")
    then to_tiff
    else refused

module _ (w : World) (fscan : Text → ℕ × ℕ) where
  abbrev pub header : Dirs → Text → List Text → Task Text
  header d profile args = do
    out ← capture w (record { args = args; job_dir = d.job_dir; profile = profile; seconds = 10 })
    need out (codes "failed to validate image dimensions")

  unfoldable pub read_separately : Dirs → Text → Text → Task (ℕ × ℕ)
  read_separately d profile input_file = do
    width ← header d profile (field_command input_file (codes "width"))
    height ← header d profile (field_command input_file (codes "height"))
    pure (parse_vips_dimension_field width, parse_vips_dimension_field height)

  unfoldable pub accept_sides : Dimensions → Task (Unit {0})
  accept_sides (rejected e) = fail (codes "image dimensions exceed maximum allowed")
  accept_sides (measured width height) = pure tt

  -- `ValidateImageDimensions`
  unfoldable pub guard_dimensions : Dirs → Text → Text → Task (Unit {0})
  guard_dimensions d profile input_file = do
    out ← header d profile (header_command input_file)
    let first = fscan (trim_space out)
    sides ←
        (if first.0 == 0 || first.1 == 0 then read_separately d profile input_file else pure first)
    check (not (sides.0 == 0 || sides.1 == 0)) (codes "failed to parse image dimensions")
    accept_sides (within_limits (λ args. none) fscan input_file sides.0 sides.1)

  abbrev thumbnail : Dirs → Text → Text → Task (Option Text)
  thumbnail d input_file preprocessed = try_run w (record {
    args =
        codes "/usr/bin/vips"
        ∷ codes "thumbnail"
        ∷ input_file
        ∷ preprocessed
        ∷ codes "2048"
        ∷ codes "--height"
        ∷ codes "2048"
        ∷ [];
    job_dir = d.job_dir;
    profile = codes "image.cfg";
    seconds = 30;
  })

  abbrev png_of : Dirs → Text
  png_of d = join_path d.output_dir (codes "preprocessed.png")

  abbrev tiff_of : Dirs → Text
  tiff_of d = join_path d.output_dir (codes "preprocessed.tiff")

  -- The PNG, unless vips failed.
  unfoldable pub png_or_fail : Dirs → Option Text → Task Text
  png_or_fail d none = pure (png_of d)
  png_or_fail d (some error) =
      fail (codes "preprocessing failed: image to PNG conversion failed: " ++ error)

  -- The file for tesseract.
  unfoldable pub prepare_input : Dirs → Text → Preparation → Task Text
  prepare_input d input_file downsampled = do
    failure ← thumbnail d input_file (png_of d)
    pure (elim failure [ none ↦ png_of d | some error ↦ input_file ])
  prepare_input d input_file to_png = thumbnail d input_file (png_of d) >>= png_or_fail d
  prepare_input d input_file to_tiff = do
    run_wrapped w (codes "preprocessing failed: PDF to TIFF conversion failed: ") (record {
      args =
          codes "/usr/bin/gs"
          ∷ codes "-dSAFER"
          ∷ codes "-dPARANOIDSAFER"
          ∷ codes "-dNOOUTERSAVE"
          ∷ codes "-dNEWPDF=true"
          ∷ codes "-dMaxBitmap=100000000"
          ∷ codes "-sDEVICE=tiffgray"
          ∷ codes "-r150"
          ∷ codes "-dNOPAUSE"
          ∷ codes "-dQUIET"
          ∷ codes "-dBATCH"
          ∷ (codes "-sOutputFile=" ++ tiff_of d)
          ∷ input_file
          ∷ [];
      job_dir = d.job_dir;
      profile = codes "pdf.cfg";
      seconds = 60;
    })
    pure (tiff_of d)
  prepare_input d input_file refused =
      fail (codes "preprocessing failed: unsupported file format for OCR")

  unfoldable pub preprocess : Dirs → Text → Text → Task Text
  preprocess d input_file e = prepare_input d input_file (preparation e)

  unfoldable pub convert_ocr : Text → Task (Unit {0})
  convert_ocr tessdata_dir = do
    job ← get_job
    let languages = parse_languages job.options
    d ← prepare_job_dir w
    let input_file = job.input_path
    let e = to_lower w.unicode_lower (ext input_file)
    (if eq_text e (codes ".pdf")
        then pure tt
        else guard_dimensions d (codes "image.cfg") input_file)
    tess_input ← preprocess d input_file e
    let output_base = join_path d.output_dir (codes "output")
    run_wrapped w (codes "OCR failed: ") (record {
      args =
          (codes "/usr/bin/tesseract" ∷ [])
          ++ (if non_empty tessdata_dir then codes "--tessdata-dir" ∷ tessdata_dir ∷ [] else [])
          ++ tess_input
            ∷ output_base
            ∷ codes "-l"
            ∷ join_with (codes "+") languages
            ∷ codes "txt"
            ∷ [];
      job_dir = d.job_dir;
      profile = codes "ocr.cfg";
      seconds = 90;
    })
    finish w (output_base ++ codes ".txt")
