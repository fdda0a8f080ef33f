-- ===== src/Converter/Listed.antt =====
-- The converters of several files, which the option `files` names (internal/converter: pdf_merge.go,
-- image_to_pdf.go and archive.go).
pub mod Names
use filemagic_backend.Prelude.{
  ℕ, Bool, true, false, not, ◌&&◌, ◌||◌, List, [], ◌∷◌, ◌++◌, Option, none, some, suc, ltb, ◌==◌,
  map, if◌then◌else◌, Text, codes, eq_text, non_empty,
}
use filemagic_backend.Json.{Fields, Value, Items, nil, cons, str, arr, field_value}
use filemagic_backend.Paths.{join_path, dir, base, ext, trim_suffix}
use filemagic_backend.Validator.Names.{one_of, to_lower}
use filemagic_backend.Converter.{
  World, Task, pure, fail, need, check, ◌>>=◌, ◌>>◌, get_job, text_option, list_option, or_else,
  Dirs, prepare_job_dir, make_dir, copy_file, run_tool, run_wrapped, finish,
}

abbrev pub image_extensions : List Text
image_extensions =
    codes ".jpg"
    ∷ codes ".jpeg"
    ∷ codes ".png"
    ∷ codes ".webp"
    ∷ codes ".bmp"
    ∷ codes ".tiff"
    ∷ codes ".tif"
    ∷ []

unfoldable pub item_count : Items → ℕ
item_count nil = 0
item_count (cons v vs) = suc (item_count vs)

-- The loop of `getFileList`: none at a value that is not a string, or is not the base of a path.
unfoldable pub plain_names : Items → Option (List Text)
plain_names nil = some []
plain_names (cons v vs) =
    let rest = plain_names vs in
    elim v [
      | str name ↦
          if not (eq_text (base name) name)
          then none
          else elim rest [ none ↦ none | some names ↦ some (name ∷ names) ]
      | _ ↦ none
    ]

-- `getFileList`; every error is none.
unfoldable pub get_file_list : Fields → ℕ → Option (List Text)
get_file_list options min_files = elim (list_option (codes "files") options) [
  | none ↦ none
  | some items ↦ if ltb (item_count items) min_files then none else plain_names items
]

-- The strings among the items.
unfoldable pub string_items : Items → List Text
string_items nil = []
string_items (cons v vs) = let rest = string_items vs in elim v [ str s ↦ s ∷ rest | _ ↦ rest ]

unfoldable pub archive_extension : Text → Text
archive_extension format =
    if eq_text format (codes "7z")
    then codes ".7z"
    else if eq_text format (codes "tar.gz")
    then codes ".tar.gz"
    else if eq_text format (codes "tar.zst")
    then codes ".tar.zst"
    else codes ".zip"

abbrev pub joined : Text → List Text → List Text
joined input_dir = map (join_path input_dir)

-- The command for a format, if it is one.
unfoldable pub archive_command : Text → Text → Text → Text → List Text → Option (List Text)
archive_command format password output_file input_dir names =
    if eq_text format (codes "zip")
    then some (
        codes "/usr/bin/7z"
          ∷ codes "a"
          ∷ codes "-tzip"
          ∷ (if non_empty password then codes "-mem=AES256" ∷ (codes "-p" ++ password) ∷ [] else [])
        ++ output_file ∷ joined input_dir names)
    else if eq_text format (codes "7z")
    then some (
        codes "/usr/bin/7z"
          ∷ codes "a"
          ∷ codes "-t7z"
          ∷ (if non_empty password then codes "-mhe=on" ∷ (codes "-p" ++ password) ∷ [] else [])
        ++ output_file ∷ joined input_dir names)
    else if eq_text format (codes "tar.gz")
    then some (codes "/usr/bin/tar" ∷ codes "czf" ∷ output_file ∷ codes "-C" ∷ input_dir ∷ names)
    else if eq_text format (codes "tar.zst")
    then some (
        codes "/usr/bin/tar"
        ∷ codes "--zstd"
        ∷ codes "-cf"
        ∷ output_file
        ∷ codes "-C"
        ∷ input_dir
        ∷ names)
    else none

module _ (w : World) where
  unfoldable pub is_image_name : Text → Bool
  is_image_name name = one_of (to_lower w.unicode_lower (ext name)) image_extensions

  unfoldable pub any_image : List Text → Bool
  any_image [] = false
  any_image (name ∷ names) = is_image_name name || any_image names

  -- The hardened policy of ImageMagick, for the job.
  unfoldable pub copy_policy : Text → Task (Unit {0})
  copy_policy job_dir = do
    let policy_dir = join_path job_dir (codes "magick-config")
    make_dir w (codes "failed to create policy dir") policy_dir
    copy_file w (codes "failed to copy ImageMagick policy")
        (join_path w.nsjail_config_dir (codes "imagemagick-policy.xml"))
        (join_path policy_dir (codes "policy.xml"))

  -- The loop of `convertImagesToPDF`.
  unfoldable pub convert_each : List Text → Text → Dirs → Task (List Text)
  convert_each [] input_dir d = pure []
  convert_each (name ∷ names) input_dir d = do
    let rest = convert_each names input_dir d
    let pdf_name = trim_suffix name (ext name) ++ codes "_converted.pdf"
    if not (is_image_name name)
        then rest >>= (λ others. pure (name ∷ others))
        else run_wrapped w (codes "failed to convert image to PDF: ") (record {
          args =
              codes "/usr/bin/convert"
              ∷ join_path input_dir name
              ∷ join_path input_dir pdf_name
              ∷ [];
          job_dir = d.job_dir;
          profile = codes "image_to_pdf.cfg";
          seconds = 30;
        })
          >> rest
          >>= (λ others. pure (pdf_name ∷ others))

  unfoldable pub convert_images_to_pdf : List Text → Text → Dirs → Task (List Text)
  convert_images_to_pdf names input_dir d =
      if not (any_image names)
      then pure names
      else copy_policy d.job_dir >> convert_each names input_dir d

  -- The directories of a job whose input is a directory.
  unfoldable pub sibling_dirs : Text → Task Dirs
  sibling_dirs input_dir = do
    let job_dir = dir input_dir
    let output_dir = join_path job_dir (codes "output")
    make_dir w (codes "failed to create output dir") output_dir
    pure (record { job_dir = job_dir; output_dir = output_dir })

  unfoldable pub convert_pdf_merge : Task (Unit {0})
  convert_pdf_merge = do
    job ← get_job
    names ← need (get_file_list job.options 2) (codes "invalid files list")
    let input_dir = job.input_path
    d ← sibling_dirs input_dir
    pdf_files ← convert_images_to_pdf names input_dir d
    let output_file = join_path d.output_dir (codes "output.pdf")
    run_tool w d (codes "pdf.cfg") 60 (
        codes "/usr/bin/gs"
        ∷ codes "-dSAFER"
        ∷ codes "-dPARANOIDSAFER"
        ∷ codes "-dNOOUTERSAVE"
        ∷ codes "-dNEWPDF=true"
        ∷ codes "-dMaxBitmap=100000000"
        ∷ codes "-sDEVICE=pdfwrite"
        ∷ codes "-dCompatibilityLevel=1.4"
        ∷ codes "-dNOPAUSE"
        ∷ codes "-dQUIET"
        ∷ codes "-dBATCH"
        ∷ (codes "-sOutputFile=" ++ output_file)
        ∷ joined input_dir pdf_files)
    finish w output_file

  unfoldable pub convert_image_to_pdf : Task (Unit {0})
  convert_image_to_pdf = do
    job ← get_job
    names ← need (get_file_list job.options 1) (codes "invalid files list")
    let input_dir = job.input_path
    d ← sibling_dirs input_dir
    copy_policy d.job_dir
    let output_file = join_path d.output_dir (codes "output.pdf")
    run_tool w d (codes "image_to_pdf.cfg") 120
        ((codes "/usr/bin/convert" ∷ joined input_dir names) ++ output_file ∷ [])
    finish w output_file

  unfoldable pub convert_archive : Task (Unit {0})
  convert_archive = do
    job ← get_job
    let format = or_else (text_option (codes "format") job.options) []
    check (non_empty format) (codes "missing archive format")
    let password = or_else (text_option (codes "password") job.options) []
    let items = or_else (list_option (codes "files") job.options) nil
    check (not (item_count items == 0)) (codes "no files to archive")
    d ← prepare_job_dir w
    let output_file = join_path d.output_dir (codes "output" ++ archive_extension format)
    command ←
        need (archive_command format password output_file job.input_path (string_items items))
          (codes "unsupported archive format")
    run_tool w d (codes "archive.cfg") 120 command
    finish w output_file
