-- ===== src/Converter/Documents.antt =====
-- The converters of documents and fonts (internal/converter: markdown_pdf.go, ebook_convert.go,
-- font_convert.go, pdf_repair.go, svg_to_png.go, pdf_password.go). The embedded script is a
-- parameter.
use filemagic_backend.Prelude.{
  ℕ, not, ◌&&◌, ◌||◌, List, [], ◌∷◌, ◌++◌, if◌then◌else◌, Text, codes, eq_text, non_empty,
}
use filemagic_backend.Paths.{join_path, dir}
use filemagic_backend.Float.{whole, is_above, at_least_zero}
use filemagic_backend.Validator.Names.{one_of}
use filemagic_backend.Upload.Named.{font_formats, ebook_formats}
use filemagic_backend.Converter.{
  World, int_of, Task, pure, fail, check, ◌>>=◌, ◌>>◌, get_job, text_option, float_option, or_else,
  prepare_job_dir, write_file, run_tool, run_wrapped, finish,
}

module _ (w : World) where
  unfoldable pub convert_markdown_pdf : Task (Unit {0})
  convert_markdown_pdf = do
    d ← prepare_job_dir w
    job ← get_job
    let output_file = join_path d.output_dir (codes "output.pdf")
    run_tool w d (codes "pandoc.cfg") 60 (
        codes "/usr/bin/pandoc"
        ∷ job.input_path
        ∷ codes "-o"
        ∷ output_file
        ∷ codes "--pdf-engine=/usr/bin/typst"
        ∷ codes "--sandbox"
        ∷ [])
    finish w output_file

  unfoldable pub convert_pdf_repair : Task (Unit {0})
  convert_pdf_repair = do
    d ← prepare_job_dir w
    job ← get_job
    let output_file = join_path d.output_dir (codes "output.pdf")
    run_wrapped w (codes "PDF repair failed: ") (record {
      args = codes "/usr/bin/qpdf" ∷ codes "--warning-exit-0" ∷ job.input_path ∷ output_file ∷ [];
      job_dir = d.job_dir;
      profile = codes "qpdf.cfg";
      seconds = 30;
    })
    finish w output_file

  unfoldable pub convert_ebook : Task (Unit {0})
  convert_ebook = do
    job ← get_job
    let target = or_else (text_option (codes "targetFormat") job.options) []
    check (non_empty target) (codes "missing target format")
    check (one_of target ebook_formats) (codes "invalid target format")
    d ← prepare_job_dir w
    let output_file = join_path d.output_dir (codes "output." ++ target)
    run_tool w d (codes "ebook.cfg") 120
        (codes "/usr/bin/ebook-convert" ∷ job.input_path ∷ output_file ∷ [])
    finish w output_file

  unfoldable pub convert_font : Text → Task (Unit {0})
  convert_font script = do
    job ← get_job
    let target = or_else (text_option (codes "targetFormat") job.options) []
    check (non_empty target) (codes "missing target format")
    check (one_of target font_formats) (codes "invalid target format")
    d ← prepare_job_dir w
    let output_file = join_path d.output_dir (codes "output." ++ target)
    let script_path = join_path d.job_dir (codes "font_convert.py")
    written ← write_file w script_path script
    check written (codes "failed to write font conversion script")
    run_tool w d (codes "font.cfg") 30
        (codes "/usr/bin/python3" ∷ script_path ∷ job.input_path ∷ output_file ∷ target ∷ [])
    finish w output_file

  -- The arguments for a width or a height above zero.
  unfoldable pub dimension_args : Text → ℕ → List Text
  dimension_args flag v =
      if is_above v (whole 0) then flag ∷ w.print (at_least_zero (int_of w v)) ∷ [] else []

  unfoldable pub convert_svg_to_png : Task (Unit {0})
  convert_svg_to_png = do
    job ← get_job
    let width = or_else (float_option (codes "width") job.options) 0
    let height = or_else (float_option (codes "height") job.options) 0
    check (not (is_above width (whole 4096) || is_above height (whole 4096)))
        (codes "requested dimensions exceed maximum")
    d ← prepare_job_dir w
    let output_file = join_path d.output_dir (codes "output.png")
    let none_given = not (is_above width (whole 0)) && not (is_above height (whole 0))
    run_tool w d (codes "svg.cfg") 30 (
        (codes "/usr/bin/rsvg-convert" ∷ [])
        ++ (if none_given
            then codes "-w" ∷ codes "4096" ∷ []
            else dimension_args (codes "-w") width)
        ++ dimension_args (codes "-h") height
        ++ job.input_path ∷ codes "-o" ∷ output_file ∷ [])
    finish w output_file

  -- The modes of `PDFPasswordConverter`: the command of qpdf.
  unfoldable pub password_command : Text → Text → Task (List Text)
  password_command mode output_file = do
    job ← get_job
    let user = or_else (text_option (codes "userPassword") job.options) []
    let owner = or_else (text_option (codes "ownerPassword") job.options) []
    let secret = or_else (text_option (codes "password") job.options) []
    let pass_file = join_path (dir job.input_path) (codes ".password")
    let decrypt = codes "--decrypt" ∷ job.input_path ∷ output_file ∷ []
    if eq_text mode (codes "protect")
        then check (non_empty user) (codes "user password is required for protection")
          >> pure (
              codes "/usr/bin/qpdf"
              ∷ codes "--encrypt"
              ∷ user
              ∷ (if non_empty owner then owner else user)
              ∷ codes "256"
              ∷ codes "--"
              ∷ job.input_path
              ∷ output_file
              ∷ [])
        else if eq_text mode (codes "remove")
        then (if non_empty secret
            then write_file w pass_file (secret ++ 10 ∷ [])
              >>= (λ written. check written (codes "failed to write password file"))
              >> pure (codes "/usr/bin/qpdf" ∷ (codes "--password-file=" ++ pass_file) ∷ decrypt)
            else pure (codes "/usr/bin/qpdf" ∷ decrypt))
        else fail (codes "invalid mode")

  unfoldable pub convert_pdf_password : Task (Unit {0})
  convert_pdf_password = do
    job ← get_job
    let mode = or_else (text_option (codes "mode") job.options) []
    d ← prepare_job_dir w
    let output_file = join_path d.output_dir (codes "output.pdf")
    command ← password_command mode output_file
    run_tool w d (codes "qpdf.cfg") 30 command
    finish w output_file
