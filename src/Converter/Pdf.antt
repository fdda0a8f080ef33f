-- ===== src/Converter/Pdf.antt =====
-- The compressor of PDFs (internal/converter/pdf_compress.go). The first estimate of the resolution,
-- `int(300.0 * math.Sqrt(ratio))` for the sizes of the target and of the input, is a parameter.
pub mod Attempts
use filemagic_backend.Prelude.{
  ℕ, ◌/◌, Bool, true, false, not, ◌&&◌, List, [], ◌∷◌, ◌++◌, Option, none, some, ltb, leb,
  if◌then◌else◌, Text, codes, eq_text,
}
use filemagic_backend.Paths.{join_path}
use filemagic_backend.Float.{Integer, whole, is_above, clamp_int, at_most}
use filemagic_backend.Converter.{
  World, Task, pure, ◌>>=◌, ◌>>◌, get_job, text_option, float_option, bool_option, or_else, Dirs,
  int_of, prepare_job_dir, run_tool, copy_file, file_size, set_output,
}

unfoldable pub pdf_settings : Text → Text
pdf_settings level =
    if eq_text level (codes "low")
    then codes "/prepress"
    else if eq_text level (codes "high")
    then codes "/screen"
    else codes "/ebook"

unfoldable pub level_dpi : Text → ℕ
level_dpi level =
    if eq_text level (codes "low") then 300 else if eq_text level (codes "high") then 72 else 150

-- The arguments before the resolutions.
abbrev pub gs_start : Text → List Text
gs_start settings =
    codes "/usr/bin/gs"
    ∷ codes "-dSAFER"
    ∷ codes "-dPARANOIDSAFER"
    ∷ codes "-dNOOUTERSAVE"
    ∷ codes "-dNEWPDF=true"
    ∷ codes "-dMaxBitmap=100000000"
    ∷ codes "-sDEVICE=pdfwrite"
    ∷ codes "-dCompatibilityLevel=1.4"
    ∷ (codes "-dPDFSETTINGS=" ++ settings)
    ∷ codes "-dNOPAUSE"
    ∷ codes "-dQUIET"
    ∷ codes "-dBATCH"
    ∷ []

abbrev pub downsample_args : Text → List Text
downsample_args dpi =
    codes "-dDownsampleColorImages=true"
    ∷ codes "-dDownsampleGrayImages=true"
    ∷ codes "-dDownsampleMonoImages=true"
    ∷ (codes "-dColorImageResolution=" ++ dpi)
    ∷ (codes "-dGrayImageResolution=" ++ dpi)
    ∷ (codes "-dMonoImageResolution=" ++ dpi)
    ∷ []

-- One attempt: its settings and its resolution.
pub record Attempt : Type 0 where
  pub settings : Text
  pub dpi : ℕ

-- The attempts, by the resolution of the first.
unfoldable pub attempts_from : ℕ → List Attempt
attempts_from start =
    let half = start / 2 in
    let third = start / 3 in
    record { settings = codes "/ebook"; dpi = start }
      ∷ (if ltb 100 start then record { settings = codes "/ebook"; dpi = half } ∷ [] else [])
    ++ record { settings = codes "/screen"; dpi = half }
      ∷ (if leb 36 third then record { settings = codes "/screen"; dpi = third } ∷ [] else [])

-- The resolution of an attempt is at least 36.
abbrev pub used_dpi : ℕ → ℕ
used_dpi dpi = if ltb dpi 36 then 36 else dpi

module _ (w : World) where
  unfoldable pub build_gs_cmd : Text → Text → Text → Bool → Text → List Text
  build_gs_cmd input_file output_file settings lossy level =
      gs_start settings
      ++ (if lossy then downsample_args (w.print (level_dpi level)) else [])
      ++ (codes "-sOutputFile=" ++ output_file) ∷ input_file ∷ []

  unfoldable pub compress_with_level : Task (Unit {0})
  compress_with_level = do
    job ← get_job
    let level = or_else (text_option (codes "level") job.options) (codes "medium")
    let lossy = or_else (bool_option (codes "lossy") job.options) true
    d ← prepare_job_dir w
    let output_file = join_path d.output_dir (codes "output.pdf")
    run_tool w d (codes "pdf.cfg") 60
        (build_gs_cmd job.input_path output_file (pdf_settings level) lossy level)
    size ← file_size w (codes "output file not found: ") output_file
    if leb job.input_size size && ltb 0 job.input_size
        then copy_file w (codes "failed to copy original") job.input_path output_file
          >> set_output output_file job.input_size
        else set_output output_file size

  -- The loop over the attempts that are left; `best` is the size that the last one gave.
  unfoldable pub try_attempts : Dirs → Text → Text → Integer → List Attempt → ℕ → Task ℕ
  try_attempts d input_file output_file target [] best = pure best
  try_attempts d input_file output_file target (a ∷ rest) best = do
    run_tool w d (codes "pdf.cfg") 60 (
        gs_start a.settings
        ++ downsample_args (w.print (used_dpi a.dpi))
        ++ (codes "-sOutputFile=" ++ output_file) ∷ input_file ∷ [])
    size ← file_size w (codes "output file not found: ") output_file
    let more = try_attempts d input_file output_file target rest size
    if at_most size target then pure size else more

  unfoldable pub compress_to_target_size : (Integer → ℕ → Integer) → Integer → Task (Unit {0})
  compress_to_target_size estimate target = do
    d ← prepare_job_dir w
    job ← get_job
    let output_file = join_path d.output_dir (codes "output.pdf")
    if ltb 0 job.input_size && at_most job.input_size target
        then copy_file w (codes "failed to copy original") job.input_path output_file
          >> set_output output_file job.input_size
        else try_attempts d job.input_path output_file target
            (attempts_from (clamp_int 36 300 (estimate target job.input_size))) 0
          >>= set_output output_file

  unfoldable pub convert_pdf_compress : (Integer → ℕ → Integer) → Task (Unit {0})
  convert_pdf_compress estimate = do
    job ← get_job
    let size = or_else (float_option (codes "targetSize") job.options) 0
    if is_above size (whole 0)
        then compress_to_target_size estimate (int_of w size)
        else compress_with_level
