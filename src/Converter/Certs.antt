-- ===== src/Converter/Certs.antt =====
-- The converter of certificates (internal/converter/cert_converter.go).
pub mod Secret
use filemagic_backend.Prelude.{
  ℕ, Bool, true, false, not, ◌&&◌, ◌||◌, List, [], ◌∷◌, ◌++◌, Option, none, some, if◌then◌else◌,
  Text, codes, eq_text, non_empty,
}
use filemagic_backend.Paths.{join_path}
use filemagic_backend.Validator.Names.{one_of, to_lower, has_any_suffix}
use filemagic_backend.Converter.{
  World, Task, pure, fail, check, ◌>>=◌, ◌>>◌, get_job, text_option, or_else, Dirs, prepare_job_dir,
  write_file, run_wrapped, finish,
}

unfoldable pub detect_source_format : (ℕ → ℕ) → Text → Text
detect_source_format unicode_lower input_path =
    let lower = to_lower unicode_lower input_path in
    if has_any_suffix lower (codes ".pem" ∷ codes ".crt" ∷ codes ".cer" ∷ [])
    then codes "pem"
    else if has_any_suffix lower (codes ".der" ∷ [])
    then codes "der"
    else if has_any_suffix lower (codes ".p12" ∷ codes ".pfx" ∷ [])
    then codes "p12"
    else if has_any_suffix lower (codes ".p7b" ∷ codes ".p7c" ∷ [])
    then codes "p7b"
    else []

unfoldable pub format_extension : Text → Text
format_extension format =
    if eq_text format (codes "pem")
    then codes ".pem"
    else if eq_text format (codes "der")
    then codes ".der"
    else if eq_text format (codes "p12")
    then codes ".p12"
    else if eq_text format (codes "p7b")
    then codes ".p7b"
    else []

-- `from + ":" + to`
abbrev pub pair_of : Text → Text → Text
pair_of from to = from ++ codes ":" ++ to

unfoldable pub can_direct_convert : Text → Text → Bool
can_direct_convert from to = one_of (pair_of from to) (
    codes "pem:der"
    ∷ codes "der:pem"
    ∷ codes "pem:p12"
    ∷ codes "p12:pem"
    ∷ codes "pem:p7b"
    ∷ codes "p7b:pem"
    ∷ [])

abbrev pub openssl : List Text → List Text
openssl args = codes "/usr/bin/openssl" ∷ args

-- `cmd != nil`
abbrev pub has_words : List Text → Bool
has_words [] = false
has_words (a ∷ rest) = true

-- `-passin` or `-passout`, with its file; an empty name is no file.
unfoldable pub pass_argument : Text → Text
pass_argument pass_file = if non_empty pass_file then codes "file:" ++ pass_file else codes "pass:"

module _ (w : World) where
  unfoldable pub write_pass_file : Text → Text → Text → Task Text
  write_pass_file dir name password =
      let path = join_path dir (codes "." ++ name) in
      if not (non_empty dir)
      then pure []
      else do written ← write_file w path (password ++ 10 ∷ []); pure (if written then path else [])

  unfoldable pub build_convert_command :
      Text → Text → Text → Text → Text → Text → Text → Task (List Text)
  build_convert_command from to input_file output_file password output_password output_dir =
      let pair = pair_of from to in
      if eq_text pair (codes "pem:der")
      then pure (
          openssl (
            codes "x509"
            ∷ codes "-in"
            ∷ input_file
            ∷ codes "-outform"
            ∷ codes "DER"
            ∷ codes "-out"
            ∷ output_file
            ∷ []))
      else if eq_text pair (codes "der:pem")
      then pure (
          openssl (
            codes "x509"
            ∷ codes "-in"
            ∷ input_file
            ∷ codes "-inform"
            ∷ codes "DER"
            ∷ codes "-outform"
            ∷ codes "PEM"
            ∷ codes "-out"
            ∷ output_file
            ∷ []))
      else if eq_text pair (codes "pem:p12")
      then write_pass_file output_dir (codes "passout")
          (if non_empty output_password then output_password else codes "changeit")
        >>= (λ pass_file. pure (
            openssl (
              codes "pkcs12"
              ∷ codes "-export"
              ∷ codes "-in"
              ∷ input_file
              ∷ codes "-out"
              ∷ output_file
              ∷ codes "-nokeys"
              ∷ codes "-passout"
              ∷ pass_argument pass_file
              ∷ [])))
      else if eq_text pair (codes "p12:pem")
      then write_pass_file output_dir (codes "passin") password >>= (λ pass_file. pure (
          openssl (
            codes "pkcs12"
            ∷ codes "-in"
            ∷ input_file
            ∷ codes "-out"
            ∷ output_file
            ∷ codes "-nodes"
            ∷ codes "-passin"
            ∷ pass_argument pass_file
            ∷ [])))
      else if eq_text pair (codes "pem:p7b")
      then pure (
          openssl (
            codes "crl2pkcs7"
            ∷ codes "-nocrl"
            ∷ codes "-certfile"
            ∷ input_file
            ∷ codes "-out"
            ∷ output_file
            ∷ []))
      else if eq_text pair (codes "p7b:pem")
      then pure (
          openssl (
            codes "pkcs7"
            ∷ codes "-in"
            ∷ input_file
            ∷ codes "-print_certs"
            ∷ codes "-out"
            ∷ output_file
            ∷ []))
      else pure []

  -- One step: its command, which is empty for a pair without a command, and the run.
  unfoldable pub step :
      Dirs → Text → Text → Text → Text → Text → Text → Text → Text → Task (Unit {0})
  step d no_path words from to input_file output_file password output_password = do
    cmd ← build_convert_command from to input_file output_file password output_password d.output_dir
    check (has_words cmd) no_path
    run_wrapped w words
        (record { args = cmd; job_dir = d.job_dir; profile = codes "cert.cfg"; seconds = 30 })

  unfoldable pub convert_cert : Task (Unit {0})
  convert_cert = do
    job ← get_job
    let target = or_else (text_option (codes "targetFormat") job.options) []
    check (non_empty target) (codes "missing target format")
    let password = or_else (text_option (codes "password") job.options) []
    let output_password = or_else (text_option (codes "outputPassword") job.options) []
    let source = detect_source_format w.unicode_lower job.input_path
    check (non_empty source) (codes "unsupported source certificate format")
    check (not (eq_text source target)) (codes "source and target formats are the same")
    d ← prepare_job_dir w
    let output_file = join_path d.output_dir (codes "output" ++ format_extension target)
    let intermediate = join_path d.output_dir (codes "intermediate.pem")
    (if can_direct_convert source target
        then step d (codes "no conversion path") [] source target job.input_path output_file
            password output_password
        else step d (codes "no conversion path to PEM") (codes "step 1 failed: ") source
            (codes "pem") job.input_path intermediate password []
          >> step d (codes "no conversion path from PEM") (codes "step 2 failed: ") (codes "pem")
              target intermediate output_file [] output_password)
    finish w output_file
