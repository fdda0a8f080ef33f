-- ===== src/Upload/Named.antt =====
-- The upload handlers that tell a file by its name (internal/api/handlers/convert.go): fonts, e-books,
-- SVG, archives to unpack, Markdown and certificates. The texts of the error replies are left out.
pub mod Stored
mod Examples
use filemagic_backend.Prelude.{
  ℕ, ◌+◌, ◌*◌, Bool, true, false, not, ◌&&◌, ◌||◌, List, [], ◌∷◌, ◌++◌, Option, none, some, take,
  ltb, ◌==◌, if◌then◌else◌, Text, codes, eq_text, non_empty,
}
use filemagic_backend.Json.{Fields, Value, str, end, field}
use filemagic_backend.Dict.{lookup}
use filemagic_backend.Paths.{join_path}
use filemagic_backend.Queue
use filemagic_backend.Queue.{ConversionType}
use filemagic_backend.Gate
use filemagic_backend.Gate.{ErrorCode, validation_error, file_too_large}
use filemagic_backend.Validator.Names.{
  one_of, detect_font_file, detect_ebook_file, detect_svg_file, detect_archive_file,
  detect_markdown_file, detect_cert_file_type, get_cert_extension, CertFileType,
}
use filemagic_backend.Sanitize.{sanitize_filename}
use filemagic_backend.Upload.{
  UploadConfig, owner_ip, FormFile, Disk, Server, Reply, refused, store_upload, form_options,
  set_field,
}
use filemagic_backend.Upload.Routes.{shifted}

-- A form with one file; the other fields by their names.
pub record NamedForm : Type 0 where
  pub parsed : Bool
  pub file : Option FormFile
  pub values : List (Text × Text)

-- `r.FormValue(key)`
unfoldable pub form_value : NamedForm → Text → Text
form_value form key = elim (lookup key form.values) [ none ↦ [] | some v ↦ v ]

-- One request, with the file system's answers, the new job id and the time.
pub record Call : Type 0 where
  pub cfg : UploadConfig
  pub disk : Disk
  pub form : NamedForm
  pub job_id : Text
  pub now : ℕ
  pub peer : Gate.Request

-- `options[key].(string)`, or the empty string.
unfoldable pub string_field : Text → Fields → Text
string_field key end = []
string_field key (field k v rest) =
    let tail = string_field key rest in
    if eq_text k key then elim v [ str s ↦ s | _ ↦ [] ] else tail

-- `filepath.Join(h.cfg.TmpfsPath, jobID)`
abbrev pub job_dir : Call → Text
job_dir c = join_path c.cfg.tmpfs_path c.job_id

abbrev pub named_request : Call → ConversionType → FormFile → Text → Fields → Queue.Request
named_request c conv_type file name options = record {
  job_id = c.job_id;
  owner_ip = owner_ip c.cfg c.peer;
  conv_type = conv_type;
  input_path = join_path (join_path (job_dir c) (codes "input")) name;
  original_name = file.filename;
  options = options;
  input_size = file.size;
  now = c.now;
}

-- The common beginning: the form, its file, and the limit on its size.
unfoldable pub with_file : Call → ℕ → Server → (FormFile → Server × Reply) → Server × Reply
with_file c limit s next =
    if not c.form.parsed then (s, refused 400 file_too_large) else elim c.form.file [
      | none ↦ (s, refused 400 validation_error)
      | some file ↦ if ltb limit file.size then (s, refused 400 file_too_large) else next file
    ]

-- The common end: the file is stored under the name, and the job is submitted.
unfoldable pub store_named :
    Call → ConversionType → FormFile → Text → Fields → Server → Server × Reply
store_named c conv_type file name options s =
    store_upload c.disk (job_dir c) (join_path (join_path (job_dir c) (codes "input")) name)
      (named_request c conv_type file name options) s

abbrev pub font_formats : List Text
font_formats = codes "ttf" ∷ codes "otf" ∷ codes "woff" ∷ codes "woff2" ∷ []

abbrev pub ebook_formats : List Text
ebook_formats =
    codes "epub"
    ∷ codes "mobi"
    ∷ codes "azw3"
    ∷ codes "txt"
    ∷ codes "fb2"
    ∷ codes "docx"
    ∷ codes "htmlz"
    ∷ []

abbrev pub cert_formats : List Text
cert_formats = codes "pem" ∷ codes "der" ∷ codes "p12" ∷ codes "p7b" ∷ []

-- `options[key] = v`, unless the value is empty.
abbrev pub add_secret : Text → Text → Fields → Fields
add_secret key v options = if non_empty v then set_field key (str v) options else options

unfoldable pub has_nul : Text → Bool
has_nul [] = false
has_nul (b ∷ bs) = b == 0 || has_nul bs

module _ (unicode_lower unicode_upper : ℕ → ℕ) (parse_json : Text → Option Fields) (c : Call)
    (s : Server) where
  abbrev invalid : Server × Reply
  invalid = (s, refused 400 validation_error)

  unfoldable pub font_convert : Server × Reply
  font_convert = with_file c (shifted 11) s (λ file.
      if not (detect_font_file unicode_lower file.filename)
      then invalid
      else elim (form_options parse_json (form_value c.form (codes "options"))) [
        | none ↦ invalid
        | some options ↦
            if not (one_of (string_field (codes "targetFormat") options) font_formats)
            then invalid
            else store_named c Queue.font_convert file
                (sanitize_filename unicode_upper file.filename) options s
      ])

  unfoldable pub ebook_convert : Server × Reply
  ebook_convert = with_file c (shifted 51) s (λ file.
      if not (detect_ebook_file unicode_lower file.filename)
      then invalid
      else elim (form_options parse_json (form_value c.form (codes "options"))) [
        | none ↦ invalid
        | some options ↦
            if not (one_of (string_field (codes "targetFormat") options) ebook_formats)
            then invalid
            else store_named c Queue.ebook_convert file
                (sanitize_filename unicode_upper file.filename) options s
      ])

  unfoldable pub svg_to_png : Server × Reply
  svg_to_png = with_file c (shifted 21) s (λ file.
      if not (detect_svg_file unicode_lower file.filename)
      then invalid
      else elim (form_options parse_json (form_value c.form (codes "options"))) [
        | none ↦ invalid
        | some options ↦ store_named c Queue.svg_to_png file (codes "input.svg") options s
      ])

  unfoldable pub decompress : Server × Reply
  decompress = with_file c (shifted 51) s (λ file.
      if not (detect_archive_file unicode_lower file.filename)
      then invalid
      else store_named c Queue.decompress file (sanitize_filename unicode_upper file.filename)
          (add_secret (codes "password") (form_value c.form (codes "password")) end) s)

  unfoldable pub markdown_pdf : Server × Reply
  markdown_pdf = with_file c (shifted 6) s (λ file.
      if not (detect_markdown_file unicode_lower file.filename)
      then invalid
      else if has_nul (take 512 file.content)
      then invalid
      else store_named c Queue.markdown_pdf file (codes "input.md") end s)

  unfoldable pub handle_cert_conversion : Server × Reply
  handle_cert_conversion = with_file c (shifted 2) s (λ file.
      elim (detect_cert_file_type unicode_lower file.filename) [
        | none ↦ invalid
        | some cert_type ↦
            let target = form_value c.form (codes "targetFormat") in
            if not (non_empty target)
            then invalid
            else if not (one_of target cert_formats)
            then invalid
            else store_named c Queue.cert_convert file
                (codes "input" ++ get_cert_extension cert_type)
                (add_secret (codes "outputPassword") (form_value c.form (codes "outputPassword")) (
                  add_secret (codes "password") (form_value c.form (codes "password"))
                    (field (codes "targetFormat") (str target) end)))
                s
      ])

pub data NamedRoute : Type 0 where
  font ebook svg unpack markdown cert : NamedRoute

module _ (unicode_lower unicode_upper : ℕ → ℕ) (parse_json : Text → Option Fields) where
  unfoldable pub handle_named : NamedRoute → Call → Server → Server × Reply
  handle_named font c s = font_convert unicode_lower unicode_upper parse_json c s
  handle_named ebook c s = ebook_convert unicode_lower unicode_upper parse_json c s
  handle_named svg c s = svg_to_png unicode_lower unicode_upper parse_json c s
  handle_named unpack c s = decompress unicode_lower unicode_upper parse_json c s
  handle_named markdown c s = markdown_pdf unicode_lower unicode_upper parse_json c s
  handle_named cert c s = handle_cert_conversion unicode_lower unicode_upper parse_json c s
