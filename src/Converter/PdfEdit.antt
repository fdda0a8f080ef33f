-- ===== src/Converter/PdfEdit.antt =====
-- The options of the PDF editor, and the editor (internal/converter/pdf_editor.go). A check gives its
-- error, or none. `float64(n)` for an int, `json.Marshal` and the embedded script are parameters.
pub mod Numbers
pub mod Admitted
use filemagic_backend.Prelude.{
  ℕ, suc, Bool, true, false, not, ◌&&◌, ◌||◌, List, [], ◌∷◌, ◌++◌, Option, none, some, length, ltb,
  leb, ◌==◌, if◌then◌else◌, Text, codes, eq_text,
}
use filemagic_backend.Json.{
  Fields, Value, Items, nil, cons, float, int, str, arr, obj, end, field, field_value,
}
use filemagic_backend.Paths.{join_path}
use filemagic_backend.Float.{Number, whole, minus, is_below, is_above, equals, is_whole}
use filemagic_backend.Validator.Names.{one_of}
use filemagic_backend.Converter.{
  World, Task, pure, fail, need, check, ◌>>=◌, ◌>>◌, get_job, prepare_job_dir, write_file, run_tool,
  finish,
}
use filemagic_backend.Converter.Listed.{item_count}

abbrev pub max_pages : ℕ
max_pages = 500

abbrev pub max_rotations : ℕ
max_rotations = 500

abbrev pub max_redactions : ℕ
max_redactions = 200

abbrev pub max_text_len : ℕ
max_text_len = 200

-- The first error of two checks.
infixr 4 ◌orelse◌
abbrev pub ◌orelse◌ : Option Text → Option Text → Option Text
none orelse e = e
(some x) orelse e = some x

abbrev pub refuse_if : Bool → Text → Option Text
refuse_if b e = if b then some e else none

unfoldable pub field_count : Fields → ℕ
field_count end = 0
field_count (field k v rest) = suc (field_count rest)

-- `if v, ok := m[key]; ok { ... }`
unfoldable pub if_present : Text → Fields → (Value → Option Text) → Option Text
if_present key m f = elim (field_value key m) [ none ↦ none | some v ↦ f v ]

unfoldable pub check_length : Text → Fields → Text → Option Text
check_length key m e = elim (field_value key m) [
  | some (str t) ↦ refuse_if (ltb max_text_len (length t)) e
  | _ ↦ none
]

-- `n < low || n > high`
abbrev pub out_of_range : Number → Number → ℕ → Bool
out_of_range low high n = is_below n low || is_above n high

-- `n < 1 || n > maxPages || n != float64(int(n))`
unfoldable pub is_bad_page : ℕ → Bool
is_bad_page n = out_of_range (whole 1) (whole max_pages) n || not (is_whole n)

unfoldable pub is_bad_angle : ℕ → Bool
is_bad_angle n =
    not (equals n (whole 90)) && not (equals n (whole 180)) && not (equals n (whole 270))

-- `page < 0 || page >= maxPages || page != float64(int(page))`
unfoldable pub is_bad_redacted_page : ℕ → Bool
is_bad_redacted_page n =
    is_below n (whole 0)
    || is_above n (whole max_pages)
    || equals n (whole max_pages)
    || not (is_whole n)

abbrev pub is_bad_offset : ℕ → Bool
is_bad_offset = out_of_range (whole 0) (whole 10000)

abbrev pub is_bad_side : ℕ → Bool
is_bad_side n = is_bad_offset n || equals n (whole 0)

module _ (float_of : ℕ → ℕ) where
  unfoldable pub to_float64 : Value → Option ℕ
  to_float64 v = elim v [ float b ↦ some b | int n ↦ some (float_of n) | _ ↦ none ]

  -- A test of a value that must be a number.
  unfoldable pub is_bad : (ℕ → Bool) → Value → Bool
  is_bad bad v = elim (to_float64 v) [ none ↦ true | some n ↦ bad n ]

  unfoldable pub any_bad : (ℕ → Bool) → Items → Bool
  any_bad bad nil = false
  any_bad bad (cons v vs) = is_bad bad v || any_bad bad vs

  unfoldable pub any_bad_field : (ℕ → Bool) → Fields → Bool
  any_bad_field bad end = false
  any_bad_field bad (field k v rest) = is_bad bad v || any_bad_field bad rest

  unfoldable pub validate_float : Fields → Text → Number → Number → Option Text
  validate_float m key low high =
      if_present key m (λ v. refuse_if (is_bad (out_of_range low high) v) (codes "out of range"))

  unfoldable pub validate_color_array : Fields → Text → Option Text
  validate_color_array m key = if_present key m (λ v. elim v [
    | arr colors ↦
        refuse_if
          (not (item_count colors == 3) || any_bad (out_of_range (whole 0) (whole 1)) colors)
          (codes "values must be in [0, 1]")
    | _ ↦ some (codes "must be [r, g, b]")
  ])

  unfoldable pub validate_position : Fields → Text → List Text → Option Text
  validate_position m key allowed = if_present key m (λ v. elim v [
    | str s ↦ refuse_if (not (one_of s allowed)) (codes "invalid position")
    | _ ↦ some (codes "must be a string")
  ])

  unfoldable pub check_pages : Value → Option Text
  check_pages v = elim v [
    | arr pages ↦
        refuse_if (ltb max_pages (item_count pages)) (codes "pages exceeds maximum")
        orelse refuse_if (any_bad is_bad_page pages) (codes "invalid page number")
    | _ ↦ some (codes "pages must be an array")
  ]

  unfoldable pub check_rotations : Value → Option Text
  check_rotations v = elim v [
    | obj angles ↦
        refuse_if (ltb max_rotations (field_count angles)) (codes "rotations exceeds maximum")
        orelse refuse_if (any_bad_field is_bad_angle angles)
            (codes "rotation angle must be 90, 180, or 270")
    | _ ↦ some (codes "rotations must be an object")
  ]

  unfoldable pub check_watermark : Value → Option Text
  check_watermark v = elim v [
    | obj m ↦
        check_length (codes "text") m (codes "watermark text exceeds maximum")
        orelse validate_float m (codes "fontSize") (whole 1) (whole 200)
        orelse validate_float m (codes "opacity") (whole 0) (whole 1)
        orelse validate_float m (codes "rotation") (minus 360) (whole 360)
        orelse validate_color_array m (codes "color")
        orelse validate_position m (codes "position") (
            codes "center"
            ∷ codes "top-left"
            ∷ codes "top-right"
            ∷ codes "bottom-left"
            ∷ codes "bottom-right"
            ∷ [])
    | _ ↦ some (codes "watermark must be an object")
  ]

  unfoldable pub check_page_numbers : Value → Option Text
  check_page_numbers v = elim v [
    | obj m ↦
        check_length (codes "format") m (codes "pageNumbers format exceeds maximum")
        orelse validate_float m (codes "fontSize") (whole 1) (whole 200)
        orelse validate_float m (codes "startFrom") (whole 0) (whole 9999)
        orelse validate_float m (codes "margin") (whole 0) (whole 100)
        orelse validate_color_array m (codes "color")
        orelse validate_position m (codes "position") (
            codes "bottom-center"
            ∷ codes "bottom-left"
            ∷ codes "bottom-right"
            ∷ codes "top-center"
            ∷ codes "top-left"
            ∷ codes "top-right"
            ∷ [])
    | _ ↦ some (codes "pageNumbers must be an object")
  ]

  -- `rect` is [x, y, w, h].
  unfoldable pub is_good_rect : Items → Bool
  is_good_rect (cons x (cons y (cons w (cons h nil)))) = not (
      is_bad is_bad_offset x
      || is_bad is_bad_offset y
      || is_bad is_bad_side w
      || is_bad is_bad_side h)
  is_good_rect nil = false
  is_good_rect (cons x nil) = false
  is_good_rect (cons x (cons y nil)) = false
  is_good_rect (cons x (cons y (cons w nil))) = false
  is_good_rect (cons x (cons y (cons w (cons h (cons v vs))))) = false

  unfoldable pub is_good_redaction : Value → Bool
  is_good_redaction v = elim v [
    | obj m ↦ elim (field_value (codes "page") m) [
      | none ↦ false
      | some page ↦
          if is_bad is_bad_redacted_page page then false else elim (field_value (codes "rect") m) [
            | some (arr sides) ↦ is_good_rect sides
            | _ ↦ false
          ]
    ]
    | _ ↦ false
  ]

  unfoldable pub all_good_redactions : Items → Bool
  all_good_redactions nil = true
  all_good_redactions (cons v vs) = is_good_redaction v && all_good_redactions vs

  unfoldable pub check_redactions : Value → Option Text
  check_redactions v = elim v [
    | arr items ↦
        refuse_if (ltb max_redactions (item_count items)) (codes "redactions exceeds maximum")
        orelse refuse_if (not (all_good_redactions items)) (codes "redaction is not well-formed")
    | _ ↦ some (codes "redactions must be an array")
  ]

  unfoldable pub check_space : Value → Option Text
  check_space v = elim v [
    | str s ↦
        refuse_if (not (eq_text s (codes "source"))) (codes "invalid redaction coordinate space")
    | _ ↦ some (codes "invalid redaction coordinate space")
  ]

  unfoldable pub validate_pdf_edit_options : Fields → Option Text
  validate_pdf_edit_options opts =
      if_present (codes "pages") opts check_pages
      orelse if_present (codes "rotations") opts check_rotations
      orelse if_present (codes "watermark") opts check_watermark
      orelse if_present (codes "pageNumbers") opts check_page_numbers
      orelse if_present (codes "redactionSpace") opts check_space
      orelse if_present (codes "redactions") opts check_redactions

  -- The error of the options, if there is one.
  unfoldable pub pass_or_fail : Option Text → Task (Unit {0})
  pass_or_fail none = pure tt
  pass_or_fail (some e) = fail (codes "invalid options: " ++ e)

  -- `PDFEditor.Convert`; an error of `json.Marshal` is none.
  unfoldable pub convert_pdf_edit : World → Text → (Fields → Option Text) → Task (Unit {0})
  convert_pdf_edit w script marshal = do
    job ← get_job
    pass_or_fail (validate_pdf_edit_options job.options)
    d ← prepare_job_dir w
    let output_file = join_path d.output_dir (codes "output.pdf")
    let script_path = join_path d.job_dir (codes "editor.py")
    script_written ← write_file w script_path script
    check script_written (codes "failed to write editor script")
    config ← need (marshal job.options) (codes "failed to marshal config")
    let config_path = join_path d.job_dir (codes "config.json")
    config_written ← write_file w config_path config
    check config_written (codes "failed to write config")
    run_tool w d (codes "pymupdf.cfg") 60
        (codes "/usr/bin/python3" ∷ script_path ∷ job.input_path ∷ output_file ∷ config_path ∷ [])
    finish w output_file
