-- ===== src/Converter/QrCode.antt =====
-- The generator of QR codes (internal/converter/qr_code.go). The library that encodes and draws them is a
-- parameter.
use filemagic_backend.Prelude.{
  ℕ, ◌-◌, ◌/◌, Bool, true, false, not, ◌&&◌, ◌||◌, [], ◌∷◌, ◌++◌, Option, none, some, length, ltb,
  leb, ◌==◌, if◌then◌else◌, Text, codes, eq_text, non_empty,
}
use filemagic_backend.Json.{Fields}
use filemagic_backend.Paths.{join_path}
use filemagic_backend.Float.{whole, is_above, is_below, is_nan, at_least_zero}
use filemagic_backend.Converter.{
  World, int_of, Log, Task, pure, panic, need, check, ok, failed, ◌>>=◌, ◌>>◌, get_job, text_option,
  float_option, or_else, prepare_job_dir, finish,
}

pub data CorrectionLevel : Type 0 where
  low medium quart highest : CorrectionLevel

pub data DotShape : Type 0 where
  circle liquid square_dots : DotShape

pub data EyeShape : Type 0 where
  rounded square_eyes : EyeShape

-- The options of the writer.
pub record Drawing : Type 0 where
  pub width : ℕ
  pub foreground : Option Text
  pub background : Option Text
  pub shape : Option (EyeShape × DotShape)

-- `qrcode.NewWith`: the dimension of the code, or its error; `standard.New` and `Save`: their error, or
-- none.
pub record QrLibrary : Type 0 where
  pub encode : Text → CorrectionLevel → Option ℕ
  pub draw : Log → Text → CorrectionLevel → Text → Drawing → Option Text

unfoldable pub is_hex_digit : ℕ → Bool
is_hex_digit c = leb b'0' c && leb c b'9' || leb b'A' c && leb c b'F' || leb b'a' c && leb c b'f'

unfoldable pub all_hex : Text → Bool
all_hex [] = true
all_hex (c ∷ s) = is_hex_digit c && all_hex s

-- `isValidHexColor`: a number sign and six hexadecimal digits.
unfoldable pub is_valid_hex_color : Text → Bool
is_valid_hex_color [] = false
is_valid_hex_color (c ∷ s) = c == b'#' && length s == 6 && all_hex s

-- A letter in upper or in lower case; no other rune has one of these as its upper case.
abbrev pub is_letter : Text → Text → Text → Bool
is_letter upper lower s = eq_text s upper || eq_text s lower

unfoldable pub level_of : Text → CorrectionLevel
level_of s =
    if is_letter (codes "L") (codes "l") s
    then low
    else if is_letter (codes "Q") (codes "q") s
    then quart
    else if is_letter (codes "H") (codes "h") s
    then highest
    else medium

-- At least 2 and at most 255, so that it fits a byte.
unfoldable pub block_width : ℕ → ℕ → ℕ
block_width size dimension =
    let n = (size - 2) / dimension in if ltb n 2 then 2 else if ltb 255 n then 255 else n

unfoldable pub color_option : Text → Fields → Option Text
color_option key options = elim (text_option key options) [
  | none ↦ none
  | some c ↦ if is_valid_hex_color c then some c else none
]

abbrev is_square : Text → Bool
is_square s = not (non_empty s) || eq_text s (codes "square")

unfoldable pub build_qr_shape : Fields → Option (EyeShape × DotShape)
build_qr_shape options =
    let dot = or_else (text_option (codes "dotShape") options) [] in
    let eye = or_else (text_option (codes "eyeShape") options) [] in
    let dots : DotShape =
      if eq_text dot (codes "circle")
      then circle
      else if eq_text dot (codes "liquid")
      then liquid
      else square_dots in
    if is_square dot && is_square eye
    then none
    else some (if eq_text eye (codes "rounded") then rounded else square_eyes, dots)

module _ (w : World) where
  -- `size >= 128 && size <= 2048`, or 512.
  unfoldable pub size_option : Fields → ℕ
  size_option options = elim (float_option (codes "size") options) [
    | none ↦ 512
    | some s ↦
        if is_nan s || is_below s (whole 128) || is_above s (whole 2048)
        then 512
        else at_least_zero (int_of w s)
  ]

  unfoldable pub drawing_of : Fields → ℕ → Drawing
  drawing_of options dimension = record {
    width = block_width (size_option options) dimension;
    foreground = color_option (codes "fgColor") options;
    background = color_option (codes "bgColor") options;
    shape = build_qr_shape options;
  }

  unfoldable pub draw_code : QrLibrary → Text → CorrectionLevel → Text → Drawing → Task (Unit {0})
  draw_code lib text level path drawing s = elim (lib.draw s.log text level path drawing) [
    | none ↦ ok tt s
    | some e ↦ failed (codes "failed to write QR code: " ++ e) s
  ]

  unfoldable pub generate_qr_code : QrLibrary → Task (Unit {0})
  generate_qr_code lib = do
    job ← get_job
    let text = or_else (text_option (codes "text") job.options) []
    check (non_empty text) (codes "missing or empty text")
    check (not (ltb 4296 (length text))) (codes "text too long (max 4296 characters for QR codes)")
    let level = level_of (or_else (text_option (codes "errorCorrection") job.options) (codes "M"))
    dimension ← need (lib.encode text level) (codes "failed to generate QR code")
    (if dimension == 0 then panic else pure tt)
    d ← prepare_job_dir w
    let output_file = join_path d.output_dir (codes "qrcode.png")
    draw_code lib text level output_file (drawing_of job.options dimension)
    finish w output_file
