-- ===== src/Converter/Watermark.antt =====
-- The watermark of an image (applyWatermark in internal/converter/image.go). Parameters: `[]rune(text)`,
-- `unicode.IsPrint`, the two numbers that `fmt.Sscanf` finds (those below 1 as 0), and the opacity as a
-- fraction of 1, by `%g`.
use filemagic_backend.Prelude.{
  ℕ, ◌*◌, ◌/◌, Bool, true, not, ◌&&◌, ◌||◌, List, [], ◌∷◌, ◌++◌, Option, none, some, length, ltb,
  ◌==◌, if◌then◌else◌, Text, codes, eq_text, has_prefix, non_empty,
}
use filemagic_backend.Json.{Fields}
use filemagic_backend.Gate.{trim_space}
use filemagic_backend.Paths.{join_path}
use filemagic_backend.Float.{clamp_int}
use filemagic_backend.Converter.{
  World, int_of, Task, pure, check, ◌>>=◌, ◌>>◌, get_job, text_option, float_option, or_else, Dirs,
  capture, run_wrapped,
}

pub record Glyphs : Type 0 where
  pub runes : Text → List ℕ
  pub is_print : ℕ → Bool
  pub scan_pair : Text → ℕ × ℕ
  pub print_fraction : ℕ → Text

unfoldable pub gravity_of : Text → Text
gravity_of position =
    if eq_text position (codes "top-left")
    then codes "NorthWest"
    else if eq_text position (codes "top-right")
    then codes "NorthEast"
    else if eq_text position (codes "bottom-left")
    then codes "SouthWest"
    else if eq_text position (codes "center")
    then codes "Center"
    else codes "SouthEast"

-- The size for an image whose longer side is `side`.
unfoldable pub scaled_size : ℕ → ℕ → ℕ
scaled_size font_size side =
    let scaled = font_size * side / 1000 in if ltb scaled 12 then 12 else scaled

abbrev pub longer : ℕ → ℕ → ℕ
longer width height = if ltb width height then height else width

abbrev pub offset_of : ℕ → ℕ
offset_of font_size = if ltb 40 font_size then font_size / 2 else 20

module _ (w : World) (glyphs : Glyphs) where
  unfoldable pub all_printable : List ℕ → Bool
  all_printable [] = true
  all_printable (r ∷ rs) = (glyphs.is_print r || r == b' ') && all_printable rs

  unfoldable pub clamped_option : Text → ℕ → ℕ → ℕ → Fields → ℕ
  clamped_option key d low high options = elim (float_option key options) [
    | none ↦ d
    | some v ↦ clamp_int low high (int_of w v)
  ]

  unfoldable pub fill_of : Fields → Text
  fill_of options =
      (if eq_text (or_else (text_option (codes "watermarkColor") options) []) (codes "#000000")
        then codes "rgba(0,0,0,"
        else codes "rgba(255,255,255,")
      ++ glyphs.print_fraction (clamped_option (codes "watermarkOpacity") 50 10 100 options)
      ++ codes ")"

  -- The size of the letters, by what `identify` says of the image.
  unfoldable pub font_size_for : Option Text → ℕ → ℕ
  font_size_for out size = elim out [
    | none ↦ size
    | some text ↦
        let sides = glyphs.scan_pair (trim_space text) in
        if ltb 0 sides.0 && ltb 0 sides.1 then scaled_size size (longer sides.0 sides.1) else size
  ]

  unfoldable pub draw_watermark : Dirs → Text → Text → Task Text
  draw_watermark d input_file text = do
    check (not (has_prefix text (codes "@"))) (codes "watermark text must not start with @")
    check (not (ltb 100 (length (glyphs.runes text)))) (codes "watermark text too long")
    check (all_printable (glyphs.runes text)) (codes "watermark text contains invalid characters")
    job ← get_job
    identified ← capture w (record {
      args = codes "/usr/bin/identify" ∷ codes "-format" ∷ codes "%w %h" ∷ input_file ∷ [];
      job_dir = d.job_dir;
      profile = codes "image_to_pdf.cfg";
      seconds = 10;
    })
    let size =
        font_size_for identified (clamped_option (codes "watermarkSize") 24 12 120 job.options)
    let offset = w.print (offset_of size)
    let output = join_path d.output_dir (codes "watermarked.png")
    run_wrapped w (codes "watermark failed: ") (record {
      args =
          codes "/usr/bin/convert"
          ∷ input_file
          ∷ codes "-font"
          ∷ codes "Liberation-Sans"
          ∷ codes "-pointsize"
          ∷ w.print size
          ∷ codes "-fill"
          ∷ fill_of job.options
          ∷ codes "-gravity"
          ∷ gravity_of (or_else (text_option (codes "watermarkPosition") job.options) [])
          ∷ codes "-annotate"
          ∷ (codes "+" ++ offset ++ codes "+" ++ offset)
          ∷ text
          ∷ output
          ∷ [];
      job_dir = d.job_dir;
      profile = codes "image_to_pdf.cfg";
      seconds = 120;
    })
    pure output

  unfoldable pub apply_watermark : Dirs → Text → Task Text
  apply_watermark d input_file = do
    job ← get_job
    let text = or_else (text_option (codes "watermarkText") job.options) []
    if non_empty (trim_space text) then draw_watermark d input_file text else pure input_file
