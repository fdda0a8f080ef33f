-- ===== src/Converter/Confined/Tools.antt =====
-- The commands that the converters run (internal/converter).
use filemagic_backend.Prelude.{
  ℕ, List, [], ◌∷◌, Option, none, some, Text, codes, eq_text, has_prefix,
}
use filemagic_backend.Float.{Integer}
use filemagic_backend.Validator.Names.{one_of}
use filemagic_backend.Converter.{World, Dirs}
use filemagic_backend.Converter.Documents.{
  convert_markdown_pdf, convert_pdf_repair, convert_ebook, convert_font, convert_svg_to_png,
}
use filemagic_backend.Converter.Media.{
  ffmpeg_command, convert_mov_to_mp4, convert_audio, extract_audio, convert_video_to_gif,
}
use filemagic_backend.Converter.Video.{
  compress_with_quality, encoding_pass, encode, encode_at, compress_to_size, convert_video_compress,
}
use filemagic_backend.ImageDimensions.{Dimensions, rejected, measured}
use filemagic_backend.Converter.Ocr.{
  Preparation, downsampled, to_png, to_tiff, refused, preparation, read_separately, accept_sides,
  guard_dimensions, png_or_fail, prepare_input, preprocess, convert_ocr,
}
use filemagic_backend.Converter.Pdf.{
  Attempt, build_gs_cmd, compress_with_level, try_attempts, compress_to_target_size,
  convert_pdf_compress,
}
use filemagic_backend.Converter.Keeps.{is_installed, is_confined, Keeps, keeps_rules}

module _ (w : World) where
  pub Keeps-convert_markdown_pdf : Keeps (convert_markdown_pdf w)
  unfolding convert_markdown_pdf is_confined is_installed has_prefix one_of eq_text
  Keeps-convert_markdown_pdf = search (keeps_rules) depth 16

  pub Keeps-convert_pdf_repair : Keeps (convert_pdf_repair w)
  unfolding convert_pdf_repair is_confined is_installed has_prefix one_of eq_text
  Keeps-convert_pdf_repair = search (keeps_rules) depth 16

  pub Keeps-convert_ebook : Keeps (convert_ebook w)
  unfolding convert_ebook is_confined is_installed has_prefix one_of eq_text
  Keeps-convert_ebook = search (keeps_rules) depth 16

  pub Keeps-convert_font : (script : Text) → Keeps (convert_font w script)
  unfolding convert_font is_confined is_installed has_prefix one_of eq_text
  Keeps-convert_font script = search keeps_rules depth 20

  pub Keeps-convert_svg_to_png : Keeps (convert_svg_to_png w)
  unfolding convert_svg_to_png is_confined is_installed has_prefix one_of eq_text
  Keeps-convert_svg_to_png = search (keeps_rules) depth 16

  pub Keeps-convert_mov_to_mp4 : Keeps (convert_mov_to_mp4 w)
  unfolding convert_mov_to_mp4 is_confined is_installed has_prefix one_of eq_text
  Keeps-convert_mov_to_mp4 = search (keeps_rules) depth 16

  pub Keeps-convert_audio : Keeps (convert_audio w)
  unfolding convert_audio ffmpeg_command is_confined is_installed has_prefix one_of eq_text
  Keeps-convert_audio = search (keeps_rules) depth 20

  pub Keeps-extract_audio : Keeps (extract_audio w)
  unfolding extract_audio ffmpeg_command is_confined is_installed has_prefix one_of eq_text
  Keeps-extract_audio = search (keeps_rules) depth 24

  pub Keeps-convert_video_to_gif : Keeps (convert_video_to_gif w)
  unfolding convert_video_to_gif is_confined is_installed has_prefix one_of eq_text
  Keeps-convert_video_to_gif = search (keeps_rules) depth 20

  Keeps-compress_with_quality :
      (parse_float : Text → Option ℕ) (d : Dirs) (i o q : Text)
      → Keeps (compress_with_quality w parse_float d i o q)
  unfolding compress_with_quality is_confined is_installed has_prefix one_of eq_text
  Keeps-compress_with_quality parse_float d i o q = search keeps_rules

  Keeps-encoding_pass :
      (parse_float : Text → Option ℕ) (d : Dirs) (i o r n : Text) (rest : List Text)
      → Keeps (encoding_pass w parse_float d i o r n rest)
  unfolding encoding_pass is_confined is_installed has_prefix one_of eq_text
  Keeps-encoding_pass parse_float d i o r n rest = search keeps_rules

  Keeps-encode :
      (parse_float : Text → Option ℕ) (d : Dirs) (i o : Text) (r : ℕ)
      → Keeps (encode w parse_float d i o r)
  unfolding encode is_confined is_installed has_prefix one_of eq_text
  Keeps-encode parse_float d i o r = search (keeps_rules, Keeps-encoding_pass)

  Keeps-encode_at :
      (parse_float : Text → Option ℕ) (d : Dirs) (i o : Text) (r : Option ℕ)
      → Keeps (encode_at w parse_float d i o r)
  unfolding encode_at
  Keeps-encode_at parse_float d i o none = search keeps_rules
  Keeps-encode_at parse_float d i o (some r) = Keeps-encode parse_float d i o r

  Keeps-compress_to_size :
      (parse_float : Text → Option ℕ) (d : Dirs) (i o : Text) (t : ℕ)
      → Keeps (compress_to_size w parse_float d i o t)
  unfolding compress_to_size is_confined is_installed has_prefix one_of eq_text
  Keeps-compress_to_size parse_float d i o t = search (keeps_rules, Keeps-encode_at) depth 16

  pub Keeps-convert_video_compress :
      (parse_float : Text → Option ℕ) → Keeps (convert_video_compress w parse_float)
  unfolding convert_video_compress is_confined is_installed has_prefix one_of eq_text
  Keeps-convert_video_compress parse_float =
      search (keeps_rules, Keeps-compress_to_size, Keeps-compress_with_quality) depth 16

  Keeps-read_separately :
      (fscan : Text → ℕ × ℕ) (d : Dirs) (i : Text)
      → Keeps (read_separately w fscan d (codes "image.cfg") i)
  unfolding read_separately is_confined is_installed has_prefix one_of eq_text
  Keeps-read_separately fscan d i = search keeps_rules depth 16

  Keeps-accept_sides :
      (fscan : Text → ℕ × ℕ) (sides : Dimensions) → Keeps (accept_sides w fscan sides)
  unfolding accept_sides
  Keeps-accept_sides fscan (rejected e) = search keeps_rules
  Keeps-accept_sides fscan (measured width height) = search keeps_rules

  pub Keeps-guard_dimensions :
      (fscan : Text → ℕ × ℕ) (d : Dirs) (i : Text)
      → Keeps (guard_dimensions w fscan d (codes "image.cfg") i)
  unfolding guard_dimensions is_confined is_installed has_prefix one_of eq_text
  Keeps-guard_dimensions fscan d i =
      search (keeps_rules, Keeps-read_separately, Keeps-accept_sides) depth 16

  Keeps-png_or_fail :
      (fscan : Text → ℕ × ℕ) (d : Dirs) (o : Option Text) → Keeps (png_or_fail w fscan d o)
  unfolding png_or_fail
  Keeps-png_or_fail fscan d none = search keeps_rules
  Keeps-png_or_fail fscan d (some error) = search keeps_rules

  Keeps-prepare_input :
      (fscan : Text → ℕ × ℕ) (d : Dirs) (i : Text) (p : Preparation)
      → Keeps (prepare_input w fscan d i p)
  unfolding prepare_input is_confined is_installed has_prefix one_of eq_text
  Keeps-prepare_input fscan d i downsampled = search keeps_rules
  Keeps-prepare_input fscan d i to_png = search (keeps_rules, Keeps-png_or_fail)
  Keeps-prepare_input fscan d i to_tiff = search keeps_rules
  Keeps-prepare_input fscan d i refused = search keeps_rules

  Keeps-preprocess :
      (fscan : Text → ℕ × ℕ) (d : Dirs) (i e : Text) → Keeps (preprocess w fscan d i e)
  unfolding preprocess
  Keeps-preprocess fscan d i e = Keeps-prepare_input fscan d i (preparation e)

  pub Keeps-convert_ocr : (fscan : Text → ℕ × ℕ) (dir : Text) → Keeps (convert_ocr w fscan dir)
  unfolding convert_ocr is_confined is_installed has_prefix one_of eq_text
  Keeps-convert_ocr fscan dir =
      search (keeps_rules, Keeps-guard_dimensions, Keeps-preprocess) depth 20

  Keeps-compress_with_level : Keeps (compress_with_level w)
  unfolding compress_with_level build_gs_cmd is_confined is_installed has_prefix one_of eq_text
  Keeps-compress_with_level = search (keeps_rules) depth 20

  Keeps-try_attempts :
      (d : Dirs) (i o : Text) (target : Integer) (attempts : List Attempt) (best : ℕ)
      → Keeps (try_attempts w d i o target attempts best)
  unfolding try_attempts is_confined is_installed has_prefix one_of eq_text
  Keeps-try_attempts d i o target [] best = search keeps_rules
  Keeps-try_attempts d i o target (a ∷ rest) best =
      search (keeps_rules, Keeps-try_attempts d i o target rest) depth 12

  Keeps-compress_to_target_size :
      (estimate : Integer → ℕ → Integer) (t : Integer)
      → Keeps (compress_to_target_size w estimate t)
  unfolding compress_to_target_size is_confined is_installed has_prefix one_of eq_text
  Keeps-compress_to_target_size estimate t = search (keeps_rules, Keeps-try_attempts) depth 16

  pub Keeps-convert_pdf_compress :
      (estimate : Integer → ℕ → Integer) → Keeps (convert_pdf_compress w estimate)
  unfolding convert_pdf_compress is_confined is_installed has_prefix one_of eq_text
  Keeps-convert_pdf_compress estimate =
      search (keeps_rules, Keeps-compress_to_target_size, Keeps-compress_with_level) depth 16
