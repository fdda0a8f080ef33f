-- ===== src/Converter/Guarded.antt =====
-- What is known of an image when a converter that checks its sides ends well (internal/converter: image.go,
-- image_compress.go, favicon.go, ocr.go).
use filemagic_backend.Prelude.{
  ℕ, ◌≡◌, refl, sym, subst, ◌∙◌, Bool, true, false, not, ◌⊎◌, List, Option, some, arith,
  if◌then◌else◌, Text, codes, eq_text,
}
use filemagic_backend.Paths.{ext}
use filemagic_backend.Validator.Names.{to_lower}
use filemagic_backend.Float.{Integer}
use filemagic_backend.Queue.{Job}
use filemagic_backend.TargetSize
use filemagic_backend.ImageDimensions.{
  Dimensions, rejected, measured, header_command, parse_vips_dimensions,
  read_vips_dimensions_separately, validate_image_dimensions,
}
use filemagic_backend.ImageDimensions.Bounds.{IsSmall, passed-IsSmall}
use filemagic_backend.Converter.{
  World, Site, Run, ok, failed, panicked, Task, ◌>>=◌, ◌>>◌, and_then, get_job, Command, Log, Dirs,
}
use filemagic_backend.Converter.Ends.{
  Ended, Ends-then, Frames, Frames-need, Frames-check, Frames-make_dir, Frames-copy_file,
  Frames-prepare_job_dir,
}
use filemagic_backend.Converter.Listed.{copy_policy}
use filemagic_backend.Converter.Ocr.{guard_dimensions, convert_ocr}
use filemagic_backend.Converter.Ocr.Guard.{given, passes, guard_dimensions-exact}
use filemagic_backend.Converter.Image.{convert_image}
use filemagic_backend.Converter.ImageCompress.{compress_image_quality, search_target}
use filemagic_backend.Converter.Manifest.{generate_favicon}
use filemagic_backend.Converter.Watermark.{Glyphs}

-- Begun with the job `j`, the task ends well only if `P`.
record Needs {A : Type 0} (j : Job) (P : Type 0) (m : Task A) : Type 0 where
  at : (s : Site) (a : A) → s.job ≡ j → given (m s) ≡ some a → P

module _ {j : Job} {P : Type 0} where
  Needs-bind :
      {A B : Type 0} (m : Task A) (k : A → Task B)
      → Frames j m
      → ((a : A) → Needs j P (k a))
      → Needs j P (m >>= k)
  unfolding ◌>>=◌
  Needs-bind {A} {B} m k fm nk = record { at = λ s b e. after b (m s) (fm.at s e) }
    where
      after : (b : B) (r : Run A) → Ended (λ i. i ≡ j) r → given (and_then r k) ≡ some b → P
      after b (ok a s) h g = (nk a).at s b h g
      after b (failed e s) h g = absurd (ground arith)
      after b (panicked s) h g = absurd (ground arith)

  -- The first of two tasks needs it.
  Needs-first : {A B : Type 0} (m : Task A) (n : Task B) → Needs j P m → Needs j P (m >> n)
  unfolding ◌>>◌
  Needs-first {A} {B} m n nm = record { at = λ s b e. after b (m s) (λ a. nm.at s a e) }
    where
      after :
          (b : B) (r : Run A)
          → ((a : A) → given r ≡ some a → P)
          → given (and_then r (λ _. n)) ≡ some b
          → P
      after b (ok a s) h g = h a refl
      after b (failed e s) h g = absurd (ground arith)
      after b (panicked s) h g = absurd (ground arith)

  Needs-then :
      {A B : Type 0} (m : Task A) (n : Task B) → Frames j m → Needs j P n → Needs j P (m >> n)
  unfolding ◌>>◌ ◌>>=◌
  Needs-then m n fm nn = record { at = (Needs-bind m (λ _. n) fm (λ _. nn)).at }

  Needs-get_job : {B : Type 0} (k : Job → Task B) → Needs j P (k j) → Needs j P (get_job >>= k)
  unfolding get_job ◌>>=◌
  Needs-get_job k nk = record {
    at = λ s b e g. nk.at s b e (subst (λ i. given (k i s) ≡ some b) e g);
  }

-- The image at the path is small, by what `vipsheader` printed for it.
abbrev pub Measured : (List Text → Option Text) → (Text → ℕ × ℕ) → Text → Type 0
Measured run fscan i =
    (width : ℕ) × (height : ℕ) × IsSmall width height
    × (((out : Text) × (run (header_command i) ≡ some out)
          × (parse_vips_dimensions run fscan i out ≡ (width, height)))
        ⊎ (read_vips_dimensions_separately run fscan i ≡ some (width, height)))

-- The converters that check the sides of their input; the compressor, once it has cropped it.
pub data Opening : Type 1 where
  compress : Opening
  reach_size : TargetSize.Tools → Integer → Opening
  favicon : Opening
  convert : Glyphs → (Text → ℕ) → (ℕ → ℕ → Text) → Opening
  recognize : Text → Opening

module _ (w : World) (run : List Text → Option Text) (fscan : Text → ℕ × ℕ)
    (steady : (log : Log) (c : Command) → w.output log c ≡ run c.args) where
  abbrev pub open_image : Opening → Task (Unit {0})
  open_image compress = compress_image_quality w fscan
  open_image (reach_size tools target) = search_target w tools fscan target
  open_image favicon = generate_favicon w fscan
  open_image (convert glyphs scan_int print_scale) =
      convert_image w fscan glyphs scan_int print_scale
  open_image (recognize tessdata_dir) = convert_ocr w fscan tessdata_dir

  -- The input is an image, not a PDF for text recognition.
  abbrev pub is_image : Opening → Text → Bool
  is_image (recognize tessdata_dir) i =
      not (eq_text (to_lower w.unicode_lower (ext i)) (codes ".pdf"))
  is_image o i = true

  passed-Measured :
      (i : Text) → passes (validate_image_dimensions run fscan i) ≡ some tt → Measured run fscan i
  passed-Measured i = after (validate_image_dimensions run fscan i) refl
    where
      after :
          (r : Dimensions)
          → validate_image_dimensions run fscan i ≡ r
          → passes r ≡ some tt
          → Measured run fscan i
      after (rejected e) h g = absurd (ground arith)
      after (measured width height) h g =
          let (small, printed) = passed-IsSmall run fscan i width height h in
          (width, height, small, printed)

  Needs-guard :
      {j : Job} (d : Dirs) (i : Text)
      → Needs j (Measured run fscan i) (guard_dimensions w fscan d (codes "image.cfg") i)
  Needs-guard d i = record {
    at = λ s a e g.
        passed-Measured i
          (sym (guard_dimensions-exact w run fscan steady d (codes "image.cfg") i s) ∙ g);
  }

  Frames-copy_policy : {j : Job} (job_dir : Text) → Frames j (copy_policy w job_dir)
  unfolding copy_policy
  Frames-copy_policy job_dir = Ends-then _ _ (Frames-make_dir w _ _) (Frames-copy_file w _ _ _)

  Needs-compress : (j : Job) → Needs j (Measured run fscan j.input_path) (open_image compress)
  unfolding compress_image_quality
  Needs-compress j =
      Needs-get_job _
        (Needs-bind _ _ (Frames-prepare_job_dir w) (λ d. Needs-first _ _ (Needs-guard d _)))

  Needs-reach_size :
      (tools : TargetSize.Tools) (target : Integer) (j : Job)
      → Needs j (Measured run fscan j.input_path) (open_image (reach_size tools target))
  unfolding search_target
  Needs-reach_size tools target j =
      Needs-bind _ _ (Frames-prepare_job_dir w)
        (λ d. Needs-get_job _ (Needs-first _ _ (Needs-guard d _)))

  Needs-favicon : (j : Job) → Needs j (Measured run fscan j.input_path) (open_image favicon)
  unfolding generate_favicon
  Needs-favicon j =
      Needs-bind _ _ (Frames-prepare_job_dir w)
        (λ d. Needs-get_job _ (Needs-first _ _ (Needs-guard d _)))

  Needs-convert :
      (glyphs : Glyphs) (scan_int : Text → ℕ) (print_scale : ℕ → ℕ → Text) (j : Job)
      → Needs j (Measured run fscan j.input_path) (open_image (convert glyphs scan_int print_scale))
  unfolding convert_image
  Needs-convert glyphs scan_int print_scale j = Needs-get_job _ (
      Needs-bind _ _ (Frames-need _ _) (λ format. Needs-then _ _ (Frames-check _ _) (
        Needs-bind _ _ (Frames-prepare_job_dir w)
          (λ d. Needs-then _ _ (Frames-copy_policy _) (Needs-first _ _ (Needs-guard d _))))))

  Needs-else :
      {j : Job} {P : Type 0} (b : Bool) (m n : Task (Unit {0}))
      → not b ≡ true
      → Needs j P n
      → Needs j P (if b then m else n)
  Needs-else true m n h nn = absurd (ground arith)
  Needs-else false m n h nn = nn

  Needs-recognize :
      (tessdata_dir : Text) (j : Job)
      → is_image (recognize tessdata_dir) j.input_path ≡ true
      → Needs j (Measured run fscan j.input_path) (open_image (recognize tessdata_dir))
  unfolding convert_ocr
  Needs-recognize tessdata_dir j image = Needs-get_job _ (
      Needs-bind _ _ (Frames-prepare_job_dir w)
        (λ d. Needs-first _ _ (Needs-else _ _ _ image (Needs-guard d _))))

  -- If the conversion of an image, its compression by a quality or to a size, the making of icons, or text
  -- recognition of an input that is not named as a PDF ends well, and the tool's answers do not depend on
  -- what was run before: the job's input has sides of 1 to 16384 pixels and at most 100 million pixels,
  -- by what `vipsheader` printed for both sides at once, or else for each side.
  pub open_image-IsSmall :
      (o : Opening) (s : Site)
      → is_image o s.job.input_path ≡ true
      → given (open_image o s) ≡ some tt
      → Measured run fscan s.job.input_path
  open_image-IsSmall compress s image g = (Needs-compress s.job).at s tt refl g
  open_image-IsSmall (reach_size tools target) s image g =
      (Needs-reach_size tools target s.job).at s tt refl g
  open_image-IsSmall favicon s image g = (Needs-favicon s.job).at s tt refl g
  open_image-IsSmall (convert glyphs scan_int print_scale) s image g =
      (Needs-convert glyphs scan_int print_scale s.job).at s tt refl g
  open_image-IsSmall (recognize tessdata_dir) s image g =
      (Needs-recognize tessdata_dir s.job image).at s tt refl g
