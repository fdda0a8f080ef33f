-- ===== src/Converter/Sizes.antt =====
-- The sizes that the compressors give a job (internal/converter: pdf_compress.go, image_compress.go).
use filemagic_backend.Prelude.{
  ℕ, ◌<◌, ◌≤◌, ◌≡◌, refl, Bool, true, false, ◌&&◌, List, arith, ltb, leb, Text, codes,
}
use filemagic_backend.Float.{is_zero}
use filemagic_backend.Queue.{Job}
use filemagic_backend.ImageDimensions.{Dimensions, rejected, measured}
use filemagic_backend.Converter.{World, Site, Dirs}
use filemagic_backend.Converter.Ocr.{header, guard_dimensions, read_separately, accept_sides}
use filemagic_backend.Converter.ImageCompress.{side_option, keep_smaller, compress_image_quality}
use filemagic_backend.Converter.Ends.{
  Ends, Ended, Frames, NotLarger, known_size, Frames-pure, Frames-fail, Ends-if, Ends-bind,
  Frames-need, Frames-check, Ends-then, Ends-get_job, Frames-run_tool, Frames-capture,
  Frames-file_size, Frames-prepare_job_dir, end-NotLarger,
}

module _ (w : World) where
  module _ (fscan : Text → ℕ × ℕ) {j : Job} where
    Frames-header :
        (d : Dirs) (profile : Text) (args : List Text) → Frames j (header w fscan d profile args)
    Frames-header d profile args = Ends-bind _ _ (Frames-capture w _) (λ out. Frames-need out _)

    Frames-read_separately :
        (d : Dirs) (profile i : Text) → Frames j (read_separately w fscan d profile i)
    unfolding read_separately
    Frames-read_separately d profile i =
        Ends-bind _ _ (Frames-header d profile _)
          (λ a. Ends-bind _ _ (Frames-header d profile _) (λ b. Frames-pure _))

    Frames-accept_sides : (r : Dimensions) → Frames j (accept_sides w fscan r)
    unfolding accept_sides
    Frames-accept_sides (rejected e) = Frames-fail _
    Frames-accept_sides (measured x y) = Frames-pure tt

    Frames-guard_dimensions :
        (d : Dirs) (profile i : Text) → Frames j (guard_dimensions w fscan d profile i)
    unfolding guard_dimensions
    Frames-guard_dimensions d profile i =
        search
          (
            Ends-bind, Ends-then, Ends-if, Frames-pure, Frames-header, Frames-read_separately,
            Frames-check, Frames-accept_sides,
          )
          depth 12

  compress_image_quality-Ends :
      (fscan : Text → ℕ × ℕ) (j : Job)
      → is_zero (side_option w (codes "resizeWidth") (codes "maxWidth") j.options) ≡ true
      → is_zero (side_option w (codes "resizeHeight") (codes "maxHeight") j.options) ≡ true
      → Ends j (NotLarger j) (compress_image_quality w fscan)
  unfolding compress_image_quality keep_smaller
  compress_image_quality-Ends fscan j e1 e2 = Ends-get_job _ (
      Ends-bind _ _ (Frames-prepare_job_dir w) (λ d.
        Ends-then _ _ (Frames-guard_dimensions fscan d _ _) (
          Ends-then _ _ (Frames-run_tool w d _ _ _) (
            Ends-get_job _ (
              Ends-bind _ _ (Frames-file_size w _ _) (λ size.
                end-NotLarger w _ _ _ _ size (λ e known. larger _ _ _ _ e1 e2 e known)))))))
    where
      larger :
          (a b : Bool) (input size : ℕ)
          → a ≡ true
          → b ≡ true
          → (a && b && leb input size && ltb 0 input) ≡ false
          → 0 < input
          → size ≤ input
      larger a b input size e1 e2 e known = ground arith

  -- If the size of an image is known, neither a width nor a height is asked for, and its compression by a
  -- quality ends well, the job's output is not larger than its input.
  pub compress_image_quality_shrinks :
      (fscan : Text → ℕ × ℕ) (s : Site)
      → 0 < s.job.input_size
      → is_zero (side_option w (codes "resizeWidth") (codes "maxWidth") s.job.options) ≡ true
      → is_zero (side_option w (codes "resizeHeight") (codes "maxHeight") s.job.options) ≡ true
      → Ended (λ j. j.output_size ≤ s.job.input_size) (compress_image_quality w fscan s)
  compress_image_quality_shrinks fscan s known e1 e2 =
      known_size s.job (compress_image_quality w fscan s) known
        ((compress_image_quality-Ends fscan s.job e1 e2).at s refl)
