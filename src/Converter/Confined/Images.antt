-- ===== src/Converter/Confined/Images.antt =====
-- The commands of the converters of images and of the generator of QR codes (internal/converter).
use filemagic_backend.Prelude.{
  ℕ, ◌≡◌, refl, if_some, true, Bool, List, Option, none, some, arith, Text, eq_text, has_prefix,
}
use filemagic_backend.Float.{Integer}
use filemagic_backend.Validator.Names.{one_of}
use filemagic_backend.TargetSize
use filemagic_backend.Converter.{World, Dirs}
use filemagic_backend.Converter.Crop.{Crop, not_requested, bad_size, bad_offset, area, crop_args}
use filemagic_backend.Converter.Watermark.{Glyphs, draw_watermark, apply_watermark}
use filemagic_backend.Converter.Image.{
  build_save_cmd, crop_by, apply_crop, rotate_by, apply_rotation, convert_by_png, resize_exactly,
  convert_with_resize, save_image, convert_image,
}
use filemagic_backend.Converter.ImageCompress.{
  compress_args, crop_input_by, crop_input, keep_smaller, compress_image_quality, compress_image,
  store_verdict, search_target,
}
use filemagic_backend.Converter.QrCode.{
  QrLibrary, CorrectionLevel, Drawing, draw_code, generate_qr_code,
}
use filemagic_backend.Converter.Keeps.{
  is_installed, is_confined, is_confined_of, Keeps, keeps_rules, LogConfined, Same,
}
use filemagic_backend.Converter.Confined.Tools.{Keeps-guard_dimensions}
use filemagic_backend.Converter.Confined.Files.{Keeps-copy_policy}

build_save_cmd-installed : (i o format : Text) → is_installed (build_save_cmd i o format) ≡ true
unfolding build_save_cmd is_installed has_prefix
build_save_cmd-installed i o format = ground arith

module _ (w : World) where
  Keeps-crop_by : (d : Dirs) (i : Text) (c : Crop) → Keeps (crop_by w d i c)
  unfolding crop_by crop_args is_confined is_installed has_prefix one_of eq_text
  Keeps-crop_by d i not_requested = search keeps_rules
  Keeps-crop_by d i bad_size = search keeps_rules
  Keeps-crop_by d i bad_offset = search keeps_rules
  Keeps-crop_by d i (area x y width height) = search keeps_rules

  Keeps-apply_crop : (d : Dirs) (i : Text) → Keeps (apply_crop w d i)
  unfolding apply_crop is_confined is_installed has_prefix one_of eq_text
  Keeps-apply_crop d i = search (keeps_rules, Keeps-crop_by)

  Keeps-rotate_by : (d : Dirs) (i : Text) (o : Option (Option Text)) → Keeps (rotate_by w d i o)
  unfolding rotate_by is_confined is_installed has_prefix one_of eq_text
  Keeps-rotate_by d i none = search keeps_rules
  Keeps-rotate_by d i (some none) = search keeps_rules
  Keeps-rotate_by d i (some (some angle)) = search keeps_rules

  Keeps-apply_rotation : (d : Dirs) (i : Text) → Keeps (apply_rotation w d i)
  unfolding apply_rotation is_confined is_installed has_prefix one_of eq_text
  Keeps-apply_rotation d i = search (keeps_rules, Keeps-rotate_by)

  Keeps-draw_watermark : (g : Glyphs) (d : Dirs) (i t : Text) → Keeps (draw_watermark w g d i t)
  unfolding draw_watermark is_confined is_installed has_prefix one_of eq_text
  Keeps-draw_watermark g d i t = search keeps_rules depth 20

  Keeps-apply_watermark : (g : Glyphs) (d : Dirs) (i : Text) → Keeps (apply_watermark w g d i)
  unfolding apply_watermark is_confined is_installed has_prefix one_of eq_text
  Keeps-apply_watermark g d i = search (keeps_rules, Keeps-draw_watermark)

  Keeps-convert_by_png :
      (d : Dirs) (words i o : Text) (args : List Text) → Keeps (convert_by_png w d words i o args)
  unfolding convert_by_png is_installed has_prefix one_of eq_text
  Keeps-convert_by_png d words i o args =
      search (keeps_rules, is_confined_of, build_save_cmd-installed) depth 16

  Keeps-resize_exactly :
      (scan_int : Text → ℕ) (print_scale : ℕ → ℕ → Text) (d : Dirs) (i o format : Text) (x y : ℕ)
      → Keeps (resize_exactly w scan_int print_scale d i o format x y)
  unfolding resize_exactly is_installed has_prefix one_of eq_text
  Keeps-resize_exactly scan_int print_scale d i o format x y =
      search (keeps_rules, is_confined_of, build_save_cmd-installed) depth 24

  Keeps-convert_with_resize :
      (scan_int : Text → ℕ) (print_scale : ℕ → ℕ → Text) (d : Dirs) (i o format : Text)
      (x y : Integer)
      → Keeps (convert_with_resize w scan_int print_scale d i o format x y)
  unfolding convert_with_resize is_confined is_installed has_prefix one_of eq_text
  Keeps-convert_with_resize scan_int print_scale d i o format x y =
      search (keeps_rules, Keeps-resize_exactly) depth 16

  Keeps-save_image :
      (scan_int : Text → ℕ) (print_scale : ℕ → ℕ → Text) (d : Dirs) (i format : Text)
      → Keeps (save_image w scan_int print_scale d i format)
  unfolding save_image one_of eq_text
  Keeps-save_image scan_int print_scale d i format =
      search
        (
          keeps_rules, is_confined_of, build_save_cmd-installed, Keeps-convert_by_png,
          Keeps-convert_with_resize,
        )
        depth 16

  pub Keeps-convert_image :
      (fscan : Text → ℕ × ℕ) (g : Glyphs) (scan_int : Text → ℕ) (print_scale : ℕ → ℕ → Text)
      → Keeps (convert_image w fscan g scan_int print_scale)
  unfolding convert_image
  Keeps-convert_image fscan g scan_int print_scale =
      search
        (
          keeps_rules, Keeps-copy_policy, Keeps-guard_dimensions, Keeps-apply_crop,
          Keeps-apply_rotation, Keeps-apply_watermark, Keeps-save_image,
        )
        depth 24

  Keeps-crop_input_by : (c : Crop) → Keeps (crop_input_by w c)
  unfolding crop_input_by crop_args is_confined is_installed has_prefix one_of eq_text
  Keeps-crop_input_by not_requested = search keeps_rules
  Keeps-crop_input_by bad_size = search keeps_rules
  Keeps-crop_input_by bad_offset = search keeps_rules
  Keeps-crop_input_by (area x y width height) = search keeps_rules depth 16

  Keeps-crop_input : Keeps (crop_input w)
  unfolding crop_input
  Keeps-crop_input = search (keeps_rules, Keeps-crop_input_by)

  Keeps-keep_smaller : (i o : Text) (x y : Integer) → Keeps (keep_smaller w i o x y)
  unfolding keep_smaller
  Keeps-keep_smaller i o x y = search keeps_rules depth 12

  compress_args-installed :
      (jpeg : Bool) (i o : Text) (q : ℕ) (x y : Integer)
      → is_installed (compress_args w jpeg i o q x y) ≡ true
  unfolding compress_args is_installed has_prefix
  compress_args-installed jpeg i o q x y = ground arith

  Keeps-compress_image_quality : (fscan : Text → ℕ × ℕ) → Keeps (compress_image_quality w fscan)
  unfolding compress_image_quality one_of eq_text
  Keeps-compress_image_quality fscan =
      search
        (
          keeps_rules, is_confined_of, compress_args-installed, Keeps-guard_dimensions,
          Keeps-keep_smaller,
        )
        depth 24

  Keeps-store_verdict :
      (o : Text) (end : TargetSize.Workshop × TargetSize.Verdict) → Keeps (store_verdict w o end)
  unfolding store_verdict
  Keeps-store_verdict o (end, TargetSize.failed f) = search keeps_rules
  Keeps-store_verdict o (end, TargetSize.stored size) = search keeps_rules
  Keeps-store_verdict o (end, TargetSize.unset) = search keeps_rules

  Keeps-search_target :
      (tools : TargetSize.Tools) (fscan : Text → ℕ × ℕ) (target : Integer)
      → Keeps (search_target w tools fscan target)
  unfolding search_target
  Keeps-search_target tools fscan target =
      search (keeps_rules, Keeps-guard_dimensions, Keeps-store_verdict) depth 20

  pub Keeps-compress_image :
      (fscan : Text → ℕ × ℕ) (tools : TargetSize.Tools)
      → Keeps (compress_image w fscan (search_target w tools fscan))
  unfolding compress_image
  Keeps-compress_image fscan tools =
      search (keeps_rules, Keeps-crop_input, Keeps-compress_image_quality, Keeps-search_target)
        depth 16

  Keeps-draw_code :
      (lib : QrLibrary) (t : Text) (level : CorrectionLevel) (path : Text) (drawing : Drawing)
      → Keeps (draw_code w lib t level path drawing)
  unfolding draw_code
  Keeps-draw_code lib t level path drawing = record {
    at = λ s h.
        if_some (LogConfined (Unit {0})) (lib.draw s.log t level path drawing) _ _ h (λ e p. h);
    same = λ s.
        if_some (Same (Unit {0}) s) (lib.draw s.log t level path drawing) _ _ refl (λ e p. refl);
  }

  pub Keeps-generate_qr_code : (lib : QrLibrary) → Keeps (generate_qr_code w lib)
  unfolding generate_qr_code
  Keeps-generate_qr_code lib = search (keeps_rules, Keeps-draw_code) depth 24
