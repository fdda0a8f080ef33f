-- ===== src/Converter/Media/Ranges.antt =====
-- The options of a GIF, brought into their ranges (internal/converter/video_to_gif.go).
use filemagic_backend.Prelude.{
  ℕ, ◌≡◌, refl, Bool, false, not, ◌&&◌, ◌||◌, codes, arith, if◌then◌else◌, if_bad,
}
use filemagic_backend.Json.{Fields}
use filemagic_backend.Float.{whole, fraction, value, less, is_nan, exponent_of, is_below, is_above}
use filemagic_backend.Converter.Media.{
  GifOptions, gif_options, number_option, start_in_range, duration_in_range, raised_fps,
  fps_in_range, raised_width, width_in_range, speed_in_range, one_bits, five_bits, ten_bits,
  fifteen_bits, width_320_bits, width_640_bits,
}

-- Neither below the least value nor above the greatest.
pub record InRange (o : GifOptions) : Type 0 where
  pub start_time : is_below o.start_time (whole 0) ≡ false
  pub duration : is_above o.duration (whole 15) ≡ false
  pub fps_low : is_below o.fps (whole 5) ≡ false
  pub fps_high : is_above o.fps (whole 15) ≡ false
  pub width_low : is_below o.max_width (whole 160) ≡ false
  pub width_high : is_above o.max_width (whole 640) ≡ false
  pub speed_low : is_below o.speed (fraction 1 2) ≡ false
  pub speed_high : is_above o.speed (whole 3) ≡ false

zero_in : is_below 0 (whole 0) ≡ false
unfolding is_above is_below is_nan less value exponent_of
zero_in = refl

five_in : is_above five_bits (whole 15) ≡ false
unfolding is_above is_below is_nan less value exponent_of
five_in = refl

ten_in : is_below ten_bits (whole 5) ≡ false
unfolding is_above is_below is_nan less value exponent_of
ten_in = refl

fifteen_in : (is_below fifteen_bits (whole 5) ≡ false) × (is_above fifteen_bits (whole 15) ≡ false)
unfolding is_above is_below is_nan less value exponent_of
fifteen_in = (refl, refl)

width_320_in : is_below width_320_bits (whole 160) ≡ false
unfolding is_above is_below is_nan less value exponent_of
width_320_in = refl

width_640_in :
    (is_below width_640_bits (whole 160) ≡ false) × (is_above width_640_bits (whole 640) ≡ false)
unfolding is_above is_below is_nan less value exponent_of
width_640_in = (refl, refl)

one_in : (is_below one_bits (fraction 1 2) ≡ false) × (is_above one_bits (whole 3) ≡ false)
unfolding is_above is_below is_nan less value exponent_of
one_in = (refl, refl)

left_false : (a b : Bool) → (a || b) ≡ false → a ≡ false
left_false a b e = ground arith

right_false : (a b : Bool) → (a || b) ≡ false → b ≡ false
right_false a b e = ground arith

-- A test that fails of a constant fails of the value that the constant stands in for, if it does so where
-- the value is kept.
module _ (test : ℕ → Bool) (b : Bool) (constant v : ℕ) where
  kept :
      test constant ≡ false
      → (b ≡ false → test v ≡ false)
      → test (if b then constant else v) ≡ false
  kept = if_bad (λ x. test x ≡ false) b constant v

module _ (v : ℕ) where
  start_lem : is_below (start_in_range v) (whole 0) ≡ false
  start_lem = kept (λ x. is_below x (whole 0)) (is_below v (whole 0)) 0 v zero_in (λ e. e)

  duration_lem : is_above (duration_in_range v) (whole 15) ≡ false
  duration_lem =
      kept (λ x. is_above x (whole 15)) _ five_bits v five_in
        (λ e. right_false (not (is_nan v) && not (is_above v (whole 0))) (is_above v (whole 15)) e)

  raised_fps_lem : is_below (raised_fps v) (whole 5) ≡ false
  raised_fps_lem =
      kept (λ x. is_below x (whole 5)) (is_below v (whole 5)) ten_bits v ten_in (λ e. e)

  fps_lem :
      (is_below (fps_in_range v) (whole 5) ≡ false) × (is_above (fps_in_range v) (whole 15) ≡ false)
  fps_lem = (
    kept (λ x. is_below x (whole 5)) (is_above (raised_fps v) (whole 15)) fifteen_bits
        (raised_fps v) fifteen_in.0 (λ e. raised_fps_lem),
    kept (λ x. is_above x (whole 15)) (is_above (raised_fps v) (whole 15)) fifteen_bits
        (raised_fps v) fifteen_in.1 (λ e. e),
  )

  raised_width_lem : is_below (raised_width v) (whole 160) ≡ false
  raised_width_lem =
      kept (λ x. is_below x (whole 160)) (is_below v (whole 160)) width_320_bits v width_320_in
        (λ e. e)

  width_lem :
      (is_below (width_in_range v) (whole 160) ≡ false)
      × (is_above (width_in_range v) (whole 640) ≡ false)
  width_lem = (
    kept (λ x. is_below x (whole 160)) (is_above (raised_width v) (whole 640)) width_640_bits
        (raised_width v) width_640_in.0 (λ e. raised_width_lem),
    kept (λ x. is_above x (whole 640)) (is_above (raised_width v) (whole 640)) width_640_bits
        (raised_width v) width_640_in.1 (λ e. e),
  )

  speed_lem :
      (is_below (speed_in_range v) (fraction 1 2) ≡ false)
      × (is_above (speed_in_range v) (whole 3) ≡ false)
  speed_lem = (
    kept (λ x. is_below x (fraction 1 2)) _ one_bits v one_in.0
        (left_false (is_below v (fraction 1 2)) (is_above v (whole 3))),
    kept (λ x. is_above x (whole 3)) _ one_bits v one_in.1
        (right_false (is_below v (fraction 1 2)) (is_above v (whole 3))),
  )

-- Whatever the options say, the start is not negative, the GIF lasts at most 15 seconds, it has 5 to 15
-- frames in a second and a width of 160 to 640, and its speed is 0.25 to 3.
pub gif_options-InRange : (options : Fields) → InRange (gif_options options)
unfolding gif_options
gif_options-InRange options = record {
  start_time = start_lem (number_option (codes "startTime") options);
  duration = duration_lem (number_option (codes "duration") options);
  fps_low = (fps_lem (number_option (codes "fps") options)).0;
  fps_high = (fps_lem (number_option (codes "fps") options)).1;
  width_low = (width_lem (number_option (codes "maxWidth") options)).0;
  width_high = (width_lem (number_option (codes "maxWidth") options)).1;
  speed_low = (speed_lem (number_option (codes "speed") options)).0;
  speed_high = (speed_lem (number_option (codes "speed") options)).1;
}
