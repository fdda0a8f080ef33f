-- ===== src/Converter/Video/Rates.antt =====
-- The bitrate of a film that is compressed to a size (compressToTargetSize in
-- internal/converter/video_compress.go).
use native.Mathlib.Nat.{mod-lt, mul-le-mul_right}
use native.Mathlib.Omega.{div_any}
use filemagic_backend.Prelude.{
  Bool-cases, inl, inr, not, ◌&&◌, ℕ, zero, suc, ◌||◌, ◌+◌, ◌*◌, ◌/◌, ◌%◌, ◌<◌, ◌≤◌, ◌∙◌, ◌≡◌, refl,
  ap, sym, Bool, true, false, Option, none, some, arith, ltb, leb, ◌==◌, if◌then◌else◌, Text, codes,
  if_some, if_each,
}
use filemagic_backend.Gate.{trim_space}
use filemagic_backend.Float.{
  Number, Integer, pos, one_unit, whole, value, less, is_nan, is_below, is_above, to_int, signed,
}
use filemagic_backend.Converter.{
  World, Site, Run, ok, failed, panicked, Task, ◌>>◌, ◌>>=◌, and_then, Dirs, run_wrapped, capture,
  need, check, pure, panic, int_of, Command,
}
use filemagic_backend.Converter.Media.{duration_of, video_bitrate}
use filemagic_backend.Converter.Video.{encoding_pass, encode, encode_at, compress_to_size}

abbrev pub is_panicked : {A : Type 0} → Run A → Bool
is_panicked (ok a s) = false
is_panicked (failed e s) = false
is_panicked (panicked s) = true

abbrev pub is_none : {A : Type 0} → Option A → Bool
is_none none = true
is_none (some a) = false

abbrev EndsQuietly : (A : Type 0) → Run A → Type 0
EndsQuietly A r = is_panicked r ≡ false

-- A conversion that does not panic.
abbrev Quiet : {A : Type 0} → Task A → Type 0
Quiet m = (s : Site) → is_panicked (m s) ≡ false

then-Quiet : {A B : Type 0} (m : Task A) (n : Task B) → Quiet m → Quiet n → Quiet (m >> n)
unfolding ◌>>◌
then-Quiet {A} {B} m n qm qn s = after (m s) (qm s)
  where
    after : (r : Run A) → is_panicked r ≡ false → is_panicked (and_then r (λ _. n)) ≡ false
    after (ok a s1) h = qn s1
    after (failed e s1) h = refl
    after (panicked s1) h = h

divided : (q r u k : ℕ) → k * q + r ≡ u → r < k → (q == 0) ≡ ltb u k
divided zero r u k e h = ground arith
divided (suc q) r u k e h = ground arith

at_most_of : (c q : ℕ) → leb c q ≡ true → c ≤ q
at_most_of c q h = ground arith

-- The quotient is below a bound.
divided_below : (q r u k c : ℕ) → k * q + r ≡ u → u < c * k → q < c
divided_below q r u k c e h = elim (Bool-cases (leb c q)) [
  | inl over ↦ absurd (omega (arith, mul-le-mul_right k (at_most_of c q over)))
  | inr under ↦ ground arith
]

quotient_is_zero : (u k : ℕ) → 0 < k → (u / k == 0) ≡ ltb u k
quotient_is_zero u k h = divided (u / k) (u % k) u k (div_any u k) (mod-lt u h)

-- Whole seconds are none exactly below one second.
video_bitrate-none : (target : ℕ) (n : ℕ) → is_none (video_bitrate target (pos n)) ≡ (n == 0)
unfolding video_bitrate
video_bitrate-none target zero = refl
video_bitrate-none target (suc n) = ground arith

-- A number above zero and below a bound, in units of which `k` make one.
positive_part :
    (x : Number) (k c : ℕ)
    → less (record { negative = false; units = 0 }) x ≡ true
    → less x (record { negative = false; units = c * k }) ≡ true
    → (x.negative ≡ false) × (x.units < c * k)
unfolding less
positive_part x k c up down = ground arith

is_below_positive :
    (x : Number) (k : ℕ)
    → less (record { negative = false; units = 0 }) x ≡ true
    → less x (record { negative = false; units = k }) ≡ ltb x.units k
unfolding less
is_below_positive x k up = ground arith

signed_positive : (negative : Bool) (n : ℕ) → negative ≡ false → signed negative n ≡ pos n
unfolding signed
signed_positive true n e = absurd (ground arith)
signed_positive false n e = refl

comparable : (nan b : Bool) → (not nan && b) ≡ true → (nan ≡ false) × (b ≡ true)
comparable nan b e = ground arith

chosen_part :
    (nan negative : Bool) (n : ℕ) (o : Integer)
    → nan ≡ false
    → negative ≡ false
    → n < 9223372036854775808
    → (if nan || leb 9223372036854775808 n then o else signed negative n) ≡ pos n
chosen_part true negative n o e1 e2 h = absurd (ground arith)
chosen_part false negative n o e1 e2 h =
    if_each (λ i. i ≡ pos n) (leb 9223372036854775808 n) o (signed negative n)
      (λ e. absurd (omega (arith, at_most_of 9223372036854775808 n e)))
      (λ e. signed_positive negative n e2)

module _ (v : ℕ) (up : is_above v (whole 0) ≡ true)
    (down : is_below v (whole 9223372036854775808) ≡ true) where
  above_zero : (is_nan v ≡ false) × (less (whole 0) (value v) ≡ true)
  unfolding is_above
  above_zero = comparable (is_nan v) _ up

  below_bound : less (value v) (whole 9223372036854775808) ≡ true
  unfolding is_below
  below_bound = (comparable (is_nan v) _ down).1

  whole_part : (other : ℕ → Integer) → to_int other v ≡ pos ((value v).units / one_unit)
  unfolding to_int
  whole_part other =
      let (positive, below) =
        positive_part (value v) one_unit 9223372036854775808 above_zero.1 below_bound in
      let u = (value v).units in
      chosen_part (is_nan v) (value v).negative (u / one_unit) (other v) above_zero.0 positive (
        divided_below (u / one_unit) (u % one_unit) u one_unit 9223372036854775808
          (div_any u one_unit) below)

  below_one : is_below v (whole 1) ≡ ltb (value v).units one_unit
  unfolding is_below
  below_one = rw above_zero.0 (is_below_positive (value v) one_unit above_zero.1)

module _ (w : World) where
  run_wrapped-Quiet : (words : Text) (c : Command) → Quiet (run_wrapped w words c)
  unfolding run_wrapped
  run_wrapped-Quiet words c s =
      if_some (EndsQuietly (Unit {0})) (w.run s.log c) _ _ refl (λ e p. refl)

  module _ (parse_float : Text → Option ℕ) (d : Dirs) (i o : Text) where
    encode-Quiet : (rate : ℕ) → Quiet (encode w parse_float d i o rate)
    unfolding encode encoding_pass
    encode-Quiet rate = then-Quiet _ _ (run_wrapped-Quiet _ _) (run_wrapped-Quiet _ _)

    encode_at-panics :
        (r : Option ℕ) (s : Site) → is_panicked (encode_at w parse_float d i o r s) ≡ is_none r
    unfolding encode_at panic
    encode_at-panics none s = refl
    encode_at-panics (some rate) s = encode-Quiet rate s

    -- The duration that the probe prints is above zero, and an int64 holds it: the compression to a size
    -- panics exactly if the film is shorter than a second.
    pub compress_to_size-panics :
        (target v : ℕ) (s : Site) (out : Text)
        → w.output s.log (record {
          args = duration_of i;
          job_dir = d.job_dir;
          profile = codes "ffmpeg.cfg";
          seconds = 30;
        })
          ≡ some out
        → parse_float (trim_space out) ≡ some v
        → is_above v (whole 0) ≡ true
        → is_below v (whole 9223372036854775808) ≡ true
        → is_panicked (compress_to_size w parse_float d i o target s) ≡ is_below v (whole 1)
    unfolding compress_to_size capture need check pure ◌>>=◌ ◌>>◌
    compress_to_size-panics target v s out e1 e2 up down =
        rw (e1, e2, up, (above_zero v up down).0)
          (encode_at-panics (video_bitrate target (int_of w v)) _
            ∙ ap (λ x. is_none (video_bitrate target x)) (whole_part v up down w.int_of_other)
            ∙ video_bitrate-none target ((value v).units / one_unit)
            ∙ quotient_is_zero (value v).units one_unit (omega arith)
            ∙ sym (below_one v up down))
