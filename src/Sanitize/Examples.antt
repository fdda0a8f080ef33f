-- ===== src/Sanitize/Examples.antt =====
-- A hostile name, and the theorem at it.
use filemagic_backend.Prelude.{ℕ, zero, suc, ◌≡◌, refl, ◌∷◌, Text, codes, eq_text}
use filemagic_backend.Paths.{base, last_slash}
use filemagic_backend.Validator.Names.{one_of}
use filemagic_backend.Sanitize.{
  strip_nul, is_among, is_unsafe, replace_rune, trim_left, trim_right, before_dot, rune_width,
  byte_length, take_bytes, truncate_name, upper_rune, is_reserved, escape_device, sanitize_filename,
}
use filemagic_backend.Sanitize.Safe.{IsSafe, sanitize_filename-IsSafe}

abbrev unchanged : ℕ → ℕ
unchanged c = c

sanitize_filename-IsSafe_example : IsSafe unchanged (codes "_con.t_xt")
unfolding base last_slash one_of strip_nul is_among is_unsafe replace_rune trim_left trim_right
    before_dot rune_width byte_length take_bytes truncate_name upper_rune is_reserved escape_device
    sanitize_filename eq_text
sanitize_filename-IsSafe_example = sanitize_filename-IsSafe unchanged (codes "../../ .con.t*xt. ")

-- A name of more than 255 bytes whose 255th is a dot: the cut leaves the dot at the end.
abbrev letters : ℕ → Text → Text
letters zero s = s
letters (suc n) s = b'a' ∷ letters n s

cut_at_dot : sanitize_filename unchanged (letters 254 (codes ".ab")) ≡ letters 254 (codes ".")
unfolding base last_slash one_of strip_nul is_among is_unsafe replace_rune trim_left trim_right
    before_dot rune_width byte_length take_bytes truncate_name upper_rune is_reserved escape_device
    sanitize_filename eq_text
cut_at_dot = refl
