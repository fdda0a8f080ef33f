-- ===== src/Sanitize.antt =====
-- The file names under which uploads are stored (`SanitizeFilename` in internal/converter/archive.go).
-- A name is the list of its runes, as `range` and `strings.Map` read it: a byte that is no UTF-8 is
-- U+FFFD. What `strings.ToUpper` does beyond ASCII is Unicode's table, the parameter `unicode_upper`.
pub mod Plain
pub mod Named
pub mod Safe
mod Examples
use filemagic_backend.Prelude.{
  ℕ, ◌+◌, ◌-◌, Bool, true, false, ◌&&◌, ◌||◌, List, [], ◌∷◌, ◌++◌, map, ltb, leb, ◌==◌,
  if◌then◌else◌, Text, codes, eq_text, non_empty,
}
use filemagic_backend.Paths.{base}
use filemagic_backend.Validator.Names.{one_of}

abbrev pub max_filename_bytes : ℕ
max_filename_bytes = 255

-- `strings.ReplaceAll(s, "\x00", "")`
unfoldable pub strip_nul : Text → Text
strip_nul [] = []
strip_nul (c ∷ s) = if c == 0 then strip_nul s else c ∷ strip_nul s

-- The characters of the `switch`, the invisible ones by their code points.
abbrev pub unsafe_runes : List ℕ
unsafe_runes =
    codes "/\\'\"`$!;&|(){}[]<>@#~*?"
    ++ 8203 ∷ 8204 ∷ 8205 ∷ 8206 ∷ 8207 ∷ 8234 ∷ 8235 ∷ 8236 ∷ 8237 ∷ 8238 ∷ 8288 ∷ 8289 ∷ 8290
      ∷ 8291 ∷ 8292 ∷ 65279 ∷ 65529 ∷ 65530 ∷ 65531 ∷ []

unfoldable pub is_among : ℕ → List ℕ → Bool
is_among c [] = false
is_among c (x ∷ xs) = c == x || is_among c xs

unfoldable pub is_unsafe : ℕ → Bool
is_unsafe c = leb c 31 || c == 127 || is_among c unsafe_runes

unfoldable pub replace_rune : ℕ → ℕ
replace_rune c = if is_unsafe c then b'_' else c

abbrev pub is_dot : ℕ → Bool
is_dot c = c == b'.' || c == b' '

-- `strings.Trim(name, ". ")`, from the left, and from the right.
unfoldable pub trim_left : Text → Text
trim_left [] = []
trim_left (c ∷ s) = if is_dot c then trim_left s else c ∷ s

unfoldable pub trim_right : Text → Text
trim_right [] = []
trim_right (c ∷ s) = elim (trim_right s) [
  | [] ↦ if is_dot c then [] else c ∷ []
  | d ∷ r ↦ c ∷ d ∷ r
]

abbrev pub escape_dash : Text → Text
escape_dash [] = []
escape_dash (c ∷ s) = if c == b'-' then b'_' ∷ s else c ∷ s

-- What stands before the first dot.
unfoldable pub before_dot : Text → Text
before_dot [] = []
before_dot (c ∷ s) = if c == b'.' then [] else c ∷ before_dot s

abbrev pub reserved_names : List Text
reserved_names =
    codes "CON"
    ∷ codes "PRN"
    ∷ codes "AUX"
    ∷ codes "NUL"
    ∷ codes "COM0"
    ∷ codes "COM1"
    ∷ codes "COM2"
    ∷ codes "COM3"
    ∷ codes "COM4"
    ∷ codes "COM5"
    ∷ codes "COM6"
    ∷ codes "COM7"
    ∷ codes "COM8"
    ∷ codes "COM9"
    ∷ codes "LPT0"
    ∷ codes "LPT1"
    ∷ codes "LPT2"
    ∷ codes "LPT3"
    ∷ codes "LPT4"
    ∷ codes "LPT5"
    ∷ codes "LPT6"
    ∷ codes "LPT7"
    ∷ codes "LPT8"
    ∷ codes "LPT9"
    ∷ []

-- The number of bytes of a rune in UTF-8, and of a name.
unfoldable pub rune_width : ℕ → ℕ
rune_width c = if ltb c 128 then 1 else if ltb c 2048 then 2 else if ltb c 65536 then 3 else 4

unfoldable pub byte_length : Text → ℕ
byte_length [] = 0
byte_length (c ∷ s) = rune_width c + byte_length s

-- The whole runes among the first `n` bytes: what is left of `name[:n]` once the loop has dropped the
-- bytes of a rune that was cut.
unfoldable pub take_bytes : ℕ → Text → Text
take_bytes n [] = []
take_bytes n (c ∷ s) = if leb (rune_width c) n then c ∷ take_bytes (n - rune_width c) s else []

unfoldable pub truncate_name : Text → Text
truncate_name name =
    let cut = take_bytes max_filename_bytes name in
    if ltb max_filename_bytes (byte_length name)
    then (if non_empty cut then cut else codes "file")
    else name

module _ (unicode_upper : ℕ → ℕ) where
  unfoldable pub upper_rune : ℕ → ℕ
  upper_rune c =
      if ltb c 128 then (if leb b'a' c && leb c b'z' then c - 32 else c) else unicode_upper c

  -- Is the part before the first dot, in upper case, the name of a device?
  unfoldable pub is_reserved : Text → Bool
  is_reserved name = one_of (before_dot (map upper_rune name)) reserved_names

  unfoldable pub escape_device : Text → Text
  escape_device name = if is_reserved name then b'_' ∷ name else name

  unfoldable pub sanitize_filename : Text → Text
  sanitize_filename filename =
      let name = map replace_rune (base (strip_nul filename)) in
      if eq_text name [] || eq_text name (codes ".") || eq_text name (codes "..")
      then codes "file"
      else let trimmed = trim_right (trim_left name) in
        if non_empty trimmed
        then truncate_name (escape_device (escape_dash trimmed))
        else codes "file"
