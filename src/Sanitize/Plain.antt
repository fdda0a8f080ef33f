-- ===== src/Sanitize/Plain.antt =====
-- What the steps of `SanitizeFilename` (internal/converter/archive.go) do to the runes of a name, to its
-- ends and to its length.
use filemagic_backend.Prelude.{
  ℕ, ◌+◌, ◌-◌, ◌*◌, ◌≤◌, ◌<◌, ◌≡◌, refl, ap, ◌≢◌, inl, inr, true, false, List, [], ◌∷◌, map, arith,
  length, ◌==◌, Text, eq_text, eq_text_iff, non_empty, All, Bool-cases,
}
use filemagic_backend.Validator.Names.{one_of}
use filemagic_backend.Sanitize.{
  is_among, is_unsafe, replace_rune, is_dot, trim_left, trim_right, escape_dash, reserved_names,
  rune_width, byte_length, take_bytes,
}

-- No rune of the name is one that `strings.Map` replaces.
abbrev pub IsKept : Text → Type 0
IsKept = All (λ c. is_unsafe c ≡ false)

pub replaced_kept : (c : ℕ) → is_unsafe (replace_rune c) ≡ false
unfolding replace_rune is_unsafe is_among
replaced_kept c = ground arith

pub map-IsKept : (s : Text) → IsKept (map replace_rune s)
map-IsKept [] = tt
map-IsKept (c ∷ s) = (replaced_kept c, map-IsKept s)

pub trim_left-IsKept : (s : Text) → IsKept s → IsKept (trim_left s)
unfolding trim_left
trim_left-IsKept [] h = tt
trim_left-IsKept (c ∷ s) h = elim (Bool-cases (is_dot c)) [
  | inl e ↦ rw e (trim_left-IsKept s h.1)
  | inr e ↦ rw e h
]

pub trim_right-IsKept : (s : Text) → IsKept s → IsKept (trim_right s)
unfolding trim_right
trim_right-IsKept [] h = tt
trim_right-IsKept (c ∷ s) h = ground (arith, trim_right-IsKept s h.1)

pub take_bytes-IsKept : (n : ℕ) (s : Text) → IsKept s → IsKept (take_bytes n s)
unfolding take_bytes
take_bytes-IsKept n [] h = tt
take_bytes-IsKept n (c ∷ s) h = ground (arith, take_bytes-IsKept (n - rune_width c) s h.1)

pub take_bytes-length : (n : ℕ) (s : Text) → byte_length (take_bytes n s) ≤ n
unfolding take_bytes byte_length
take_bytes-length n [] = omega arith
take_bytes-length n (c ∷ s) = ground (arith, take_bytes-length (n - rune_width c) s)

-- A name does not begin as a flag, a hidden file or a blank does.
abbrev pub StartsWell : Text → Type 0
StartsWell [] = ⊥
StartsWell (c ∷ s) = (c ≢ b'-') × (c ≢ b'.') × (c ≢ b' ')

-- It is empty, or its first rune is neither a dot nor a blank.
abbrev pub IsTrimmed : Text → Type 0
IsTrimmed [] = Unit {0}
IsTrimmed (c ∷ s) = is_dot c ≡ false

pub trim_left-IsTrimmed : (s : Text) → IsTrimmed (trim_left s)
unfolding trim_left
trim_left-IsTrimmed [] = tt
trim_left-IsTrimmed (c ∷ s) = elim (Bool-cases (is_dot c)) [
  | inl e ↦ rw e (trim_left-IsTrimmed s)
  | inr e ↦ rw e e
]

pub trim_right-IsTrimmed : (s : Text) → IsTrimmed s → IsTrimmed (trim_right s)
unfolding trim_right
trim_right-IsTrimmed [] h = tt
trim_right-IsTrimmed (c ∷ s) h = ground arith

pub escape_dash-StartsWell :
    (s : Text) → IsTrimmed s → non_empty s ≡ true → StartsWell (escape_dash s)
escape_dash-StartsWell [] h n = cc
escape_dash-StartsWell (c ∷ s) h n = ground arith

pub escape_dash-IsKept : (s : Text) → IsKept s → IsKept (escape_dash s)
unfolding is_unsafe is_among
escape_dash-IsKept [] h = tt
escape_dash-IsKept (c ∷ s) h = elim (Bool-cases (c == b'-')) [
  | inl e ↦ rw e (refl, h.1)
  | inr e ↦ rw e h
]

pub take_bytes-StartsWell : (s : Text) → StartsWell s → StartsWell (take_bytes 255 s)
unfolding take_bytes rune_width
take_bytes-StartsWell [] h = absurd h
take_bytes-StartsWell (c ∷ s) h = ground arith

pub StartsWell-non_empty : (s : Text) → StartsWell s → non_empty s ≡ true
StartsWell-non_empty [] h = absurd h
StartsWell-non_empty (c ∷ s) h = refl

-- A cut leaves at most three of the bytes unused.
pub take_bytes_long : (n : ℕ) (s : Text) → n < byte_length s → n < 4 * length (take_bytes n s) + 4
unfolding take_bytes byte_length rune_width
take_bytes_long n [] h = absurd (omega arith)
take_bytes_long n (c ∷ s) h = ground (arith, take_bytes_long (n - rune_width c) s)

pub eq_text-length : (s t : Text) → eq_text s t ≡ true → length s ≡ length t
eq_text-length s t e = ap length ((eq_text_iff s t).0 e)

-- A name longer than all of the list is none of them.
pub one_of_longer :
    (k : ℕ) (t : Text) (names : List Text)
    → All (λ x. length x ≤ k) names
    → k < length t
    → one_of t names ≡ false
unfolding one_of
one_of_longer k t [] h l = refl
one_of_longer k t (x ∷ names) h l = ground (arith, eq_text-length x t, one_of_longer k t names h.1)

pub reserved_short : All (λ x. length x ≤ 4) reserved_names
reserved_short = omega arith
