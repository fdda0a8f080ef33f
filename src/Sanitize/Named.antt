-- ===== src/Sanitize/Named.antt =====
-- What a name may hold and what it may not be, written apart from the tables of `SanitizeFilename`
-- (internal/converter/archive.go), and that the tables agree.
use filemagic_backend.Prelude.{
  ℕ, ◌≤◌, ◌≡◌, refl, ◌⊎◌, inl, inr, Bool, true, false, ◌&&◌, ◌||◌, [], ◌∷◌, ◌++◌, map, arith, leb,
  ◌==◌, Text, codes, eq_text, All, Bool-cases,
}
use filemagic_backend.Validator.Names.{one_of}
use filemagic_backend.Sanitize.{is_among, is_unsafe, before_dot, reserved_names, upper_rune}
use filemagic_backend.Sanitize.Plain.{IsKept}

abbrev lies : ℕ → ℕ → ℕ → Bool
lies low high c = leb low c && leb c high

-- A letter, a digit, a blank, or one of % + , - . : = ^ _
abbrev is_plain_ascii : ℕ → Bool
is_plain_ascii c =
    lies b'a' b'z' c
    || lies b'A' b'Z' c
    || lies b'0' b'9' c
    || c == b' '
    || c == b'%'
    || c == b'+'
    || c == b','
    || c == b'-'
    || c == b'.'
    || c == b':'
    || c == b'='
    || c == b'^'
    || c == b'_'

-- U+200B to 200F, U+202A to 202E, U+2060 to 2064, U+FFF9 to FFFB and U+FEFF
abbrev is_hidden : ℕ → Bool
is_hidden c =
    lies 0x200B 0x200F c
    || lies 0x202A 0x202E c
    || lies 0x2060 0x2064 c
    || lies 0xFFF9 0xFFFB c
    || lies 0xFEFF 0xFEFF c

abbrev IsPlainRune : ℕ → Type 0
IsPlainRune c = (is_plain_ascii c ≡ true) ⊎ ((128 ≤ c) × (is_hidden c ≡ false))

abbrev pub IsPlain : Text → Type 0
IsPlain = All IsPlainRune

plain_ascii : (c : ℕ) → leb c 127 ≡ true → is_unsafe c ≡ false → is_plain_ascii c ≡ true
unfolding is_unsafe is_among
plain_ascii c a h = ground arith

zero_width : (c : ℕ) → is_unsafe c ≡ false → lies 0x200B 0x200F c ≡ false
unfolding is_unsafe is_among
zero_width c h = ground arith

directions : (c : ℕ) → is_unsafe c ≡ false → lies 0x202A 0x202E c ≡ false
unfolding is_unsafe is_among
directions c h = ground arith

operators : (c : ℕ) → is_unsafe c ≡ false → lies 0x2060 0x2064 c ≡ false
unfolding is_unsafe is_among
operators c h = ground arith

annotations : (c : ℕ) → is_unsafe c ≡ false → lies 0xFFF9 0xFFFB c ≡ false
unfolding is_unsafe is_among
annotations c h = ground arith

byte_order_mark : (c : ℕ) → is_unsafe c ≡ false → lies 0xFEFF 0xFEFF c ≡ false
unfolding is_unsafe is_among
byte_order_mark c h = ground arith

not_hidden : (c : ℕ) → is_unsafe c ≡ false → is_hidden c ≡ false
not_hidden c h =
    rw (zero_width c h, directions c h, operators c h, annotations c h, byte_order_mark c h)

IsKept-IsPlain_rune : (c : ℕ) → is_unsafe c ≡ false → IsPlainRune c
IsKept-IsPlain_rune c h = elim (Bool-cases (leb c 127)) [
  | inl a ↦ inl (plain_ascii c a h)
  | inr a ↦ inr (ground arith, not_hidden c h)
]

pub IsKept-IsPlain : (s : Text) → IsKept s → IsPlain s
IsKept-IsPlain [] h = tt
IsKept-IsPlain (c ∷ s) h = (IsKept-IsPlain_rune c h.0, IsKept-IsPlain s h.1)

-- The name of a device, in upper case.
abbrev IsDevice : Text → Type 0
IsDevice t =
    (t ≡ codes "CON")
    ⊎ (t ≡ codes "PRN")
    ⊎ (t ≡ codes "AUX")
    ⊎ (t ≡ codes "NUL")
    ⊎ ((d : ℕ) × (b'0' ≤ d) × (d ≤ b'9') × (t ≡ codes "COM" ++ d ∷ []))
    ⊎ ((d : ℕ) × (b'0' ≤ d) × (d ≤ b'9') × (t ≡ codes "LPT" ++ d ∷ []))

-- Nothing, or what begins with a dot.
abbrev IsRest : Text → Type 0
IsRest [] = Unit {0}
IsRest (c ∷ s) = c ≡ b'.'

-- The name is that of a device, or has one before a dot.
abbrev pub NamesDevice : (ℕ → ℕ) → Text → Type 0
NamesDevice unicode_upper name =
    (stem : Text) × (rest : Text) × (name ≡ stem ++ rest)
    × IsRest rest
    × IsDevice (map (upper_rune unicode_upper) stem)

device_reserved : (t : Text) → IsDevice t → (one_of t reserved_names ≡ true) × (before_dot t ≡ t)
unfolding one_of eq_text before_dot
device_reserved t (inl e) = rw e (refl, refl)
device_reserved t (inr (inl e)) = rw e (refl, refl)
device_reserved t (inr (inr (inl e))) = rw e (refl, refl)
device_reserved t (inr (inr (inr (inl e)))) = rw e (refl, refl)
device_reserved t (inr (inr (inr (inr (inl (d, low, high, e)))))) =
    rw e (ground arith, ground arith)
device_reserved t (inr (inr (inr (inr (inr (d, low, high, e)))))) =
    rw e (ground arith, ground arith)

before_dot-rest :
    (unicode_upper : ℕ → ℕ) (s rest : Text)
    → IsRest rest
    → before_dot (map (upper_rune unicode_upper) (s ++ rest))
      ≡ before_dot (map (upper_rune unicode_upper) s)
unfolding before_dot upper_rune
before_dot-rest unicode_upper [] [] h = refl
before_dot-rest unicode_upper [] (c ∷ rest) h = ground arith
before_dot-rest unicode_upper (c ∷ s) rest h =
    ground (arith, before_dot-rest unicode_upper s rest h)

pub NamesDevice-one_of :
    (unicode_upper : ℕ → ℕ) (name : Text)
    → NamesDevice unicode_upper name
    → one_of (before_dot (map (upper_rune unicode_upper) name)) reserved_names ≡ true
NamesDevice-one_of unicode_upper name (stem, rest, e, h, d) =
    let (listed, whole) = device_reserved (map (upper_rune unicode_upper) stem) d in
    rw (e, before_dot-rest unicode_upper stem rest h, whole) listed
