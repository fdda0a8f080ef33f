-- ===== src/Sanitize/Safe.antt =====
-- The names that `SanitizeFilename` gives (internal/converter/archive.go), as arguments of the archive
-- tools and as names of files.
use filemagic_backend.Prelude.{
  ℕ, suc, ◌-◌, ◌≤◌, ◌<◌, ◌≡◌, refl, ap, ◌⊎◌, inl, inr, true, false, ◌||◌, [], ◌∷◌, map, arith,
  length, ltb, Text, codes, eq_text, non_empty, Bool-cases,
}
use filemagic_backend.Paths.{base}
use filemagic_backend.Validator.Names.{one_of}
use filemagic_backend.Sanitize.{
  strip_nul, is_among, is_unsafe, replace_rune, trim_left, trim_right, escape_dash, before_dot,
  reserved_names, rune_width, byte_length, take_bytes, truncate_name, upper_rune, is_reserved,
  escape_device, sanitize_filename,
}
use filemagic_backend.Sanitize.Named.{IsPlain, IsKept-IsPlain, NamesDevice, NamesDevice-one_of}
use filemagic_backend.Sanitize.Plain.{
  IsKept, map-IsKept, trim_left-IsKept, trim_right-IsKept, take_bytes-IsKept, take_bytes-length,
  StartsWell, trim_left-IsTrimmed, trim_right-IsTrimmed, escape_dash-StartsWell, escape_dash-IsKept,
  take_bytes-StartsWell, StartsWell-non_empty, take_bytes_long, one_of_longer, reserved_short,
}

module _ (unicode_upper : ℕ → ℕ) where
  abbrev upper : Text → Text
  upper = map (upper_rune unicode_upper)

  before_dot-take_bytes :
      (n : ℕ) (s : Text)
      → (before_dot (upper (take_bytes n s)) ≡ before_dot (upper s))
        ⊎ (before_dot (upper (take_bytes n s)) ≡ upper (take_bytes n s))
  unfolding before_dot take_bytes
  before_dot-take_bytes n [] = inl refl
  before_dot-take_bytes n (c ∷ s) = ground (arith, before_dot-take_bytes (n - rune_width c) s)

  length-upper : (s : Text) → length (upper s) ≡ length s
  length-upper [] = refl
  length-upper (c ∷ s) = ap suc (length-upper s)

  take_bytes_unreserved :
      (s : Text)
      → 255 < byte_length s
      → is_reserved unicode_upper s ≡ false
      → is_reserved unicode_upper (take_bytes 255 s) ≡ false
  unfolding is_reserved
  take_bytes_unreserved s long h = elim (before_dot-take_bytes 255 s) [
    | inl e ↦ rw e h
    | inr e ↦ rw e (
        one_of_longer 4 (upper (take_bytes 255 s)) reserved_names reserved_short
          (omega (arith, length-upper (take_bytes 255 s), take_bytes_long 255 s long)))
  ]

  underscore_unreserved : (s : Text) → is_reserved unicode_upper (b'_' ∷ s) ≡ false
  unfolding is_reserved one_of eq_text before_dot upper_rune
  underscore_unreserved s = refl

  escape_device_unreserved :
      (s : Text) → is_reserved unicode_upper (escape_device unicode_upper s) ≡ false
  unfolding escape_device
  escape_device_unreserved s = elim (Bool-cases (is_reserved unicode_upper s)) [
    | inl e ↦ rw e (underscore_unreserved s)
    | inr e ↦ rw e e
  ]

  -- What every sanitized name satisfies, by the code's own tests.
  pub record IsClean (name : Text) : Type 0 where
    pub kept : IsKept name
    pub starts : StartsWell name
    pub short : byte_length name ≤ 255
    pub unreserved : is_reserved unicode_upper name ≡ false

  truncate_name-IsClean :
      (s : Text)
      → IsKept s
      → StartsWell s
      → is_reserved unicode_upper s ≡ false
      → IsClean (truncate_name s)
  unfolding truncate_name
  truncate_name-IsClean s p w u = elim (Bool-cases (ltb 255 (byte_length s))) [
    | inr e ↦ rw e (record { kept = p; starts = w; short = ground arith; unreserved = u })
    | inl e ↦
        let kept : non_empty (take_bytes 255 s) ≡ true =
          StartsWell-non_empty (take_bytes 255 s) (take_bytes-StartsWell s w) in
        rw (e, kept)
          (record {
            kept = take_bytes-IsKept 255 s p;
            starts = take_bytes-StartsWell s w;
            short = take_bytes-length 255 s;
            unreserved = take_bytes_unreserved s (ground arith) u;
          })
  ]

  escape_device-IsKept : (s : Text) → IsKept s → IsKept (escape_device unicode_upper s)
  unfolding escape_device is_unsafe is_among
  escape_device-IsKept s h = elim (Bool-cases (is_reserved unicode_upper s)) [
    | inl e ↦ rw e (refl, h)
    | inr e ↦ rw e h
  ]

  escape_device-StartsWell : (s : Text) → StartsWell s → StartsWell (escape_device unicode_upper s)
  unfolding escape_device
  escape_device-StartsWell s h = elim (Bool-cases (is_reserved unicode_upper s)) [
    | inl e ↦ rw e (omega arith)
    | inr e ↦ rw e h
  ]

  file-IsClean : IsClean (codes "file")
  unfolding is_unsafe is_among byte_length rune_width is_reserved one_of eq_text before_dot
      upper_rune
  file-IsClean = record {
    kept = (refl, (refl, (refl, (refl, tt))));
    starts = omega arith;
    short = omega arith;
    unreserved = refl;
  }

  sanitize_filename-IsClean : (filename : Text) → IsClean (sanitize_filename unicode_upper filename)
  unfolding sanitize_filename
  sanitize_filename-IsClean filename =
      let name = map replace_rune (base (strip_nul filename)) in
      let trimmed = trim_right (trim_left name) in
      elim (Bool-cases (eq_text name [] || eq_text name (codes ".") || eq_text name (codes ".."))) [
        | inl e ↦ rw e file-IsClean
        | inr e ↦ elim (Bool-cases (non_empty trimmed)) [
          | inr n ↦ rw (e, n) file-IsClean
          | inl n ↦
              let kept =
                trim_right-IsKept (trim_left name)
                  (trim_left-IsKept name (map-IsKept (base (strip_nul filename)))) in
              let trim = trim_right-IsTrimmed (trim_left name) (trim_left-IsTrimmed name) in
              let dashed = escape_dash trimmed in
              rw (e, n)
                (truncate_name-IsClean (escape_device unicode_upper dashed)
                  (escape_device-IsKept dashed (escape_dash-IsKept trimmed kept))
                  (escape_device-StartsWell dashed (escape_dash-StartsWell trimmed trim n))
                  (escape_device_unreserved dashed))
        ]
      ]

  -- The same, by the independent tests of Sanitize/Named.
  pub record IsSafe (name : Text) : Type 0 where
    pub plain : IsPlain name
    pub starts : StartsWell name
    pub short : byte_length name ≤ 255
    pub unreserved : ¬ NamesDevice unicode_upper name

  pub IsClean-IsSafe : (name : Text) → IsClean name → IsSafe name
  unfolding is_reserved
  IsClean-IsSafe name h = record {
    plain = IsKept-IsPlain name h.kept;
    starts = h.starts;
    short = h.short;
    unreserved = λ d. ground (arith, NamesDevice-one_of unicode_upper name d, h.unreserved);
  }

  -- Whatever the name of an upload is: every ASCII rune of the sanitized name is a letter, a digit, a blank
  -- or one of % + , - . : = ^ _ and none of the others is in U+200B to 200F, U+202A to 202E, U+2060 to
  -- 2064, U+FFF9 to FFFB or U+FEFF. The name is not empty, does not begin with a dash, a dot or a blank, and
  -- has at most 255 bytes in UTF-8. What it has before a dot, or all of it, is in upper case none of CON,
  -- PRN, AUX, NUL, and not COM or LPT with a digit.
  pub sanitize_filename-IsSafe :
      (filename : Text) → IsSafe (sanitize_filename unicode_upper filename)
  sanitize_filename-IsSafe filename =
      IsClean-IsSafe (sanitize_filename unicode_upper filename) (sanitize_filename-IsClean filename)
