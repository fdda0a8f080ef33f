-- ===== src/Upload/Several/Suffixes.antt =====
-- Names with a number before their extension, in an archive upload (`handleArchiveConversion` in
-- internal/api/handlers/convert.go): their lengths, and that they differ.
use mathlib.Core.List.{append_cancel_left, append_cancel_right, append-nil}
use filemagic_backend.Prelude.{
  ℕ, zero, suc, ◌+◌, ◌≤◌, ◌<◌, ◌≡◌, refl, ap, ◌∙◌, ◌≢◌, inl, inr, true, false, List, [], ◌∷◌, ◌++◌,
  arith, length, Text, codes, eq_text, eq_text_iff, Bool-cases, non_empty, ◌==◌, ◌-◌, take,
  length-append,
}
use filemagic_backend.Paths.{trim_suffix}
use filemagic_backend.Queue.{erase_first}
use filemagic_backend.Validator.Names.{one_of}
use filemagic_backend.Sanitize.{byte_length, rune_width}
use filemagic_backend.Upload.Several.{extension, suffixed}

pub erase_first-length :
    (n : Text) (xs : List Text) → one_of n xs ≡ true → suc (length (erase_first n xs)) ≡ length xs
unfolding one_of erase_first
erase_first-length n [] h = cc
erase_first-length n (x ∷ xs) h = ground (arith, erase_first-length n xs)

pub one_of-erase_first :
    (k n : Text) (xs : List Text)
    → eq_text n k ≡ false
    → one_of k (erase_first n xs) ≡ false
    → one_of k xs ≡ false
unfolding one_of erase_first
one_of-erase_first k n [] d h = refl
one_of-erase_first k n (x ∷ xs) d h =
    ground (arith, one_of-erase_first k n xs d, eq_text_iff x n, eq_text_iff x k, eq_text_iff n k)

-- Of more distinct names than a list has entries, one is not in the list.
pub unused :
    (name : ℕ → Text) (fuel i : ℕ) (xs : List Text)
    → ((j k : ℕ) → j < k → eq_text (name j) (name k) ≡ false)
    → length xs < fuel
    → (k : ℕ) × (i ≤ k) × (k < i + fuel) × (one_of (name k) xs ≡ false)
unused name zero i xs d h = absurd (omega arith)
unused name (suc fuel) i xs d h = elim (Bool-cases (one_of (name i) xs)) [
  | inr free ↦ (i, omega arith, omega arith, free)
  | inl taken ↦
      let shorter = erase_first-length (name i) xs taken in
      let (k, low, high, free) =
        unused name fuel (i + 1) (erase_first (name i) xs) d (omega arith) in
      (
        k,
        omega arith,
        omega arith,
        one_of-erase_first (name k) (name i) xs (d i k (omega arith)) free,
      )
]

-- A name is what stands before its extension, and the extension.
pub extension_split : (s : Text) → (b : Text) × (s ≡ b ++ extension s)
unfolding extension
extension_split [] = ([], refl)
extension_split (c ∷ s) =
    let (b, e) = extension_split s in
    elim (Bool-cases (non_empty (extension s))) [
      | inl n ↦ (c ∷ b, ground arith)
      | inr n ↦ elim (Bool-cases (c == b'.')) [
        | inl d ↦ ([], ground arith)
        | inr d ↦ (c ∷ s, ground (arith, append-nil s))
      ]
    ]

pub take-length : (b e : Text) → take (length b) (b ++ e) ≡ b
take-length [] e = refl
take-length (c ∷ b) e = ap (◌∷◌ c) (take-length b e)

pub take_whole : (b e : Text) → take (length (b ++ e) - length e) (b ++ e) ≡ b
take_whole b e =
    let n : length (b ++ e) - length e ≡ length b = omega (arith, length-append b e) in
    ap (λ (k : ℕ). take k (b ++ e)) n ∙ take-length b e

pub byte_length-append : (a b : Text) → byte_length (a ++ b) ≡ byte_length a + byte_length b
unfolding byte_length
byte_length-append [] b = omega arith
byte_length-append (c ∷ a) b = omega (arith, byte_length-append a b)

pub underscore_length : byte_length (codes "_") ≡ 1
unfolding byte_length rune_width
underscore_length = refl

pub trim_extension_length :
    (name : Text)
    → byte_length name
      ≤ byte_length (trim_suffix name (extension name)) + byte_length (extension name)
unfolding trim_suffix
trim_extension_length name =
    let e = extension name in
    let (b, whole) = extension_split name in
    let cut : take (length name - length e) name ≡ b =
      ap (λ (n : Text). take (length n - length e) n) whole ∙ take_whole b e in
    let size : byte_length name ≡ byte_length b + byte_length e =
      ap byte_length whole ∙ byte_length-append b e in
    ground (arith, ap byte_length cut)

pub suffixed_length :
    (print_decimal : ℕ → Text) (name : Text) (k : ℕ)
    → byte_length name + byte_length (print_decimal k) + 1
      ≤ byte_length (suffixed print_decimal name k)
suffixed_length print_decimal name k =
    let e = extension name in
    let t = trim_suffix name e in
    let (b, whole) = extension_split name in
    omega (
      arith,
      trim_extension_length name,
      byte_length-append ((t ++ codes "_") ++ print_decimal k) e,
      byte_length-append (t ++ codes "_") (print_decimal k),
      byte_length-append t (codes "_"),
      underscore_length,
    )

pub suffixed_differ :
    (print_decimal : ℕ → Text) (name : Text) (j k : ℕ)
    → (print_decimal j ≢ print_decimal k)
    → eq_text (suffixed print_decimal name j) (suffixed print_decimal name k) ≡ false
suffixed_differ print_decimal name j k d =
    let e = extension name in
    let t = trim_suffix name e ++ codes "_" in
    elim (Bool-cases (eq_text (suffixed print_decimal name j) (suffixed print_decimal name k))) [
      | inr differ ↦ differ
      | inl same ↦ absurd (
          d (
            append_cancel_left t (print_decimal j) (print_decimal k) (
              append_cancel_right (t ++ print_decimal j) (t ++ print_decimal k) e
                ((eq_text_iff _ _).0 same))))
    ]
