-- ===== src/Validator/Names.antt =====
-- Detection by file name, and the accepted OCR languages (internal/validator/validator.go). A file
-- name is the list of its runes. `strings.ToLower` maps the ASCII letters; what it does to the other
-- runes is Unicode's table, the parameter `unicode_lower`.
use filemagic_backend.Prelude.{
  ℕ, ◌+◌, ◌≤◌, ◌≡◌, ◌⊎◌, ◌↔◌, Bool, true, false, ◌&&◌, ◌||◌, List, [], ◌∷◌, ◌++◌, map, Option, none,
  some, arith, length, ltb, leb, ◌==◌, if◌then◌else◌, Text, codes, eq_text, eq_text_iff, has_prefix,
  has_suffix, All,
}
use mathlib.Core.List.{map-append, reverse, reverse-append}

-- `strings.ToLower`, rune by rune.
unfoldable pub lower_rune : (ℕ → ℕ) → ℕ → ℕ
lower_rune unicode_lower c =
    if ltb c 128 then (if leb b'A' c && leb c b'Z' then c + 32 else c) else unicode_lower c

unfoldable pub to_lower : (ℕ → ℕ) → Text → Text
to_lower unicode_lower = map (lower_rune unicode_lower)

-- The loop `for _, ext := range exts { if strings.HasSuffix(lower, ext) { return true } }`.
unfoldable pub has_any_suffix : Text → List Text → Bool
has_any_suffix s [] = false
has_any_suffix s (e ∷ es) = has_suffix s e || has_any_suffix s es

abbrev font_extensions : List Text
font_extensions = codes ".ttf" ∷ codes ".otf" ∷ codes ".woff" ∷ codes ".woff2" ∷ []

abbrev ebook_extensions : List Text
ebook_extensions =
    codes ".epub"
    ∷ codes ".mobi"
    ∷ codes ".azw3"
    ∷ codes ".azw"
    ∷ codes ".pdf"
    ∷ codes ".fb2"
    ∷ codes ".txt"
    ∷ codes ".docx"
    ∷ codes ".html"
    ∷ codes ".htm"
    ∷ codes ".rtf"
    ∷ codes ".odt"
    ∷ codes ".lit"
    ∷ codes ".pdb"
    ∷ codes ".cbz"
    ∷ codes ".cbr"
    ∷ []

abbrev archive_extensions : List Text
archive_extensions =
    codes ".zip"
    ∷ codes ".rar"
    ∷ codes ".7z"
    ∷ codes ".tar.gz"
    ∷ codes ".tgz"
    ∷ codes ".tar.bz2"
    ∷ codes ".tar.xz"
    ∷ codes ".tar.zst"
    ∷ []

unfoldable pub valid_ocr_languages : List Text
valid_ocr_languages =
    codes "eng"
    ∷ codes "fra"
    ∷ codes "deu"
    ∷ codes "spa"
    ∷ codes "ita"
    ∷ codes "por"
    ∷ codes "nld"
    ∷ codes "rus"
    ∷ codes "ara"
    ∷ codes "chi_sim"
    ∷ codes "chi_tra"
    ∷ codes "jpn"
    ∷ codes "kor"
    ∷ []

-- `ValidOCRLanguages[lang]`
unfoldable pub one_of : Text → List Text → Bool
one_of s [] = false
one_of s (t ∷ ts) = eq_text t s || one_of s ts

abbrev pub IsOneOf : Text → List Text → Type 0
IsOneOf s [] = ⊥
IsOneOf s (t ∷ ts) = (t ≡ s) ⊎ IsOneOf s ts

-- The loop of `ValidateOCRLanguages`.
unfoldable pub all_valid : List Text → Bool
all_valid [] = true
all_valid (l ∷ ls) = let rest = all_valid ls in if one_of l valid_ocr_languages then rest else false

unfoldable pub validate_ocr_languages : List Text → Bool
validate_ocr_languages languages =
    if length languages == 0 || ltb 5 (length languages) then false else all_valid languages

pub data CertFileType : Type 0 where
  pem der p12 p7b : CertFileType

-- `GetCertExtension`; the types of the enumeration leave its default unreached.
unfoldable pub get_cert_extension : CertFileType → Text
get_cert_extension pem = codes ".pem"
get_cert_extension der = codes ".der"
get_cert_extension p12 = codes ".p12"
get_cert_extension p7b = codes ".p7b"

has_suffix-append :
    (s e p : Text) → has_suffix (s ++ e) p ≡ has_prefix (reverse e ++ reverse s) (reverse p)
unfolding has_suffix
has_suffix-append s e p = rw (reverse-append s e)

module _ (unicode_lower : ℕ → ℕ) where
  unfoldable pub detect_font_file : Text → Bool
  detect_font_file name = has_any_suffix (to_lower unicode_lower name) font_extensions

  unfoldable pub detect_ebook_file : Text → Bool
  detect_ebook_file name = has_any_suffix (to_lower unicode_lower name) ebook_extensions

  unfoldable pub detect_svg_file : Text → Bool
  detect_svg_file name = has_suffix (to_lower unicode_lower name) (codes ".svg")

  unfoldable pub detect_archive_file : Text → Bool
  detect_archive_file name = has_any_suffix (to_lower unicode_lower name) archive_extensions

  unfoldable pub detect_markdown_file : Text → Bool
  detect_markdown_file name =
      let lower = to_lower unicode_lower name in
      has_suffix lower (codes ".md") || has_suffix lower (codes ".markdown")

  unfoldable pub detect_cert_file_type : Text → Option CertFileType
  detect_cert_file_type name =
      let lower = to_lower unicode_lower name in
      if has_suffix lower (codes ".pem")
        || has_suffix lower (codes ".crt")
        || has_suffix lower (codes ".cer")
        || has_suffix lower (codes ".csr")
      then some pem
      else if has_suffix lower (codes ".der")
      then some der
      else if has_suffix lower (codes ".p12") || has_suffix lower (codes ".pfx")
      then some p12
      else if has_suffix lower (codes ".p7b") || has_suffix lower (codes ".p7c")
      then some p7b
      else none

  to_lower-append :
      (name : Text) (ct : CertFileType)
      → to_lower unicode_lower (name ++ get_cert_extension ct)
        ≡ to_lower unicode_lower name ++ get_cert_extension ct
  unfolding to_lower lower_rune get_cert_extension
  to_lower-append name pem = map-append _ name _
  to_lower-append name _ = map-append _ name _

  -- Every file name that ends in the extension which `GetCertExtension` gives for a certificate type is
  -- detected as that type, whatever stands before the extension.
  pub cert_extension_roundtrip :
      (name : Text) (ct : CertFileType)
      → detect_cert_file_type (name ++ get_cert_extension ct) ≡ some ct
  unfolding detect_cert_file_type get_cert_extension has_prefix
  cert_extension_roundtrip name pem = simp (to_lower-append name pem, has_suffix-append)
  cert_extension_roundtrip name der = simp (to_lower-append name der, has_suffix-append)
  cert_extension_roundtrip name p12 = simp (to_lower-append name p12, has_suffix-append)
  cert_extension_roundtrip name p7b = simp (to_lower-append name p7b, has_suffix-append)

one_of_iff : (s : Text) (ts : List Text) → (one_of s ts ≡ true) ↔ IsOneOf s ts
unfolding one_of
one_of_iff s [] = ground arith
one_of_iff s (t ∷ ts) = ground (arith, eq_text_iff t s, one_of_iff s ts)

all_valid-All :
    (ls : List Text) → (all_valid ls ≡ true) ↔ All (λ l. IsOneOf l valid_ocr_languages) ls
unfolding all_valid
all_valid-All [] = ground arith
all_valid-All (l ∷ ls) = ground (arith, one_of_iff l valid_ocr_languages, all_valid-All ls)

-- `ValidateOCRLanguages` accepts a list exactly when it holds one to five languages and each of them
-- is in the table.
pub ocr_languages_exact :
    (ls : List Text)
    → (validate_ocr_languages ls ≡ true)
      ↔ ((1 ≤ length ls) × (length ls ≤ 5) × All (λ l. IsOneOf l valid_ocr_languages) ls)
unfolding validate_ocr_languages
ocr_languages_exact ls = ground (arith, all_valid-All ls)
