-- ===== src/Validator/Unique.antt =====
-- How the signatures and the structural checks tell the file types apart
-- (internal/validator/validator.go).
use filemagic_backend.Prelude.{
  ℕ, ◌≡◌, sym, ◌∙◌, true, ◌∷◌, arith, ◌==◌, if◌then◌else◌, Text, eq_text,
}
use filemagic_backend.Validator.{
  FileType, jpeg, png, webp, heic, bmp, tiff, pdf, mp4, mov, mkv, avi, mp3, wav, flac, m4a,
  magic_bytes, byte_at, validate_structure, accepts, accepts_any,
}

-- The first byte of a header that has a `ftyp` box is 0, and the brand at offset 8 decides.
abbrev brand_kind : ℕ → ℕ → FileType
brand_kind b8 b9 =
    if b8 == b'h'
    then heic
    else if b8 == b'm'
    then (if b9 == b'p' then mp4 else heic)
    else if b8 == b'M'
    then (if b9 == b'4' then m4a else mp4)
    else if b8 == b'q'
    then mov
    else mp4

abbrev riff_kind : ℕ → ℕ → FileType
riff_kind b8 b9 = if b8 == b'A' then avi else if b9 == b'E' then webp else wav

-- The one type that a header can have, told by four of its bytes.
kind : Text → FileType
kind h =
    let b0 = byte_at h 0 in
    let b1 = byte_at h 1 in
    if b0 == 0
    then brand_kind (byte_at h 8) (byte_at h 9)
    else if b0 == b'R'
    then riff_kind (byte_at h 8) (byte_at h 9)
    else if b0 == 0xFF
    then (if b1 == 0xD8 then jpeg else mp3)
    else if b0 == b'I'
    then (if b1 == b'I' then tiff else mp3)
    else if b0 == 0x89
    then png
    else if b0 == b'B'
    then bmp
    else if b0 == b'M'
    then tiff
    else if b0 == b'%'
    then pdf
    else if b0 == b'f'
    then flac
    else mkv

kind-jpeg : (h : Text) → accepts_any jpeg h (magic_bytes jpeg) ≡ true → kind h ≡ jpeg
unfolding accepts_any magic_bytes accepts kind eq_text validate_structure
kind-jpeg (a ∷ b ∷ c ∷ d ∷ r) t = ground arith
kind-jpeg _ t = ground arith

kind-png : (h : Text) → accepts_any png h (magic_bytes png) ≡ true → kind h ≡ png
unfolding accepts_any magic_bytes accepts kind eq_text validate_structure
kind-png (a ∷ b ∷ c ∷ d ∷ e ∷ f ∷ g ∷ i ∷ r) t = ground arith
kind-png _ t = ground arith

kind-webp : (h : Text) → accepts_any webp h (magic_bytes webp) ≡ true → kind h ≡ webp
unfolding accepts_any magic_bytes accepts kind eq_text validate_structure
kind-webp (a ∷ b ∷ c ∷ d ∷ e ∷ f ∷ g ∷ i ∷ j ∷ k ∷ l ∷ m ∷ r) t = ground arith
kind-webp _ t = ground arith

kind-heic : (h : Text) → accepts_any heic h (magic_bytes heic) ≡ true → kind h ≡ heic
unfolding accepts_any magic_bytes accepts kind eq_text validate_structure
kind-heic (a ∷ b ∷ c ∷ d ∷ e ∷ f ∷ g ∷ i ∷ j ∷ k ∷ l ∷ m ∷ r) t = ground arith
kind-heic _ t = ground arith

kind-bmp : (h : Text) → accepts_any bmp h (magic_bytes bmp) ≡ true → kind h ≡ bmp
unfolding accepts_any magic_bytes accepts kind eq_text validate_structure
kind-bmp (a ∷ b ∷ c ∷ d ∷ e ∷ f ∷ g ∷ i ∷ j ∷ k ∷ r) t = ground arith
kind-bmp _ t = ground arith

kind-tiff : (h : Text) → accepts_any tiff h (magic_bytes tiff) ≡ true → kind h ≡ tiff
unfolding accepts_any magic_bytes accepts kind eq_text validate_structure
kind-tiff (a ∷ b ∷ c ∷ d ∷ r) t = ground arith
kind-tiff _ t = ground arith

kind-pdf : (h : Text) → accepts_any pdf h (magic_bytes pdf) ≡ true → kind h ≡ pdf
unfolding accepts_any magic_bytes accepts kind eq_text validate_structure
kind-pdf (a ∷ b ∷ c ∷ d ∷ r) t = ground arith
kind-pdf _ t = ground arith

kind-mp4 : (h : Text) → accepts_any mp4 h (magic_bytes mp4) ≡ true → kind h ≡ mp4
unfolding accepts_any magic_bytes accepts kind eq_text validate_structure
kind-mp4 (a ∷ b ∷ c ∷ d ∷ e ∷ f ∷ g ∷ i ∷ j ∷ k ∷ l ∷ m ∷ r) t = ground arith
kind-mp4 _ t = ground arith

kind-mov : (h : Text) → accepts_any mov h (magic_bytes mov) ≡ true → kind h ≡ mov
unfolding accepts_any magic_bytes accepts kind eq_text validate_structure
kind-mov (a ∷ b ∷ c ∷ d ∷ e ∷ f ∷ g ∷ i ∷ j ∷ k ∷ l ∷ m ∷ r) t = ground arith
kind-mov _ t = ground arith

kind-mkv : (h : Text) → accepts_any mkv h (magic_bytes mkv) ≡ true → kind h ≡ mkv
unfolding accepts_any magic_bytes accepts kind eq_text validate_structure
kind-mkv (a ∷ b ∷ c ∷ d ∷ r) t = ground arith
kind-mkv _ t = ground arith

kind-avi : (h : Text) → accepts_any avi h (magic_bytes avi) ≡ true → kind h ≡ avi
unfolding accepts_any magic_bytes accepts kind eq_text validate_structure
kind-avi (a ∷ b ∷ c ∷ d ∷ e ∷ f ∷ g ∷ i ∷ j ∷ k ∷ l ∷ m ∷ r) t = ground arith
kind-avi _ t = ground arith

kind-mp3 : (h : Text) → accepts_any mp3 h (magic_bytes mp3) ≡ true → kind h ≡ mp3
unfolding accepts_any magic_bytes accepts kind eq_text validate_structure
kind-mp3 (a ∷ b ∷ c ∷ d ∷ r) t = ground arith
kind-mp3 _ t = ground arith

kind-wav : (h : Text) → accepts_any wav h (magic_bytes wav) ≡ true → kind h ≡ wav
unfolding accepts_any magic_bytes accepts kind eq_text validate_structure
kind-wav (a ∷ b ∷ c ∷ d ∷ e ∷ f ∷ g ∷ i ∷ j ∷ k ∷ l ∷ m ∷ r) t = ground arith
kind-wav _ t = ground arith

kind-flac : (h : Text) → accepts_any flac h (magic_bytes flac) ≡ true → kind h ≡ flac
unfolding accepts_any magic_bytes accepts kind eq_text validate_structure
kind-flac (a ∷ b ∷ c ∷ d ∷ r) t = ground arith
kind-flac _ t = ground arith

kind-m4a : (h : Text) → accepts_any m4a h (magic_bytes m4a) ≡ true → kind h ≡ m4a
unfolding accepts_any magic_bytes accepts kind eq_text validate_structure
kind-m4a (a ∷ b ∷ c ∷ d ∷ e ∷ f ∷ g ∷ i ∷ j ∷ k ∷ l ∷ m ∷ r) t = ground arith
kind-m4a _ t = ground arith

-- A header that is accepted for a type is of that kind.
kind-accepts : (ft : FileType) (h : Text) → accepts_any ft h (magic_bytes ft) ≡ true → kind h ≡ ft
kind-accepts jpeg h e = kind-jpeg h e
kind-accepts png h e = kind-png h e
kind-accepts webp h e = kind-webp h e
kind-accepts heic h e = kind-heic h e
kind-accepts bmp h e = kind-bmp h e
kind-accepts tiff h e = kind-tiff h e
kind-accepts pdf h e = kind-pdf h e
kind-accepts mp4 h e = kind-mp4 h e
kind-accepts mov h e = kind-mov h e
kind-accepts mkv h e = kind-mkv h e
kind-accepts avi h e = kind-avi h e
kind-accepts mp3 h e = kind-mp3 h e
kind-accepts wav h e = kind-wav h e
kind-accepts flac h e = kind-flac h e
kind-accepts m4a h e = kind-m4a h e

-- Every header passes the signature test, the RIFF test and the structural test of at most one type.
pub accepted_unique :
    (h : Text) (a b : FileType)
    → accepts_any a h (magic_bytes a) ≡ true
    → accepts_any b h (magic_bytes b) ≡ true
    → a ≡ b
accepted_unique h a b p q = sym (kind-accepts a h p) ∙ kind-accepts b h q
