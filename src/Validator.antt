-- ===== src/Validator.antt =====
-- File type detection by magic bytes (internal/validator/validator.go). A header is a list of bytes.
-- The table `magicBytes` is a Go map: `range` visits its keys in an order that the language leaves
-- open, so the detection takes that order as an argument.
pub mod Tables
pub mod Names
pub mod Unique
pub mod Order
mod Examples
use filemagic_backend.Prelude.{
  ℕ, suc, ◌+◌, ◌*◌, ◌/◌, ◌%◌, Bool, true, false, not, ◌&&◌, ◌||◌, List, [], ◌∷◌, Option, none, some,
  length, slice, ltb, leb, ◌==◌, if◌then◌else◌, Text, codes, eq_text, get_or,
}

pub data FileType : Type 0 where
  jpeg png webp heic bmp tiff pdf mp4 mov mkv avi mp3 wav flac m4a : FileType

pub record MagicPattern : Type 0 where
  pub pattern : Text
  pub offset : ℕ

abbrev at : ℕ → Text → MagicPattern
at offset pattern = record { pattern = pattern; offset = offset }

-- `magicBytes[ft]`
unfoldable pub magic_bytes : FileType → List MagicPattern
magic_bytes jpeg = at 0 (0xFF ∷ 0xD8 ∷ 0xFF ∷ []) ∷ []
magic_bytes png = at 0 (0x89 ∷ 0x50 ∷ 0x4E ∷ 0x47 ∷ 0x0D ∷ 0x0A ∷ 0x1A ∷ 0x0A ∷ []) ∷ []
magic_bytes webp = at 0 (codes "RIFF") ∷ []
magic_bytes heic =
    at 4 (codes "ftypheic")
    ∷ at 4 (codes "ftypmif1")
    ∷ at 4 (codes "ftypmsf1")
    ∷ at 4 (codes "ftypheix")
    ∷ at 4 (codes "ftyphevc")
    ∷ at 4 (codes "ftypheim")
    ∷ at 4 (codes "ftypheis")
    ∷ at 4 (codes "ftyphevm")
    ∷ at 4 (codes "ftyphevs")
    ∷ []
magic_bytes bmp = at 0 (0x42 ∷ 0x4D ∷ []) ∷ []
magic_bytes tiff =
    at 0 (0x49 ∷ 0x49 ∷ 0x2A ∷ 0x00 ∷ []) ∷ at 0 (0x4D ∷ 0x4D ∷ 0x00 ∷ 0x2A ∷ []) ∷ []
magic_bytes pdf = at 0 (codes "%PDF") ∷ []
magic_bytes mp4 =
    at 4 (codes "ftypisom")
    ∷ at 4 (codes "ftypiso2")
    ∷ at 4 (codes "ftypmp41")
    ∷ at 4 (codes "ftypmp42")
    ∷ at 4 (codes "ftypavc1")
    ∷ at 4 (codes "ftypdash")
    ∷ at 4 (codes "ftypMSNV")
    ∷ []
magic_bytes mov = at 4 (codes "ftypqt  ") ∷ []
magic_bytes mkv = at 0 (0x1A ∷ 0x45 ∷ 0xDF ∷ 0xA3 ∷ []) ∷ []
magic_bytes avi = at 0 (codes "RIFF") ∷ []
magic_bytes mp3 =
    at 0 (codes "ID3")
    ∷ at 0 (0xFF ∷ 0xFB ∷ [])
    ∷ at 0 (0xFF ∷ 0xF3 ∷ [])
    ∷ at 0 (0xFF ∷ 0xF2 ∷ [])
    ∷ []
magic_bytes wav = at 0 (codes "RIFF") ∷ []
magic_bytes flac = at 0 (codes "fLaC") ∷ []
magic_bytes m4a = at 4 (codes "ftypM4A ") ∷ at 4 (codes "ftypM4B ") ∷ []

-- `header[i]`; the code tests the length before each such read.
abbrev pub byte_at : Text → ℕ → ℕ
byte_at header i = get_or header i 0

-- `binary.BigEndian.Uint32(header[0:4])`
abbrev pub big_endian : Text → ℕ
big_endian h = byte_at h 0 * 16777216 + byte_at h 1 * 65536 + byte_at h 2 * 256 + byte_at h 3

-- `binary.LittleEndian.Uint32(header[4:8])`
abbrev pub little_endian : Text → ℕ
little_endian h = byte_at h 7 * 16777216 + byte_at h 6 * 65536 + byte_at h 5 * 256 + byte_at h 4

jpeg_structure : Text → Bool
jpeg_structure h =
    let m = byte_at h 3 in
    if ltb (length h) 4 then false else (leb 0xC0 m && leb m 0xCF) || (leb 0xDB m && leb m 0xFE)

png_structure : Text → Bool
png_structure h = if ltb (length h) 16 then false else eq_text (slice 12 16 h) (codes "IHDR")

bmp_structure : Text → Bool
bmp_structure h =
    if ltb (length h) 10
    then false
    else byte_at h 6 == 0 && byte_at h 7 == 0 && byte_at h 8 == 0 && byte_at h 9 == 0

-- The four reserved values of an MPEG frame header are refused.
mpeg_frame : ℕ → ℕ → Bool
mpeg_frame b1 b2 =
    let mpeg_version = b1 / 8 % 4 in
    let layer = b1 / 2 % 4 in
    let bitrate_idx = b2 / 16 % 16 in
    let sample_idx = b2 / 4 % 4 in
    if mpeg_version == 0x01
    then false
    else if layer == 0x00
    then false
    else if bitrate_idx == 0x0F
    then false
    else if sample_idx == 0x03
    then false
    else true

mp3_structure : Text → Bool
unfolding mpeg_frame
mp3_structure h =
    if leb 3 (length h) && eq_text (slice 0 3 h) (codes "ID3")
    then true
    else if ltb (length h) 4
    then false
    else mpeg_frame (byte_at h 1) (byte_at h 2)

ftyp_structure : Text → Bool
ftyp_structure h =
    if ltb (length h) 12 then false else leb 8 (big_endian h) && leb (big_endian h) 1024

riff_structure : Text → Bool
riff_structure h =
    if ltb (length h) 12
    then false
    else ltb 0 (little_endian h) && not (little_endian h == 0xFFFFFFFF)

unfoldable pub validate_structure : FileType → Text → Bool
unfolding jpeg_structure png_structure bmp_structure mp3_structure ftyp_structure riff_structure
validate_structure jpeg h = jpeg_structure h
validate_structure png h = png_structure h
validate_structure bmp h = bmp_structure h
validate_structure mp3 h = mp3_structure h
validate_structure mp4 h = ftyp_structure h
validate_structure mov h = ftyp_structure h
validate_structure m4a h = ftyp_structure h
validate_structure heic h = ftyp_structure h
validate_structure wav h = riff_structure h
validate_structure webp h = riff_structure h
validate_structure avi h = riff_structure h
validate_structure tiff h = true
validate_structure pdf h = true
validate_structure mkv h = true
validate_structure flac h = true

abbrev is_webp : FileType → Bool
is_webp webp = true
is_webp _ = false

abbrev is_wav : FileType → Bool
is_wav wav = true
is_wav _ = false

abbrev is_avi : FileType → Bool
is_avi avi = true
is_avi _ = false

-- The `switch subtype` of the RIFF disambiguation: does the loop go on with this type?
riff_subtype_matches : FileType → Text → Bool
riff_subtype_matches ft subtype =
    if eq_text subtype (codes "WEBP")
    then is_webp ft
    else if eq_text subtype (codes "WAVE")
    then is_wav ft
    else if eq_text subtype (codes "AVI ")
    then is_avi ft
    else false

riff_matches : FileType → Text → Bool
unfolding riff_subtype_matches
riff_matches ft h =
    if (is_webp ft || is_wav ft || is_avi ft) && leb 12 (length h)
    then riff_subtype_matches ft (slice 8 12 h)
    else true

-- The loop body: does this pattern make `DetectFileType` return this type?
unfoldable pub accepts : FileType → Text → MagicPattern → Bool
unfolding riff_matches
accepts ft h p =
    leb (p.offset + length p.pattern) (length h)
    && eq_text (slice p.offset (p.offset + length p.pattern) h) p.pattern
    && riff_matches ft h
    && validate_structure ft h

-- The inner loop, over the patterns of a type.
unfoldable pub accepts_any : FileType → Text → List MagicPattern → Bool
accepts_any ft h [] = false
accepts_any ft h (p ∷ ps) = accepts ft h p || accepts_any ft h ps

-- The outer loop, over the keys in the order that `range` visits them.
unfoldable pub detect : List FileType → Text → Option FileType
detect [] h = none
detect (ft ∷ fts) h = if accepts_any ft h (magic_bytes ft) then some ft else detect fts h

-- What `r.Read(header)` gave: at most 32 bytes, or an error that is not `io.EOF`.
pub data ReadResult : Type 0 where
  bytes_read : Text → ReadResult
  read_failed : Text → ReadResult

pub data Detected : Type 0 where
  detected : FileType → Detected
  unknown_file_type : Detected
  reader_error : Text → Detected

unfoldable pub detect_file_type : List FileType → ReadResult → Detected
detect_file_type order (read_failed e) = reader_error e
detect_file_type order (bytes_read h) = elim (detect order h) [
  | some ft ↦ detected ft
  | none ↦ unknown_file_type
]
