-- ===== src/Validator/Examples.antt =====
-- Headers and names of the tests (internal/validator/validator_test.go), and the theorems at them.
use filemagic_backend.Prelude.{
  ◌++◌, ◌≡◌, refl, ◌↔◌, true, List, [], ◌∷◌, some, arith, Text, codes, eq_text,
}
use filemagic_backend.Validator.{
  FileType, jpeg, png, webp, heic, bmp, tiff, pdf, mp4, mov, mkv, avi, mp3, wav, flac, m4a,
  magic_bytes, accepts, accepts_any, validate_structure, detect, bytes_read, detected,
  detect_file_type,
}
use filemagic_backend.Validator.Unique.{accepted_unique}
use filemagic_backend.Validator.Order.{Covers, detect_exact}
use filemagic_backend.Validator.Tables.{all_types}
use filemagic_backend.Validator.Names.{
  pem, get_cert_extension, detect_cert_file_type, cert_extension_roundtrip,
}

-- A RIFF header of 36 bytes that holds a wave file.
abbrev wave_header : Text
wave_header = codes "RIFF" ++ 36 ∷ 0 ∷ 0 ∷ 0 ∷ codes "WAVEfmt "

all_types-Covers : Covers all_types
all_types-Covers jpeg = ground arith
all_types-Covers _ = ground arith

abbrev backwards : List FileType
backwards =
    m4a ∷ flac ∷ wav ∷ mp3 ∷ avi ∷ mkv ∷ mov ∷ mp4 ∷ pdf ∷ tiff ∷ bmp ∷ heic ∷ webp ∷ png ∷ jpeg
    ∷ []

backwards-Covers : Covers backwards
backwards-Covers jpeg = ground arith
backwards-Covers _ = ground arith

accepted_unique_example : wav ≡ wav
unfolding accepts_any accepts magic_bytes validate_structure eq_text
accepted_unique_example = accepted_unique wave_header wav wav refl refl

detect_exact_example :
    (detect all_types wave_header ≡ some wav)
    ↔ (accepts_any wav wave_header (magic_bytes wav) ≡ true)
detect_exact_example = detect_exact all_types wave_header wav all_types-Covers

wave_detected : detect_file_type backwards (bytes_read wave_header) ≡ detected wav
unfolding detect_file_type detect accepts_any accepts magic_bytes validate_structure eq_text
wave_detected = refl

cert_extension_roundtrip_example :
    detect_cert_file_type (λ c. c) (codes "My.Key" ++ get_cert_extension pem) ≡ some pem
cert_extension_roundtrip_example = cert_extension_roundtrip (λ c. c) (codes "My.Key") pem
