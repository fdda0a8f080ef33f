-- ===== src/Validator/Tables.antt =====
-- The tables over the file types (internal/validator/validator.go): which conversion takes which type,
-- the MIME types and the extensions.
use filemagic_backend.Prelude.{
  ◌≡◌, refl, ◌⊎◌, inl, inr, Bool, true, false, List, [], ◌∷◌, Option, none, some, if◌then◌else◌,
  Text, codes, eq_text, some_inj, ap, sym, ◌∙◌,
}
use filemagic_backend.Validator.{
  FileType, jpeg, png, webp, heic, bmp, tiff, pdf, mp4, mov, mkv, avi, mp3, wav, flac, m4a,
}

unfoldable pub for_image_conversion : FileType → Bool
for_image_conversion jpeg = true
for_image_conversion png = true
for_image_conversion webp = true
for_image_conversion heic = true
for_image_conversion bmp = true
for_image_conversion tiff = true
for_image_conversion _ = false

unfoldable pub for_pdf_compression : FileType → Bool
for_pdf_compression pdf = true
for_pdf_compression _ = false

unfoldable pub for_image_compression : FileType → Bool
for_image_compression jpeg = true
for_image_compression png = true
for_image_compression _ = false

unfoldable pub for_metadata_removal : FileType → Bool
for_metadata_removal jpeg = true
for_metadata_removal png = true
for_metadata_removal webp = true
for_metadata_removal heic = true
for_metadata_removal tiff = true
for_metadata_removal pdf = true
for_metadata_removal _ = false

unfoldable pub for_pdf_merge : FileType → Bool
for_pdf_merge pdf = true
for_pdf_merge jpeg = true
for_pdf_merge png = true
for_pdf_merge webp = true
for_pdf_merge bmp = true
for_pdf_merge tiff = true
for_pdf_merge _ = false

unfoldable pub for_image_to_pdf : FileType → Bool
for_image_to_pdf jpeg = true
for_image_to_pdf png = true
for_image_to_pdf webp = true
for_image_to_pdf bmp = true
for_image_to_pdf tiff = true
for_image_to_pdf _ = false

unfoldable pub for_ocr : FileType → Bool
for_ocr jpeg = true
for_ocr png = true
for_ocr webp = true
for_ocr heic = true
for_ocr bmp = true
for_ocr tiff = true
for_ocr pdf = true
for_ocr _ = false

unfoldable pub for_audio_extract : FileType → Bool
for_audio_extract mp4 = true
for_audio_extract mov = true
for_audio_extract mkv = true
for_audio_extract avi = true
for_audio_extract _ = false

unfoldable pub for_audio_convert : FileType → Bool
for_audio_convert mp3 = true
for_audio_convert wav = true
for_audio_convert flac = true
for_audio_convert m4a = true
for_audio_convert mp4 = true
for_audio_convert _ = false

unfoldable pub for_video_compress : FileType → Bool
for_video_compress mp4 = true
for_video_compress mov = true
for_video_compress mkv = true
for_video_compress avi = true
for_video_compress _ = false

unfoldable pub for_mov_to_mp4 : FileType → Bool
for_mov_to_mp4 mov = true
for_mov_to_mp4 _ = false

unfoldable pub for_pdf_password : FileType → Bool
for_pdf_password pdf = true
for_pdf_password _ = false

unfoldable pub for_pdf_extract_images : FileType → Bool
for_pdf_extract_images pdf = true
for_pdf_extract_images _ = false

-- `GetMimeType`; the types of the enumeration leave its default unreached.
unfoldable pub get_mime_type : FileType → Text
get_mime_type jpeg = codes "image/jpeg"
get_mime_type png = codes "image/png"
get_mime_type webp = codes "image/webp"
get_mime_type heic = codes "image/heic"
get_mime_type bmp = codes "image/bmp"
get_mime_type tiff = codes "image/tiff"
get_mime_type pdf = codes "application/pdf"
get_mime_type mp4 = codes "video/mp4"
get_mime_type mov = codes "video/quicktime"
get_mime_type mkv = codes "video/x-matroska"
get_mime_type avi = codes "video/x-msvideo"
get_mime_type mp3 = codes "audio/mpeg"
get_mime_type wav = codes "audio/wav"
get_mime_type flac = codes "audio/flac"
get_mime_type m4a = codes "audio/mp4"

-- `GetExtension`
unfoldable pub get_extension : FileType → Text
get_extension jpeg = codes ".jpg"
get_extension png = codes ".png"
get_extension webp = codes ".webp"
get_extension heic = codes ".heic"
get_extension bmp = codes ".bmp"
get_extension tiff = codes ".tiff"
get_extension pdf = codes ".pdf"
get_extension mp4 = codes ".mp4"
get_extension mov = codes ".mov"
get_extension mkv = codes ".mkv"
get_extension avi = codes ".avi"
get_extension mp3 = codes ".mp3"
get_extension wav = codes ".wav"
get_extension flac = codes ".flac"
get_extension m4a = codes ".m4a"

-- The type that an extension or a MIME type of the tables stands for.
type_of_extension : Text → List FileType → Option FileType
type_of_extension e [] = none
type_of_extension e (t ∷ ts) =
    if eq_text (get_extension t) e then some t else type_of_extension e ts

type_of_mime : Text → List FileType → Option FileType
type_of_mime e [] = none
type_of_mime e (t ∷ ts) = if eq_text (get_mime_type t) e then some t else type_of_mime e ts

abbrev pub all_types : List FileType
all_types =
    jpeg ∷ png ∷ webp ∷ heic ∷ bmp ∷ tiff ∷ pdf ∷ mp4 ∷ mov ∷ mkv ∷ avi ∷ mp3 ∷ wav ∷ flac ∷ m4a
    ∷ []

extension_back : (t : FileType) → type_of_extension (get_extension t) all_types ≡ some t
unfolding type_of_extension get_extension eq_text
extension_back jpeg = refl
extension_back _ = refl

mime_back : (t : FileType) → type_of_mime (get_mime_type t) all_types ≡ some t
unfolding type_of_mime get_mime_type eq_text
mime_back jpeg = refl
mime_back _ = refl

-- Two types with one extension, or with one MIME type, are the same type: the name `input` + extension
-- under which an upload is stored says what was detected.
pub extension_injective :
    (a b : FileType)
    → (get_extension a ≡ get_extension b) ⊎ (get_mime_type a ≡ get_mime_type b)
    → a ≡ b
extension_injective a b (inl e) =
    some_inj (sym (extension_back a) ∙ ap (λ x. type_of_extension x all_types) e ∙ extension_back b)
extension_injective a b (inr e) =
    some_inj (sym (mime_back a) ∙ ap (λ x. type_of_mime x all_types) e ∙ mime_back b)
