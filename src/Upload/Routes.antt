-- ===== src/Upload/Routes.antt =====
-- The routes that upload one file, with the conversion, the accepted types and the size limit of each
-- (internal/api/handlers/convert.go).
use filemagic_backend.Prelude.{ℕ, ◌*◌, ◌≡◌, refl, sym, ap, ◌∙◌, Bool, Option, none, some, some_inj}
use filemagic_backend.Queue
use filemagic_backend.Queue.{ConversionType}
use filemagic_backend.Validator.{FileType}
use filemagic_backend.Validator.Tables.{
  for_image_conversion, for_pdf_compression, for_image_compression, for_metadata_removal, for_ocr,
  for_audio_extract, for_audio_convert, for_video_compress, for_mov_to_mp4, for_pdf_password,
  for_pdf_extract_images,
}

pub data Route : Type 0 where
  image_convert pdf_compress image_compress ocr metadata_remove metadata_inspect audio_extract :
      Route
  audio_convert video_compress mov_to_mp4 video_to_gif pdf_password pdf_edit : Route
  pdf_extract_images favicon pdf_repair : Route

-- `n << 20`
abbrev pub shifted : ℕ → ℕ
shifted n = n * 1048576

unfoldable pub conversion_of : Route → ConversionType
conversion_of image_convert = Queue.image_format
conversion_of pdf_compress = Queue.pdf_compress
conversion_of image_compress = Queue.image_compress
conversion_of ocr = Queue.ocr
conversion_of metadata_remove = Queue.metadata_remove
conversion_of metadata_inspect = Queue.metadata_inspect
conversion_of audio_extract = Queue.audio_extract
conversion_of audio_convert = Queue.audio_convert
conversion_of video_compress = Queue.video_compress
conversion_of mov_to_mp4 = Queue.mov_to_mp4
conversion_of video_to_gif = Queue.video_to_gif
conversion_of pdf_password = Queue.pdf_password
conversion_of pdf_edit = Queue.pdf_edit
conversion_of pdf_extract_images = Queue.pdf_extract_images
conversion_of favicon = Queue.favicon
conversion_of pdf_repair = Queue.pdf_repair

unfoldable pub supported_by : Route → FileType → Bool
supported_by image_convert = for_image_conversion
supported_by pdf_compress = for_pdf_compression
supported_by image_compress = for_image_compression
supported_by ocr = for_ocr
supported_by metadata_remove = for_metadata_removal
supported_by metadata_inspect = for_metadata_removal
supported_by audio_extract = for_audio_extract
supported_by audio_convert = for_audio_convert
supported_by video_compress = for_video_compress
supported_by mov_to_mp4 = for_mov_to_mp4
supported_by video_to_gif = for_video_compress
supported_by pdf_password = for_pdf_password
supported_by pdf_edit = for_pdf_password
supported_by pdf_extract_images = for_pdf_extract_images
supported_by favicon = for_image_conversion
supported_by pdf_repair = for_pdf_password

unfoldable pub limit_of : Route → ℕ
limit_of image_convert = shifted 21
limit_of pdf_compress = shifted 41
limit_of image_compress = shifted 21
limit_of ocr = shifted 6
limit_of metadata_remove = shifted 16
limit_of metadata_inspect = shifted 16
limit_of audio_extract = shifted 101
limit_of audio_convert = shifted 51
limit_of video_compress = shifted 101
limit_of mov_to_mp4 = shifted 101
limit_of video_to_gif = shifted 31
limit_of pdf_password = shifted 31
limit_of pdf_edit = shifted 101
limit_of pdf_extract_images = shifted 31
limit_of favicon = shifted 21
limit_of pdf_repair = shifted 21

route_of : ConversionType → Option Route
route_of Queue.image_format = some image_convert
route_of Queue.pdf_compress = some pdf_compress
route_of Queue.image_compress = some image_compress
route_of Queue.ocr = some ocr
route_of Queue.metadata_remove = some metadata_remove
route_of Queue.metadata_inspect = some metadata_inspect
route_of Queue.audio_extract = some audio_extract
route_of Queue.audio_convert = some audio_convert
route_of Queue.video_compress = some video_compress
route_of Queue.mov_to_mp4 = some mov_to_mp4
route_of Queue.video_to_gif = some video_to_gif
route_of Queue.pdf_password = some pdf_password
route_of Queue.pdf_edit = some pdf_edit
route_of Queue.pdf_extract_images = some pdf_extract_images
route_of Queue.favicon = some favicon
route_of Queue.pdf_repair = some pdf_repair
route_of _ = none

route_of-conversion_of : (r : Route) → route_of (conversion_of r) ≡ some r
unfolding route_of conversion_of
route_of-conversion_of image_convert = refl
route_of-conversion_of pdf_compress = refl
route_of-conversion_of image_compress = refl
route_of-conversion_of ocr = refl
route_of-conversion_of metadata_remove = refl
route_of-conversion_of metadata_inspect = refl
route_of-conversion_of audio_extract = refl
route_of-conversion_of audio_convert = refl
route_of-conversion_of video_compress = refl
route_of-conversion_of mov_to_mp4 = refl
route_of-conversion_of video_to_gif = refl
route_of-conversion_of pdf_password = refl
route_of-conversion_of pdf_edit = refl
route_of-conversion_of pdf_extract_images = refl
route_of-conversion_of favicon = refl
route_of-conversion_of pdf_repair = refl

-- Two routes that queue the same conversion are the same route: the conversion of a job determines the
-- types that were accepted for it and the limit that its file kept to.
pub route_determined : (r r' : Route) → conversion_of r ≡ conversion_of r' → r ≡ r'
route_determined r r' e =
    some_inj (sym (route_of-conversion_of r) ∙ ap route_of e ∙ route_of-conversion_of r')
