-- ===== src/Converter/Ocr/Types.antt =====
-- The types of file that an upload for text recognition may have, and those that the recognition takes
-- (internal/validator/filetype.go and internal/converter/ocr.go).
use filemagic_backend.Prelude.{◌≡◌, ◌↔◌, true, arith, eq_text}
use filemagic_backend.Validator.{
  FileType, jpeg, png, webp, heic, bmp, tiff, pdf, mp4, mov, mkv, avi, mp3, wav, flac, m4a,
}
use filemagic_backend.Validator.Names.{one_of}
use filemagic_backend.Validator.Tables.{for_ocr, get_extension}
use filemagic_backend.Converter.Ocr.{refused, preparation}

-- Of the types that an upload for text recognition may have, the recognition refuses TIFF, by the
-- extension that the upload stores the file under, and no other.
pub preparation-for_ocr :
    (t : FileType) → for_ocr t ≡ true → (preparation (get_extension t) ≡ refused) ↔ (t ≡ tiff)
unfolding for_ocr get_extension preparation one_of eq_text
preparation-for_ocr jpeg h = ground arith
preparation-for_ocr png h = ground arith
preparation-for_ocr webp h = ground arith
preparation-for_ocr heic h = ground arith
preparation-for_ocr bmp h = ground arith
preparation-for_ocr tiff h = ground arith
preparation-for_ocr pdf h = ground arith
preparation-for_ocr mp4 h = absurd (ground arith)
preparation-for_ocr mov h = absurd (ground arith)
preparation-for_ocr mkv h = absurd (ground arith)
preparation-for_ocr avi h = absurd (ground arith)
preparation-for_ocr mp3 h = absurd (ground arith)
preparation-for_ocr wav h = absurd (ground arith)
preparation-for_ocr flac h = absurd (ground arith)
preparation-for_ocr m4a h = absurd (ground arith)
