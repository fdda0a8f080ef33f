-- ===== src/Converter/Registry.antt =====
-- The registry of the converters (internal/converter/converter.go).
use filemagic_backend.Prelude.{ℕ, Bool, Option, List, Text}
use filemagic_backend.Json.{Fields}
use filemagic_backend.Float.{Integer}
use filemagic_backend.Queue.{
  ConversionType, image_format, pdf_compress, image_compress, ocr, metadata_remove, pdf_merge,
  image_to_pdf, qr_code, cert_convert, archive, metadata_inspect, markdown_pdf, audio_extract,
  audio_convert, video_compress, mov_to_mp4, video_to_gif, decompress, pdf_password, svg_to_png,
  pdf_extract_images, pdf_edit, favicon, pdf_repair, ebook_convert, font_convert,
}
use filemagic_backend.Outputs.{Answer}
use filemagic_backend.TargetSize.{Tools}
use filemagic_backend.Converter.{World, Log, Task, ◌>>=◌, get_job}
use filemagic_backend.Converter.Documents.{
  convert_markdown_pdf, convert_pdf_repair, convert_ebook, convert_font, convert_svg_to_png,
  convert_pdf_password,
}
use filemagic_backend.Converter.Media.{
  convert_mov_to_mp4, convert_audio, extract_audio, convert_video_to_gif,
}
use filemagic_backend.Converter.Video.{convert_video_compress}
use filemagic_backend.Converter.Ocr.{convert_ocr, detect_tessdata_dir, tessdata_paths}
use filemagic_backend.Converter.Certs.{convert_cert}
use filemagic_backend.Converter.Pdf.{convert_pdf_compress}
use filemagic_backend.Converter.Listed.{convert_pdf_merge, convert_image_to_pdf, convert_archive}
use filemagic_backend.Converter.Manifest.{extract_pdf_images, generate_favicon}
use filemagic_backend.Converter.Unpacked.{PathKind, convert_decompress}
use filemagic_backend.Converter.Metadata.{remove_metadata, inspect_metadata}
use filemagic_backend.Converter.PdfEdit.{convert_pdf_edit}
use filemagic_backend.Converter.Watermark.{Glyphs}
use filemagic_backend.Converter.Image.{convert_image}
use filemagic_backend.Converter.ImageCompress.{compress_image, search_target}
use filemagic_backend.Converter.QrCode.{QrLibrary, generate_qr_code}

-- What the converters take from outside besides the surroundings.
pub record Kit : Type 1 where
  pub font_script : Text
  pub editor_script : Text
  pub is_dir : Text → Bool
  pub fscan : Text → ℕ × ℕ
  pub scan_int : Text → ℕ
  pub parse_float : Text → Option ℕ
  pub parse_results : Text → Option (List Fields)
  pub marshal : Fields → Option Text
  pub float_of : ℕ → ℕ
  pub estimate : Integer → ℕ → Integer
  pub print_scale : ℕ → ℕ → Text
  pub glyphs : Glyphs
  pub walks : Log → Text → List (Text × PathKind)
  pub working_dir : Answer Text
  pub qr : QrLibrary
  pub tools : Tools

module _ (w : World) (kit : Kit) where
  -- `Get`, over what `NewRegistry` registers.
  unfoldable pub converter_for : ConversionType → Task (Unit {0})
  converter_for image_format = convert_image w kit.fscan kit.glyphs kit.scan_int kit.print_scale
  converter_for pdf_compress = convert_pdf_compress w kit.estimate
  converter_for image_compress = compress_image w kit.fscan (search_target w kit.tools kit.fscan)
  converter_for ocr = convert_ocr w kit.fscan (detect_tessdata_dir kit.is_dir tessdata_paths)
  converter_for metadata_remove = remove_metadata w kit.parse_results
  converter_for pdf_merge = convert_pdf_merge w
  converter_for image_to_pdf = convert_image_to_pdf w
  converter_for qr_code = generate_qr_code w kit.qr
  converter_for cert_convert = convert_cert w
  converter_for archive = convert_archive w
  converter_for metadata_inspect = inspect_metadata w kit.parse_results
  converter_for markdown_pdf = convert_markdown_pdf w
  converter_for audio_extract = extract_audio w
  converter_for audio_convert = convert_audio w
  converter_for video_compress = convert_video_compress w kit.parse_float
  converter_for mov_to_mp4 = convert_mov_to_mp4 w
  converter_for video_to_gif = convert_video_to_gif w
  converter_for decompress = convert_decompress w kit.working_dir kit.walks
  converter_for pdf_password = convert_pdf_password w
  converter_for svg_to_png = convert_svg_to_png w
  converter_for pdf_extract_images = extract_pdf_images w
  converter_for pdf_edit = convert_pdf_edit kit.float_of w kit.editor_script kit.marshal
  converter_for favicon = generate_favicon w kit.fscan
  converter_for font_convert = convert_font w kit.font_script
  converter_for pdf_repair = convert_pdf_repair w
  converter_for ebook_convert = convert_ebook w

  -- `Process`
  unfoldable pub process : Task (Unit {0})
  process = do job ← get_job; converter_for job.conversion_type
