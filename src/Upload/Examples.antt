-- ===== src/Upload/Examples.antt =====
-- Uploads to a small server; the theorems at them.
use filemagic_backend.Prelude.{
  ℕ, ◌≡◌, refl, true, [], ◌∷◌, Option, none, some, arith, Text, codes, eq_text, has_prefix,
}
use filemagic_backend.Json.{Fields, end}
use filemagic_backend.Dict.{lookup, insert}
use filemagic_backend.Queue
use filemagic_backend.Queue.{Queue, submit, is_refused, enqueue, inflight_of}
use filemagic_backend.Gate
use filemagic_backend.Gate.{
  trim_space, header, remote_ip, get_client_ip, is_trusted, split_host, index_byte, last_index_byte,
  file_too_large, validation_error,
}
use filemagic_backend.Validator.{
  pdf, validate_structure, detect, detect_file_type, accepts, accepts_any, magic_bytes,
}
use filemagic_backend.Validator.Tables.{for_pdf_compression}
use filemagic_backend.Upload.{
  UploadConfig, owner_ip, is_internal_request, Form, made, Disk, Server, Reply, make_dir,
  submit_job, store_upload, form_options, handle_conversion, TextBody, handle_text_conversion,
}
use filemagic_backend.Upload.Accepted.{Uploaded, upload_queued, upload_refused}

abbrev pub handlers : UploadConfig
handlers = record { trusted_ips = codes "10.0.0.1" ∷ []; tmpfs_path = codes "/t" }

abbrev pub disk : Disk
disk = record { mkdir = made; create = true; copy = true; removed = true }

abbrev pub page : Gate.Request
page = record { method = codes "POST"; remote_addr = codes "1.1.1.1:443"; headers = [] }

abbrev pub empty : Server
empty = record { queue = Queue.new 9; job_dirs = [] }

abbrev document : ℕ → Form
document size = record {
  parsed = true;
  file = some (record { filename = codes "a.pdf"; size = size; content = codes "%PDF-1.7" });
  options = [];
}

abbrev no_json : Text → Option Fields
no_json text = none

abbrev handle : ℕ → Server × Reply
handle size =
    handle_conversion no_json (pdf ∷ []) handlers Queue.pdf_compress for_pdf_compression 99 disk
      (document size) (codes "j") 5 page empty

upload_queued_example :
    Uploaded no_json
      (pdf ∷ [])
      handlers
      Queue.pdf_compress
      for_pdf_compression
      99
      (document 8)
      (codes "j")
      5
      page
      empty
      (handle 8).0
unfolding handle_conversion detect_file_type detect accepts accepts_any magic_bytes
    for_pdf_compression form_options store_upload make_dir submit_job submit is_refused enqueue
    owner_ip is_internal_request is_trusted split_host index_byte last_index_byte header trim_space
    lookup insert inflight_of eq_text has_prefix Queue.new validate_structure
upload_queued_example =
    upload_queued no_json (pdf ∷ []) handlers Queue.pdf_compress for_pdf_compression 99 (document 8)
      (codes "j") 5 page disk empty (handle 8).0 (codes "j") 1 5 refl

upload_refused_example : (handle 100).0 ≡ empty
unfolding handle_conversion
upload_refused_example =
    upload_refused no_json (pdf ∷ []) handlers Queue.pdf_compress for_pdf_compression 99
      (document 100) (codes "j") 5 page disk empty (handle 100).0 400 file_too_large refl refl
      (ground arith) tt

abbrev body : Text → TextBody
body text = record { text = text; options = end }

abbrev handle_text : Text → Server × Reply
handle_text text =
    handle_text_conversion handlers Queue.qr_code (codes "qrcode.png") disk (some (body text))
      (codes "j") 5 page empty
