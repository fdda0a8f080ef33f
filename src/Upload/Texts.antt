-- ===== src/Upload/Texts.antt =====
-- The text handler (`handleTextConversion` in internal/api/handlers/convert.go).
use filemagic_backend.Prelude.{
  ℕ, ◌≤◌, ◌≡◌, ◌≢◌, true, false, [], ◌∷◌, some, arith, length, Text, codes, non_empty,
}
use filemagic_backend.Json.{str}
use filemagic_backend.Paths.{join_path}
use filemagic_backend.Queue
use filemagic_backend.Queue.{
  Queue, ConversionType, Job, SubmitResult, accepted, submit, is_refused, enqueue, new_job,
}
use filemagic_backend.Gate
use filemagic_backend.Gate.{ErrorCode, trim_space}
use filemagic_backend.Upload.{
  UploadConfig, owner_ip, partly, Disk, Server, refused, queued, make_dir, TextBody, set_field,
  handle_text_conversion,
}
use filemagic_backend.Upload.Storing.{Lacks, submit_job_refused, submit_job_queued}

module _ (cfg : UploadConfig) (conv_type : ConversionType) (output_name : Text) (d : Disk)
    (body : TextBody) (job_id : Text) (now : ℕ) (r : Gate.Request) (s s' : Server) where
  -- What `handleTextConversion` submits.
  abbrev pub text_request : Queue.Request
  text_request = record {
    job_id = job_id;
    owner_ip = owner_ip cfg r;
    conv_type = conv_type;
    input_path = [];
    original_name = output_name;
    options = set_field (codes "text") (str (trim_space body.text)) body.options;
    input_size = length (trim_space body.text);
    now = now;
  }

  abbrev dir : Text
  dir = join_path cfg.tmpfs_path job_id

  -- If a text is answered with a queued job, then it is neither blank nor longer than 4096 bytes once
  -- trimmed, the client had room, and the server has exactly one more directory and one more job, which
  -- has the trimmed text among its options.
  pub text_queued :
      (id : Text) (position wait : ℕ)
      → handle_text_conversion cfg conv_type output_name d (some body) job_id now r s
        ≡ (s', queued id position wait)
      → (non_empty (trim_space body.text) ≡ true)
        × (length (trim_space body.text) ≤ 4096)
        × (is_refused s.queue (owner_ip cfg r) ≡ false)
        × (s' ≡ record { queue = enqueue s.queue text_request; job_dirs = dir ∷ s.job_dirs })
  unfolding handle_text_conversion make_dir
  text_queued id position wait e = ground (
    arith,
    submit_job_queued d dir text_request (record s { job_dirs = dir ∷ s.job_dirs }) s' id position
        wait,
  )

  -- A text that is refused leaves the queue and the directories as they were, where the job's directory
  -- is new, is not left half made, and can be removed.
  pub text_refused :
      (status : ℕ) (code : ErrorCode)
      → handle_text_conversion cfg conv_type output_name d (some body) job_id now r s
        ≡ (s', refused status code)
      → d.removed ≡ true
      → d.mkdir ≢ partly
      → Lacks dir s.job_dirs
      → s' ≡ s
  unfolding handle_text_conversion make_dir
  text_refused status code e gone whole new = ground (
    arith,
    submit_job_refused d dir text_request (record s { job_dirs = dir ∷ s.job_dirs }) s s' status
        code,
  )
