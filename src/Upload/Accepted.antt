-- ===== src/Upload/Accepted.antt =====
-- What an accepted upload and a refused one leave behind (`handleConversion` in
-- internal/api/handlers/convert.go).
use filemagic_backend.Prelude.{
  ℕ, ◌≤◌, ◌≡◌, refl, sym, ap, ◌∙◌, ◌≢◌, ◌⊎◌, inl, inr, Bool, true, false, List, ◌∷◌, ◌++◌, Option,
  some, arith, take, ltb, Text, codes, Bool-cases, Option-cases,
}
use filemagic_backend.Json.{Fields}
use filemagic_backend.Paths.{join_path}
use filemagic_backend.Queue
use filemagic_backend.Queue.{
  Queue, ConversionType, Job, SubmitResult, accepted, submit, is_refused, enqueue, new_job,
}
use filemagic_backend.Gate
use filemagic_backend.Gate.{ErrorCode, trim_space}
use filemagic_backend.Validator.{
  bytes_read, FileType, Detected, detected, unknown_file_type, reader_error, detect_file_type,
}
use filemagic_backend.Validator.Tables.{get_extension}
use filemagic_backend.Upload.{
  UploadConfig, owner_ip, FormFile, Form, partly, Disk, Server, Reply, refused, queued,
  store_upload, form_options, handle_conversion,
}
use filemagic_backend.Upload.Storing.{Lacks, store_upload_refused, store_upload_queued}

Detected-cases :
    (x : Detected)
    → ((ft : FileType) × (x ≡ detected ft))
      ⊎ ((x ≡ unknown_file_type) ⊎ ((e : Text) × (x ≡ reader_error e)))
Detected-cases (detected ft) = inl (ft, refl)
Detected-cases unknown_file_type = inr (inl refl)
Detected-cases (reader_error e) = inr (inr (e, refl))

-- What `handleConversion` submits.
abbrev pub request_of :
    UploadConfig
    → ConversionType
    → Text
    → ℕ
    → Gate.Request
    → FormFile
    → FileType
    → Fields
    → Queue.Request
request_of cfg conv_type job_id now r file ft options = record {
  job_id = job_id;
  owner_ip = owner_ip cfg r;
  conv_type = conv_type;
  input_path =
      join_path (join_path (join_path cfg.tmpfs_path job_id) (codes "input"))
        (codes "input" ++ get_extension ft);
  original_name = file.filename;
  options = options;
  input_size = file.size;
  now = now;
}

module _ (parse_json : Text → Option Fields) (order : List FileType) (cfg : UploadConfig)
    (conv_type : ConversionType) (validate : FileType → Bool) (max_file_size : ℕ) (form : Form)
    (job_id : Text) (now : ℕ) (r : Gate.Request) where
  -- A form that passes the checks before anything is stored.
  pub record Passes : Type 0 where
    pub file : FormFile
    pub ft : FileType
    pub options : Fields
    pub received : form.file ≡ some file
    pub within_limit : file.size ≤ max_file_size
    pub recognised : detect_file_type order (bytes_read (take 32 file.content)) ≡ detected ft
    pub supported : validate ft ≡ true
    pub parsed_options : form_options parse_json form.options ≡ some options

  -- What a queued upload says of the request, and of the server after it.
  pub record Uploaded (s s' : Server) : Type 0 where
    pub passes : Passes
    pub has_room : is_refused s.queue (owner_ip cfg r) ≡ false
    pub stored : s' ≡ record {
      queue =
          enqueue s.queue
            (request_of cfg conv_type job_id now r passes.file passes.ft passes.options);
      job_dirs = join_path cfg.tmpfs_path job_id ∷ s.job_dirs;
    }

  module _ (d : Disk) (s : Server) where
    abbrev handled : Server × Reply
    handled =
        handle_conversion parse_json order cfg conv_type validate max_file_size d form job_id now r
          s

    -- The checks refuse the form, or the handler goes on to store it.
    abbrev Decided : Type 0
    Decided =
        ((status : ℕ) × (code : ErrorCode) × (handled ≡ (s, refused status code)))
        ⊎ ((p : Passes) × (path : Text) × (handled
              ≡ store_upload d (join_path cfg.tmpfs_path job_id) path
                  (request_of cfg conv_type job_id now r p.file p.ft p.options) s))

    decide_options :
        (file : FormFile) (ft : FileType)
        → form.parsed ≡ true
        → form.file ≡ some file
        → ltb max_file_size file.size ≡ false
        → detect_file_type order (bytes_read (take 32 file.content)) ≡ detected ft
        → validate ft ≡ true
        → Decided
    unfolding handle_conversion
    decide_options file ft parsed received fits known ok =
        elim (Option-cases (form_options parse_json form.options)) [
          | inl e ↦ inl (400, Gate.validation_error, ground arith)
          | inr (options, e) ↦ inr (
            record {
              file = file;
              ft = ft;
              options = options;
              received = received;
              within_limit = ground arith;
              recognised = known;
              supported = ok;
              parsed_options = e;
            },
            (request_of cfg conv_type job_id now r file ft options).input_path,
            rw (parsed, received, fits, known, ok, e) refl,
          )
        ]

    decide_file :
        (file : FormFile)
        → form.parsed ≡ true
        → form.file ≡ some file
        → ltb max_file_size file.size ≡ false
        → Decided
    unfolding handle_conversion
    decide_file file parsed received fits =
        elim (Detected-cases (detect_file_type order (bytes_read (take 32 file.content)))) [
          | inr (inl e) ↦ inl (400, Gate.validation_error, ground arith)
          | inr (inr (x, e)) ↦ inl (400, Gate.validation_error, ground arith)
          | inl (ft, e) ↦ elim (Bool-cases (validate ft)) [
            | inr v ↦ inl (400, Gate.validation_error, ground arith)
            | inl v ↦ decide_options file ft parsed received fits e v
          ]
        ]

    decide : Decided
    unfolding handle_conversion
    decide = elim (Bool-cases form.parsed) [
      | inr e ↦ inl (400, Gate.file_too_large, ground arith)
      | inl e ↦ elim (Option-cases form.file) [
        | inl f ↦ inl (400, Gate.validation_error, ground arith)
        | inr (file, f) ↦ elim (Bool-cases (ltb max_file_size file.size)) [
          | inl l ↦ inl (400, Gate.file_too_large, ground arith)
          | inr l ↦ decide_file file e f l
        ]
      ]
    ]

  -- If a file upload is answered with a queued job, then the form had a file within the route's limit,
  -- whose first bytes were recognised as a type that the route supports, the options were well formed,
  -- the client had room in the queue, and the server has exactly one more directory and one more job:
  -- this upload's.
  pub upload_queued :
      (d : Disk) (s s' : Server) (id : Text) (position wait : ℕ)
      → handle_conversion parse_json order cfg conv_type validate max_file_size d form job_id now r
          s
        ≡ (s', queued id position wait)
      → Uploaded s s'
  upload_queued d s s' id position wait e = elim (decide d s) [
    | inl (status, code, f) ↦ absurd (ground arith)
    | inr (p, path, f) ↦
        let q = request_of cfg conv_type job_id now r p.file p.ft p.options in
        let (room, stored, name, place, estimate) =
          store_upload_queued d (join_path cfg.tmpfs_path job_id) path q s s' id position wait
            (sym f ∙ e) in
        record { passes = p; has_room = room; stored = stored }
  ]

  -- A file upload that is refused leaves the queue and the directories as they were, where the job's
  -- directory is new, is not left half made, and can be removed.
  pub upload_refused :
      (d : Disk) (s s' : Server) (status : ℕ) (code : ErrorCode)
      → handle_conversion parse_json order cfg conv_type validate max_file_size d form job_id now r
          s
        ≡ (s', refused status code)
      → d.removed ≡ true
      → d.mkdir ≢ partly
      → Lacks (join_path cfg.tmpfs_path job_id) s.job_dirs
      → s' ≡ s
  upload_refused d s s' status code e gone whole new = elim (decide d s) [
    | inl (st, c, f) ↦ ap (λ x. x.0) (sym e ∙ f)
    | inr (p, path, f) ↦
        let q = request_of cfg conv_type job_id now r p.file p.ft p.options in
        store_upload_refused d (join_path cfg.tmpfs_path job_id) path q s s' status code (sym f ∙ e)
          gone whole new
  ]
