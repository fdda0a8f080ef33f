-- ===== src/Upload.antt =====
-- The upload handlers that submit one file or one text (internal/api/handlers/convert.go). What the
-- multipart parser, the JSON decoder and the file system answer in a request are arguments; an error
-- reply is its status and its code, without the text. Text bodies are ASCII.
pub mod Routes
pub mod Storing
pub mod Accepted
pub mod Texts
pub mod Named
pub mod Several
pub mod Owner
pub mod Examples
use filemagic_backend.Prelude.{
  ℕ, ◌+◌, ◌*◌, ◌/◌, Bool, true, false, not, List, [], ◌∷◌, ◌++◌, Option, none, some, length, take,
  ltb, if◌then◌else◌, Text, codes, eq_text, non_empty,
}
use filemagic_backend.Json.{Fields, Value, str, end, field}
use filemagic_backend.Paths.{join_path}
use filemagic_backend.Queue
use filemagic_backend.Queue.{Queue, ConversionType, Job, SubmitResult, accepted, submit}
use filemagic_backend.Gate
use filemagic_backend.Gate.{
  ErrorCode, validation_error, file_too_large, internal_error, header, trim_space, remote_ip,
  is_trusted, split_host,
}
use filemagic_backend.Validator.{
  FileType, Detected, detected, bytes_read, read_failed, ReadResult, detect_file_type,
}
use filemagic_backend.Validator.Tables.{get_extension}

-- The part of `config.Config` that the handlers read.
pub record UploadConfig : Type 0 where
  pub trusted_ips : List Text
  pub tmpfs_path : Text

unfoldable pub is_internal_request : UploadConfig → Gate.Request → Bool
is_internal_request cfg r =
    let host : Text = elim (split_host r.remote_addr) [ none ↦ r.remote_addr | some h ↦ h ] in
    is_trusted host cfg.trusted_ips

unfoldable pub owner_ip : UploadConfig → Gate.Request → Text
owner_ip cfg r =
    if is_internal_request cfg r
    then []
    else let cf_ip = trim_space (header r (codes "CF-Connecting-IP")) in
      if non_empty cf_ip
      then cf_ip
      else elim (split_host r.remote_addr) [ none ↦ r.remote_addr | some host ↦ host ]

-- The form file, and the form.
pub record FormFile : Type 0 where
  pub filename : Text
  pub size : ℕ
  pub content : Text

pub record Form : Type 0 where
  pub parsed : Bool
  pub file : Option FormFile
  pub options : Text

-- `os.MkdirAll` may fail before it has made the job's directory, or after.
pub data MkdirEnd : Type 0 where
  made absent partly : MkdirEnd

-- What the file system answers in one request.
pub record Disk : Type 0 where
  pub mkdir : MkdirEnd
  pub create : Bool
  pub copy : Bool
  pub removed : Bool

-- The queue, and the job directories that exist.
pub record Server : Type 0 where
  pub queue : Queue
  pub job_dirs : List Text

pub data Reply : Type 0 where
  refused : ℕ → ErrorCode → Reply
  queued : Text → ℕ → ℕ → Reply

unfoldable pub make_dir : Disk → Text → Server → Server
make_dir d dir s = elim d.mkdir [
  | made ↦ record s { job_dirs = dir ∷ s.job_dirs }
  | partly ↦ record s { job_dirs = dir ∷ s.job_dirs }
  | absent ↦ s
]

unfoldable pub without : Text → List Text → List Text
without dir [] = []
without dir (x ∷ xs) = let rest = without dir xs in if eq_text x dir then rest else x ∷ rest

-- `os.RemoveAll(jobDir)`, whose error the handlers ignore.
unfoldable pub remove_all : Disk → Text → Server → Server
remove_all d dir s = if d.removed then record s { job_dirs = without dir s.job_dirs } else s

-- The end of each handler: `Submit`, and the reply.
unfoldable pub submit_job : Disk → Text → Queue.Request → Server → Server × Reply
submit_job d dir q s =
    let (queue, result) = submit s.queue q in
    elim result [
      | Queue.queue_full ↦
          (remove_all d dir (record s { queue = queue }), refused 503 Gate.queue_full)
      | accepted job position ↦ (record s { queue = queue }, queued job.id position (position * 5))
    ]

-- The steps of `handleConversion` on the file system, then `Submit`.
unfoldable pub store_upload : Disk → Text → Text → Queue.Request → Server → Server × Reply
store_upload d dir path q s =
    let s1 = make_dir d dir s in
    elim d.mkdir [
      | made ↦
          if not d.create
          then (remove_all d dir s1, refused 500 internal_error)
          else if not d.copy
          then (remove_all d dir s1, refused 500 internal_error)
          else submit_job d dir q s1
      | _ ↦ (s1, refused 500 internal_error)
    ]

-- The options field; `json.Unmarshal` into a map is the argument.
unfoldable pub form_options : (Text → Option Fields) → Text → Option Fields
form_options parse_json text = if non_empty text then parse_json text else some end

-- `json.Unmarshal` into a map, and the iteration order of the table of magic bytes.
module _ (parse_json : Text → Option Fields) (order : List FileType) where
  unfoldable pub handle_conversion :
      UploadConfig
      → ConversionType
      → (FileType → Bool)
      → ℕ
      → Disk
      → Form
      → Text
      → ℕ
      → Gate.Request
      → Server
      → Server × Reply
  handle_conversion cfg conv_type validate max_file_size d form job_id now r s =
      if not form.parsed then (s, refused 400 file_too_large) else elim form.file [
        | none ↦ (s, refused 400 validation_error)
        | some file ↦
            if ltb max_file_size file.size
            then (s, refused 400 file_too_large)
            else elim (detect_file_type order (bytes_read (take 32 file.content))) [
              | detected ft ↦
                  if not (validate ft)
                  then (s, refused 400 validation_error)
                  else elim (form_options parse_json form.options) [
                    | none ↦ (s, refused 400 validation_error)
                    | some options ↦
                        let dir = join_path cfg.tmpfs_path job_id in
                        let input_dir = join_path dir (codes "input") in
                        let path = join_path input_dir (codes "input" ++ get_extension ft) in
                        store_upload d dir path
                          (record {
                            job_id = job_id;
                            owner_ip = owner_ip cfg r;
                            conv_type = conv_type;
                            input_path = path;
                            original_name = file.filename;
                            options = options;
                            input_size = file.size;
                            now = now;
                          })
                          s
                  ]
              | _ ↦ (s, refused 400 validation_error)
            ]
      ]

abbrev pub max_text_length : ℕ
max_text_length = 4096

-- The body of a text request; the decoder's error, or a text and the options. A nil map reads as one
-- without fields.
pub record TextBody : Type 0 where
  pub text : Text
  pub options : Fields

-- `options[key] = value`
unfoldable pub set_field : Text → Value → Fields → Fields
set_field key value end = field key value end
set_field key value (field k v rest) =
    let tail = set_field key value rest in
    if eq_text k key then field k value rest else field k v tail

unfoldable pub handle_text_conversion :
    UploadConfig
    → ConversionType
    → Text
    → Disk
    → Option TextBody
    → Text
    → ℕ
    → Gate.Request
    → Server
    → Server × Reply
handle_text_conversion cfg conv_type output_name d body job_id now r s = elim body [
  | none ↦ (s, refused 400 validation_error)
  | some b ↦
      let text = trim_space b.text in
      if not (non_empty text)
      then (s, refused 400 validation_error)
      else if ltb max_text_length (length text)
      then (s, refused 400 validation_error)
      else let dir = join_path cfg.tmpfs_path job_id in
        let s1 = make_dir d dir s in
        elim d.mkdir [
          | made ↦
              submit_job d dir
                (record {
                  job_id = job_id;
                  owner_ip = owner_ip cfg r;
                  conv_type = conv_type;
                  input_path = [];
                  original_name = output_name;
                  options = set_field (codes "text") (str text) b.options;
                  input_size = length text;
                  now = now;
                })
                s1
          | _ ↦ (s1, refused 500 internal_error)
        ]
]
