-- ===== src/Download.antt =====
-- The download handlers (internal/api/handlers/convert.go: Download, DownloadFile, DownloadZip). The
-- file system's answers, the tables of MIME types and of lower case, and whether the client takes all
-- that is sent are parameters. The goroutine that cleans up after a download is a list of job ids and an
-- operation of its own, since it runs later.
pub mod Passes
pub mod Once
mod Examples
use filemagic_backend.Prelude.{
  ℕ, suc, ◌+◌, Bool, true, false, not, ◌&&◌, ◌||◌, List, [], ◌∷◌, ◌++◌, Option, none, some, length,
  get_elem?, ◌==◌, if◌then◌else◌, Text, codes, eq_text, non_empty,
}
use filemagic_backend.Json.{Fields, Value, Items, nil, cons, arr, obj, str, end, field, field_value}
use filemagic_backend.Paths.{join_path, base, ext, trim_suffix, clean}
use filemagic_backend.Queue
use filemagic_backend.Queue.{Queue, Job, JobStatus, done, get_job, mark_downloaded, delete_job}
use filemagic_backend.Gate
use filemagic_backend.Gate.{ErrorCode, validation_error, not_found, internal_error}
use filemagic_backend.Validator.Names.{to_lower}
use filemagic_backend.Archive.{parse_size}
use filemagic_backend.Upload.{UploadConfig, is_internal_request, Server, Disk, remove_all}
use filemagic_backend.Upload.Named.{string_field}
use filemagic_backend.Outputs.{
  FsError, not_exist, io_failed, OpenError, file_system, invalid_output_path, output_file_missing,
  File, FileSystem, Opened, opened, not_opened, open_regular_file_no_follow,
  open_regular_file_under_dir,
}

-- The queue and the directories, the counter of processed files, and the clean-ups that are started.
pub record Host : Type 0 where
  pub server : Server
  pub processed : ℕ
  pub cleanups : List Text

-- What is sent: a file with its type and name, or the entries of an archive.
pub data Fetched : Type 0 where
  refused : ℕ → ErrorCode → Fetched
  sent : Text → Text → File → Fetched
  zipped : List (Text × Text) → Fetched

-- One request: the file system as it answers the checks, and as it answers when the archive is
-- written; whether the copy to the client ends well, and whether an archive entry can be begun.
pub record Request : Type 0 where
  pub job_id : Text
  pub index : Text
  pub peer : Gate.Request
  pub files : FileSystem
  pub later_files : FileSystem
  pub copied : Bool
  pub begins : Text → Bool

-- The entries that are objects.
unfoldable pub object_items : Items → List Fields
object_items nil = []
object_items (cons v rest) =
    let tail = object_items rest in elim v [ obj fields ↦ fields ∷ tail | _ ↦ tail ]

unfoldable pub output_files_from_metadata : Option Fields → List Fields
output_files_from_metadata none = []
output_files_from_metadata (some metadata) = elim (field_value (codes "files") metadata) [
  | some (arr items) ↦ object_items items
  | _ ↦ []
]

unfoldable pub respond_download_open_error : OpenError → Fetched
respond_download_open_error output_file_missing = refused 404 not_found
respond_download_open_error (file_system not_exist) = refused 404 not_found
respond_download_open_error invalid_output_path = refused 400 validation_error
respond_download_open_error (file_system io_failed) = refused 500 internal_error

-- The job is done, or the reply says why nothing can be fetched.
unfoldable pub with_done_job : Request → Host → (Job → Host × Fetched) → Host × Fetched
with_done_job r h next = elim (get_job h.server.queue r.job_id) [
  | none ↦ (h, refused 404 not_found)
  | some job ↦ elim job.status [ JobStatus.done ↦ next job | _ ↦ (h, refused 400 validation_error) ]
]

-- `job.MarkDownloaded()`: the winner goes on with the flag set.
unfoldable pub with_flag : Host → Job → (Host → Host × Fetched) → Host × Fetched
with_flag h job next =
    let (flags, first) = mark_downloaded h.server.queue.flags job in
    if first
    then next
        (record h { server = record h.server { queue = record h.server.queue { flags = flags } } })
    else (h, refused 410 not_found)

-- `h.stats.IncrementProcessed()` and the start of the clean-up.
unfoldable pub count_and_clean_up : UploadConfig → Request → Host → Host
count_and_clean_up cfg r h = record h {
  processed = if is_internal_request cfg r.peer then h.processed else h.processed + 1;
  cleanups = h.cleanups ++ r.job_id ∷ [];
}

-- The goroutine of a download: `os.RemoveAll(jobDir)`, then `DeleteJob`.
unfoldable pub clean_up : UploadConfig → Disk → Text → Host → Host
clean_up cfg disk job_id h =
    let s = remove_all disk (join_path cfg.tmpfs_path job_id) h.server in
    record h { server = record s { queue = delete_job s.queue job_id } }

-- `mime.TypeByExtension`, and the lower case of runes outside ASCII.
module _ (type_by_extension : Text → Text) (unicode_lower : ℕ → ℕ) (cfg : UploadConfig) where
  unfoldable pub content_type_of : Text → Text
  content_type_of name =
      let t = type_by_extension (to_lower unicode_lower (ext name)) in
      if non_empty t then t else codes "application/octet-stream"

  unfoldable pub download_name : Job → Text
  download_name job =
      if non_empty job.original_name
      then trim_suffix job.original_name (ext job.original_name)
        ++ to_lower unicode_lower (ext job.output_path)
      else base job.output_path

  unfoldable pub download : Request → Host → Host × Fetched
  download r h =
      if not (non_empty r.job_id)
      then (h, refused 400 validation_error)
      else with_done_job r h (λ job. elim (open_regular_file_no_follow r.files job.output_path) [
        | not_opened e ↦ (h, refused 500 internal_error)
        | opened file ↦ with_flag h job (λ h1.
            let reply = sent (content_type_of job.output_path) (download_name job) file in
            if r.copied then (count_and_clean_up cfg r h1, reply) else (h1, reply))
      ])

  unfoldable pub download_file : Request → Host → Host × Fetched
  download_file r h =
      if not (non_empty r.job_id) || not (non_empty r.index)
      then (h, refused 400 validation_error)
      else elim (parse_size r.index) [
        | none ↦ (h, refused 400 validation_error)
        | some idx ↦ with_done_job r h (λ job.
            elim (get_elem? (output_files_from_metadata job.metadata) idx) [
              | none ↦ (h, refused 404 not_found)
              | some entry ↦
                  let name = string_field (codes "name") entry in
                  if not (non_empty name)
                  then (h, refused 500 internal_error)
                  else elim (open_regular_file_under_dir r.files job.output_path name) [
                    | not_opened e ↦ (h, respond_download_open_error e)
                    | opened file ↦ (h, sent (content_type_of name) (base name) file)
                  ]
            ])
      ]

-- The first loop of `DownloadZip`: the names, or the reply that ends it.
pub data Checked : Type 0 where
  rejected : Fetched → Checked
  names_checked : List Text → Checked

unfoldable pub check_names : FileSystem → Text → List Text → List Fields → Checked
check_names fs dir names [] = names_checked names
check_names fs dir names (entry ∷ entries) =
    let name = string_field (codes "name") entry in
    if not (non_empty name)
    then rejected (refused 500 internal_error)
    else elim (open_regular_file_under_dir fs dir name) [
      | not_opened e ↦ rejected (respond_download_open_error e)
      | opened file ↦ check_names fs dir (names ++ name ∷ []) entries
    ]

-- Its second loop: the entries that are written, and whether it came to its end.
unfoldable pub write_entries :
    (Text → Bool) → FileSystem → Text → List Text → List (Text × Text) × Bool
write_entries begins fs dir [] = ([], true)
write_entries begins fs dir (name ∷ names) =
    let (entries, whole) = write_entries begins fs dir names in
    elim (open_regular_file_under_dir fs dir name) [
      | not_opened e ↦ ([], false)
      | opened file ↦
          if begins name then ((clean name, file.content) ∷ entries, whole) else (entries, whole)
    ]

unfoldable pub download_zip : UploadConfig → Request → Host → Host × Fetched
download_zip cfg r h =
    if not (non_empty r.job_id)
    then (h, refused 400 validation_error)
    else with_done_job r h (λ job. elim (output_files_from_metadata job.metadata) [
      | [] ↦ (h, refused 500 internal_error)
      | e ∷ es ↦ elim (check_names r.files job.output_path [] (e ∷ es)) [
        | rejected reply ↦ (h, reply)
        | names_checked names ↦ with_flag h job (λ h1.
            let (entries, whole) = write_entries r.begins r.later_files job.output_path names in
            if whole then (count_and_clean_up cfg r h1, zipped entries) else (h1, zipped entries))
      ]
    ])
