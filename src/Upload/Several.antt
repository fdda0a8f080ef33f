-- ===== src/Upload/Several.antt =====
-- The upload handlers that take several files (`handleMergeConversion` and `handleArchiveConversion` in
-- internal/api/handlers/convert.go). What `os.Stat` answers about a name in a directory, and how numbers
-- are printed, are parameters. The loop that looks for a free name runs on fuel; where that runs out the
-- handler has not returned, which is `none`.
pub mod Parts
pub mod Suffixes
pub mod Names
pub mod Merged
pub mod Archived
mod Examples
use filemagic_backend.Prelude.{
  ℕ, zero, suc, ◌+◌, ◌*◌, Bool, true, false, not, ◌&&◌, ◌||◌, List, [], ◌∷◌, ◌++◌, Option, none,
  some, length, take, ltb, ◌==◌, if◌then◌else◌, Text, codes, eq_text, non_empty,
}
use filemagic_backend.Json.{Fields, Value, Items, nil, cons, arr, str, end, field}
use filemagic_backend.Dict.{lookup}
use filemagic_backend.Paths.{join_path, trim_suffix}
use filemagic_backend.Queue
use filemagic_backend.Queue.{ConversionType}
use filemagic_backend.Gate
use filemagic_backend.Gate.{ErrorCode, validation_error, file_too_large, internal_error}
use filemagic_backend.Validator.{FileType, Detected, detected, bytes_read, detect_file_type}
use filemagic_backend.Validator.Tables.{get_extension}
use filemagic_backend.Validator.Names.{one_of}
use filemagic_backend.Sanitize.{sanitize_filename}
use filemagic_backend.Upload.{
  UploadConfig, owner_ip, made, MkdirEnd, Disk, Server, Reply, refused, make_dir, remove_all,
  submit_job,
}
use filemagic_backend.Upload.Routes.{shifted}

-- One uploaded file, with what `header.Open`, `os.Create` and `io.Copy` answer for it.
pub record Part : Type 0 where
  pub filename : Text
  pub size : ℕ
  pub content : Text
  pub opens : Bool
  pub creates : Bool
  pub copies : Bool

pub record PartsForm : Type 0 where
  pub parsed : Bool
  pub files : List Part
  pub values : List (Text × Text)

pub record Batch : Type 0 where
  pub cfg : UploadConfig
  pub disk : Disk
  pub form : PartsForm
  pub job_id : Text
  pub now : ℕ
  pub peer : Gate.Request

-- The end of one turn of the loop, and of the loop.
pub data PartEnd : Type 0 where
  stopped : ℕ → ErrorCode → PartEnd
  kept : Text → PartEnd
  hangs : PartEnd

pub data LoopEnd : Type 0 where
  loop_stopped : ℕ → ErrorCode → LoopEnd
  all_kept : ℕ → List Text → LoopEnd
  loop_hangs : LoopEnd

-- The loop over the files, with the index, `totalSize` and `fileNames`.
unfoldable pub store_parts :
    (ℕ → List Text → Part → PartEnd) → ℕ → ℕ → List Text → List Part → LoopEnd
store_parts step i total names [] = all_kept total names
store_parts step i total names (p ∷ ps) = elim (step i names p) [
  | stopped status code ↦ loop_stopped status code
  | hangs ↦ loop_hangs
  | kept name ↦ store_parts step (i + 1) (total + p.size) (names ++ name ∷ []) ps
]

unfoldable pub as_items : List Text → Items
as_items [] = nil
as_items (x ∷ xs) = cons (str x) (as_items xs)

abbrev pub batch_dir : Batch → Text
batch_dir b = join_path b.cfg.tmpfs_path b.job_id

abbrev pub batch_request : Batch → ConversionType → Text → Fields → ℕ → Queue.Request
batch_request b conv_type output_name options total = record {
  job_id = b.job_id;
  owner_ip = owner_ip b.cfg b.peer;
  conv_type = conv_type;
  input_path = join_path (batch_dir b) (codes "input");
  original_name = output_name;
  options = options;
  input_size = total;
  now = b.now;
}

-- What follows the checks of the form: the directory, the loop and `Submit`.
unfoldable pub run_batch :
    Batch
    → ConversionType
    → Text
    → (List Text → Fields)
    → (ℕ → List Text → Part → PartEnd)
    → Server
    → Option (Server × Reply)
run_batch b conv_type output_name options step s =
    let s1 = make_dir b.disk (batch_dir b) s in
    elim b.disk.mkdir [
      | made ↦ elim (store_parts step 0 0 [] b.form.files) [
        | loop_stopped status code ↦ some (remove_all b.disk (batch_dir b) s1, refused status code)
        | loop_hangs ↦ none
        | all_kept total names ↦ some (
            submit_job b.disk (batch_dir b)
              (batch_request b conv_type output_name (options names) total) s1)
      ]
      | _ ↦ some (s1, refused 500 internal_error)
    ]

-- The end of a turn: `os.Create` and `io.Copy`.
abbrev pub write_part : Part → Text → PartEnd
write_part p name =
    if not p.creates
    then stopped 500 internal_error
    else if not p.copies
    then stopped 500 internal_error
    else kept name

-- `fmt.Sprintf("%03d", i)`, and the order of the table of magic bytes.
module _ (print_padded : ℕ → Text) (order : List FileType) where
  unfoldable pub merge_part : (FileType → Bool) → ℕ → ℕ → List Text → Part → PartEnd
  merge_part validate max_per_file i names p =
      if ltb max_per_file p.size
      then stopped 400 file_too_large
      else if not p.opens
      then stopped 400 validation_error
      else elim (detect_file_type order (bytes_read (take 32 p.content))) [
        | detected ft ↦
            if not (validate ft)
            then stopped 400 validation_error
            else write_part p (print_padded i ++ codes "_input" ++ get_extension ft)
        | _ ↦ stopped 400 validation_error
      ]

  unfoldable pub handle_merge_conversion :
      ConversionType → (FileType → Bool) → ℕ → ℕ → Batch → Server → Option (Server × Reply)
  handle_merge_conversion conv_type validate max_per_file max_files b s =
      if not b.form.parsed
      then some (s, refused 400 file_too_large)
      else if ltb (length b.form.files) 1
      then some (s, refused 400 validation_error)
      else if ltb max_files (length b.form.files)
      then some (s, refused 400 validation_error)
      else run_batch b conv_type (codes "merged.pdf")
          (λ names. field (codes "files") (arr (as_items names)) end)
          (merge_part validate max_per_file) s

-- What `os.Stat` says of a name.
pub data StatEnd : Type 0 where
  present missing stat_failed : StatEnd

-- `filepath.Ext` of a name without separators: from the last dot on.
unfoldable pub extension : Text → Text
extension [] = []
extension (c ∷ s) = elim (extension s) [ [] ↦ if c == b'.' then c ∷ s else [] | d ∷ r ↦ d ∷ r ]

abbrev pub limit_archive_file : ℕ
limit_archive_file = shifted 36

abbrev pub max_archive_file_count : ℕ
max_archive_file_count = 3

abbrev pub archive_formats : List Text
archive_formats = codes "zip" ∷ codes "7z" ∷ codes "tar.gz" ∷ codes "tar.zst" ∷ []

-- The name with the number `i` before its extension; `fmt.Sprintf("%d", i)` is the argument.
abbrev pub suffixed : (ℕ → Text) → Text → ℕ → Text
suffixed print_decimal name i =
    trim_suffix name (extension name) ++ codes "_" ++ print_decimal i ++ extension name

abbrev pub batch_value : Batch → Text → Text
batch_value b key = elim (lookup key b.form.values) [ none ↦ [] | some v ↦ v ]

abbrev pub archive_options : Batch → List Text → Fields
archive_options b names =
    let secret = batch_value b (codes "password") in
    field (codes "files") (arr (as_items names)) (
      field (codes "format") (str (batch_value b (codes "format")))
        (if non_empty secret then field (codes "password") (str secret) end else end))

-- `os.Stat` of a name beside the names stored so far; `fmt.Sprintf("%d", i)`; and Unicode's upper case.
module _ (stat : List Text → Text → StatEnd) (print_decimal : ℕ → Text)
    (unicode_upper : ℕ → ℕ) where
  -- The loop for a duplicate name: only `os.IsNotExist` ends it.
  unfoldable pub find_free : ℕ → ℕ → List Text → Text → Option Text
  find_free zero i names name = none
  find_free (suc fuel) i names name =
      let rest = find_free fuel (i + 1) names name in
      elim (stat names (suffixed print_decimal name i)) [
        | missing ↦ some (suffixed print_decimal name i)
        | _ ↦ rest
      ]

  unfoldable pub free_name : ℕ → List Text → Text → Option Text
  free_name fuel names name =
      let found = find_free fuel 1 names name in
      elim (stat names name) [ present ↦ found | _ ↦ some name ]

  unfoldable pub archive_part : ℕ → ℕ → List Text → Part → PartEnd
  archive_part fuel i names p =
      if ltb limit_archive_file p.size
      then stopped 400 file_too_large
      else if not p.opens
      then stopped 400 validation_error
      else elim (free_name fuel names (sanitize_filename unicode_upper p.filename)) [
        | none ↦ hangs
        | some name ↦ write_part p name
      ]

  unfoldable pub handle_archive_conversion :
      ℕ → ConversionType → Batch → Server → Option (Server × Reply)
  handle_archive_conversion fuel conv_type b s =
      let format = batch_value b (codes "format") in
      if not b.form.parsed
      then some (s, refused 400 file_too_large)
      else if ltb (length b.form.files) 1
      then some (s, refused 400 validation_error)
      else if ltb max_archive_file_count (length b.form.files)
      then some (s, refused 400 validation_error)
      else if not (non_empty format)
      then some (s, refused 400 validation_error)
      else if not (one_of format archive_formats)
      then some (s, refused 400 validation_error)
      else run_batch b conv_type (codes "archive." ++ format) (archive_options b)
          (archive_part fuel) s
