-- ===== src/Converter/Metadata.antt =====
-- The converters of metadata (internal/converter/metadata.go). `json.Unmarshal` into a list of objects is
-- a parameter; none is its error.
use filemagic_backend.Prelude.{
  List, [], ◌∷◌, ◌++◌, Option, none, some, ◌==◌, if◌then◌else◌, Text, codes, non_empty,
}
use filemagic_backend.Json.{Fields, end, field}
use filemagic_backend.Paths.{join_path, ext}
use filemagic_backend.Validator.Names.{one_of, to_lower}
use filemagic_backend.Converter.{
  World, Task, pure, need, ◌>>=◌, ◌>>◌, get_job, Dirs, prepare_job_dir, capture, run_wrapped,
  copy_file, set_metadata, set_output, finish,
}

abbrev pub skip_metadata_keys : List Text
skip_metadata_keys =
    codes "SourceFile"
    ∷ codes "FileName"
    ∷ codes "Directory"
    ∷ codes "FileSize"
    ∷ codes "FileModifyDate"
    ∷ codes "FileAccessDate"
    ∷ codes "FileInodeChangeDate"
    ∷ codes "FilePermissions"
    ∷ codes "FileType"
    ∷ codes "FileTypeExtension"
    ∷ codes "MIMEType"
    ∷ codes "ExifToolVersion"
    ∷ []

-- What follows the last colon, if there is one.
unfoldable pub after_colon : Text → Option Text
after_colon [] = none
after_colon (c ∷ s) = elim (after_colon s) [
  | some k ↦ some k
  | none ↦ if c == b':' then some s else none
]

unfoldable pub base_key : Text → Text
base_key k = elim (after_colon k) [ none ↦ k | some b ↦ b ]

-- The keys that are kept.
unfoldable pub kept_fields : Fields → Fields
kept_fields end = end
kept_fields (field k v rest) =
    let kept = kept_fields rest in
    if one_of (base_key k) skip_metadata_keys then kept else field k v kept

-- `metadata` is nil if the output is not JSON, or is an empty list.
unfoldable pub metadata_of : Option (List Fields) → Option Fields
metadata_of none = none
metadata_of (some []) = none
metadata_of (some (first ∷ rest)) = some (kept_fields first)

module _ (w : World) (parse_results : Text → Option (List Fields)) where
  -- `extractMetadata`; none is its error.
  unfoldable pub extract_metadata : Dirs → Text → Task (Option (Option Fields))
  extract_metadata d input_file = do
    out ← capture w (record {
      args =
          codes "/usr/bin/exiftool" ∷ codes "-fast2" ∷ codes "-json" ∷ codes "-G" ∷ input_file ∷ [];
      job_dir = d.job_dir;
      profile = codes "metadata.cfg";
      seconds = 30;
    })
    pure (elim out [ none ↦ none | some text ↦ some (metadata_of (parse_results text)) ])

  -- `job.Metadata`, if there is any.
  unfoldable pub keep_metadata : Option (Option Fields) → Task (Unit {0})
  keep_metadata none = pure tt
  keep_metadata (some none) = pure tt
  keep_metadata (some (some m)) = set_metadata (some m)

  unfoldable pub remove_metadata : Task (Unit {0})
  remove_metadata = do
    d ← prepare_job_dir w
    job ← get_job
    let e = to_lower w.unicode_lower (ext job.input_path)
    extracted ← extract_metadata d job.input_path
    keep_metadata extracted
    let output_file =
        join_path d.output_dir (codes "output" ++ (if non_empty e then e else codes ".bin"))
    copy_file w (codes "failed to copy file") job.input_path output_file
    run_wrapped w (codes "metadata removal failed: ") (record {
      args =
          codes "/usr/bin/exiftool"
          ∷ codes "-all="
          ∷ codes "-overwrite_original"
          ∷ output_file
          ∷ [];
      job_dir = d.job_dir;
      profile = codes "metadata.cfg";
      seconds = 30;
    })
    finish w output_file

  unfoldable pub inspect_metadata : Task (Unit {0})
  inspect_metadata = do
    d ← prepare_job_dir w
    job ← get_job
    extracted ← extract_metadata d job.input_path
    metadata ← need extracted (codes "metadata extraction failed")
    set_metadata metadata
    set_output job.input_path job.input_size
