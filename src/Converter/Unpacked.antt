-- ===== src/Converter/Unpacked.antt =====
-- `Convert` of internal/converter/decompress.go. What `filepath.Walk` visits and the working directory
-- are parameters.
pub mod Safe
use filemagic_backend.Prelude.{
  ℕ, suc, ◌+◌, Bool, true, false, not, ◌&&◌, ◌||◌, List, [], ◌∷◌, ◌++◌, length, Option, none, some,
  ltb, leb, if◌then◌else◌, Text, codes, eq_text, non_empty, has_prefix,
}
use filemagic_backend.Json.{Fields, str, int, end, field}
use filemagic_backend.Queue.{max_output_size}
use filemagic_backend.Outputs
use filemagic_backend.Outputs.{Answer, abs, rel}
use filemagic_backend.Archive.{add_int64, exceeds, ListingError, validate_7z_listing}
use filemagic_backend.Converter.{
  World, Log, Site, Run, ok, Task, pure, fail, need, check, ◌>>=◌, ◌>>◌, get_job, text_option,
  or_else, Dirs, prepare_job_dir, capture, run_tool, remove_file,
}
use filemagic_backend.Converter.Manifest.{Listing, no_files, is_none_listed, set_listing}

abbrev pub is_accepted : Option ListingError → Bool
is_accepted none = true
is_accepted (some e) = false

-- What the walk says of a path.
pub data PathKind : Type 0 where
  link directory : PathKind
  plain : ℕ → PathKind
  unreadable : Text → PathKind

-- `strings.Contains`
unfoldable pub contains : Text → Text → Bool
contains [] p = has_prefix [] p
contains (c ∷ s) p = has_prefix (c ∷ s) p || contains s p

-- `strings.HasPrefix(absPath, absOutputDir + "/") || absPath == absOutputDir`
unfoldable pub is_inside : Text → Text → Bool
is_inside abs_dir abs_path = has_prefix abs_path (abs_dir ++ codes "/") || eq_text abs_path abs_dir

unfoldable pub goes_up : Text → Bool
goes_up name =
    has_prefix name (codes "..") || contains name (codes "/..") || contains name (codes "\\")

-- `filepath.Abs` and `filepath.Rel` with the error ignored, which leaves the empty string.
abbrev pub abs_option : Answer Text → Option Text
abs_option (Answer.ok p) = some p
abs_option (Answer.failed e) = none

abbrev pub rel_or_empty : Text → Text → Text
rel_or_empty base path = or_else (rel base path) []

abbrev pub walked_entry : Text → ℕ → Listing → Listing
walked_entry name size l = record {
  files =
      field (codes "name") (str name)
        (field (codes "size") (int size) (field (codes "index") (int (length l.files)) end))
      ∷ l.files;
  total = add_int64 l.total size;
}

module _ (w : World) (cwd : Answer Text) where
  -- One regular file: the function that the walk calls, from its test of the count on.
  unfoldable pub visit_file : Text → Text → ℕ → Listing → Task Listing
  visit_file output_dir path size l = do
    check (ltb (length l.files) 100) (codes "archive contains more than 100 files")
    abs_path ← need (abs_option (abs cwd path)) (codes "invalid file path")
    check (is_inside (or_else (abs_option (abs cwd output_dir)) []) abs_path)
        (codes "path traversal detected")
    check (not (exceeds (add_int64 l.total size) max_output_size))
        (codes "decompressed content exceeds the limit")
    let name = rel_or_empty output_dir path
    check (not (goes_up name)) (codes "path traversal detected in archive entry")
    pure (walked_entry name size l)

  -- The walk over the paths that are left.
  unfoldable pub walk : Text → List (Text × PathKind) → Listing → Task Listing
  walk output_dir [] l = pure l
  walk output_dir ((path, unreadable e) ∷ rest) l = fail e
  walk output_dir ((path, link) ∷ rest) l = remove_file w path >> walk output_dir rest l
  walk output_dir ((path, directory) ∷ rest) l = walk output_dir rest l
  walk output_dir ((path, plain size) ∷ rest) l =
      visit_file output_dir path size l >>= walk output_dir rest

  unfoldable pub visited :
      (Log → Text → List (Text × PathKind)) → Text → Task (List (Text × PathKind))
  visited walks output_dir s = ok (walks s.log output_dir) s

  abbrev pub password_args : Text → List Text
  password_args password = if non_empty password then (codes "-p" ++ password) ∷ [] else []

  unfoldable pub validate_archive_listing : Dirs → Text → Text → Task (Unit {0})
  validate_archive_listing d input_path password = do
    listed ← capture w (record {
      args = codes "/usr/bin/7z" ∷ codes "l" ∷ codes "-slt" ∷ input_path ∷ password_args password;
      job_dir = d.job_dir;
      profile = codes "archive.cfg";
      seconds = 30;
    })
    out ← need listed (codes "failed to inspect archive before extraction")
    check (is_accepted (validate_7z_listing 100 max_output_size out))
        (codes "the archive's listing is not accepted")

  unfoldable pub convert_decompress : (Log → Text → List (Text × PathKind)) → Task (Unit {0})
  convert_decompress walks = do
    job ← get_job
    let password = or_else (text_option (codes "password") job.options) []
    d ← prepare_job_dir w
    validate_archive_listing d job.input_path password
    run_tool w d (codes "archive.cfg") 120 (
        codes "/usr/bin/7z"
        ∷ codes "x"
        ∷ job.input_path
        ∷ (codes "-o" ++ d.output_dir)
        ∷ codes "-y"
        ∷ password_args password)
    paths ← visited walks d.output_dir
    l ← walk d.output_dir paths no_files
    check (not (is_none_listed l)) (codes "archive is empty")
    set_listing d.output_dir l
