-- ===== src/Converter.antt =====
-- What the converters have in common (internal/converter): the commands that they run, the files that
-- they write, and the job that they fill in. A conversion is a command over a `Site`; what the tools and
-- the file system answer may depend on all that was done before, the log. The errors' texts are kept
-- without the values that are formatted into them.
pub mod Documents
pub mod Certs
pub mod Listed
pub mod Manifest
pub mod Media
pub mod Ocr
pub mod Pdf
pub mod PdfEdit
pub mod Crop
pub mod Watermark
pub mod Image
pub mod ImageCompress
pub mod Metadata
pub mod QrCode
pub mod Registry
pub mod Gives
pub mod Guarded
pub mod Keeps
pub mod Confined
pub mod Ends
pub mod Sizes
mod Examples
pub mod Unpacked
pub mod Video
use filemagic_backend.Prelude.{
  ℕ, ◌+◌, Bool, true, false, not, List, [], ◌∷◌, ◌++◌, Option, none, some, if◌then◌else◌, Text,
  codes, eq_text,
}
use filemagic_backend.Json.{Fields, Value, str, bool, float, arr, obj, Items, field_value}
use filemagic_backend.Paths.{join_path}
use filemagic_backend.Float.{Integer, to_int}
use filemagic_backend.Queue
use filemagic_backend.Queue.{Job}

-- One command for the runner.
pub record Command : Type 0 where
  pub args : List Text
  pub job_dir : Text
  pub profile : Text
  pub seconds : ℕ

pub data Action : Type 0 where
  ran captured : Command → Action
  made_dir removed : Text → Action
  wrote copied : Text → Text → Action
  listed measured : Text → Action

-- What `os.ReadDir` says of one entry: `none` if its `Info` fails.
pub record Entry : Type 0 where
  pub name : Text
  pub is_dir : Bool
  pub size : Option ℕ

abbrev pub Log : Type 0
Log = List Action

-- The surroundings. An error is its text. `print` is `%d`, `print_fixed` is `%.2f`, and `int_of_other` the
-- conversion to an int of the float64 values that no int64 holds.
pub record World : Type 0 where
  pub tmpfs_path : Text
  pub nsjail_config_dir : Text
  pub run : Log → Command → Option Text
  pub output : Log → Command → Option Text
  pub stat : Log → Text → Option ℕ
  pub makes : Log → Text → Bool
  pub writes : Log → Text → Text → Bool
  pub copies : Log → Text → Text → Bool
  pub lists : Log → Text → Option (List Entry)
  pub print : ℕ → Text
  pub print_fixed : ℕ → Text
  pub int_of_other : ℕ → Integer
  pub unicode_lower : ℕ → ℕ
  pub type_by_extension : Text → Text

-- The job as the conversion has left it, and what was done.
pub record Site : Type 0 where
  pub job : Job
  pub log : Log

pub data Run (A : Type 0) : Type 0 where
  ok : A → Site → Run A
  failed : Text → Site → Run A
  panicked : Site → Run A

abbrev pub Task : Type 0 → Type 0
Task A = Site → Run A

unfoldable pub pure : {A : Type 0} → A → Task A
pure = ok

unfoldable pub fail : {A : Type 0} → Text → Task A
fail = failed

unfoldable pub panic : {A : Type 0} → Task A
panic = panicked

module _ {A B : Type 0} where
  abbrev pub and_then : Run A → (A → Task B) → Run B
  and_then (ok a s) k = k a s
  and_then (failed e s) k = failed e s
  and_then (panicked s) k = panicked s

  infixl 5 ◌>>=◌ ◌>>◌
  unfoldable pub ◌>>=◌ : Task A → (A → Task B) → Task B
  m >>= k = λ s. and_then (m s) k

  unfoldable pub ◌>>◌ : Task A → Task B → Task B
  m >> k = λ s. and_then (m s) (λ _. k)

abbrev pub note : Action → Site → Site
note a s = record s { log = a ∷ s.log }

unfoldable pub get_job : Task Job
get_job s = ok s.job s

unfoldable pub check : Bool → Text → Task (Unit {0})
check b e = if b then pure tt else fail e

-- The value of an answer, or the error.
unfoldable pub need : {A : Type 0} → Option A → Text → Task A
need none e = fail e
need (some a) e = pure a

-- `job.Options[key].(string)`, `.(float64)`, `.(bool)`, `.([]any)`.
abbrev pub text_option : Text → Fields → Option Text
text_option key options = elim (field_value key options) [ some (str t) ↦ some t | _ ↦ none ]

abbrev pub float_option : Text → Fields → Option ℕ
float_option key options = elim (field_value key options) [ some (float b) ↦ some b | _ ↦ none ]

abbrev pub bool_option : Text → Fields → Option Bool
bool_option key options = elim (field_value key options) [ some (bool b) ↦ some b | _ ↦ none ]

abbrev pub list_option : Text → Fields → Option Items
list_option key options = elim (field_value key options) [ some (arr x) ↦ some x | _ ↦ none ]

abbrev pub or_else : {A : Type 0} → Option A → A → A
or_else none d = d
or_else (some a) d = a

-- The directories of a job.
pub record Dirs : Type 0 where
  pub job_dir : Text
  pub output_dir : Text

module _ (w : World) where
  -- `int(v)`
  abbrev pub int_of : ℕ → Integer
  int_of = to_int w.int_of_other

  -- `runner.Run`, with the caller's own words before its error.
  unfoldable pub run_wrapped : Text → Command → Task (Unit {0})
  run_wrapped words c s = elim (w.run s.log c) [
    | none ↦ ok tt (note (ran c) s)
    | some e ↦ failed (words ++ e) (note (ran c) s)
  ]

  -- `runner.Run`, for its error.
  unfoldable pub try_run : Command → Task (Option Text)
  try_run c s = ok (w.run s.log c) (note (ran c) s)

  -- `runner.RunWithOutput`; `none` is its error.
  unfoldable pub capture : Command → Task (Option Text)
  capture c s = ok (w.output s.log c) (note (captured c) s)

  -- `os.MkdirAll`
  unfoldable pub make_dir : Text → Text → Task (Unit {0})
  make_dir words path s =
      if w.makes s.log path
      then ok tt (note (made_dir path) s)
      else failed words (note (made_dir path) s)

  -- `os.WriteFile`; the answer is whether it went well.
  unfoldable pub write_file : Text → Text → Task Bool
  write_file path content s = ok (w.writes s.log path content) (note (wrote path content) s)

  -- `copyFile`
  unfoldable pub copy_file : Text → Text → Text → Task (Unit {0})
  copy_file words src dst s =
      if w.copies s.log src dst
      then ok tt (note (copied src dst) s)
      else failed words (note (copied src dst) s)

  -- `os.ReadDir`
  unfoldable pub read_dir : Text → Text → Task (List Entry)
  read_dir words path s = elim (w.lists s.log path) [
    | none ↦ failed words (note (listed path) s)
    | some entries ↦ ok entries (note (listed path) s)
  ]

  -- `os.Stat`, for the size.
  unfoldable pub file_size : Text → Text → Task ℕ
  file_size words path s = elim (w.stat s.log path) [
    | none ↦ failed words (note (measured path) s)
    | some size ↦ ok size (note (measured path) s)
  ]

  -- `os.Remove`, whose error is ignored.
  unfoldable pub remove_file : Text → Task (Unit {0})
  remove_file path s = ok tt (note (removed path) s)

  -- `PrepareJobDir`
  unfoldable pub prepare_job_dir : Task Dirs
  prepare_job_dir = do
    job ← get_job
    let dir = join_path w.tmpfs_path job.id
    make_dir (codes "failed to create input dir") (join_path dir (codes "input"))
    make_dir (codes "failed to create output dir") (join_path dir (codes "output"))
    pure (record { job_dir = dir; output_dir = join_path dir (codes "output") })

-- `job.OutputPath`, `job.OutputSize`, and so on.
unfoldable pub set_output : Text → ℕ → Task (Unit {0})
set_output path size s =
    ok tt (record s { job = record s.job { output_path = path; output_size = size } })

unfoldable pub set_input : Text → ℕ → Task (Unit {0})
set_input path size s =
    ok tt (record s { job = record s.job { input_path = path; input_size = size } })

unfoldable pub set_metadata : Option Fields → Task (Unit {0})
set_metadata m s = ok tt (record s { job = record s.job { metadata = m } })

module _ (w : World) where
  unfoldable pub run_tool : Dirs → Text → ℕ → List Text → Task (Unit {0})
  run_tool d profile seconds args =
      run_wrapped w []
        (record { args = args; job_dir = d.job_dir; profile = profile; seconds = seconds })

  -- The common end: the output is there, and the job is told of it.
  unfoldable pub finish : Text → Task (Unit {0})
  finish path = do size ← file_size w (codes "output file not found: ") path; set_output path size
