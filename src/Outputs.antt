-- ===== src/Outputs.antt =====
-- How a download opens a converted file (internal/api/handlers/convert.go: openRegularFileNoFollow,
-- openRegularFileUnderDir and their helpers). What the file system answers is a parameter: a record of
-- functions, the calls of one request.
pub mod Below
pub mod Examples
use filemagic_backend.Prelude.{
  ℕ, Bool, true, false, not, ◌&&◌, ◌||◌, List, [], ◌∷◌, ◌++◌, Option, none, some, ◌==◌,
  if◌then◌else◌, Text, codes, eq_text, has_prefix, non_empty,
}
use filemagic_backend.Paths.{split_on, join_with, clean, is_abs, join_path}

-- An error of a system call, and the errors of these functions.
pub data FsError : Type 0 where
  not_exist io_failed : FsError

pub data OpenError : Type 0 where
  file_system : FsError → OpenError
  invalid_output_path output_file_missing : OpenError

pub data Answer {ℓ} (A : Type ℓ) : Type ℓ where
  ok : A → Answer A
  failed : FsError → Answer A

-- `info.Mode()`, as far as it is looked at.
pub data FileKind : Type 0 where
  regular symlink other_kind : FileKind

-- An open file: what `Stat` says of it, and what it holds.
pub record File : Type 0 where
  pub kind : FileKind
  pub size : ℕ
  pub content : Text

-- `os.Lstat`; `os.OpenFile` with O_NOFOLLOW, then `file.Stat`; `filepath.EvalSymlinks`; `os.Getwd`.
pub record FileSystem : Type 0 where
  pub lstat : Text → Answer FileKind
  pub open_no_follow : Text → Answer (Answer File)
  pub eval_symlinks : Text → Answer Text
  pub working_dir : Answer Text

pub data Opened : Type 0 where
  opened : File → Opened
  not_opened : OpenError → Opened

unfoldable pub is_regular : FileKind → Bool
is_regular regular = true
is_regular symlink = false
is_regular other_kind = false

unfoldable pub is_symlink : FileKind → Bool
is_symlink regular = false
is_symlink symlink = true
is_symlink other_kind = false

unfoldable pub open_regular_file_no_follow : FileSystem → Text → Opened
open_regular_file_no_follow fs path = elim (fs.lstat path) [
  | failed e ↦ not_opened (file_system e)
  | ok kind ↦
      if is_symlink kind
      then not_opened invalid_output_path
      else if not (is_regular kind)
      then not_opened invalid_output_path
      else elim (fs.open_no_follow path) [
        | failed e ↦ not_opened (file_system e)
        | ok stat ↦ elim stat [
          | failed e ↦ not_opened (file_system e)
          | ok file ↦
              if not (is_regular file.kind) then not_opened invalid_output_path else opened file
        ]
      ]
]

unfoldable pub has_unsafe_part : List Text → Bool
has_unsafe_part [] = false
has_unsafe_part (part ∷ parts) =
    eq_text part (codes ".") || eq_text part (codes "..") || has_unsafe_part parts

unfoldable pub has_unsafe_path_segment : Text → Bool
has_unsafe_path_segment name = has_unsafe_part (split_on b'/' name)

-- `strings.ContainsAny(name, "\x00\\")`
unfoldable pub has_nul_or_backslash : Text → Bool
has_nul_or_backslash [] = false
has_nul_or_backslash (c ∷ s) = c == 0 || c == 92 || has_nul_or_backslash s

-- `filepath.Abs`
unfoldable pub abs : Answer Text → Text → Answer Text
abs working_dir path =
    if is_abs path
    then ok (clean path)
    else elim working_dir [ failed e ↦ failed e | ok dir ↦ ok (join_path dir path) ]

-- The elements of a path that is cleaned: what stands between its slashes.
unfoldable pub without_empty : List Text → List Text
without_empty [] = []
without_empty (p ∷ ps) = if non_empty p then p ∷ without_empty ps else without_empty ps

unfoldable pub elements : Text → List Text
elements s = without_empty (split_on b'/' s)

-- One `..` for each element.
unfoldable pub ups : List Text → List Text
ups [] = []
ups (b ∷ bs) = codes ".." ∷ ups bs

-- The walk of `filepath.Rel` over the elements of both paths; an error is `none`.
unfoldable pub rel_elements : List Text → List Text → Option (List Text)
rel_elements [] ts = some ts
rel_elements (b ∷ bs) [] = some (ups (b ∷ bs))
rel_elements (b ∷ bs) (t ∷ ts) =
    let rest = rel_elements bs ts in
    if eq_text b t
    then rest
    else if eq_text b (codes "..")
    then none
    else some (ups (b ∷ bs) ++ t ∷ ts)

-- `filepath.Rel`
unfoldable pub rel : Text → Text → Option Text
rel base_path target =
    let b = clean base_path in
    let t = clean target in
    if eq_text t b
    then some (codes ".")
    else let b' : Text = if eq_text b (codes ".") then [] else b in
      if is_abs b'
      then (if is_abs t
          then elim (rel_elements (elements b') (elements t)) [
            | none ↦ none
            | some ps ↦ some (join_with (codes "/") ps)
          ]
          else none)
      else if is_abs t
      then none
      else elim (rel_elements (elements b') (elements t)) [
        | none ↦ none
        | some ps ↦ some (join_with (codes "/") ps)
      ]

unfoldable pub path_within_base : Text → Text → Bool
path_within_base base_path candidate = elim (rel base_path candidate) [
  | none ↦ false
  | some r ↦
      eq_text r (codes ".") || not (eq_text r (codes "..")) && not (has_prefix r (codes "../"))
]

unfoldable pub open_regular_file_under_dir : FileSystem → Text → Text → Opened
open_regular_file_under_dir fs base_dir name =
    let clean_name = clean name in
    if not (non_empty name)
      || is_abs name
      || has_nul_or_backslash name
      || has_unsafe_path_segment name
    then not_opened invalid_output_path
    else if eq_text clean_name (codes ".")
        || eq_text clean_name (codes "..")
        || has_prefix clean_name (codes "../")
    then not_opened invalid_output_path
    else elim (abs fs.working_dir base_dir) [
      | failed e ↦ not_opened (file_system e)
      | ok abs_base ↦ elim (abs fs.working_dir (join_path abs_base clean_name)) [
        | failed e ↦ not_opened (file_system e)
        | ok abs_path ↦
            if not (path_within_base abs_base abs_path)
            then not_opened invalid_output_path
            else elim (fs.eval_symlinks abs_base) [
              | failed e ↦ not_opened (file_system e)
              | ok resolved_base ↦ elim (fs.eval_symlinks abs_path) [
                | failed not_exist ↦ not_opened output_file_missing
                | failed io_failed ↦ not_opened (file_system io_failed)
                | ok resolved_path ↦
                    if not (path_within_base resolved_base resolved_path)
                    then not_opened invalid_output_path
                    else open_regular_file_no_follow fs abs_path
              ]
            ]
      ]
    ]
