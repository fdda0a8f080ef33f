-- ===== src/Outputs/Below.antt =====
-- Where a file lies that `openRegularFileUnderDir` opens (internal/api/handlers/convert.go).
use mathlib.Core.List.{append-nil}
use filemagic_backend.Prelude.{
  ◌≡◌, refl, ap, ◌∙◌, ◌≢◌, ◌⊎◌, inl, inr, Bool, true, false, not, ◌&&◌, ◌||◌, List, [], ◌∷◌, ◌++◌,
  some, arith, if◌then◌else◌, Text, codes, eq_text, eq_text_iff, has_prefix, non_empty, Bool-cases,
  Option-cases,
}
use filemagic_backend.Paths.{split_on, join_with, clean, is_abs, join_path}
use filemagic_backend.Outputs.{
  FsError, Answer, ok, failed, FileKind, regular, symlink, other_kind, File, FileSystem, opened,
  is_regular, open_regular_file_no_follow, has_unsafe_path_segment, has_nul_or_backslash, abs,
  elements, without_empty, ups, rel_elements, rel, path_within_base, open_regular_file_under_dir,
}

-- The elements of a directory's path; the current directory has none.
abbrev pub dir_elements : Text → List Text
dir_elements p =
    let c = clean p in let c' : Text = if eq_text c (codes ".") then [] else c in elements c'

-- One path, cleaned, is the other or goes on from it without going up first.
pub record IsBelow (base candidate : Text) : Type 0 where
  pub rest : List Text
  pub goes_on : elements (clean candidate) ≡ dir_elements base ++ rest
  pub stays : (more : List Text) → rest ≢ codes ".." ∷ more
  pub same_root : is_abs (clean candidate) ≡ is_abs (clean base)

rel_elements-cases :
    (bs ts ps : List Text)
    → rel_elements bs ts ≡ some ps
    → (ts ≡ bs ++ ps) ⊎ ((more : List Text) × (ps ≡ codes ".." ∷ more))
unfolding rel_elements ups
rel_elements-cases [] ts ps e = inl (ground arith)
rel_elements-cases (b ∷ bs) [] ps e = inr (ups bs, ground arith)
rel_elements-cases (b ∷ bs) (t ∷ ts) ps e = elim (Bool-cases (eq_text b t)) [
  | inl same ↦ elim (rel_elements-cases bs ts ps (ground arith)) [
    | inl whole ↦ inl (ground (arith, eq_text_iff b t))
    | inr up ↦ inr up
  ]
  | inr differ ↦ inr (ups bs ++ t ∷ ts, ground arith)
]

-- `rel` is in the directory.
abbrev stays_inside : Text → Bool
stays_inside r =
    eq_text r (codes ".") || not (eq_text r (codes "..")) && not (has_prefix r (codes "../"))

join_up : (more : List Text) → stays_inside (join_with (codes "/") (codes ".." ∷ more)) ≡ false
unfolding join_with has_prefix eq_text
join_up [] = refl
join_up (q ∷ qs) = refl

IsBelow-elements :
    (base candidate : Text) (ps : List Text)
    → rel_elements (dir_elements base) (elements (clean candidate)) ≡ some ps
    → stays_inside (join_with (codes "/") ps) ≡ true
    → is_abs (clean candidate) ≡ is_abs (clean base)
    → IsBelow base candidate
IsBelow-elements base candidate ps e inside root =
    let not_up : (more : List Text) → ps ≢ codes ".." ∷ more = λ more up.
      ground (arith, ap (λ q. stays_inside (join_with (codes "/") q)) up ∙ join_up more) in
    elim (rel_elements-cases (dir_elements base) (elements (clean candidate)) ps e) [
      | inl whole ↦ record { rest = ps; goes_on = whole; stays = not_up; same_root = root }
      | inr (more, up) ↦ absurd (not_up more up)
    ]

dot_elements : elements (codes ".") ≡ codes "." ∷ []
unfolding elements split_on without_empty
dot_elements = refl

no_elements : elements [] ≡ []
unfolding elements split_on without_empty
no_elements = refl

dot_root : (is_abs (codes ".") ≡ false) × (is_abs [] ≡ false)
unfolding is_abs has_prefix
dot_root = (refl, refl)

same-IsBelow : (base candidate : Text) → clean candidate ≡ clean base → IsBelow base candidate
same-IsBelow base candidate e = elim (Bool-cases (eq_text (clean base) (codes "."))) [
  | inl dot ↦ record {
    rest = codes "." ∷ [];
    goes_on = ground (
      arith,
      ap elements (e ∙ (eq_text_iff (clean base) (codes ".")).0 dot),
      dot_elements,
      no_elements,
    );
    stays = λ more h. ground arith;
    same_root = ap is_abs e;
  }
  | inr d ↦ record {
    rest = [];
    goes_on = ground (arith, append-nil (elements (clean base)), ap elements e);
    stays = λ more h. ground arith;
    same_root = ap is_abs e;
  }
]

-- The tests of `pathWithinBase`, by what `Rel` does.
pub path_within_base-IsBelow :
    (base candidate : Text) → path_within_base base candidate ≡ true → IsBelow base candidate
unfolding path_within_base rel
path_within_base-IsBelow base candidate h =
    let b = clean base in
    let t = clean candidate in
    let b' : Text = if eq_text b (codes ".") then [] else b in
    elim (Bool-cases (eq_text t b)) [
      | inl same ↦ same-IsBelow base candidate ((eq_text_iff t b).0 same)
      | inr differ ↦ elim (Option-cases (rel_elements (elements b') (elements t))) [
        | inl e ↦ absurd (ground arith)
        | inr (ps, e) ↦
            IsBelow-elements base candidate ps e (ground arith)
              (ground (arith, dot_root, eq_text_iff b (codes ".")))
      ]
    ]

FileKind-cases : (k : FileKind) → (k ≡ regular) ⊎ (is_regular k ≡ false)
unfolding is_regular
FileKind-cases regular = inl refl
FileKind-cases symlink = inr refl
FileKind-cases other_kind = inr refl

Answer-cases {ℓ} :
    {A : Type ℓ} (x : Answer A) → ((a : A) × (x ≡ ok a)) ⊎ ((e : FsError) × (x ≡ failed e))
Answer-cases (ok a) = inl (a, refl)
Answer-cases (failed e) = inr (e, refl)

-- What is opened was a regular file when it was looked at, and when it was opened.
pub no_follow_regular :
    (fs : FileSystem) (path : Text) (file : File)
    → open_regular_file_no_follow fs path ≡ opened file
    → (fs.lstat path ≡ ok regular) × (fs.open_no_follow path ≡ ok (ok file)) × (file.kind ≡ regular)
unfolding open_regular_file_no_follow
no_follow_regular fs path file e = elim (Answer-cases (fs.lstat path)) [
  | inr (x, l) ↦ absurd (ground arith)
  | inl (kind, l) ↦ elim (Answer-cases (fs.open_no_follow path)) [
    | inr (x, o) ↦ absurd (ground arith)
    | inl (stat, o) ↦ elim (Answer-cases stat) [
      | inr (x, t) ↦ absurd (ground arith)
      | inl (f, t) ↦ ground (arith, FileKind-cases kind, FileKind-cases f.kind)
    ]
  ]
]

-- A file that the manifest names, below the directory that the converter wrote.
pub record Confined (fs : FileSystem) (dir name : Text) (file : File) : Type 0 where
  pub base : Text
  pub path : Text
  pub resolved_base : Text
  pub resolved_path : Text
  pub named : non_empty name ≡ true
  pub relative : is_abs name ≡ false
  pub printable : has_nul_or_backslash name ≡ false
  pub straight : has_unsafe_path_segment name ≡ false
  pub base_known : abs fs.working_dir dir ≡ ok base
  pub path_known : abs fs.working_dir (join_path base (clean name)) ≡ ok path
  pub path_below : IsBelow base path
  pub base_resolves : fs.eval_symlinks base ≡ ok resolved_base
  pub path_resolves : fs.eval_symlinks path ≡ ok resolved_path
  pub resolved_below : IsBelow resolved_base resolved_path
  pub no_link : fs.lstat path ≡ ok regular
  pub is_opened : fs.open_no_follow path ≡ ok (ok file)
  pub is_file : file.kind ≡ regular

-- If a file of a directory is opened by its name, then the name is not empty, is relative, has no NUL,
-- no backslash and no `.` or `..` among its parts; the path lies below the directory, as written and
-- once all links are resolved; and what is opened is a regular file, and no link.
pub under_dir-Confined :
    (fs : FileSystem) (dir name : Text) (file : File)
    → open_regular_file_under_dir fs dir name ≡ opened file
    → Confined fs dir name file
unfolding open_regular_file_under_dir
under_dir-Confined fs dir name file e = elim (Answer-cases (abs fs.working_dir dir)) [
  | inr (x, a) ↦ absurd (ground arith)
  | inl (base, a) ↦ elim (Answer-cases (abs fs.working_dir (join_path base (clean name)))) [
    | inr (x, p) ↦ absurd (ground arith)
    | inl (path, p) ↦ elim (Answer-cases (fs.eval_symlinks base)) [
      | inr (x, b) ↦ absurd (ground arith)
      | inl (resolved_base, b) ↦ elim (Answer-cases (fs.eval_symlinks path)) [
        | inr (x, r) ↦ absurd (ground arith)
        | inl (resolved_path, r) ↦
            let (l, o, k) = no_follow_regular fs path file (ground arith) in
            record {
              base = base;
              path = path;
              resolved_base = resolved_base;
              resolved_path = resolved_path;
              named = ground arith;
              relative = ground arith;
              printable = ground arith;
              straight = ground arith;
              base_known = a;
              path_known = p;
              path_below = path_within_base-IsBelow base path (ground arith);
              base_resolves = b;
              path_resolves = r;
              resolved_below = path_within_base-IsBelow resolved_base resolved_path (ground arith);
              no_link = l;
              is_opened = o;
              is_file = k;
            }
      ]
    ]
  ]
]
