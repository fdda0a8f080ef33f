-- ===== src/Archive/Reading.antt =====
-- An independent reading of a 7z listing, without checks, which groups its lines into entries; and what
-- a safe path is (`validateArchiveEntryPath` in internal/converter/decompress.go).
use filemagic_backend.Prelude.{
  ℕ, ◌+◌, ◌≡◌, ◌≢◌, Bool, true, false, not, ◌&&◌, List, [], ◌∷◌, none, some, arith, if◌then◌else◌,
  Text, codes, eq_text, eq_text_iff, non_empty, All,
}
use filemagic_backend.Paths.{split_on, is_abs}
use filemagic_backend.Gate.{trim_space}
use filemagic_backend.Archive.{
  cut, parse_size, Entry, no_entry, archive_attributes_is_dir, has_unsafe_byte, has_parent,
  validate_entry_path,
}

-- Where a reading stands: the entries closed so far, the last one first.
pub record Reading : Type 0 where
  pub open_entry : Entry
  pub begun : Bool
  pub closed : List Entry

unfoldable pub close_entry : Reading → Reading
close_entry g = record g {
  open_entry = no_entry;
  closed = if g.open_entry.has_path then g.open_entry ∷ g.closed else g.closed;
}

unfoldable pub set_path : Reading → Text → Reading
set_path g value = record g { open_entry = record g.open_entry { path = value; has_path = true } }

unfoldable pub group_field : Reading → Text → Text → Reading
group_field g key value =
    if eq_text key (codes "Path")
    then set_path (if g.open_entry.has_path then close_entry g else g) value
    else if eq_text key (codes "Size")
    then elim (parse_size value) [
      | none ↦ g
      | some n ↦ record g { open_entry = record g.open_entry { size = n; has_size = true } }
    ]
    else if eq_text key (codes "Folder")
    then record g { open_entry = record g.open_entry { is_dir = eq_text value (codes "+") } }
    else if eq_text key (codes "Attributes") && archive_attributes_is_dir value
    then record g { open_entry = record g.open_entry { is_dir = true } }
    else g

unfoldable pub group_line : Reading → Text → Reading
group_line g raw =
    let line = trim_space raw in
    if eq_text line (codes "----------")
    then record g { open_entry = no_entry; begun = true }
    else if not g.begun
    then g
    else if not (non_empty line)
    then close_entry g
    else elim (cut line) [ none ↦ g | some (key, value) ↦ group_field g key value ]

unfoldable pub group_lines : Reading → List Text → List Entry
group_lines g [] = (close_entry g).closed
group_lines g (raw ∷ raws) = group_lines (group_line g raw) raws

-- The entries that a listing declares, the last one first.
unfoldable pub declared : Text → List Entry
unfolding group_lines group_line group_field set_path close_entry
declared out =
    group_lines (record { open_entry = no_entry; begun = false; closed = [] }) (split_on b'\n' out)

unfoldable pub file_count : List Entry → ℕ
file_count [] = 0
file_count (e ∷ es) = if e.is_dir then file_count es else file_count es + 1

-- The sum of the sizes of the files, not wrapped.
unfoldable pub content_size : List Entry → ℕ
content_size [] = 0
content_size (e ∷ es) = if e.is_dir then content_size es else content_size es + e.size

-- A path that stays below the directory it is unpacked to.
pub record IsSafe (path : Text) : Type 0 where
  pub not_empty : path ≢ []
  pub relative : is_abs path ≡ false
  pub plain : All (λ c. (c ≢ 0) × (c ≢ b'\\')) path
  pub downward : All (λ part. part ≢ codes "..") (split_on b'/' path)

plain_bytes : (path : Text) → has_unsafe_byte path ≡ false → All (λ c. (c ≢ 0) × (c ≢ b'\\')) path
unfolding has_unsafe_byte
plain_bytes [] h = tt
plain_bytes (c ∷ path) h = ((ground arith, ground arith), plain_bytes path (ground arith))

no_parent : (parts : List Text) → has_parent parts ≡ false → All (λ part. part ≢ codes "..") parts
unfolding has_parent
no_parent [] h = tt
no_parent (p ∷ parts) h =
    (ground (arith, eq_text_iff p (codes "..")), no_parent parts (ground arith))

pub path-IsSafe : (path : Text) → validate_entry_path path ≡ none → IsSafe path
unfolding validate_entry_path
path-IsSafe path h = record {
  not_empty = ground arith;
  relative = ground arith;
  plain = plain_bytes path (ground arith);
  downward = no_parent (split_on b'/' path) (ground arith);
}
