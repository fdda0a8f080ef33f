-- ===== src/Archive.antt =====
-- The check of a 7z listing before an archive is unpacked (internal/converter/decompress.go). The
-- listing is the output of `7z l -slt`; sizes and their total are 64-bit integers in two's complement.
pub mod Reading
pub mod Listing
mod Examples
use filemagic_backend.Prelude.{
  ℕ, suc, ◌+◌, ◌-◌, ◌*◌, ◌%◌, ◌^◌, Bool, true, false, not, ◌&&◌, ◌||◌, List, [], ◌∷◌, Option, none,
  some, length, ltb, leb, ◌==◌, if◌then◌else◌, Text, codes, eq_text, has_prefix, non_empty, get_or,
  drop,
}
use filemagic_backend.Paths.{split_on, is_abs, clean}
use filemagic_backend.Gate.{trim_space}

-- `int64` arithmetic on representatives under 2 ^ 64; those from 2 ^ 63 on stand for negative numbers.
unfoldable pub add_int64 : ℕ → ℕ → ℕ
add_int64 a b = (a + b) % 18446744073709551616

unfoldable pub exceeds : ℕ → ℕ → Bool
exceeds total limit = ltb total 9223372036854775808 && ltb limit total

-- `strings.Cut(s, " = ")`
unfoldable pub cut : Text → Option (Text × Text)
cut [] = none
cut (c ∷ s) =
    let rest = cut s in
    if has_prefix (c ∷ s) (codes " = ")
    then some ([], drop 3 (c ∷ s))
    else elim rest [ none ↦ none | some (key, value) ↦ some (c ∷ key, value) ]

-- The decimal digits of `strconv.ParseUint(s, 10, 64)`, after what stands before them.
unfoldable pub parse_digits : ℕ → Text → Option ℕ
parse_digits acc [] = some acc
parse_digits acc (c ∷ s) =
    let rest = parse_digits (acc * 10 + (c - b'0')) s in
    if leb b'0' c && leb c b'9' then rest else none

-- The magnitude of `strconv.ParseInt(s, 10, 64)` where it is not negative; the code refuses the errors
-- of `ParseInt` and the negative numbers alike.
unfoldable pub parse_size : Text → Option ℕ
parse_size [] = none
parse_size (c ∷ s) =
    let digits = if c == b'+' || c == b'-' then s else c ∷ s in
    if not (non_empty digits) then none else elim (parse_digits 0 digits) [
      | none ↦ none
      | some n ↦
          if c == b'-'
          then (if n == 0 then some 0 else none)
          else if ltb n 9223372036854775808
          then some n
          else none
    ]

-- `archiveListEntry`
pub record Entry : Type 0 where
  pub path : Text
  pub size : ℕ
  pub is_dir : Bool
  pub has_path : Bool
  pub has_size : Bool

abbrev pub no_entry : Entry
no_entry = record { path = []; size = 0; is_dir = false; has_path = false; has_size = false }

pub data PathError : Type 0 where
  empty_path unsafe_separator absolute escapes : PathError

pub data ListingError : Type 0 where
  bad_path : PathError → ListingError
  no_declared_size invalid_size too_many_files too_much_content archive_empty : ListingError

unfoldable pub archive_attributes_is_dir : Text → Bool
archive_attributes_is_dir value = elim (trim_space value) [ [] ↦ false | c ∷ s ↦ c == b'D' ]

abbrev pub is_letter : ℕ → Bool
is_letter c = (leb b'A' c && leb c b'Z') || (leb b'a' c && leb c b'z')

-- `strings.ContainsAny(name, "\x00\\")`
unfoldable pub has_unsafe_byte : Text → Bool
has_unsafe_byte [] = false
has_unsafe_byte (c ∷ s) = c == 0 || c == b'\\' || has_unsafe_byte s

unfoldable pub has_parent : List Text → Bool
has_parent [] = false
has_parent (part ∷ parts) = eq_text part (codes "..") || has_parent parts

-- `validateArchiveEntryPath`: its error.
unfoldable pub validate_entry_path : Text → Option PathError
validate_entry_path name =
    if not (non_empty name)
    then some empty_path
    else if has_unsafe_byte name
    then some unsafe_separator
    else if leb 3 (length name)
        && get_or name 1 0 == b':'
        && get_or name 2 0 == b'/'
        && is_letter (get_or name 0 0)
    then some absolute
    else if is_abs name
    then some absolute
    else if has_parent (split_on b'/' name)
    then some escapes
    else let cleaned = clean name in
      if eq_text cleaned (codes ".")
      then none
      else if eq_text cleaned (codes "..") || has_prefix cleaned (codes "../")
      then some escapes
      else none

-- The variables of `validate7zListing`.
pub record Scan : Type 0 where
  pub current : Entry
  pub in_entries : Bool
  pub files : ℕ
  pub total : ℕ

pub data Scanned : Type 0 where
  scanning : Scan → Scanned
  failed : ListingError → Scanned

abbrev pub start_scan : Scan
start_scan = record { current = no_entry; in_entries = false; files = 0; total = 0 }

module _ (max_files max_total_size : ℕ) where
  -- The closure `flush`.
  unfoldable pub flush : Scan → Scanned
  flush s =
      let e = s.current in
      let cleared = record s { current = no_entry } in
      if not e.has_path
      then scanning cleared
      else if e.is_dir
      then elim (validate_entry_path e.path) [
        | some x ↦ failed (bad_path x)
        | none ↦ scanning cleared
      ]
      else if not e.has_size
      then failed no_declared_size
      else elim (validate_entry_path e.path) [
        | some x ↦ failed (bad_path x)
        | none ↦
            if ltb max_files (s.files + 1)
            then failed too_many_files
            else let total : ℕ = add_int64 s.total e.size in
              if exceeds total max_total_size
              then failed too_much_content
              else scanning (record cleared { files = s.files + 1; total = total })
      ]

  -- The `switch` on a key.
  unfoldable pub read_field : Scan → Text → Text → Scanned
  read_field s key value =
      if eq_text key (codes "Path")
      then elim (if s.current.has_path then flush s else scanning s) [
        | failed x ↦ failed x
        | scanning t ↦
            scanning (record t { current = record t.current { path = value; has_path = true } })
      ]
      else if eq_text key (codes "Size")
      then elim (parse_size value) [
        | none ↦ failed invalid_size
        | some n ↦ scanning (record s { current = record s.current { size = n; has_size = true } })
      ]
      else if eq_text key (codes "Folder")
      then scanning (record s { current = record s.current { is_dir = eq_text value (codes "+") } })
      else if eq_text key (codes "Attributes") && archive_attributes_is_dir value
      then scanning (record s { current = record s.current { is_dir = true } })
      else scanning s

  -- One turn of the loop.
  unfoldable pub read_line : Scan → Text → Scanned
  read_line s raw =
      let line = trim_space raw in
      if eq_text line (codes "----------")
      then scanning (record s { in_entries = true; current = no_entry })
      else if not s.in_entries
      then scanning s
      else if not (non_empty line)
      then flush s
      else elim (cut line) [ none ↦ scanning s | some (key, value) ↦ read_field s key value ]

  -- The loop, and what follows it: the error.
  unfoldable pub read_lines : Scan → List Text → Option ListingError
  read_lines s [] = elim (flush s) [
    | failed x ↦ some x
    | scanning t ↦ if t.files == 0 then some archive_empty else none
  ]
  read_lines s (raw ∷ raws) = elim (read_line s raw) [
    | failed x ↦ some x
    | scanning t ↦ read_lines t raws
  ]

  -- `validate7zListing`
  unfoldable pub validate_7z_listing : Text → Option ListingError
  validate_7z_listing out = read_lines start_scan (split_on b'\n' out)
