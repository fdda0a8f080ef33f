-- ===== src/Archive/Listing.antt =====
-- What an accepted 7z listing declares (`validate7zListing` in internal/converter/decompress.go).
use filemagic_backend.Prelude.{
  ℕ, ◌+◌, ◌∙◌, ◌≤◌, ◌<◌, ◌≡◌, refl, ◌≢◌, ◌⊎◌, inl, inr, true, false, List, [], ◌∷◌, Option, none,
  some, arith, ltb, if◌then◌else◌, Text, codes, eq_text, non_empty, All, Bool-cases, subst,
}
use filemagic_backend.Paths.{split_on}
use filemagic_backend.Gate.{trim_space}
use filemagic_backend.Archive.{
  add_int64, exceeds, cut, Entry, no_entry, ListingError, Scan, Scanned, scanning, failed,
  start_scan, flush, read_field, read_line, read_lines, validate_7z_listing,
}
use filemagic_backend.Archive.Reading.{
  Reading, close_entry, set_path, group_field, group_line, group_lines, declared, file_count,
  content_size, IsSafe, path-IsSafe,
}

Scanned-cases :
    (r : Scanned) → ((x : ListingError) × (r ≡ failed x)) ⊎ ((t : Scan) × (r ≡ scanning t))
Scanned-cases (failed x) = inl (x, refl)
Scanned-cases (scanning t) = inr (t, refl)

module _ (max_files max_total_size : ℕ) where
  -- What the checks have established of the entries closed so far.
  record Checked (es : List Entry) (s : Scan) : Type 0 where
    safe : All (λ e. IsSafe e.path) es
    counted : s.files ≡ file_count es
    few : s.files ≤ max_files
    exact : content_size es < 9223372036854775808 → s.total ≡ content_size es
    bounded : content_size es < 9223372036854775808 → content_size es ≤ max_total_size

  -- A scan beside the reading of the same lines.
  record Follows (g : Reading) (s : Scan) : Type 0 where
    same_entry : s.current ≡ g.open_entry
    same_phase : s.in_entries ≡ g.begun
    checked : Checked g.closed s

  -- The total after one more file, as the code adds it.
  add_size :
      (total sum size : ℕ)
      → (sum < 9223372036854775808 → total ≡ sum)
      → sum + size < 9223372036854775808
      → add_int64 total size ≡ sum + size
  unfolding add_int64
  add_size total sum size e h = rw (e (omega arith)) (omega arith)

  file-Checked :
      (es : List Entry) (s t : Scan) (e : Entry)
      → Checked es s
      → e.is_dir ≡ false
      → IsSafe e.path
      → ltb max_files (s.files + 1) ≡ false
      → exceeds (add_int64 s.total e.size) max_total_size ≡ false
      → t.files ≡ s.files + 1
      → t.total ≡ add_int64 s.total e.size
      → Checked (e ∷ es) t
  unfolding file_count content_size exceeds
  file-Checked es s t e c d p few bound files total =
      let sum = content_size es in
      record {
        safe = (p, c.safe);
        counted = ground (arith, c.counted);
        few = ground arith;
        exact = ground (arith, add_size s.total sum e.size c.exact);
        bounded = ground (arith, add_size s.total sum e.size c.exact);
      }

  dir-Checked :
      (es : List Entry) (s t : Scan) (e : Entry)
      → Checked es s
      → e.is_dir ≡ true
      → IsSafe e.path
      → t.files ≡ s.files
      → t.total ≡ s.total
      → Checked (e ∷ es) t
  unfolding file_count content_size
  dir-Checked es s t e c d p files total = record {
    safe = (p, c.safe);
    counted = ground (arith, c.counted);
    few = ground (arith, c.few);
    exact = ground (arith, c.exact);
    bounded = ground (arith, c.bounded);
  }

  flush-Follows :
      (g : Reading) (s t : Scan)
      → flush max_files max_total_size s ≡ scanning t
      → Follows g s
      → Follows (close_entry g) t
  unfolding flush close_entry
  flush-Follows g s t h f = ground (
    arith,
    path-IsSafe s.current.path,
    file-Checked g.closed s t s.current,
    dir-Checked g.closed s t s.current,
  )

  -- A line that changes the open entry alone.
  keeps :
      (g h : Reading) (s t : Scan)
      → Follows g s
      → t.current ≡ h.open_entry
      → t.in_entries ≡ h.begun
      → h.closed ≡ g.closed
      → t.files ≡ s.files
      → t.total ≡ s.total
      → Follows h t
  keeps g h s t f entry phase closed files total = record {
    same_entry = entry;
    same_phase = phase;
    checked = rw closed record {
      safe = f.checked.safe;
      counted = files ∙ f.checked.counted;
      few = ground (arith, f.checked.few);
      exact = ground (arith, f.checked.exact);
      bounded = f.checked.bounded;
    };
  }

  set_path-Follows :
      (g : Reading) (s : Scan) (value : Text)
      → Follows g s
      → Follows
          (set_path g value)
          (record s { current = record s.current { path = value; has_path = true } })
  unfolding set_path
  set_path-Follows g s value f =
      keeps g (set_path g value) s _ f (rw f.same_entry refl) f.same_phase refl refl refl

  path_step :
      (r : Scanned) (g : Reading) (t : Scan) (value : Text)
      → elim r [
        | failed x ↦ failed x
        | scanning u ↦
            scanning (record u { current = record u.current { path = value; has_path = true } })
      ]
        ≡ scanning t
      → ((u : Scan) → r ≡ scanning u → Follows g u)
      → Follows (set_path g value) t
  path_step (failed x) g t value h f = absurd (ground arith)
  path_step (scanning u) g t value h f =
      subst (Follows (set_path g value)) (scanning_inj h) (set_path-Follows g u value (f u refl))
    where
      scanning_inj : {a b : Scan} → scanning a ≡ scanning b → a ≡ b
      scanning_inj e = ground arith

  read_field-Follows :
      (g : Reading) (s t : Scan) (key value : Text)
      → read_field max_files max_total_size s key value ≡ scanning t
      → Follows g s
      → Follows (group_field g key value) t
  unfolding read_field group_field
  read_field-Follows g s t key value h f = elim (Bool-cases (eq_text key (codes "Path"))) [
    | inl e ↦ rw e (
        path_step (if s.current.has_path then flush max_files max_total_size s else scanning s)
          (if g.open_entry.has_path then close_entry g else g) t value (rw e at h)
          (λ u k. elim (Bool-cases g.open_entry.has_path) [
            | inl p ↦ subst (λ x. Follows x u) (ground arith) (flush-Follows g s u (ground arith) f)
            | inr p ↦ subst (λ x. Follows x u) (ground arith) (subst (Follows g) (ground arith) f)
          ]))
    | inr e ↦
        keeps g (group_field g key value) s t f (ground arith) (ground arith) (ground arith)
          (ground arith) (ground arith)
  ]

  line_entry :
      (g : Reading) (s t : Scan) (c : Option (Text × Text))
      → elim c [
        | none ↦ scanning s
        | some (key, value) ↦ read_field max_files max_total_size s key value
      ]
        ≡ scanning t
      → Follows g s
      → Follows (elim c [ none ↦ g | some (key, value) ↦ group_field g key value ]) t
  line_entry g s t none h f = subst (Follows g) (ground arith) f
  line_entry g s t (some (key, value)) h f = read_field-Follows g s t key value h f

  read_line-Follows :
      (g : Reading) (s t : Scan) (raw : Text)
      → read_line max_files max_total_size s raw ≡ scanning t
      → Follows g s
      → Follows (group_line g raw) t
  unfolding read_line group_line
  read_line-Follows g s t raw h f =
      let line = trim_space raw in
      elim (Bool-cases (eq_text line (codes "----------"))) [
        | inl e ↦
            keeps g (group_line g raw) s t f (ground arith) (ground arith) (ground arith)
              (ground arith) (ground arith)
        | inr e ↦ elim (Bool-cases g.begun) [
          | inr b ↦
              keeps g (group_line g raw) s t f (ground arith) (ground arith) (ground arith)
                (ground arith) (ground arith)
          | inl b ↦ elim (Bool-cases (non_empty line)) [
            | inl n ↦
                subst (λ x. Follows x t) (ground arith)
                  (line_entry g s t (cut line) (ground arith) f)
            | inr n ↦ subst (λ x. Follows x t) (ground arith) (flush-Follows g s t (ground arith) f)
          ]
        ]
      ]

  read_lines_lem :
      (g : Reading) (s : Scan) (raws : List Text)
      → read_lines max_files max_total_size s raws ≡ none
      → Follows g s
      → (t : Scan) × Checked (group_lines g raws) t × (t.files ≢ 0)
  unfolding read_lines group_lines
  read_lines_lem g s [] h f = elim (Scanned-cases (flush max_files max_total_size s)) [
    | inl (x, e) ↦ absurd (ground arith)
    | inr (t, e) ↦ (t, (flush-Follows g s t e f).checked, ground arith)
  ]
  read_lines_lem g s (raw ∷ raws) h f =
      elim (Scanned-cases (read_line max_files max_total_size s raw)) [
        | inl (x, e) ↦ absurd (ground arith)
        | inr (t, e) ↦
            read_lines_lem (group_line g raw) t raws (ground arith)
              (read_line-Follows g s t raw e f)
      ]

-- If `validate7zListing` accepts a listing, and the sizes that it declares sum up to less than 2 ^ 63,
-- then every entry's path stays below the directory it is unpacked to, there is at least one file and
-- at most `max_files`, and the sizes sum up to at most `max_total_size`.
pub listing-IsSafe :
    (max_files max_total_size : ℕ) (out : Text)
    → validate_7z_listing max_files max_total_size out ≡ none
    → content_size (declared out) < 9223372036854775808
    → All (λ e. IsSafe e.path) (declared out)
      × (0 < file_count (declared out))
      × (file_count (declared out) ≤ max_files)
      × (content_size (declared out) ≤ max_total_size)
unfolding validate_7z_listing declared file_count content_size
listing-IsSafe max_files max_total_size out h small =
    let begin : Follows max_files max_total_size
        (record { open_entry = no_entry; begun = false; closed = [] }) start_scan =
      record {
        same_entry = refl;
        same_phase = refl;
        checked = record {
          safe = tt;
          counted = refl;
          few = omega arith;
          exact = λ k. refl;
          bounded = λ k. omega arith;
        };
      } in
    let (t, c, n) =
      read_lines_lem max_files max_total_size
        (record { open_entry = no_entry; begun = false; closed = [] }) start_scan
        (split_on b'\n' out) h begin in
    (c.safe, ground (arith, c.counted), ground (arith, c.few, c.counted), c.bounded small)
