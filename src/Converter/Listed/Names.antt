-- ===== src/Converter/Listed/Names.antt =====
-- The names that `getFileList` gives a converter (internal/converter/pdf_merge.go), beside those that an
-- upload stores in the options (internal/api/handlers/convert.go).
use filemagic_backend.Prelude.{
  ℕ, ◌≤◌, ◌≡◌, refl, ◌↔◌, List, [], ◌∷◌, none, some, arith, length, ltb, Text, codes, eq_text_iff,
  All, Option-cases, inl, inr, suc, ap, if◌then◌else◌,
}
use filemagic_backend.Json.{
  Fields, null, bool, float, int, str, arr, obj, Items, nil, cons, field_value,
}
use filemagic_backend.Paths.{base}
use filemagic_backend.Upload.Several.{as_items}
use filemagic_backend.Converter.Listed.{item_count, plain_names, get_file_list}

plain_names-exact :
    (items : Items) (names : List Text)
    → (plain_names items ≡ some names)
      ↔ ((items ≡ as_items names) × All (λ name. base name ≡ name) names)
unfolding plain_names as_items
plain_names-exact nil [] = ground arith
plain_names-exact nil (n ∷ names) = ground arith
plain_names-exact (cons (str t) vs) [] = ground arith
plain_names-exact (cons (str t) vs) (n ∷ names) =
    ground (arith, plain_names-exact vs names, eq_text_iff (base t) t)
plain_names-exact (cons null vs) [] = ground arith
plain_names-exact (cons null vs) (n ∷ names) = ground arith
plain_names-exact (cons (bool b) vs) [] = ground arith
plain_names-exact (cons (bool b) vs) (n ∷ names) = ground arith
plain_names-exact (cons (float b) vs) [] = ground arith
plain_names-exact (cons (float b) vs) (n ∷ names) = ground arith
plain_names-exact (cons (int b) vs) [] = ground arith
plain_names-exact (cons (int b) vs) (n ∷ names) = ground arith
plain_names-exact (cons (arr b) vs) [] = ground arith
plain_names-exact (cons (arr b) vs) (n ∷ names) = ground arith
plain_names-exact (cons (obj b) vs) [] = ground arith
plain_names-exact (cons (obj b) vs) (n ∷ names) = ground arith

item_count-as_items : (names : List Text) → item_count (as_items names) ≡ length names
unfolding item_count as_items
item_count-as_items [] = refl
item_count-as_items (n ∷ names) = ap suc (item_count-as_items names)

-- The list of the option, counted and read.
list_exact :
    (items : Items) (min : ℕ) (names : List Text)
    → ((if ltb (item_count items) min then none else plain_names items) ≡ some names)
      ↔ ((items ≡ as_items names) × (min ≤ length names) × All (λ name. base name ≡ name) names)
list_exact items min names =
    ground (arith, plain_names-exact items names, item_count-as_items names)

-- `getFileList` gives the names, at least as many as are asked for, if the option holds them the way an
-- upload stores them and each is the base of a path; otherwise it gives none.
pub get_file_list-exact :
    (options : Fields) (min : ℕ) (names : List Text)
    → (get_file_list options min ≡ some names) ↔ (
        (field_value (codes "files") options ≡ some (arr (as_items names)))
        × (min ≤ length names)
        × All (λ name. base name ≡ name) names)
unfolding get_file_list
get_file_list-exact options min names = elim (Option-cases (field_value (codes "files") options)) [
  | inl e ↦ rw e (ground arith)
  | inr (null, e) ↦ rw e (ground arith)
  | inr (bool b, e) ↦ rw e (ground arith)
  | inr (float b, e) ↦ rw e (ground arith)
  | inr (int n, e) ↦ rw e (ground arith)
  | inr (str t, e) ↦ rw e (ground arith)
  | inr (obj m, e) ↦ rw e (ground arith)
  | inr (arr items, e) ↦ rw e (ground (arith, list_exact items min names))
]
