-- ===== src/Paths.antt =====
-- The operations of Go's `strings`, `path` and `path/filepath` (on Unix) that the code uses on paths.
use mathlib.Core.List.{reverse}
use filemagic_backend.Prelude.{
  ℕ, Bool, true, false, not, ◌||◌, List, [], ◌∷◌, ◌++◌, Option, none, some, length, drop, ◌==◌,
  if◌then◌else◌, Text, codes, eq_text, has_prefix, has_suffix, non_empty, ◌-◌, take,
}

-- `strings.Split(s, sep)` for one separator byte: at least one part.
unfoldable pub split_on : ℕ → Text → List Text
split_on sep [] = [] ∷ []
split_on sep (c ∷ s) = elim (split_on sep s) [
  | [] ↦ (c ∷ []) ∷ []
  | p ∷ ps ↦ if c == sep then [] ∷ p ∷ ps else (c ∷ p) ∷ ps
]

-- `strings.Join(parts, sep)`
unfoldable pub join_with : Text → List Text → Text
join_with sep [] = []
join_with sep (p ∷ ps) = elim ps [ [] ↦ p | q ∷ qs ↦ p ++ sep ++ join_with sep ps ]

-- One path element of `Clean`; `out` holds the elements kept, the last one first.
unfoldable pub clean_element : Bool → List Text → Text → List Text
clean_element rooted out part =
    if eq_text part [] || eq_text part (codes ".")
    then out
    else if eq_text part (codes "..")
    then elim out [
      | [] ↦ if rooted then [] else codes ".." ∷ []
      | p ∷ ps ↦ if eq_text p (codes "..") then codes ".." ∷ p ∷ ps else ps
    ]
    else part ∷ out

unfoldable pub clean_elements : Bool → List Text → List Text → List Text
clean_elements rooted out [] = out
clean_elements rooted out (p ∷ ps) = clean_elements rooted (clean_element rooted out p) ps

-- `filepath.IsAbs`, `strings.HasPrefix(s, "/")`
unfoldable pub is_abs : Text → Bool
is_abs s = has_prefix s (codes "/")

-- `path.Clean`, `filepath.Clean`
unfoldable pub clean : Text → Text
clean s =
    let kept = join_with (codes "/") (reverse (clean_elements (is_abs s) [] (split_on b'/' s))) in
    if is_abs s then b'/' ∷ kept else if non_empty kept then kept else codes "."

-- `filepath.Join(a, b)`
unfoldable pub join_path : Text → Text → Text
join_path a b =
    if non_empty a
    then (if non_empty b then clean (a ++ b'/' ∷ b) else clean a)
    else if non_empty b
    then clean b
    else []

-- What stands before and after the last `/`.
unfoldable pub last_slash : Text → Option (Text × Text)
last_slash [] = none
last_slash (c ∷ s) = elim (last_slash s) [
  | some (d, f) ↦ some (c ∷ d, f)
  | none ↦ if c == b'/' then some ([], s) else none
]

-- `filepath.Dir`
unfoldable pub dir : Text → Text
dir s = elim (last_slash s) [ none ↦ codes "." | some (d, f) ↦ clean (d ++ codes "/") ]

-- Trailing slashes stripped from a reversed path.
strip_slashes : Text → Text
strip_slashes [] = []
strip_slashes (c ∷ s) = elim (c == b'/') [ true ↦ strip_slashes s | false ↦ c ∷ s ]

-- `filepath.Base`
unfoldable pub base : Text → Text
unfolding strip_slashes
base s =
    let stripped = reverse (strip_slashes (reverse s)) in
    if not (non_empty s)
    then codes "."
    else if not (non_empty stripped)
    then codes "/"
    else elim (last_slash stripped) [ none ↦ stripped | some (d, f) ↦ f ]

-- `strings.TrimSuffix`
unfoldable pub trim_suffix : Text → Text → Text
trim_suffix s p = if has_suffix s p then take (length s - length p) s else s

-- `strings.Replace(s, old, new, 1)`
unfoldable pub replace_first : Text → Text → Text → Text
replace_first old new [] = if non_empty old then [] else new
replace_first old new (c ∷ s) =
    if has_prefix (c ∷ s) old then new ++ drop (length old) (c ∷ s) else c ∷ replace_first old new s

-- `filepath.Ext`: from the last dot of the last element on.
unfoldable pub ext : Text → Text
ext [] = []
ext (c ∷ s) = elim (ext s) [
  | d ∷ r ↦ d ∷ r
  | [] ↦ elim (last_slash s) [ some p ↦ [] | none ↦ if c == b'.' then c ∷ s else [] ]
]
