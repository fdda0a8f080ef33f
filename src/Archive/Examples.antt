-- ===== src/Archive/Examples.antt =====
-- Two small listings: one that the theorem is about, and one whose sizes wrap around.
use filemagic_backend.Prelude.{
  ◌≤◌, ◌<◌, ◌≡◌, refl, List, [], ◌∷◌, ◌++◌, none, Text, codes, eq_text, has_prefix, All, arith,
}
use filemagic_backend.Paths.{split_on, is_abs, clean, clean_elements, clean_element, join_with}
use filemagic_backend.Gate.{trim_space}
use filemagic_backend.Archive.{
  add_int64, exceeds, cut, parse_digits, parse_size, archive_attributes_is_dir, has_unsafe_byte,
  has_parent, validate_entry_path, flush, read_field, read_line, read_lines, validate_7z_listing,
}
use filemagic_backend.Archive.Reading.{
  close_entry, set_path, group_field, group_line, group_lines, declared, file_count, content_size,
  IsSafe,
}
use filemagic_backend.Archive.Listing.{listing-IsSafe}

abbrev lines : List Text → Text
lines [] = []
lines (l ∷ ls) = l ++ 10 ∷ lines ls

abbrev small : Text
small = lines (
    codes "----------" ∷ codes "Path = a" ∷ codes "Attributes = D" ∷ []
    ++ codes "Path = a/b" ∷ codes "Size = 5" ∷ [])

listing-IsSafe_example : All (λ e. IsSafe e.path) (declared small) × (0 < 1) × (1 ≤ 100) × (5 ≤ 9)
unfolding validate_7z_listing read_lines read_line read_field flush add_int64 exceeds cut
    parse_digits parse_size archive_attributes_is_dir has_unsafe_byte has_parent validate_entry_path
    split_on is_abs clean clean_elements clean_element join_with trim_space eq_text has_prefix
    declared group_lines group_line group_field set_path close_entry file_count content_size
listing-IsSafe_example = listing-IsSafe 100 9 small refl (omega arith)

abbrev wrapping : Text
wrapping = lines (
    codes "----------" ∷ codes "Path = a" ∷ codes "Size = 1" ∷ []
    ++ codes "Path = b" ∷ codes "Size = 9223372036854775807" ∷ [])

-- The declared sizes sum up to 2 ^ 63, the total wraps around to a negative number, and a limit of 9
-- bytes accepts it.
wrapping_accepted : validate_7z_listing 100 9 wrapping ≡ none
unfolding validate_7z_listing read_lines read_line read_field flush add_int64 exceeds cut
    parse_digits parse_size archive_attributes_is_dir has_unsafe_byte has_parent validate_entry_path
    split_on is_abs clean clean_elements clean_element join_with trim_space eq_text has_prefix
wrapping_accepted = refl
