-- ===== src/Outputs/Examples.antt =====
-- One converted file in a directory, and a link out of it; the theorem at the file.
use filemagic_backend.Prelude.{◌≡◌, refl, codes, eq_text, has_prefix, if◌then◌else◌}
use filemagic_backend.Paths.{
  split_on, join_with, clean_element, clean_elements, is_abs, clean, join_path,
}
use filemagic_backend.Outputs.{
  not_exist, ok, failed, regular, symlink, File, FileSystem, not_opened, invalid_output_path,
  is_regular, is_symlink, open_regular_file_no_follow, has_unsafe_part, has_unsafe_path_segment,
  has_nul_or_backslash, abs, without_empty, elements, ups, rel_elements, rel, path_within_base,
  open_regular_file_under_dir,
}
use filemagic_backend.Outputs.Below.{Confined, under_dir-Confined}

abbrev pub page : File
page = record { kind = regular; size = 3; content = codes "abc" }

abbrev pub files : FileSystem
files = record {
  lstat = λ p. if eq_text p (codes "/t/o/a.png") then ok regular else ok symlink;
  open_no_follow = λ p. if eq_text p (codes "/t/o/a.png") then ok (ok page) else failed not_exist;
  eval_symlinks = λ p. if eq_text p (codes "/t/o/link") then ok (codes "/etc/passwd") else ok p;
  working_dir = ok (codes "/");
}

under_dir-Confined_example : Confined files (codes "/t/o") (codes "a.png") page
unfolding open_regular_file_under_dir open_regular_file_no_follow path_within_base rel rel_elements
    elements without_empty abs has_nul_or_backslash has_unsafe_path_segment has_unsafe_part
    is_symlink is_regular join_path clean is_abs clean_elements clean_element join_with split_on
    has_prefix eq_text
under_dir-Confined_example = under_dir-Confined files (codes "/t/o") (codes "a.png") page refl

-- A link out of the directory is not followed.
link_refused :
    open_regular_file_under_dir files (codes "/t/o") (codes "link") ≡ not_opened invalid_output_path
unfolding open_regular_file_under_dir path_within_base rel rel_elements ups elements without_empty
    abs has_nul_or_backslash has_unsafe_path_segment has_unsafe_part join_path clean is_abs
    clean_elements clean_element join_with split_on has_prefix eq_text
link_refused = refl
