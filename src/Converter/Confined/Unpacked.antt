-- ===== src/Converter/Confined/Unpacked.antt =====
-- The commands of the converters that unpack archives, read metadata and edit PDFs
-- (internal/converter).
use filemagic_backend.Prelude.{
  ℕ, refl, List, [], ◌∷◌, Option, none, some, Text, eq_text, has_prefix,
}
use filemagic_backend.Json.{Fields}
use filemagic_backend.Validator.Names.{one_of}
use filemagic_backend.Outputs.{Answer}
use filemagic_backend.Converter.{World, Dirs, Log}
use filemagic_backend.Converter.Manifest.{Listing}
use filemagic_backend.Converter.Unpacked.{
  PathKind, link, directory, plain, unreadable, visit_file, walk, visited, validate_archive_listing,
  convert_decompress,
}
use filemagic_backend.Converter.Metadata.{
  extract_metadata, keep_metadata, remove_metadata, inspect_metadata,
}
use filemagic_backend.Converter.PdfEdit.{pass_or_fail, convert_pdf_edit}
use filemagic_backend.Converter.Keeps.{is_installed, is_confined, Keeps, keeps_rules}
use filemagic_backend.Converter.Confined.Files.{Keeps-set_listing}

module _ (w : World) where
  pub Keeps-visit_file :
      (cwd : Answer Text) (o p : Text) (n : ℕ) (l : Listing) → Keeps (visit_file w cwd o p n l)
  unfolding visit_file is_confined is_installed has_prefix one_of eq_text
  Keeps-visit_file cwd o p n l = search keeps_rules depth 16

  pub Keeps-walk :
      (cwd : Answer Text) (o : Text) (paths : List (Text × PathKind)) (l : Listing)
      → Keeps (walk w cwd o paths l)
  unfolding walk
  Keeps-walk cwd o [] l = search keeps_rules
  Keeps-walk cwd o ((path, unreadable e) ∷ rest) l = search keeps_rules
  Keeps-walk cwd o ((path, link) ∷ rest) l = search (keeps_rules, Keeps-walk cwd o rest)
  Keeps-walk cwd o ((path, directory) ∷ rest) l = Keeps-walk cwd o rest l
  Keeps-walk cwd o ((path, plain size) ∷ rest) l =
      search (keeps_rules, Keeps-visit_file, Keeps-walk cwd o rest)

  pub Keeps-visited :
      (cwd : Answer Text) (walks : Log → Text → List (Text × PathKind)) (o : Text)
      → Keeps (visited w cwd walks o)
  unfolding visited
  Keeps-visited cwd walks o = record { at = λ s h. h; same = λ s. refl }

  pub Keeps-validate_archive_listing :
      (cwd : Answer Text) (d : Dirs) (i p : Text) → Keeps (validate_archive_listing w cwd d i p)
  unfolding validate_archive_listing is_confined is_installed has_prefix one_of eq_text
  Keeps-validate_archive_listing cwd d i p = search keeps_rules depth 16

  pub Keeps-convert_decompress :
      (cwd : Answer Text) (walks : Log → Text → List (Text × PathKind))
      → Keeps (convert_decompress w cwd walks)
  unfolding convert_decompress is_confined is_installed has_prefix one_of eq_text
  Keeps-convert_decompress cwd walks =
      search
        (keeps_rules, Keeps-set_listing, Keeps-validate_archive_listing, Keeps-walk, Keeps-visited)
        depth 24

  pub Keeps-extract_metadata :
      (parse_results : Text → Option (List Fields)) (d : Dirs) (i : Text)
      → Keeps (extract_metadata w parse_results d i)
  unfolding extract_metadata is_confined is_installed has_prefix one_of eq_text
  Keeps-extract_metadata parse_results d i = search keeps_rules

  pub Keeps-keep_metadata :
      (parse_results : Text → Option (List Fields)) (m : Option (Option Fields))
      → Keeps (keep_metadata w parse_results m)
  unfolding keep_metadata
  Keeps-keep_metadata parse_results none = search keeps_rules
  Keeps-keep_metadata parse_results (some none) = search keeps_rules
  Keeps-keep_metadata parse_results (some (some m)) = search keeps_rules

  pub Keeps-remove_metadata :
      (parse_results : Text → Option (List Fields)) → Keeps (remove_metadata w parse_results)
  unfolding remove_metadata is_confined is_installed has_prefix one_of eq_text
  Keeps-remove_metadata parse_results =
      search (keeps_rules, Keeps-extract_metadata, Keeps-keep_metadata) depth 20

  pub Keeps-inspect_metadata :
      (parse_results : Text → Option (List Fields)) → Keeps (inspect_metadata w parse_results)
  unfolding inspect_metadata is_confined is_installed has_prefix one_of eq_text
  Keeps-inspect_metadata parse_results = search (keeps_rules, Keeps-extract_metadata) depth 20

  pub Keeps-pass_or_fail : (float_of : ℕ → ℕ) (e : Option Text) → Keeps (pass_or_fail float_of e)
  unfolding pass_or_fail
  Keeps-pass_or_fail float_of none = search keeps_rules
  Keeps-pass_or_fail float_of (some e) = search keeps_rules

  pub Keeps-convert_pdf_edit :
      (float_of : ℕ → ℕ) (script : Text) (marshal : Fields → Option Text)
      → Keeps (convert_pdf_edit float_of w script marshal)
  unfolding convert_pdf_edit is_confined is_installed has_prefix one_of eq_text
  Keeps-convert_pdf_edit float_of script marshal = search (keeps_rules, Keeps-pass_or_fail) depth 24
