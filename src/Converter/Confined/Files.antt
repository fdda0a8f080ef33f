-- ===== src/Converter/Confined/Files.antt =====
-- The commands of the converters of images, of several files, and of certificates, passwords and archives
-- (internal/converter).
use filemagic_backend.Prelude.{
  ℕ, ◌≡◌, refl, true, List, [], ◌∷◌, some, arith, Text, eq_text, has_prefix,
}
use filemagic_backend.Validator.Names.{one_of}
use filemagic_backend.Converter.{World, Dirs, Task, ◌>>=◌, ◌>>◌, need, check}
use filemagic_backend.Converter.Documents.{password_command, convert_pdf_password}
use filemagic_backend.Converter.Certs.{
  has_words, write_pass_file, build_convert_command, step, convert_cert,
}
use filemagic_backend.Converter.Listed.{
  archive_command, copy_policy, convert_each, convert_images_to_pdf, sibling_dirs,
  convert_pdf_merge, convert_image_to_pdf, convert_archive,
}
use filemagic_backend.Converter.Manifest.{
  Listing, set_listing, extract_pdf_images, make_icons, generate_favicon,
}
use filemagic_backend.Converter.Gives.{gives_rules, Gives, Gives-need, Gives-check}
use filemagic_backend.Converter.Keeps.{
  is_installed, is_confined, Keeps, keeps_rules, Keeps-given, Keeps-then-given, Keeps-need,
  Keeps-check, is_confined_of, Keeps-run_wrapped, Keeps-then, Keeps-if, Keeps-bind, Keeps-pure,
}
use filemagic_backend.Converter.Confined.Tools.{Keeps-guard_dimensions}

module _ (w : World) where
  password_command-installed :
      (mode output_file : Text)
      → Gives (λ c. is_installed c ≡ true) (password_command w mode output_file)
  unfolding password_command is_installed has_prefix
  password_command-installed mode output_file = search gives_rules depth 12

  Keeps-password_command : (mode output_file : Text) → Keeps (password_command w mode output_file)
  unfolding password_command is_confined is_installed has_prefix one_of eq_text
  Keeps-password_command mode output_file = search keeps_rules depth 14

  Keeps-after-password_command :
      (mode output_file : Text) (k : List Text → Task (Unit {0}))
      → ((c : List Text) → is_installed c ≡ true → Keeps (k c))
      → Keeps (password_command w mode output_file >>= k)
  Keeps-after-password_command mode output_file k =
      Keeps-given _ _ k (Keeps-password_command mode output_file)
        (password_command-installed mode output_file)

  pub Keeps-convert_pdf_password : Keeps (convert_pdf_password w)
  unfolding convert_pdf_password one_of eq_text
  Keeps-convert_pdf_password =
      search (Keeps-after-password_command, keeps_rules, is_confined_of) depth 16

  archive_command-installed :
      (format password output_file input_dir : Text) (names c : List Text)
      → archive_command format password output_file input_dir names ≡ some c
      → is_installed c ≡ true
  unfolding archive_command is_installed has_prefix
  archive_command-installed format password output_file input_dir names c e = ground arith

  Keeps-after-archive_command :
      (format password output_file input_dir : Text) (names : List Text) (words : Text)
      (k : List Text → Task (Unit {0}))
      → ((c : List Text) → is_installed c ≡ true → Keeps (k c))
      → Keeps (need (archive_command format password output_file input_dir names) words >>= k)
  Keeps-after-archive_command format password output_file input_dir names words k =
      Keeps-given _ _ k (Keeps-need _ words) (
        Gives-need _ _ words
          (archive_command-installed format password output_file input_dir names))

  pub Keeps-convert_archive : Keeps (convert_archive w)
  unfolding convert_archive one_of eq_text
  Keeps-convert_archive = search (Keeps-after-archive_command, keeps_rules, is_confined_of) depth 20

  build_convert_command-installed :
      (from to i o password output_password output_dir : Text)
      → Gives
          (λ c. has_words c ≡ true → is_installed c ≡ true)
          (build_convert_command w from to i o password output_password output_dir)
  unfolding build_convert_command is_installed has_prefix
  build_convert_command-installed from to i o password output_password output_dir =
      search gives_rules depth 16

  Keeps-write_pass_file : (dir name password : Text) → Keeps (write_pass_file w dir name password)
  unfolding write_pass_file
  Keeps-write_pass_file dir name password = search keeps_rules

  Keeps-build_convert_command :
      (from to i o password output_password output_dir : Text)
      → Keeps (build_convert_command w from to i o password output_password output_dir)
  unfolding build_convert_command
  Keeps-build_convert_command from to i o password output_password output_dir =
      search (keeps_rules, Keeps-write_pass_file) depth 16

  Keeps-checked-words :
      (c : List Text) (words : Text) (n : Task (Unit {0}))
      → (has_words c ≡ true → is_installed c ≡ true)
      → (is_installed c ≡ true → Keeps n)
      → Keeps (check (has_words c) words >> n)
  Keeps-checked-words c words n f kn =
      Keeps-then-given _ n (Keeps-check _ words) (Gives-check (has_words c) words) (λ _ e. kn (f e))

  Keeps-step :
      (d : Dirs) (no_path words from to i o password output_password : Text)
      → Keeps (step w d no_path words from to i o password output_password)
  unfolding step one_of eq_text
  Keeps-step d no_path words from to i o password output_password =
      Keeps-given _ _ _
        (Keeps-build_convert_command from to i o password output_password d.output_dir)
        (build_convert_command-installed from to i o password output_password d.output_dir)
        (λ c f.
          Keeps-checked-words c no_path _ f
            (λ e. Keeps-run_wrapped w words _ (is_confined_of _ e refl)))

  pub Keeps-convert_cert : Keeps (convert_cert w)
  unfolding convert_cert
  Keeps-convert_cert = search (keeps_rules, Keeps-step) depth 20

  pub Keeps-copy_policy : (job_dir : Text) → Keeps (copy_policy w job_dir)
  unfolding copy_policy is_confined is_installed has_prefix one_of eq_text
  Keeps-copy_policy job_dir = search keeps_rules

  Keeps-convert_each :
      (names : List Text) (input_dir : Text) (d : Dirs) → Keeps (convert_each w names input_dir d)
  unfolding convert_each is_confined is_installed has_prefix one_of eq_text
  Keeps-convert_each [] input_dir d = search keeps_rules
  Keeps-convert_each (name ∷ names) input_dir d =
      let rest = Keeps-convert_each names input_dir d in
      Keeps-if _ _ _ (Keeps-bind _ _ rest (λ others. Keeps-pure _)) (
        Keeps-bind _ _ (Keeps-then _ _ (Keeps-run_wrapped w _ _ refl) rest)
          (λ others. Keeps-pure _))

  Keeps-convert_images_to_pdf :
      (names : List Text) (input_dir : Text) (d : Dirs)
      → Keeps (convert_images_to_pdf w names input_dir d)
  unfolding convert_images_to_pdf is_confined is_installed has_prefix one_of eq_text
  Keeps-convert_images_to_pdf names input_dir d =
      search (keeps_rules, Keeps-copy_policy, Keeps-convert_each)

  Keeps-sibling_dirs : (input_dir : Text) → Keeps (sibling_dirs w input_dir)
  unfolding sibling_dirs is_confined is_installed has_prefix one_of eq_text
  Keeps-sibling_dirs input_dir = search keeps_rules

  pub Keeps-convert_pdf_merge : Keeps (convert_pdf_merge w)
  unfolding convert_pdf_merge is_confined is_installed has_prefix one_of eq_text
  Keeps-convert_pdf_merge =
      search (keeps_rules, Keeps-convert_images_to_pdf, Keeps-sibling_dirs) depth 16

  pub Keeps-convert_image_to_pdf : Keeps (convert_image_to_pdf w)
  unfolding convert_image_to_pdf is_confined is_installed has_prefix one_of eq_text
  Keeps-convert_image_to_pdf = search (keeps_rules, Keeps-copy_policy, Keeps-sibling_dirs) depth 16

  pub Keeps-set_listing : (output_dir : Text) (l : Listing) → Keeps (set_listing output_dir l)
  unfolding set_listing is_confined is_installed has_prefix one_of eq_text
  Keeps-set_listing output_dir l = search keeps_rules

  pub Keeps-extract_pdf_images : Keeps (extract_pdf_images w)
  unfolding extract_pdf_images is_confined is_installed has_prefix one_of eq_text
  Keeps-extract_pdf_images = search (keeps_rules, Keeps-set_listing) depth 16

  Keeps-make_icons :
      (d : Dirs) (png : Text) (sizes : List (Text × Text)) → Keeps (make_icons w d png sizes)
  unfolding make_icons is_confined is_installed has_prefix one_of eq_text
  Keeps-make_icons d png [] = search keeps_rules
  Keeps-make_icons d png ((name, size) ∷ sizes) =
      Keeps-then _ _ (Keeps-run_wrapped w _ _ refl) (Keeps-make_icons d png sizes)

  pub Keeps-generate_favicon : (fscan : Text → ℕ × ℕ) → Keeps (generate_favicon w fscan)
  unfolding generate_favicon is_confined is_installed has_prefix one_of eq_text
  Keeps-generate_favicon fscan =
      search (keeps_rules, Keeps-set_listing, Keeps-make_icons, Keeps-guard_dimensions) depth 24
