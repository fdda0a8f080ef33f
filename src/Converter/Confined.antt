-- ===== src/Converter/Confined.antt =====
-- All the commands that the converters run (internal/converter), by the registry.
pub mod Tools
pub mod Unpacked
pub mod Files
pub mod Images
use filemagic_backend.Paths.{join_path}
use filemagic_backend.Validator.Names.{one_of}
use filemagic_backend.Sandbox.{required_configs, seccomp_file, validate_configs}
use filemagic_backend.Prelude.{
  All-map, Bool, none, arith, subst, inl, inr, Bool-cases, eq_text, eq_text_iff, ℕ, ◌≡◌, true, List,
  [], ◌∷◌, Text, All,
}
use filemagic_backend.Queue.{
  ConversionType, image_format, pdf_compress, image_compress, ocr, metadata_remove, pdf_merge,
  image_to_pdf, qr_code, cert_convert, archive, metadata_inspect, markdown_pdf, audio_extract,
  audio_convert, video_compress, mov_to_mp4, video_to_gif, decompress, pdf_password, svg_to_png,
  pdf_extract_images, pdf_edit, favicon, pdf_repair, ebook_convert, font_convert, Job,
}
use filemagic_backend.Converter.{
  Command, Action, ran, captured, made_dir, removed, wrote, copied, listed, measured, World, Site,
}
use filemagic_backend.Converter.Registry.{Kit, converter_for, process}
use filemagic_backend.Converter.Keeps.{
  is_installed, is_confined, Confined, log_of, site_of, outline, Keeps, keeps_rules,
}
use filemagic_backend.Converter.Confined.Tools.{
  Keeps-convert_markdown_pdf, Keeps-convert_pdf_repair, Keeps-convert_ebook, Keeps-convert_font,
  Keeps-convert_svg_to_png, Keeps-convert_mov_to_mp4, Keeps-convert_audio, Keeps-extract_audio,
  Keeps-convert_video_to_gif, Keeps-convert_video_compress, Keeps-convert_ocr,
  Keeps-convert_pdf_compress,
}
use filemagic_backend.Converter.Confined.Files.{
  Keeps-convert_pdf_password, Keeps-convert_archive, Keeps-convert_cert, Keeps-convert_pdf_merge,
  Keeps-convert_image_to_pdf, Keeps-extract_pdf_images, Keeps-generate_favicon,
}
use filemagic_backend.Converter.Confined.Unpacked.{
  Keeps-convert_decompress, Keeps-remove_metadata, Keeps-inspect_metadata, Keeps-convert_pdf_edit,
}
use filemagic_backend.Converter.Confined.Images.{
  Keeps-convert_image, Keeps-compress_image, Keeps-generate_qr_code,
}

-- The command's program lies in /usr/bin, and its profile and the profile's seccomp file are there.
abbrev pub IsBacked : (Text → Bool) → Text → Command → Type 0
IsBacked exists config_dir c =
    (is_installed c.args ≡ true)
    × (exists (join_path config_dir c.profile) ≡ true)
    × (exists (join_path config_dir (seccomp_file c.profile)) ≡ true)

abbrev pub Backed : (Text → Bool) → Text → Action → Type 0
Backed exists config_dir (ran c) = IsBacked exists config_dir c
Backed exists config_dir (captured c) = IsBacked exists config_dir c
Backed exists config_dir (made_dir p) = Unit
Backed exists config_dir (removed p) = Unit
Backed exists config_dir (wrote p t) = Unit
Backed exists config_dir (copied p q) = Unit
Backed exists config_dir (listed p) = Unit
Backed exists config_dir (measured p) = Unit

module _ (exists : Text → Bool) (config_dir : Text) where
  -- A profile of a list that has been validated.
  validated_profile :
      (files : List Text) (profile : Text)
      → validate_configs exists config_dir files ≡ none
      → one_of profile files ≡ true
      → (exists (join_path config_dir profile) ≡ true)
        × (exists (join_path config_dir (seccomp_file profile)) ≡ true)
  unfolding validate_configs one_of
  validated_profile [] profile e h = absurd (ground arith)
  validated_profile (file ∷ files) profile e h = elim (Bool-cases (eq_text file profile)) [
    | inl same ↦
        subst
          (λ p.
            (exists (join_path config_dir p) ≡ true)
            × (exists (join_path config_dir (seccomp_file p)) ≡ true))
          ((eq_text_iff file profile).0 same) (ground arith, ground arith)
    | inr other ↦ validated_profile files profile (ground arith) (ground arith)
  ]

  command-IsBacked :
      (c : Command)
      → validate_configs exists config_dir required_configs ≡ none
      → is_confined c ≡ true
      → IsBacked exists config_dir c
  unfolding is_confined
  command-IsBacked c valid e =
      let (profile, seccomp) = validated_profile required_configs c.profile valid (ground arith) in
      (ground arith, profile, seccomp)

  action-Backed :
      (a : Action)
      → validate_configs exists config_dir required_configs ≡ none
      → Confined a
      → Backed exists config_dir a
  action-Backed (ran c) valid h = command-IsBacked c valid h
  action-Backed (captured c) valid h = command-IsBacked c valid h
  action-Backed (made_dir p) valid h = tt
  action-Backed (removed p) valid h = tt
  action-Backed (wrote p t) valid h = tt
  action-Backed (copied p q) valid h = tt
  action-Backed (listed p) valid h = tt
  action-Backed (measured p) valid h = tt

module _ (w : World) (kit : Kit) where
  Keeps-converter_for : (t : ConversionType) → Keeps (converter_for w kit t)
  unfolding converter_for
  Keeps-converter_for image_format =
      Keeps-convert_image w kit.fscan kit.glyphs kit.scan_int kit.print_scale
  Keeps-converter_for pdf_compress = Keeps-convert_pdf_compress w kit.estimate
  Keeps-converter_for image_compress = Keeps-compress_image w kit.fscan kit.tools
  Keeps-converter_for ocr = Keeps-convert_ocr w kit.fscan _
  Keeps-converter_for metadata_remove = Keeps-remove_metadata w kit.parse_results
  Keeps-converter_for pdf_merge = Keeps-convert_pdf_merge w
  Keeps-converter_for image_to_pdf = Keeps-convert_image_to_pdf w
  Keeps-converter_for qr_code = Keeps-generate_qr_code w kit.qr
  Keeps-converter_for cert_convert = Keeps-convert_cert w
  Keeps-converter_for archive = Keeps-convert_archive w
  Keeps-converter_for metadata_inspect = Keeps-inspect_metadata w kit.parse_results
  Keeps-converter_for markdown_pdf = Keeps-convert_markdown_pdf w
  Keeps-converter_for audio_extract = Keeps-extract_audio w
  Keeps-converter_for audio_convert = Keeps-convert_audio w
  Keeps-converter_for video_compress = Keeps-convert_video_compress w kit.parse_float
  Keeps-converter_for mov_to_mp4 = Keeps-convert_mov_to_mp4 w
  Keeps-converter_for video_to_gif = Keeps-convert_video_to_gif w
  Keeps-converter_for decompress = Keeps-convert_decompress w kit.working_dir kit.walks
  Keeps-converter_for pdf_password = Keeps-convert_pdf_password w
  Keeps-converter_for svg_to_png = Keeps-convert_svg_to_png w
  Keeps-converter_for pdf_extract_images = Keeps-extract_pdf_images w
  Keeps-converter_for pdf_edit = Keeps-convert_pdf_edit w kit.float_of kit.editor_script kit.marshal
  Keeps-converter_for favicon = Keeps-generate_favicon w kit.fscan
  Keeps-converter_for font_convert = Keeps-convert_font w kit.font_script
  Keeps-converter_for pdf_repair = Keeps-convert_pdf_repair w
  Keeps-converter_for ebook_convert = Keeps-convert_ebook w

  Keeps-process : Keeps (process w kit)
  unfolding process
  Keeps-process = search (keeps_rules, Keeps-converter_for)

  process-confined :
      (job : Job) → All Confined (log_of (process w kit (record { job = job; log = [] })))
  process-confined job = Keeps-process.at (record { job = job; log = [] }) tt

  -- The server has started: the check of its profiles found each of them. Whatever a job asks for, and
  -- whatever the tools answer, every command in the log of its conversion is a program of /usr/bin, under
  -- a profile that is there and whose seccomp file is there.
  pub process-Backed :
      (exists : Text → Bool) (config_dir : Text) (job : Job)
      → validate_configs exists config_dir required_configs ≡ none
      → All (Backed exists config_dir) (log_of (process w kit (record { job = job; log = [] })))
  process-Backed exists config_dir job valid =
      All-map Confined (Backed exists config_dir) _
        (λ a h. action-Backed exists config_dir a valid h) (process-confined job)

  -- However a conversion ends, the job keeps its id, its status, its type, its options, its original name,
  -- its owner, its times, its error and its download flag.
  pub process-outline :
      (job : Job)
      → outline (site_of (process w kit (record { job = job; log = [] }))).job ≡ outline job
  process-outline job = Keeps-process.same (record { job = job; log = [] })
