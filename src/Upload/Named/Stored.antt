-- ===== src/Upload/Named/Stored.antt =====
-- What the handlers that tell a file by its name have stored when they queue a job, and when they do not
-- (internal/api/handlers/convert.go).
use filemagic_backend.Prelude.{
  ℕ, ◌≤◌, ◌≡◌, refl, sym, ap, ◌∙◌, ◌≢◌, ◌⊎◌, inl, inr, Bool, true, false, ◌∷◌, ◌++◌, Option, none,
  some, arith, take, ltb, Text, codes, eq_text, non_empty, if_not, if_bad, if_some,
}
use filemagic_backend.Json.{Fields, end}
use filemagic_backend.Queue
use filemagic_backend.Queue.{ConversionType, is_refused, enqueue}
use filemagic_backend.Gate.{ErrorCode, validation_error, file_too_large}
use filemagic_backend.Validator.Names.{
  one_of, detect_font_file, detect_ebook_file, detect_svg_file, detect_archive_file,
  detect_markdown_file, detect_cert_file_type, get_cert_extension, CertFileType, pem, der, p12, p7b,
}
use filemagic_backend.Sanitize.{
  sanitize_filename, is_unsafe, is_among, byte_length, rune_width, is_reserved, before_dot,
  upper_rune,
}
use filemagic_backend.Sanitize.Safe.{IsClean-IsSafe, IsSafe, sanitize_filename-IsSafe}
use filemagic_backend.Upload.{
  owner_ip, FormFile, partly, Server, Reply, refused, queued, form_options,
}
use filemagic_backend.Upload.Routes.{shifted}
use filemagic_backend.Upload.Storing.{Lacks, store_upload_refused, store_upload_queued}
use filemagic_backend.Upload.Named.{
  Call, form_value, string_field, job_dir, named_request, with_file, store_named, has_nul,
  font_convert, ebook_convert, svg_to_png, decompress, add_secret, markdown_pdf,
  handle_cert_conversion, NamedRoute, font, ebook, svg, unpack, markdown, cert, handle_named,
  font_formats, ebook_formats, cert_formats,
}

unfoldable pub conversion_of : NamedRoute → ConversionType
conversion_of font = Queue.font_convert
conversion_of ebook = Queue.ebook_convert
conversion_of svg = Queue.svg_to_png
conversion_of unpack = Queue.decompress
conversion_of markdown = Queue.markdown_pdf
conversion_of cert = Queue.cert_convert

unfoldable pub limit_of : NamedRoute → ℕ
limit_of font = shifted 11
limit_of ebook = shifted 51
limit_of svg = shifted 21
limit_of unpack = shifted 51
limit_of markdown = shifted 6
limit_of cert = shifted 2

module _ (unicode_lower unicode_upper : ℕ → ℕ) (parse_json : Text → Option Fields) where
  -- Does the route take a file of this name?
  unfoldable pub takes : NamedRoute → Text → Bool
  takes font name = detect_font_file unicode_lower name
  takes ebook name = detect_ebook_file unicode_lower name
  takes svg name = detect_svg_file unicode_lower name
  takes unpack name = detect_archive_file unicode_lower name
  takes markdown name = detect_markdown_file unicode_lower name
  takes cert name = elim (detect_cert_file_type unicode_lower name) [ none ↦ false | some t ↦ true ]

  module _ (route : NamedRoute) (c : Call) where
    -- A file that passes the checks of the route, with the name and the options it is stored with.
    pub record Passes : Type 0 where
      pub file : FormFile
      pub name : Text
      pub options : Fields
      pub received : c.form.file ≡ some file
      pub within_limit : file.size ≤ limit_of route
      pub supported : takes route file.filename ≡ true
      pub safe : IsSafe unicode_upper name

    abbrev Decided : Server → Server × Reply → Type 0
    Decided s r =
        ((status : ℕ) × (code : ErrorCode) × (r ≡ (s, refused status code)))
        ⊎ ((p : Passes) × (r ≡ store_named c (conversion_of route) p.file p.name p.options s))

    refuses : (s : Server) (code : ErrorCode) → Decided s (s, refused 400 code)
    refuses s code = inl (400, code, refl)

    with_file_decided :
        (s : Server) (next : FormFile → Server × Reply)
        → ((file : FormFile)
            → c.form.file ≡ some file
            → file.size ≤ limit_of route
            → Decided s (next file))
        → Decided s (with_file c (limit_of route) s next)
    unfolding with_file
    with_file_decided s next k =
        if_not (Decided s) c.form.parsed _ _ (refuses s file_too_large) (λ p.
          if_some (Decided s) c.form.file _ _ (refuses s validation_error) (λ file e.
            if_bad (Decided s) (ltb (limit_of route) file.size) _ _ (refuses s file_too_large)
              (λ l. k file e (ground arith))))

    stored :
        (s : Server) (file : FormFile) (name : Text) (options : Fields)
        → c.form.file ≡ some file
        → file.size ≤ limit_of route
        → takes route file.filename ≡ true
        → IsSafe unicode_upper name
        → Decided s (store_named c (conversion_of route) file name options s)
    stored s file name options e l t n = inr (
      record {
        file = file;
        name = name;
        options = options;
        received = e;
        within_limit = l;
        supported = t;
        safe = n;
      },
      refl,
    )

  font_decided :
      (c : Call) (s : Server)
      → Decided font c s (font_convert unicode_lower unicode_upper parse_json c s)
  unfolding font_convert limit_of takes conversion_of
  font_decided c s = with_file_decided font c s _ (λ file e l.
      if_not (Decided font c s) (detect_font_file unicode_lower file.filename) _ _
        (refuses font c s validation_error)
        (λ t.
          if_some (Decided font c s) (form_options parse_json (form_value c.form (codes "options")))
            _ _ (refuses font c s validation_error)
            (λ options o.
              if_not (Decided font c s)
                (one_of (string_field (codes "targetFormat") options) font_formats) _ _
                (refuses font c s validation_error)
                (λ v.
                  stored font c s file (sanitize_filename unicode_upper file.filename) options e l t
                    (sanitize_filename-IsSafe unicode_upper file.filename)))))

  ebook_decided :
      (c : Call) (s : Server)
      → Decided ebook c s (ebook_convert unicode_lower unicode_upper parse_json c s)
  unfolding ebook_convert limit_of takes conversion_of
  ebook_decided c s = with_file_decided ebook c s _ (λ file e l.
      if_not (Decided ebook c s) (detect_ebook_file unicode_lower file.filename) _ _
        (refuses ebook c s validation_error)
        (λ t.
          if_some (Decided ebook c s)
            (form_options parse_json (form_value c.form (codes "options"))) _ _
            (refuses ebook c s validation_error)
            (λ options o.
              if_not (Decided ebook c s)
                (one_of (string_field (codes "targetFormat") options) ebook_formats) _ _
                (refuses ebook c s validation_error)
                (λ v.
                  stored ebook c s file (sanitize_filename unicode_upper file.filename) options e l
                    t (sanitize_filename-IsSafe unicode_upper file.filename)))))

  svg_name-IsSafe : IsSafe unicode_upper (codes "input.svg")
  unfolding is_unsafe is_among byte_length rune_width is_reserved before_dot upper_rune one_of
      eq_text
  svg_name-IsSafe = IsClean-IsSafe unicode_upper (codes "input.svg") (record {
    kept = (refl, (refl, (refl, (refl, (refl, (refl, (refl, (refl, (refl, tt)))))))));
    starts = omega arith;
    short = omega arith;
    unreserved = refl;
  })

  markdown_name-IsSafe : IsSafe unicode_upper (codes "input.md")
  unfolding is_unsafe is_among byte_length rune_width is_reserved before_dot upper_rune one_of
      eq_text
  markdown_name-IsSafe = IsClean-IsSafe unicode_upper (codes "input.md") (record {
    kept = (refl, (refl, (refl, (refl, (refl, (refl, (refl, (refl, tt))))))));
    starts = omega arith;
    short = omega arith;
    unreserved = refl;
  })

  cert_name-IsSafe :
      (kind : CertFileType) → IsSafe unicode_upper (codes "input" ++ get_cert_extension kind)
  unfolding is_unsafe is_among byte_length rune_width is_reserved before_dot upper_rune one_of
      eq_text get_cert_extension
  cert_name-IsSafe pem =
      IsClean-IsSafe unicode_upper (codes "input" ++ get_cert_extension pem) (record {
        kept = (refl, (refl, (refl, (refl, (refl, (refl, (refl, (refl, (refl, tt)))))))));
        starts = omega arith;
        short = omega arith;
        unreserved = refl;
      })
  cert_name-IsSafe der =
      IsClean-IsSafe unicode_upper (codes "input" ++ get_cert_extension der) (record {
        kept = (refl, (refl, (refl, (refl, (refl, (refl, (refl, (refl, (refl, tt)))))))));
        starts = omega arith;
        short = omega arith;
        unreserved = refl;
      })
  cert_name-IsSafe p12 =
      IsClean-IsSafe unicode_upper (codes "input" ++ get_cert_extension p12) (record {
        kept = (refl, (refl, (refl, (refl, (refl, (refl, (refl, (refl, (refl, tt)))))))));
        starts = omega arith;
        short = omega arith;
        unreserved = refl;
      })
  cert_name-IsSafe p7b =
      IsClean-IsSafe unicode_upper (codes "input" ++ get_cert_extension p7b) (record {
        kept = (refl, (refl, (refl, (refl, (refl, (refl, (refl, (refl, (refl, tt)))))))));
        starts = omega arith;
        short = omega arith;
        unreserved = refl;
      })

  svg_decided :
      (c : Call) (s : Server)
      → Decided svg c s (svg_to_png unicode_lower unicode_upper parse_json c s)
  unfolding svg_to_png limit_of takes conversion_of
  svg_decided c s = with_file_decided svg c s _ (λ file e l.
      if_not (Decided svg c s) (detect_svg_file unicode_lower file.filename) _ _
        (refuses svg c s validation_error)
        (λ t.
          if_some (Decided svg c s) (form_options parse_json (form_value c.form (codes "options")))
            _ _ (refuses svg c s validation_error)
            (λ options o. stored svg c s file (codes "input.svg") options e l t svg_name-IsSafe)))

  unpack_decided :
      (c : Call) (s : Server)
      → Decided unpack c s (decompress unicode_lower unicode_upper parse_json c s)
  unfolding decompress limit_of takes conversion_of
  unpack_decided c s = with_file_decided unpack c s _ (λ file e l.
      if_not (Decided unpack c s) (detect_archive_file unicode_lower file.filename) _ _
        (refuses unpack c s validation_error)
        (λ t.
          stored unpack c s file (sanitize_filename unicode_upper file.filename)
            (add_secret (codes "password") (form_value c.form (codes "password")) end) e l t
            (sanitize_filename-IsSafe unicode_upper file.filename)))

  markdown_decided :
      (c : Call) (s : Server)
      → Decided markdown c s (markdown_pdf unicode_lower unicode_upper parse_json c s)
  unfolding markdown_pdf limit_of takes conversion_of
  markdown_decided c s = with_file_decided markdown c s _ (λ file e l.
      if_not (Decided markdown c s) (detect_markdown_file unicode_lower file.filename) _ _
        (refuses markdown c s validation_error)
        (λ t.
          if_bad (Decided markdown c s) (has_nul (take 512 file.content)) _ _
            (refuses markdown c s validation_error)
            (λ b. stored markdown c s file (codes "input.md") end e l t markdown_name-IsSafe)))

  cert_decided :
      (c : Call) (s : Server)
      → Decided cert c s (handle_cert_conversion unicode_lower unicode_upper parse_json c s)
  unfolding handle_cert_conversion limit_of takes conversion_of
  cert_decided c s = with_file_decided cert c s _ (λ file e l.
      if_some (Decided cert c s) (detect_cert_file_type unicode_lower file.filename) _ _
        (refuses cert c s validation_error)
        (λ kind t.
          let target = form_value c.form (codes "targetFormat") in
          if_not (Decided cert c s) (non_empty target) _ _ (refuses cert c s validation_error) (λ n.
            if_not (Decided cert c s) (one_of target cert_formats) _ _
              (refuses cert c s validation_error)
              (λ v.
                stored cert c s file (codes "input" ++ get_cert_extension kind) _ e l (ground arith)
                  (cert_name-IsSafe kind)))))

  decide :
      (route : NamedRoute) (c : Call) (s : Server)
      → Decided route c s (handle_named unicode_lower unicode_upper parse_json route c s)
  unfolding handle_named
  decide font c s = font_decided c s
  decide ebook c s = ebook_decided c s
  decide svg c s = svg_decided c s
  decide unpack c s = unpack_decided c s
  decide markdown c s = markdown_decided c s
  decide cert c s = cert_decided c s

  -- If one of these routes answers with a queued job, then the form had a file within the route's limit
  -- whose name the route takes, it is stored under a safe name, the client had room in the queue, and
  -- the server has exactly one more directory and one more job: this upload's.
  pub named_queued :
      (route : NamedRoute) (c : Call) (s s' : Server) (id : Text) (position wait : ℕ)
      → handle_named unicode_lower unicode_upper parse_json route c s
        ≡ (s', queued id position wait)
      → (p : Passes route c) × (is_refused s.queue (owner_ip c.cfg c.peer) ≡ false)
        × (s' ≡ record {
          queue = enqueue s.queue (named_request c (conversion_of route) p.file p.name p.options);
          job_dirs = job_dir c ∷ s.job_dirs;
        })
  unfolding store_named
  named_queued route c s s' id position wait e = elim (decide route c s) [
    | inl (status, code, f) ↦ absurd (ground arith)
    | inr (p, f) ↦
        let q = named_request c (conversion_of route) p.file p.name p.options in
        let (room, stored, name, place, estimate) =
          store_upload_queued c.disk (job_dir c) q.input_path q s s' id position wait (sym f ∙ e) in
        (p, room, stored)
  ]

  -- An upload that one of these routes refuses leaves the queue and the directories as they were, where
  -- the job's directory is new, is not left half made, and can be removed.
  pub named_refused :
      (route : NamedRoute) (c : Call) (s s' : Server) (status : ℕ) (code : ErrorCode)
      → handle_named unicode_lower unicode_upper parse_json route c s ≡ (s', refused status code)
      → c.disk.removed ≡ true
      → c.disk.mkdir ≢ partly
      → Lacks (job_dir c) s.job_dirs
      → s' ≡ s
  unfolding store_named
  named_refused route c s s' status code e gone whole new = elim (decide route c s) [
    | inl (st, k, f) ↦ ap (λ x. x.0) (sym e ∙ f)
    | inr (p, f) ↦
        let q = named_request c (conversion_of route) p.file p.name p.options in
        store_upload_refused c.disk (job_dir c) q.input_path q s s' status code (sym f ∙ e) gone
          whole new
  ]
