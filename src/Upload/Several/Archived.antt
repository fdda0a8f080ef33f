-- ===== src/Upload/Several/Archived.antt =====
-- What an archive upload has stored when it is queued (`handleArchiveConversion` in
-- internal/api/handlers/convert.go).
use filemagic_backend.Prelude.{
  ℕ, ◌≤◌, ◌<◌, ◌≡◌, inl, inr, false, List, [], ◌∷◌, ◌++◌, Option, some, arith, length, Text, codes,
  All, Option-cases, subst,
}
use filemagic_backend.Queue.{ConversionType, enqueue}
use filemagic_backend.Validator.Names.{one_of}
use filemagic_backend.Sanitize.{sanitize_filename}
use filemagic_backend.Sanitize.Safe.{sanitize_filename-IsSafe}
use filemagic_backend.Upload.{Server, Reply, queued}
use filemagic_backend.Upload.Several.{
  Part, kept, Batch, batch_dir, batch_request, batch_value, archive_options, StatEnd, free_name,
  limit_archive_file, archive_part, handle_archive_conversion,
}
use filemagic_backend.Upload.Several.Parts.{
  total_size, all_kept_counts, store_parts-All, store_parts-AreDistinct, AreDistinct,
  run_batch_queued,
}
use filemagic_backend.Upload.Several.Names.{HonestStat, free_name_fresh}

module _ (stat : List Text → Text → StatEnd) (print_decimal : ℕ → Text) (unicode_upper : ℕ → ℕ)
    (fuel : ℕ) (conv_type : ConversionType) where
  archive_part-fresh :
      HonestStat stat
      → (i : ℕ) (names : List Text) (p : Part) (name : Text)
      → archive_part stat print_decimal unicode_upper fuel i names p ≡ kept name
      → one_of name names ≡ false
  unfolding archive_part
  archive_part-fresh honest i names p name e =
      let safe = sanitize_filename unicode_upper p.filename in
      elim (Option-cases (free_name stat print_decimal unicode_upper fuel names safe)) [
        | inl f ↦ absurd (ground arith)
        | inr (free, f) ↦
            let new =
              free_name_fresh stat print_decimal unicode_upper honest fuel names safe free
                (sanitize_filename-IsSafe unicode_upper p.filename).short f in
            subst (λ n. one_of n names ≡ false) (ground arith) new
      ]

  archive_part_fits :
      (i : ℕ) (names : List Text) (p : Part) (name : Text)
      → archive_part stat print_decimal unicode_upper fuel i names p ≡ kept name
      → p.size ≤ limit_archive_file
  unfolding archive_part
  archive_part_fits i names p name e = ground arith

  module _ (b : Batch) (s s' : Server) where
    abbrev archived : Option (Server × Reply)
    archived = handle_archive_conversion stat print_decimal unicode_upper fuel conv_type b s

    -- On a file system that takes names of up to 255 bytes and answers `os.Stat` truly: if an
    -- archive upload is answered with a queued job, then it has one to three files within the limit,
    -- they are stored under names of which no two are equal, and the server has exactly one more
    -- directory and one more job, whose options hold these names and whose size is the sum of
    -- theirs.
    pub archive_queued :
        (id : Text) (position wait : ℕ)
        → HonestStat stat
        → archived ≡ some (s', queued id position wait)
        → (0 < length b.form.files)
          × (length b.form.files ≤ 3)
          × All (λ p. p.size ≤ limit_archive_file) b.form.files
          × ((names : List Text) × (length names ≡ length b.form.files)
              × AreDistinct names
              × (s' ≡ record {
                queue = enqueue s.queue (
                    batch_request b conv_type
                      (codes "archive." ++ batch_value b (codes "format"))
                      (archive_options b names)
                      (total_size b.form.files));
                job_dirs = batch_dir b ∷ s.job_dirs;
              }))
    unfolding handle_archive_conversion
    archive_queued id position wait honest e =
        let step = archive_part stat print_decimal unicode_upper fuel in
        let (total, names, loop, room, stored) =
          run_batch_queued b conv_type (codes "archive." ++ batch_value b (codes "format"))
            (archive_options b) step s s' id position wait (ground arith) in
        let (sum, count) = all_kept_counts step total names b.form.files loop in
        (
          ground arith,
          ground arith,
          store_parts-All step (λ p. p.size ≤ limit_archive_file) archive_part_fits 0 0 total []
              names b.form.files loop,
          (
            names,
            count,
            store_parts-AreDistinct step (archive_part-fresh honest) 0 0 total [] names b.form.files
                loop tt,
            subst
                (λ t. s' ≡ record {
                  queue = enqueue s.queue (
                      batch_request b conv_type (codes "archive." ++ batch_value b (codes "format"))
                        (archive_options b names) t);
                  job_dirs = batch_dir b ∷ s.job_dirs;
                })
                sum stored,
          ),
        )
