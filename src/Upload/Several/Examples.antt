-- ===== src/Upload/Several/Examples.antt =====
-- A merge of one document, two archive members of one name, and a name that leaves no room for a
-- number; the theorems at them.
use filemagic_backend.Prelude.{
  ℕ, zero, suc, ◌+◌, ◌≤◌, ◌<◌, ◌≡◌, refl, true, false, List, [], ◌∷◌, ◌++◌, Option, none, some,
  arith, length, Text, codes, eq_text, has_prefix, has_suffix, ltb, if◌then◌else◌, All,
}
use filemagic_backend.Dict.{lookup, insert}
use filemagic_backend.Paths.{base, last_slash, trim_suffix}
use filemagic_backend.Queue
use filemagic_backend.Queue.{submit, is_refused, enqueue, inflight_of}
use filemagic_backend.Gate.{trim_space, header, is_trusted, split_host, index_byte, last_index_byte}
use filemagic_backend.Validator.{pdf}
use filemagic_backend.Validator.Tables.{for_pdf_merge}
use filemagic_backend.Validator.Names.{one_of}
use filemagic_backend.Sanitize.{
  strip_nul, is_among, is_unsafe, replace_rune, trim_left, trim_right, before_dot, rune_width,
  byte_length, take_bytes, truncate_name, upper_rune, is_reserved, escape_device, sanitize_filename,
}
use filemagic_backend.Upload.{owner_ip, is_internal_request, Server, Reply, make_dir, submit_job}
use filemagic_backend.Upload.Examples.{handlers, disk, page, empty}
use filemagic_backend.Upload.Several.{
  Part, Batch, batch_dir, batch_request, store_parts, run_batch, handle_merge_conversion, StatEnd,
  present, missing, stat_failed, extension, find_free, free_name, limit_archive_file, batch_value,
  archive_options, archive_part, handle_archive_conversion,
}
use filemagic_backend.Upload.Several.Parts.{total_size, AreDistinct}
use filemagic_backend.Upload.Several.Names.{HonestStat, free_name_found, free_name_stuck}
use filemagic_backend.Upload.Several.Archived.{archive_queued}

abbrev part : Text → Part
part name = record {
  filename = name;
  size = 8;
  content = codes "%PDF-1.7";
  opens = true;
  creates = true;
  copies = true;
}

abbrev batch : List Part → Batch
batch parts = record {
  cfg = handlers;
  disk = disk;
  form = record { parsed = true; files = parts; values = (codes "format", codes "zip") ∷ [] };
  job_id = codes "j";
  now = 5;
  peer = page;
}

abbrev pages : List Part
pages = part (codes "a.pdf") ∷ []

abbrev digit : ℕ → Text
digit k = (48 + k) ∷ []

abbrev result : Option (Server × Reply) → Server
result none = empty
result (some r) = r.0

abbrev merged : Server
merged = result (
    handle_merge_conversion digit (pdf ∷ []) Queue.pdf_merge for_pdf_merge 9 10 (batch pages) empty)

abbrev stat : List Text → Text → StatEnd
stat names name =
    if ltb 255 (byte_length name)
    then stat_failed
    else if one_of name names
    then present
    else missing

honest : HonestStat stat
honest names name = refl

abbrev twins : List Part
twins = part (codes "a.b") ∷ part (codes "x/a.b") ∷ []

abbrev same : ℕ → ℕ
same c = c

abbrev archived : Server
archived = result (handle_archive_conversion stat digit same 4 Queue.archive (batch twins) empty)

archive_queued_example :
    (0 < 2)
    × (2 ≤ 3)
    × All (λ p. p.size ≤ limit_archive_file) twins
    × ((names : List Text) × (length names ≡ 2)
        × AreDistinct names
        × (archived ≡ record {
          queue = enqueue (Queue.new 9) (
              batch_request
                (batch twins)
                Queue.archive
                (codes "archive." ++ batch_value (batch twins) (codes "format"))
                (archive_options (batch twins) names)
                (total_size twins));
          job_dirs = batch_dir (batch twins) ∷ [];
        }))
unfolding handle_archive_conversion run_batch store_parts archive_part free_name find_free extension
    trim_suffix has_suffix sanitize_filename strip_nul is_among is_unsafe replace_rune trim_left
    trim_right before_dot rune_width byte_length take_bytes truncate_name upper_rune is_reserved
    escape_device base last_slash one_of make_dir submit_job submit is_refused enqueue owner_ip
    is_internal_request is_trusted split_host index_byte last_index_byte header trim_space lookup
    insert inflight_of eq_text has_prefix Queue.new
archive_queued_example =
    archive_queued stat digit same 4 Queue.archive (batch twins) empty archived (codes "j") 1 5
      honest refl

free_name_found_example :
    (free : Text) × (free_name stat digit same 2 (codes "a.b" ∷ []) (codes "a.b") ≡ some free)
    × (one_of free (codes "a.b" ∷ []) ≡ false)
unfolding extension trim_suffix has_suffix has_prefix byte_length rune_width
free_name_found_example =
    free_name_found stat digit same honest (codes "a.b" ∷ []) (codes "a.b") (λ j k e. ground arith)
      (λ k l. ground arith) (omega arith)

abbrev letters : ℕ → Text
letters zero = []
letters (suc n) = b'a' ∷ letters n

free_name_stuck_example : free_name stat digit same 1000000 (letters 254 ∷ []) (letters 254) ≡ none
unfolding byte_length rune_width one_of eq_text
free_name_stuck_example =
    free_name_stuck stat digit same honest 1000000 (letters 254 ∷ []) (letters 254)
      (λ k. ground arith) (omega arith) (omega arith) refl
