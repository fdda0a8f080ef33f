-- ===== src/Upload/Named/Examples.antt =====
-- A Markdown upload, and a font that is refused; the theorems at them.
use filemagic_backend.Prelude.{
  ℕ, ◌≡◌, refl, true, false, [], ◌∷◌, Option, none, some, Text, codes, eq_text, has_prefix,
  has_suffix,
}
use filemagic_backend.Json.{Fields}
use filemagic_backend.Dict.{lookup, insert}
use filemagic_backend.Queue
use filemagic_backend.Queue.{submit, is_refused, enqueue, inflight_of}
use filemagic_backend.Gate.{trim_space, header, is_trusted, split_host, index_byte, last_index_byte}
use filemagic_backend.Validator.Names.{detect_markdown_file, to_lower, lower_rune}
use filemagic_backend.Upload.{
  owner_ip, is_internal_request, Server, Reply, make_dir, submit_job, store_upload,
}
use filemagic_backend.Upload.Examples.{handlers, disk, page, empty}
use filemagic_backend.Upload.Named.{
  Call, with_file, store_named, has_nul, markdown_pdf, job_dir, named_request, markdown,
  handle_named,
}
use filemagic_backend.Upload.Named.Stored.{Passes, named_queued, conversion_of}

abbrev same : ℕ → ℕ
same c = c

abbrev no_json : Text → Option Fields
no_json text = none

abbrev note : Call
note = record {
  cfg = handlers;
  disk = disk;
  form = record {
    parsed = true;
    file = some (record { filename = codes "a.MD"; size = 3; content = codes "# a" });
    values = [];
  };
  job_id = codes "j";
  now = 5;
  peer = page;
}

abbrev sent : Server × Reply
sent = handle_named same same no_json markdown note empty

named_queued_example :
    (p : Passes same same no_json markdown note) × (is_refused
        (Queue.new 9)
        (owner_ip handlers page)
      ≡ false)
    × (sent.0 ≡ record {
      queue =
          enqueue
            (Queue.new 9)
            (named_request note (conversion_of markdown) p.file p.name p.options);
      job_dirs = job_dir note ∷ [];
    })
unfolding handle_named markdown_pdf with_file store_named has_nul detect_markdown_file to_lower
    lower_rune has_suffix has_prefix store_upload make_dir submit_job submit is_refused enqueue
    owner_ip is_internal_request is_trusted split_host index_byte last_index_byte header trim_space
    lookup insert inflight_of eq_text Queue.new
named_queued_example =
    named_queued same same no_json markdown note empty sent.0 (codes "j") 1 5 refl
