-- ===== src/Upload/Several/Merged.antt =====
-- What a merge has stored when it is queued, and when it is refused (`handleMergeConversion` in
-- internal/api/handlers/convert.go).
use filemagic_backend.Prelude.{
  ℕ, ◌≤◌, ◌≡◌, ◌≢◌, Bool, true, List, Option, some, arith, take, Text, codes,
}
use filemagic_backend.Json.{arr, end, field}
use filemagic_backend.Queue.{ConversionType}
use filemagic_backend.Gate.{ErrorCode}
use filemagic_backend.Validator.{FileType, detected, bytes_read, detect_file_type}
use filemagic_backend.Upload.{partly, Server, Reply, refused}
use filemagic_backend.Upload.Storing.{Lacks}
use filemagic_backend.Upload.Several.{
  Part, Batch, batch_dir, as_items, merge_part, handle_merge_conversion,
}
use filemagic_backend.Upload.Several.Parts.{run_batch_refused}

module _ (print_padded : ℕ → Text) (order : List FileType) (conv_type : ConversionType)
    (validate : FileType → Bool) (max_per_file max_files : ℕ) where
  -- A file that the operation takes.
  pub record Takes (p : Part) : Type 0 where
    pub ft : FileType
    pub within_limit : p.size ≤ max_per_file
    pub recognised : detect_file_type order (bytes_read (take 32 p.content)) ≡ detected ft
    pub supported : validate ft ≡ true

  module _ (b : Batch) (s s' : Server) where
    abbrev merged : Option (Server × Reply)
    merged =
        handle_merge_conversion print_padded order conv_type validate max_per_file max_files b s

    -- A merge that is refused leaves the queue and the directories as they were, where the job's
    -- directory is new, is not left half made, and can be removed.
    pub merge_refused :
        (status : ℕ) (code : ErrorCode)
        → merged ≡ some (s', refused status code)
        → b.disk.removed ≡ true
        → b.disk.mkdir ≢ partly
        → Lacks (batch_dir b) s.job_dirs
        → s' ≡ s
    unfolding handle_merge_conversion
    merge_refused status code e gone whole new = ground (
      arith,
      run_batch_refused b conv_type (codes "merged.pdf")
          (λ (ns : List Text). field (codes "files") (arr (as_items ns)) end)
          (merge_part print_padded order validate max_per_file) s s' status code,
    )
