-- ===== src/Download/Once.antt =====
-- How often a job's result is handed out, over any history of downloads and clean-ups
-- (internal/api/handlers/convert.go).
use filemagic_backend.Prelude.{
  ℕ, ◌+◌, ◌≤◌, ap, ◌∙◌, inl, inr, true, false, not, ◌&&◌, List, [], ◌∷◌, Option, none, some, arith,
  get_elem?, if◌then◌else◌, Text, eq_text, eq_text_iff, Option-cases,
}
use filemagic_backend.Dict.{lookup, lookup-remove}
use filemagic_backend.Queue.{delete_job, delete_entry, remove_from_order}
use filemagic_backend.Queue.Downloads.{get_elem?-set}
use filemagic_backend.Upload.{UploadConfig, Disk, remove_all}
use filemagic_backend.Download.{
  Host, Fetched, Request, clean_up, download, download_file, download_zip,
}
use filemagic_backend.Download.Passes.{
  is_refused, Passes, download-Passes, download_zip-Passes, download_file_keeps,
}

-- One request, or one clean-up that is carried out.
pub data Event : Type 0 where
  whole_file one_file all_files : Request → Event
  cleaned : Disk → Text → Event

-- Is this the whole result of the job?
unfoldable pub counts : Text → Event → Option Fetched → ℕ
counts id (whole_file r) (some reply) =
    if eq_text r.job_id id && not (is_refused reply) then 1 else 0
counts id (all_files r) (some reply) =
    if eq_text r.job_id id && not (is_refused reply) then 1 else 0
counts id (one_file r) (some reply) = 0
counts id (cleaned disk x) (some reply) = 0
counts id e none = 0

-- The result of the job may still be fetched: 1, or not: 0.
unfoldable pub room : Text → Host → ℕ
room id h = elim (lookup id h.server.queue.jobs) [
  | none ↦ 0
  | some job ↦ elim (get_elem? h.server.queue.flags job.downloaded) [ some false ↦ 1 | _ ↦ 0 ]
]

module _ (id : Text) where
  -- A single-shot download uses up the room of the job that it hands out, and makes none.
  room-Passes :
      (r : Request) (h h' : Host) (reply : Fetched)
      → Passes r h (h', reply)
      → (if eq_text r.job_id id && not (is_refused reply) then 1 else 0) + room id h' ≤ room id h
  unfolding room
  room-Passes r h h' reply (inl (same, bad)) = ground (arith, ap (room id) same)
  room-Passes r h h' reply (inr (job, found, is_done, free, jobs, flags)) =
      elim (Option-cases (lookup id h.server.queue.jobs)) [
        | inl none_there ↦ ground (arith, eq_text_iff r.job_id id, ap (lookup id) jobs ∙ none_there)
        | inr (j, there) ↦ ground (
          arith,
          eq_text_iff r.job_id id,
          ap (lookup id) jobs ∙ there,
          ap (λ f. get_elem? f j.downloaded) flags,
          get_elem?-set h.server.queue.flags job.downloaded j.downloaded true free,
        )
      ]

  room-clean_up :
      (cfg : UploadConfig) (disk : Disk) (x : Text) (h : Host)
      → room id (clean_up cfg disk x h) ≤ room id h
  unfolding room clean_up remove_all delete_job delete_entry remove_from_order
  room-clean_up cfg disk x h = ground (arith, lookup-remove x id h.server.queue.jobs)

module _ (type_by_extension : Text → Text) (unicode_lower : ℕ → ℕ) (cfg : UploadConfig) where
  -- One event, and what it hands out of the job.
  unfoldable pub serve : Event → Host → Host × Option Fetched
  serve (whole_file r) h =
      let (h', reply) = download type_by_extension unicode_lower cfg r h in (h', some reply)
  serve (one_file r) h =
      let (h', reply) = download_file type_by_extension unicode_lower cfg r h in (h', some reply)
  serve (all_files r) h = let (h', reply) = download_zip cfg r h in (h', some reply)
  serve (cleaned disk id) h = (clean_up cfg disk id h, none)

  -- The results of the job that single-shot downloads hand out.
  unfoldable pub handed_out : Text → List Event → Host → ℕ
  handed_out id [] h = 0
  handed_out id (e ∷ es) h =
      let (h', reply) = serve e h in let rest = handed_out id es h' in counts id e reply + rest

  room-serve :
      (id : Text) (e : Event) (h : Host)
      → counts id e (serve e h).1 + room id (serve e h).0 ≤ room id h
  unfolding serve counts
  room-serve id (whole_file r) h =
      room-Passes id r h _ _ (download-Passes type_by_extension unicode_lower cfg r h)
  room-serve id (all_files r) h = room-Passes id r h _ _ (download_zip-Passes cfg r h)
  room-serve id (one_file r) h =
      ground (arith, ap (room id) (download_file_keeps type_by_extension unicode_lower cfg r h))
  room-serve id (cleaned disk x) h = ground (arith, room-clean_up id cfg disk x h)

  -- Over any history of downloads and clean-ups of any jobs, the whole result of a job is handed out at
  -- most once, and not at all unless the job is there and its flag is not set at the beginning.
  pub handed_out_once : (id : Text) (es : List Event) (h : Host) → handed_out id es h ≤ room id h
  unfolding handed_out
  handed_out_once id [] h = ground arith
  handed_out_once id (e ∷ es) h =
      omega (arith, room-serve id e h, handed_out_once id es (serve e h).0)
