-- ===== src/Upload/Storing.antt =====
-- What the last steps of an upload leave behind, with or without a reply that queues the job
-- (internal/api/handlers/convert.go).
use filemagic_backend.Prelude.{
  ℕ, ◌*◌, ◌≡◌, refl, ◌≢◌, true, false, List, [], ◌∷◌, arith, length, Text, eq_text_iff,
  eq_text_refl, All,
}
use filemagic_backend.Queue
use filemagic_backend.Queue.{accepted, submit, is_refused, enqueue}
use filemagic_backend.Gate.{ErrorCode}
use filemagic_backend.Upload.{
  partly, Disk, Server, refused, queued, make_dir, without, remove_all, submit_job, store_upload,
}

-- No directory of the list is the given one.
abbrev pub Lacks : Text → List Text → Type 0
Lacks dir dirs = All (λ x. x ≢ dir) dirs

without_new : (dir : Text) (dirs : List Text) → Lacks dir dirs → without dir dirs ≡ dirs
unfolding without
without_new dir [] h = refl
without_new dir (x ∷ xs) h = ground (arith, eq_text_iff x dir, without_new dir xs h.1)

pub without-cons :
    (dir : Text) (dirs : List Text) → Lacks dir dirs → without dir (dir ∷ dirs) ≡ dirs
unfolding without
without-cons dir dirs h = ground (arith, eq_text_refl dir, without_new dir dirs h)

pub submit_job_refused :
    (d : Disk) (dir : Text) (q : Queue.Request) (s s0 s' : Server) (status : ℕ) (code : ErrorCode)
    → submit_job d dir q s ≡ (s', refused status code)
    → d.removed ≡ true
    → s ≡ record s0 { job_dirs = dir ∷ s0.job_dirs }
    → Lacks dir s0.job_dirs
    → s' ≡ s0
unfolding submit_job submit remove_all
submit_job_refused d dir q s s0 s' status code e gone m new =
    ground (arith, without-cons dir s0.job_dirs new)

pub store_upload_refused :
    (d : Disk) (dir path : Text) (q : Queue.Request) (s s' : Server) (status : ℕ) (code : ErrorCode)
    → store_upload d dir path q s ≡ (s', refused status code)
    → d.removed ≡ true
    → d.mkdir ≢ partly
    → Lacks dir s.job_dirs
    → s' ≡ s
unfolding store_upload remove_all make_dir
store_upload_refused d dir path q s s' status code e gone whole new = ground (
  arith,
  without-cons dir s.job_dirs new,
  submit_job_refused d dir q (record s { job_dirs = dir ∷ s.job_dirs }) s s' status code,
)

pub submit_job_queued :
    (d : Disk) (dir : Text) (q : Queue.Request) (s s' : Server) (id : Text) (position wait : ℕ)
    → submit_job d dir q s ≡ (s', queued id position wait)
    → (is_refused s.queue q.owner_ip ≡ false)
      × (s' ≡ record s { queue = enqueue s.queue q })
      × (id ≡ q.job_id)
      × (position ≡ length s'.queue.queue_order)
      × (wait ≡ position * 5)
unfolding submit_job submit remove_all
submit_job_queued d dir q s s' id position wait e = ground arith

pub store_upload_queued :
    (d : Disk) (dir path : Text) (q : Queue.Request) (s s' : Server) (id : Text) (position wait : ℕ)
    → store_upload d dir path q s ≡ (s', queued id position wait)
    → (is_refused s.queue q.owner_ip ≡ false)
      × (s' ≡ record { queue = enqueue s.queue q; job_dirs = dir ∷ s.job_dirs })
      × (id ≡ q.job_id)
      × (position ≡ length s'.queue.queue_order)
      × (wait ≡ position * 5)
unfolding store_upload make_dir remove_all
store_upload_queued d dir path q s s' id position wait e = ground (
  arith,
  submit_job_queued d dir q (record s { job_dirs = dir ∷ s.job_dirs }) s' id position wait,
)
