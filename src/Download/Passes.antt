-- ===== src/Download/Passes.antt =====
-- What each download handler does to the host: it takes the job's flag, or refuses and changes nothing
-- (internal/api/handlers/convert.go).
use filemagic_backend.Prelude.{
  ℕ, ◌≡◌, refl, ◌⊎◌, inl, inr, Bool, true, false, not, ◌||◌, List, [], ◌∷◌, ◌++◌, some, arith,
  get_elem?, set, Text, codes, non_empty, Bool-cases, Option-cases, if_not, if_some, if_bad,
}
use filemagic_backend.Dict.{lookup}
use filemagic_backend.Json.{Fields}
use filemagic_backend.Queue.{Job, JobStatus, get_job, mark_downloaded}
use filemagic_backend.Upload.{UploadConfig}
use filemagic_backend.Gate.{ErrorCode, not_found, validation_error, internal_error}
use filemagic_backend.Archive.{parse_size}
use filemagic_backend.Upload.Named.{string_field}
use filemagic_backend.Outputs.{
  not_exist, io_failed, FileSystem, Opened, opened, not_opened, File, OpenError, file_system,
  invalid_output_path, output_file_missing, open_regular_file_no_follow,
  open_regular_file_under_dir,
}
use filemagic_backend.Download.{
  Host, Fetched, refused, sent, zipped, Request, with_done_job, with_flag, count_and_clean_up,
  download, download_file, download_zip, respond_download_open_error, output_files_from_metadata,
  check_names, Checked, rejected, names_checked,
}

unfoldable pub is_refused : Fetched → Bool
is_refused (refused status code) = true
is_refused (sent content_type name file) = false
is_refused (zipped entries) = false

-- What a single-shot download does to the host: nothing, and it refuses, or it takes the job's flag.
abbrev pub Passes : Request → Host → Host × Fetched → Type 0
Passes r h (h', reply) =
    ((h' ≡ h) × (is_refused reply ≡ true))
    ⊎ ((job : Job) × (lookup r.job_id h.server.queue.jobs ≡ some job)
        × (job.status ≡ JobStatus.done)
        × (get_elem? h.server.queue.flags job.downloaded ≡ some false)
        × (h'.server.queue.jobs ≡ h.server.queue.jobs)
        × (h'.server.queue.flags ≡ set h.server.queue.flags job.downloaded true))

on_done {ℓ κ} :
    {A : Type ℓ} (P : A → Type κ) (s : JobStatus) (x y : A)
    → P x
    → (s ≡ JobStatus.done → P y)
    → P (elim s [ JobStatus.done ↦ y | _ ↦ x ])
on_done P JobStatus.done x y p q = q refl
on_done P JobStatus.queued x y p q = p
on_done P JobStatus.processing x y p q = p
on_done P JobStatus.error x y p q = p

on_opened {ℓ κ} :
    {A : Type ℓ} (P : A → Type κ) (o : Opened) (x : OpenError → A) (y : File → A)
    → ((e : OpenError) → P (x e))
    → ((f : File) → o ≡ opened f → P (y f))
    → P (elim o [ not_opened e ↦ x e | opened f ↦ y f ])
on_opened P (not_opened e) x y p q = p e
on_opened P (opened f) x y p q = q f refl

Opened-cases : (o : Opened) → ((f : File) × (o ≡ opened f)) ⊎ ((e : OpenError) × (o ≡ not_opened e))
Opened-cases (opened f) = inl (f, refl)
Opened-cases (not_opened e) = inr (e, refl)

-- The check of the job leaves its `next` a job that is done.
with_done_job_each {κ} :
    (P : Host × Fetched → Type κ) (r : Request) (h : Host) (next : Job → Host × Fetched)
    → ((status : ℕ) (code : ErrorCode) → P (h, refused status code))
    → ((job : Job)
        → lookup r.job_id h.server.queue.jobs ≡ some job
        → job.status ≡ JobStatus.done
        → P (next job))
    → P (with_done_job r h next)
unfolding with_done_job get_job
with_done_job_each P r h next bad each =
    if_some P (lookup r.job_id h.server.queue.jobs) (h, refused 404 not_found)
      (λ job. elim job.status [ JobStatus.done ↦ next job | _ ↦ (h, refused 400 validation_error) ])
      (bad 404 not_found)
      (λ job found.
        on_done P job.status (h, refused 400 validation_error) (next job) (bad 400 validation_error)
          (each job found))

flag_won :
    (flags : List Bool) (job : Job)
    → ((mark_downloaded flags job).1 ≡ false)
      ⊎ ((mark_downloaded flags job ≡ (set flags job.downloaded true, true))
          × (get_elem? flags job.downloaded ≡ some false))
unfolding mark_downloaded
flag_won flags job = elim (Option-cases (get_elem? flags job.downloaded)) [
  | inl e ↦ inl (ground arith)
  | inr (b, e) ↦ elim (Bool-cases b) [
    | inl t ↦ inl (ground arith)
    | inr f ↦ inr (ground arith, ground arith)
  ]
]

-- The check of the flag leaves its `next` a host that differs in the flag only.
with_flag-Passes :
    (r : Request) (h : Host) (job : Job) (next : Host → Host × Fetched)
    → lookup r.job_id h.server.queue.jobs ≡ some job
    → job.status ≡ JobStatus.done
    → ((h1 : Host) → (next h1).0.server ≡ h1.server)
    → Passes r h (with_flag h job next)
unfolding with_flag is_refused
with_flag-Passes r h job next found is_done keeps = elim (flag_won h.server.queue.flags job) [
  | inl lost ↦ inl (ground arith, ground arith)
  | inr (won, e) ↦
      let h1 = record h {
        server = record h.server {
          queue = record h.server.queue { flags = set h.server.queue.flags job.downloaded true };
        };
      } in
      inr (job, found, is_done, e, ground (arith, keeps h1), ground (arith, keeps h1))
]

open_error_refused : (e : OpenError) → is_refused (respond_download_open_error e) ≡ true
unfolding is_refused respond_download_open_error
open_error_refused (file_system not_exist) = refl
open_error_refused (file_system io_failed) = refl
open_error_refused invalid_output_path = refl
open_error_refused output_file_missing = refl

-- The names are checked, or the reply is a refusal.
check_names-cases :
    (fs : FileSystem) (dir : Text) (names : List Text) (entries : List Fields)
    → ((ns : List Text) × (check_names fs dir names entries ≡ names_checked ns))
      ⊎ ((reply : Fetched) × (check_names fs dir names entries ≡ rejected reply)
          × (is_refused reply ≡ true))
unfolding check_names is_refused
check_names-cases fs dir names [] = inl (names, refl)
check_names-cases fs dir names (entry ∷ entries) =
    let name = string_field (codes "name") entry in
    elim (Bool-cases (non_empty name)) [
      | inr n ↦ inr (refused 500 internal_error, ground arith, refl)
      | inl n ↦ elim (Opened-cases (open_regular_file_under_dir fs dir name)) [
        | inr (e, o) ↦ inr (respond_download_open_error e, ground arith, open_error_refused e)
        | inl (f, o) ↦ elim (check_names-cases fs dir (names ++ name ∷ []) entries) [
          | inl (ns, c) ↦ inl (ns, ground arith)
          | inr (reply, c, bad) ↦ inr (reply, ground arith, bad)
        ]
      ]
    ]

module _ (type_by_extension : Text → Text) (unicode_lower : ℕ → ℕ) (cfg : UploadConfig) where
  pub download-Passes :
      (r : Request) (h : Host) → Passes r h (download type_by_extension unicode_lower cfg r h)
  unfolding download is_refused count_and_clean_up
  download-Passes r h =
      if_not (Passes r h) (non_empty r.job_id) (h, refused 400 validation_error) _
        (inl (refl, refl))
        (λ n.
          with_done_job_each (Passes r h) r h _ (λ status code. inl (refl, refl))
            (λ job found is_done.
              on_opened (Passes r h) (open_regular_file_no_follow r.files job.output_path)
                (λ e. (h, refused 500 internal_error)) _ (λ e. inl (refl, refl))
                (λ file o. with_flag-Passes r h job _ found is_done (λ h1. ground arith))))

on_checked {κ} :
    (P : Host × Fetched → Type κ) (c : Checked) (x : Fetched → Host × Fetched)
    (y : List Text → Host × Fetched)
    → ((reply : Fetched) → c ≡ rejected reply → P (x reply))
    → ((names : List Text) → P (y names))
    → P (elim c [ rejected reply ↦ x reply | names_checked names ↦ y names ])
on_checked P (rejected reply) x y p q = p reply refl
on_checked P (names_checked names) x y p q = q names

on_cons {ℓ κ μ} :
    {A : Type ℓ} {B : Type μ} (P : A → Type κ) (xs : List B) (x : A) (y : B → List B → A)
    → P x
    → ((b : B) (bs : List B) → P (y b bs))
    → P (elim xs [ [] ↦ x | b ∷ bs ↦ y b bs ])
on_cons P [] x y p q = p
on_cons P (b ∷ bs) x y p q = q b bs

rejected_refused :
    (fs : FileSystem) (dir : Text) (names : List Text) (entries : List Fields) (reply : Fetched)
    → check_names fs dir names entries ≡ rejected reply
    → is_refused reply ≡ true
rejected_refused fs dir names entries reply e = elim (check_names-cases fs dir names entries) [
  | inl (ns, c) ↦ absurd (ground arith)
  | inr (reply', c, bad) ↦ ground arith
]

pub download_zip-Passes :
    (cfg : UploadConfig) (r : Request) (h : Host) → Passes r h (download_zip cfg r h)
unfolding download_zip is_refused count_and_clean_up
download_zip-Passes cfg r h =
    if_not (Passes r h) (non_empty r.job_id) (h, refused 400 validation_error) _ (inl (refl, refl))
      (λ n.
        with_done_job_each (Passes r h) r h _ (λ status code. inl (refl, refl))
          (λ job found is_done.
            on_cons (Passes r h) (output_files_from_metadata job.metadata)
              (h, refused 500 internal_error) _ (inl (refl, refl))
              (λ entry entries.
                on_checked (Passes r h) (check_names r.files job.output_path [] (entry ∷ entries))
                  (λ reply. (h, reply)) _
                  (λ reply bad.
                    inl (
                      refl,
                      rejected_refused r.files job.output_path [] (entry ∷ entries) reply bad,
                    ))
                  (λ names. with_flag-Passes r h job _ found is_done (λ h1. ground arith)))))

module _ (type_by_extension : Text → Text) (unicode_lower : ℕ → ℕ) (cfg : UploadConfig) where
  -- The download of a single file of several changes nothing.
  pub download_file_keeps :
      (r : Request) (h : Host) → (download_file type_by_extension unicode_lower cfg r h).0 ≡ h
  unfolding download_file
  download_file_keeps r h =
      let same = λ (x : Host × Fetched). x.0 ≡ h in
      if_bad same (not (non_empty r.job_id) || not (non_empty r.index))
        (h, refused 400 validation_error) _ refl
        (λ n.
          if_some same (parse_size r.index) (h, refused 400 validation_error) _ refl
            (λ idx i.
              with_done_job_each same r h _ (λ status code. refl)
                (λ job found is_done.
                  if_some same (get_elem? (output_files_from_metadata job.metadata) idx)
                    (h, refused 404 not_found) _ refl
                    (λ entry e.
                      if_not same (non_empty (string_field (codes "name") entry))
                        (h, refused 500 internal_error) _ refl
                        (λ named.
                          on_opened same
                            (open_regular_file_under_dir r.files job.output_path
                              (string_field (codes "name") entry))
                            (λ e. (h, respond_download_open_error e)) _ (λ e. refl)
                            (λ file o. refl))))))
