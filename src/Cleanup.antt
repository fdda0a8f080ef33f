-- ===== src/Cleanup.antt =====
-- The clean-up of expired jobs and of directories without a job (internal/cleanup/cleanup.go). Time is an
-- argument, and so is what the file system answers: which directories can be removed, and what it lists.
pub mod Keys
pub mod Sweep
mod Examples
use filemagic_backend.Prelude.{
  ℕ, ◌+◌, Bool, true, false, not, ◌&&◌, ◌||◌, List, [], ◌∷◌, Option, none, some, ltb, if◌then◌else◌,
  Text,
}
use filemagic_backend.Paths.{join_path}
use filemagic_backend.Queue.{
  Queue, Job, JobStatus, queued, processing, done, error, get_job, get_all_jobs, delete_job,
}
use filemagic_backend.Upload.{Server, without}

pub record Cleaner : Type 0 where
  pub tmpfs_path : Text
  pub cleanup_max_age : ℕ

-- What `os.ReadDir` and `entry.Info` say of one entry.
pub record DirEntry : Type 0 where
  pub name : Text
  pub is_dir : Bool
  pub mod_time : Option ℕ

unfoldable pub is_settled : JobStatus → Bool
is_settled queued = false
is_settled processing = false
is_settled done = true
is_settled error = true

-- `age < maxAge`, where `now` may lie before the time.
abbrev pub is_young : Cleaner → ℕ → ℕ → Bool
is_young c now time = ltb now (time + c.cleanup_max_age)

unfoldable pub is_expired : Cleaner → ℕ → Job → Bool
is_expired c now job = is_settled job.status && not (is_young c now job.completed_at)

-- `os.RemoveAll` succeeds on these paths.
module _ (removable : Text → Bool) (c : Cleaner) (now : ℕ) where
  -- One turn of the loop over the jobs.
  unfoldable pub expire_job : Job → Server → Server
  expire_job job s =
      let dir = join_path c.tmpfs_path job.id in
      if not (is_expired c now job)
      then s
      else if not (removable dir)
      then s
      else record { queue = delete_job s.queue job.id; job_dirs = without dir s.job_dirs }

  unfoldable pub expire_jobs : List Job → Server → Server
  expire_jobs [] s = s
  expire_jobs (job ∷ jobs) s = expire_jobs jobs (expire_job job s)

  unfoldable pub cleanup_expired_jobs : Server → Server
  cleanup_expired_jobs s = expire_jobs (get_all_jobs s.queue) s

  -- One turn of the loop over the entries of the directory.
  unfoldable pub remove_orphan : DirEntry → Server → Server
  remove_orphan entry s =
      let dir = join_path c.tmpfs_path entry.name in
      if not entry.is_dir then s else elim entry.mod_time [
        | none ↦ s
        | some time ↦ if is_young c now time then s else elim (get_job s.queue entry.name) [
          | some job ↦ s
          | none ↦ if removable dir then record s { job_dirs = without dir s.job_dirs } else s
        ]
      ]

  unfoldable pub remove_orphans : List DirEntry → Server → Server
  remove_orphans [] s = s
  remove_orphans (entry ∷ entries) s = remove_orphans entries (remove_orphan entry s)

  -- The entries, unless the directory cannot be read.
  unfoldable pub cleanup_orphaned_dirs : Option (List DirEntry) → Server → Server
  cleanup_orphaned_dirs none s = s
  cleanup_orphaned_dirs (some entries) s = remove_orphans entries s

-- One tick of `Start`; the file system and the clock may have moved on when its second half begins.
unfoldable pub tick :
    (Text → Bool) → (Text → Bool) → Cleaner → ℕ → ℕ → Option (List DirEntry) → Server → Server
tick removable later_removable c now later entries s =
    cleanup_orphaned_dirs later_removable c later entries (cleanup_expired_jobs removable c now s)
