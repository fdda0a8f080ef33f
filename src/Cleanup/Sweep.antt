-- ===== src/Cleanup/Sweep.antt =====
-- What a tick of the clean-up does to the queue (internal/cleanup/cleanup.go), seen as the deletions of
-- the queue's machine.
use filemagic_backend.Prelude.{
  ℕ, ◌+◌, ◌≤◌, ◌&&◌, if◌then◌else◌, ◌≡◌, refl, sym, ap, ◌∙◌, ◌⊎◌, inl, inr, Bool, true, false, List,
  [], ◌∷◌, Option, none, some, arith, leb, Text, eq_text, eq_text_iff, eq_text_refl, All,
  Bool-cases, Option-cases, if_not, if_bad, if_some, subst,
}
use filemagic_backend.Dict.{lookup, lookup-remove}
use filemagic_backend.Paths.{join_path}
use filemagic_backend.Queue.{
  Queue, Job, JobStatus, queued, processing, done, error, get_job, get_all_jobs, delete_job,
  delete_entry, remove_from_order,
}
use filemagic_backend.Queue.Machine.{Machine, Reach, IsSettled, start, deletes, unlists, here, next}
use filemagic_backend.Queue.Order.{Differs}
use filemagic_backend.Upload.{Server, without}
use filemagic_backend.Cleanup.{
  Cleaner, DirEntry, is_settled, is_young, is_expired, expire_job, expire_jobs,
  cleanup_expired_jobs, remove_orphan, remove_orphans, cleanup_orphaned_dirs, tick,
}
use filemagic_backend.Cleanup.Keys.{IsListed, get_all_jobs-IsListed, get_all_jobs_complete, has_id}

is_settled_lem :
    (s : JobStatus) → is_settled s ≡ true → (s ≡ JobStatus.done) ⊎ (s ≡ JobStatus.error)
unfolding is_settled
is_settled_lem queued e = absurd (ground arith)
is_settled_lem processing e = absurd (ground arith)
is_settled_lem done e = inl refl
is_settled_lem error e = inr refl

abbrev is_over : JobStatus → Bool
is_over done = true
is_over error = true
is_over _ = false

is_settled-is_over : (s : JobStatus) → is_settled s ≡ is_over s
unfolding is_settled
is_settled-is_over queued = refl
is_settled-is_over processing = refl
is_settled-is_over done = refl
is_settled-is_over error = refl

-- A settled job may be deleted, in two steps.
delete_job-Reach :
    (id : Text) {s m : Machine}
    → Reach s m
    → IsSettled m.queue id
    → Reach s (record m { queue = delete_job m.queue id })
unfolding delete_job delete_entry remove_from_order
delete_job-Reach id {s} {m} r settled =
    next (next r (deletes id settled))
      (unlists id (ground (arith, lookup-remove id id m.queue.jobs, eq_text_refl id)))

-- The other jobs are where they were.
others_stay :
    (q : Queue) (j : Job) (js : List Job)
    → All (λ k. lookup k.id q.jobs ≡ some k) js
    → All (Differs j.id) js
    → All (λ k. lookup k.id (delete_job q j.id).jobs ≡ some k) js
unfolding delete_job delete_entry remove_from_order
others_stay q j [] listed differ = tt
others_stay q j (k ∷ js) (here_k, listed) (apart, differ) =
    (ground (arith, lookup-remove j.id k.id q.jobs), others_stay q j js listed differ)

abbrev with_queue : Machine → Queue → Machine
with_queue m q = record m { queue = q }

-- The job is settled, and that at least `cleanup_max_age` ago.
abbrev IsDue : Cleaner → ℕ → Job → Type 0
IsDue c now j =
    ((j.status ≡ JobStatus.done) ⊎ (j.status ≡ JobStatus.error))
    × (j.completed_at + c.cleanup_max_age ≤ now)

-- What deletions of such jobs, one after another, make of a queue.
pub data Swept (c : Cleaner) (now : ℕ) (q : Queue) : Queue → Type 0 where
  unchanged : Swept c now q q
  deleted :
      {p : Queue} (j : Job)
      → Swept c now q p
      → lookup j.id p.jobs ≡ some j
      → IsDue c now j
      → Swept c now q (delete_job p j.id)

Swept-Reach :
    {c : Cleaner} {now : ℕ} {first m : Machine} {q : Queue}
    → Reach first m
    → Swept c now m.queue q
    → Reach first (with_queue m q)
Swept-Reach r unchanged = r
Swept-Reach r (deleted j w found (settled, old)) =
    delete_job-Reach j.id (Swept-Reach r w) (j, found, settled)

-- The same as a test.
abbrev is_due : Cleaner → ℕ → Job → Bool
is_due c now j = is_over j.status && leb (j.completed_at + c.cleanup_max_age) now

is_expired-is_due : (c : Cleaner) (now : ℕ) (j : Job) → is_expired c now j ≡ is_due c now j
unfolding is_expired
is_expired-is_due c now j = ground (arith, is_settled-is_over j.status)

is_expired-IsDue : (c : Cleaner) (now : ℕ) (j : Job) → is_expired c now j ≡ true → IsDue c now j
unfolding is_expired
is_expired-IsDue c now j e = (is_settled_lem j.status (ground arith), ground arith)

module _ (removable : Text → Bool) (c : Cleaner) (now : ℕ) (first : Queue) where
  -- The queue is swept so far, with these jobs yet to look at.
  abbrev Stands : List Job → Server → Type 0
  Stands jobs s = Swept c now first s.queue × IsListed s.queue jobs

  expire_job-Stands :
      (job : Job) (jobs : List Job) (s : Server)
      → Stands (job ∷ jobs) s
      → Stands jobs (expire_job removable c now job s)
  unfolding expire_job
  expire_job-Stands job jobs s (r, ((own, listed), (differ, distinct))) =
      let dir = join_path c.tmpfs_path job.id in
      if_not (Stands jobs) (is_expired c now job) s _ (r, (listed, distinct))
        (λ expired.
          if_not (Stands jobs) (removable dir) s
            (record { queue = delete_job s.queue job.id; job_dirs = without dir s.job_dirs })
            (r, (listed, distinct))
            (λ removed. (
              deleted job r own (is_expired-IsDue c now job expired),
              (others_stay s.queue job jobs listed differ, distinct),
            )))

  expire_jobs-Stands :
      (jobs : List Job) (s : Server)
      → Stands jobs s
      → Stands [] (expire_jobs removable c now jobs s)
  unfolding expire_jobs
  expire_jobs-Stands [] s h = h
  expire_jobs-Stands (job ∷ jobs) s h =
      expire_jobs-Stands jobs (expire_job removable c now job s) (expire_job-Stands job jobs s h)

remove_orphan_keeps :
    (removable : Text → Bool) (c : Cleaner) (now : ℕ) (entry : DirEntry) (s : Server)
    → (remove_orphan removable c now entry s).queue ≡ s.queue
unfolding remove_orphan get_job
remove_orphan_keeps removable c now entry s =
    let same = λ (x : Server). x.queue ≡ s.queue in
    if_not same entry.is_dir s _ refl (λ d. if_some same entry.mod_time s _ refl (λ time t.
      if_bad same (is_young c now time) s _ refl (λ old.
        elim (Option-cases (lookup entry.name s.queue.jobs)) [
          | inl e ↦ ground arith
          | inr (j, e) ↦ ground arith
        ])))

-- The orphans do not concern the queue.
remove_orphans_keep :
    (removable : Text → Bool) (c : Cleaner) (now : ℕ) (entries : List DirEntry) (s : Server)
    → (remove_orphans removable c now entries s).queue ≡ s.queue
unfolding remove_orphans remove_orphan
remove_orphans_keep removable c now [] s = refl
remove_orphans_keep removable c now (e ∷ es) s =
    remove_orphans_keep removable c now es (remove_orphan removable c now e s)
    ∙ remove_orphan_keeps removable c now e s

module _ (removable : Text → Bool) (c : Cleaner) (now : ℕ) where
  -- What is left of a published job: nothing, if it is due and its directory can be removed.
  abbrev pub remaining : Option Job → Option Job
  remaining none = none
  remaining (some j) =
      if is_due c now j && removable (join_path c.tmpfs_path j.id) then none else some j

  lookup-expire_job :
      (id : Text) (job : Job) (s : Server)
      → lookup job.id s.queue.jobs ≡ some job
      → lookup id (expire_job removable c now job s).queue.jobs
        ≡ (if eq_text job.id id then remaining (lookup id s.queue.jobs) else lookup id s.queue.jobs)
  unfolding expire_job delete_job delete_entry remove_from_order
  lookup-expire_job id job s own = elim (Bool-cases (eq_text job.id id)) [
    | inl hit ↦
        let here_id : lookup id s.queue.jobs ≡ some job =
          subst (λ i. lookup i s.queue.jobs ≡ some job) ((eq_text_iff job.id id).0 hit) own in
        rw here_id
          (ground (arith, lookup-remove job.id id s.queue.jobs, is_expired-is_due c now job))
    | inr miss ↦ ground (arith, lookup-remove job.id id s.queue.jobs)
  ]

  distinct_absent :
      (id : Text) (job : Job) (jobs : List Job)
      → eq_text job.id id ≡ true
      → All (Differs job.id) jobs
      → has_id id jobs ≡ false
  distinct_absent id job [] hit h = refl
  distinct_absent id job (j ∷ jobs) hit (apart, h) = ground (
    arith,
    eq_text_iff job.id id,
    eq_text_iff j.id id,
    eq_text_iff job.id j.id,
    distinct_absent id job jobs hit h,
  )

  lookup-expire_jobs :
      (id : Text) (jobs : List Job) (s : Server)
      → IsListed s.queue jobs
      → lookup id (expire_jobs removable c now jobs s).queue.jobs
        ≡ (if has_id id jobs then remaining (lookup id s.queue.jobs) else lookup id s.queue.jobs)
  unfolding expire_jobs
  lookup-expire_jobs id [] s h = refl
  lookup-expire_jobs id (job ∷ jobs) s ((own, listed), (differ, distinct)) =
      let after = expire_job removable c now job s in
      let stands =
        expire_job-Stands removable c now s.queue job jobs s
          (unchanged, ((own, listed), (differ, distinct))) in
      let rest = lookup-expire_jobs id jobs after stands.1 in
      let one = lookup-expire_job id job s own in
      elim (Bool-cases (eq_text job.id id)) [
        | inl hit ↦
            let absent = distinct_absent id job jobs hit differ in
            rw hit (
              rest
              ∙ ap
                  (λ b.
                    if b
                    then remaining (lookup id after.queue.jobs)
                    else lookup id after.queue.jobs)
                  absent
              ∙ one
              ∙ ap (λ b. if b then remaining (lookup id s.queue.jobs) else lookup id s.queue.jobs)
                  hit)
        | inr miss ↦
            let same : lookup id after.queue.jobs ≡ lookup id s.queue.jobs =
              one
              ∙ ap (λ b. if b then remaining (lookup id s.queue.jobs) else lookup id s.queue.jobs)
                  miss in
            rw miss (rest ∙ ap (λ o. if has_id id jobs then remaining o else o) same)
      ]

orphaned_dirs_keep :
    (removable : Text → Bool) (c : Cleaner) (now : ℕ) (entries : Option (List DirEntry))
    (s : Server)
    → (cleanup_orphaned_dirs removable c now entries s).queue ≡ s.queue
unfolding cleanup_orphaned_dirs
orphaned_dirs_keep removable c now none s = refl
orphaned_dirs_keep removable c now (some es) s = remove_orphans_keep removable c now es s

module _ (removable later_removable : Text → Bool) (c : Cleaner) (now later size : ℕ) (m : Machine)
    (entries : Option (List DirEntry)) (dirs : List Text) where
  abbrev ticked : Server
  ticked =
      tick removable later_removable c now later entries
        (record { queue = m.queue; job_dirs = dirs })

  -- In a state that the queue reaches, what a tick of the clean-up makes of the queue is made by deletions,
  -- one after another, of jobs that are published, done or failed, and that at least `cleanup_max_age` ago;
  -- these are steps of the queue's machine. Of the published jobs, exactly those are gone that are
  -- done or failed for that long and whose directory can be removed; the others are as before.
  pub tick_refines :
      (id : Text)
      → Reach (start size) m
      → Swept c now m.queue ticked.queue
        × Reach m (record m { queue = ticked.queue })
        × (lookup id ticked.queue.jobs ≡ remaining removable c now (lookup id m.queue.jobs))
  unfolding tick cleanup_expired_jobs
  tick_refines id r =
      let s : Server = record { queue = m.queue; job_dirs = dirs } in
      let jobs = get_all_jobs m.queue in
      let listed = get_all_jobs-IsListed size r in
      let back =
        orphaned_dirs_keep later_removable c later entries (expire_jobs removable c now jobs s) in
      let swept =
        subst (Swept c now m.queue) (sym back)
          (expire_jobs-Stands removable c now m.queue jobs s (unchanged, listed)).0 in
      (
        swept,
        Swept-Reach here swept,
        ap (λ q. lookup id q.jobs) back
            ∙ lookup-expire_jobs removable c now id jobs s listed
            ∙ elim (Bool-cases (has_id id jobs)) [
              | inl known ↦ rw known
              | inr unknown ↦ rw (unknown, get_all_jobs_complete size id r unknown)
            ],
      )
