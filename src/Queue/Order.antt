-- ===== src/Queue/Order.antt =====
-- What `queueOrder` and `jobs` say about the jobs that wait (internal/queue/queue.go): the invariant,
-- with the lemmas on lists of jobs that its proofs need.
pub mod Preserved
pub mod Positions
use filemagic_backend.Prelude.{
  ℕ, zero, suc, ◌+◌, ◌<◌, ◌≡◌, refl, ◌⊎◌, inl, inr, ◌≢◌, Bool, true, false, List, [], ◌∷◌, ◌++◌,
  map, Option, none, some, arith, length, get_elem?, All, All-append, if◌then◌else◌, Text, eq_text,
  eq_text_iff, eq_text_refl, Bool-cases, sym, subst, ap, ◌∙◌,
}
use mathlib.Core.List.{append_assoc}
use filemagic_backend.Dict.{
  lookup, insert, remove, lookup-insert, lookup-remove, lookup-insert_self,
}
use filemagic_backend.Queue.{
  Queue, Job, JobStatus, Request, Outcome, new, new_job, is_refused, enqueue, submit, release_slot,
  conclude, remove_from_order, erase_first, delete_entry, get_position, position_from,
}
use filemagic_backend.Queue.Machine.{
  Machine, Worker, Step, Reach, IsSettled, start, held, idle, received, dequeued, running, finished,
  submits, receives, dequeues, publishes, finishes, releases, deletes, unlists, here, next,
  as_processing,
}

-- The jobs of the worker and the channel that are not settled, oldest first.
abbrev pub unsettled : Worker → List Job
unsettled idle = []
unsettled (received j) = j ∷ []
unsettled (dequeued j) = j ∷ []
unsettled (running j) = j ∷ []
unsettled (finished j) = []

-- The jobs that have not left `queueOrder`.
abbrev pub listed : Worker → List Job
listed idle = []
listed (received j) = j ∷ []
listed (dequeued j) = []
listed (running j) = []
listed (finished j) = []

-- The jobs that are not published as processing yet.
abbrev pub unstarted : Worker → List Job
unstarted idle = []
unstarted (received j) = j ∷ []
unstarted (dequeued j) = j ∷ []
unstarted (running j) = []
unstarted (finished j) = []

abbrev pub started : Worker → List Job
started idle = []
started (received j) = []
started (dequeued j) = []
started (running j) = j ∷ []
started (finished j) = []

abbrev pub ids : List Job → List Text
ids = map (λ j. j.id)

abbrev pub IsUnsettled : Job → Type 0
IsUnsettled j = (j.status ≡ JobStatus.queued) ⊎ (j.status ≡ JobStatus.processing)

-- The published snapshot of a job is the job itself, and it is not settled.
abbrev pub IsPublished : Queue → Job → Type 0
IsPublished q j = (lookup j.id q.jobs ≡ some j) × IsUnsettled j

abbrev pub Differs : Text → Job → Type 0
Differs id j = eq_text id j.id ≡ false

-- No two jobs of the list have one id.
abbrev pub HasDistinctIds : List Job → Type 0
HasDistinctIds [] = Unit {0}
HasDistinctIds (j ∷ js) = All (Differs j.id) js × HasDistinctIds js

pub record Ordered (m : Machine) : Type 0 where
  pub order : m.queue.queue_order ≡ ids (listed m.worker ++ m.queue.job_chan)
  pub published : All (IsPublished m.queue) (unsettled m.worker ++ m.queue.job_chan)
  pub distinct : HasDistinctIds (unsettled m.worker ++ m.queue.job_chan)
  pub waiting : All (λ j. j.status ≡ JobStatus.queued) (unstarted m.worker ++ m.queue.job_chan)
  pub processing : All (λ j. j.status ≡ JobStatus.processing) (started m.worker)

-- An id that no entry has is new to every published job.
pub fresh-Differs :
    (q : Queue) (id : Text) (js : List Job)
    → lookup id q.jobs ≡ none
    → All (IsPublished q) js
    → All (Differs id) js
fresh-Differs q id [] fresh p = tt
fresh-Differs q id (j ∷ js) fresh p =
    (ground (arith, eq_text_iff id j.id), fresh-Differs q id js fresh p.1)

-- Publishing a job keeps the snapshots of the jobs with other ids.
pub IsPublished-insert :
    (q : Queue) (id : Text) (v : Job) (js : List Job)
    → All (Differs id) js
    → All (IsPublished q) js
    → All (λ j. (lookup j.id (insert id v q.jobs) ≡ some j) × IsUnsettled j) js
IsPublished-insert q id v [] d p = tt
IsPublished-insert q id v (j ∷ js) d p =
    ((rw (lookup-insert id j.id v q.jobs, d.0) p.0.0, p.0.1), IsPublished-insert q id v js d.1 p.1)

-- A settled job is none of the unsettled ones.
pub settled-Differs :
    (q : Queue) (id : Text) (js : List Job)
    → IsSettled q id
    → All (IsPublished q) js
    → All (Differs id) js
settled-Differs q id [] s p = tt
settled-Differs q id (j ∷ js) s p =
    (ground (arith, eq_text_iff id j.id), settled-Differs q id js s p.1)

pub IsPublished-remove :
    (q : Queue) (id : Text) (js : List Job)
    → All (Differs id) js
    → All (IsPublished q) js
    → All (λ j. (lookup j.id (remove id q.jobs) ≡ some j) × IsUnsettled j) js
IsPublished-remove q id [] d p = tt
IsPublished-remove q id (j ∷ js) d p =
    ((rw (lookup-remove id j.id q.jobs, d.0) p.0.0, p.0.1), IsPublished-remove q id js d.1 p.1)

pub HasDistinctIds-append :
    (js : List Job) (j : Job)
    → All (λ k. eq_text k.id j.id ≡ false) js
    → HasDistinctIds js
    → HasDistinctIds (js ++ j ∷ [])
HasDistinctIds-append [] j d h = (tt, tt)
HasDistinctIds-append (k ∷ js) j d h =
    (All-append (Differs k.id) js (j ∷ []) h.0 (d.0, tt), HasDistinctIds-append js j d.1 h.1)

pub ids-append : (xs ys : List Job) → ids (xs ++ ys) ≡ ids xs ++ ids ys
ids-append [] ys = refl
ids-append (x ∷ xs) ys = rw (ids-append xs ys)

pub Differs-sym :
    (id : Text) (js : List Job) → All (Differs id) js → All (λ k. eq_text k.id id ≡ false) js
Differs-sym id [] d = tt
Differs-sym id (j ∷ js) d =
    (ground (arith, d.0, eq_text_iff id j.id, eq_text_iff j.id id), Differs-sym id js d.1)

pub erase_first_absent :
    (id : Text) (js : List Job) → All (Differs id) js → erase_first id (ids js) ≡ ids js
unfolding erase_first
erase_first_absent id [] d = refl
erase_first_absent id (j ∷ js) d =
    ground (arith, eq_text_iff id j.id, eq_text_iff j.id id, erase_first_absent id js d.1)

-- Every listed job is an unsettled one.
pub listed-All {κ} :
    (P : Job → Type κ) (w : Worker) (js : List Job)
    → All P (unsettled w ++ js)
    → All P (listed w ++ js)
listed-All P idle js p = p
listed-All P (received j) js p = p
listed-All P (dequeued j) js p = p.1
listed-All P (running j) js p = p.1
listed-All P (finished j) js p = p
