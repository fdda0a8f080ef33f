-- ===== src/Queue/Machine.antt =====
-- The interleavings of internal/queue/queue.go: the single worker goroutine, `Submit` calls and
-- `DeleteJob` calls. Each step is one critical section or one channel or map operation, so the
-- worker's loop body is five steps and `DeleteJob` is two, with any other step between them.
use filemagic_backend.Prelude.{ℕ, ◌≡◌, ◌⊎◌, List, [], ◌∷◌, ◌++◌, some, none, Text}
use filemagic_backend.Dict.{lookup}
use filemagic_backend.Queue.{
  Queue, Job, JobStatus, Request, Outcome, new, submit, release_slot, remove_from_order,
  delete_entry, conclude, store,
}

-- Where the worker stands in its loop, with the job that it holds.
pub data Worker : Type 0 where
  idle : Worker
  received dequeued running finished : Job → Worker

pub record Machine : Type 0 where
  pub queue : Queue
  pub worker : Worker

unfoldable pub start : ℕ → Machine
unfolding new
start max_size = record { queue = new max_size; worker = idle }

abbrev pub as_processing : Job → Job
as_processing j = record j { status = JobStatus.processing }

-- The job is published in a final state, as the callers of `DeleteJob` see it first.
abbrev pub IsSettled : Queue → Text → Type 0
IsSettled q id =
    (j : Job) × (lookup id q.jobs ≡ some j)
    × ((j.status ≡ JobStatus.done) ⊎ (j.status ≡ JobStatus.error))

pub data Step (m : Machine) : Machine → Type 0 where
  -- `Submit`, under a job id that is not in use.
  submits :
      (r : Request)
      → lookup r.job_id m.queue.jobs ≡ none
      → Step m (record m { queue = (submit m.queue r).0 })
  -- `case queued := <-q.jobChan`
  receives :
      (j : Job) (rest : List Job)
      → m.worker ≡ idle
      → m.queue.job_chan ≡ j ∷ rest
      → Step m (record { queue = record m.queue { job_chan = rest }; worker = received j })
  -- `q.removeFromOrder(job.ID)`
  dequeues :
      (j : Job)
      → m.worker ≡ received j
      → Step m (record { queue = remove_from_order m.queue j.id; worker = dequeued j })
  -- `q.jobs.Store(job.ID, &processing)`
  publishes :
      (j : Job)
      → m.worker ≡ dequeued j
      → Step m
          (record { queue = store m.queue (as_processing j); worker = running (as_processing j) })
  -- `q.processFunc(ctx, &job)` has returned, and the verdict is stored.
  finishes :
      (j : Job) (o : Outcome) (now : ℕ)
      → m.worker ≡ running j
      → Step m (record {
        queue = store m.queue (conclude j o now);
        worker = finished (conclude j o now);
      })
  -- `q.releaseSlot(job.OwnerIP)`
  releases :
      (j : Job)
      → m.worker ≡ finished j
      → Step m (record { queue = release_slot m.queue j.owner_ip; worker = idle })
  -- The first half of `DeleteJob`, called for a settled job.
  deletes :
      (id : Text) → IsSettled m.queue id → Step m (record m { queue = delete_entry m.queue id })
  -- Its second half, when the entry is gone.
  unlists :
      (id : Text)
      → lookup id m.queue.jobs ≡ none
      → Step m (record m { queue = remove_from_order m.queue id })

pub data Reach (m : Machine) : Machine → Type 0 where
  here : Reach m m
  next : {s t : Machine} → Reach m s → Step s t → Reach m t

abbrev pub held : Worker → List Job
held idle = []
held (received j) = j ∷ []
held (dequeued j) = j ∷ []
held (running j) = j ∷ []
held (finished j) = j ∷ []

-- The jobs that hold a fairness slot: the worker's, then those in the channel.
abbrev pub pending : Machine → List Job
pending m = held m.worker ++ m.queue.job_chan
