-- ===== src/Queue/Lifecycle.antt =====
-- The states that clients see of a job (`JobStatus` in internal/queue/queue.go) and what one step
-- of any party does to them.
use filemagic_backend.Prelude.{
  ℕ, ◌≡◌, refl, inl, inr, true, Option, none, some, arith, length, Text, eq_text, eq_text_iff,
  Bool-cases, sym, subst,
}
use filemagic_backend.Dict.{lookup, insert, remove, lookup-insert, lookup-remove}
use filemagic_backend.Queue.{
  Queue, Job, JobStatus, Request, Outcome, new_job, enqueue, submit, conclude, remove_from_order,
  delete_entry,
}
use filemagic_backend.Queue.Machine.{
  Machine, Step, Reach, start, dequeued, running, submits, receives, dequeues, publishes, finishes,
  releases, deletes, unlists, as_processing,
}
use filemagic_backend.Queue.Order.{IsUnsettled, Ordered}
use filemagic_backend.Queue.Order.Preserved.{at_worker, conclude-id, release_slot_frame}
use filemagic_backend.Queue.Order.Positions.{Reach-Ordered}

-- The moves of a published state.
pub data Advances : JobStatus → JobStatus → Type 0 where
  stays : {s : JobStatus} → Advances s s
  begins : Advances JobStatus.queued JobStatus.processing
  succeeds : Advances JobStatus.processing JobStatus.done
  fails : Advances JobStatus.processing JobStatus.error

stays_of_eq : {j k : Job} → j ≡ k → Advances j.status k.status
stays_of_eq {j} e = subst (λ (x : Job). Advances j.status x.status) e stays

-- What one step does to the published job of one id: it goes, stays as it is, or is replaced by the
-- worker along one move.
pub data Change (j : Job) : Option Job → Type 0 where
  gone : Change j none
  same : Change j (some j)
  replaced :
      (k : Job)
      → IsUnsettled j
      → Advances j.status k.status
      → j.owner_ip ≡ k.owner_ip
      → j.downloaded ≡ k.downloaded
      → Change j (some k)

conclude_move :
    (j : Job) (o : Outcome) (now : ℕ)
    → j.status ≡ JobStatus.processing
    → Advances j.status (conclude j o now).status
unfolding conclude
conclude_move j o now e = grind (arith, stays, begins, succeeds, fails)

conclude_frame :
    (j : Job) (o : Outcome) (now : ℕ)
    → (j.owner_ip ≡ (conclude j o now).owner_ip) × (j.downloaded ≡ (conclude j o now).downloaded)
unfolding conclude
conclude_frame j o now = ground arith

-- Storing the worker's version `v` of a job changes the entry of that job alone.
insert-Change :
    (q : Queue) (id : Text) (w v : Job) {j : Job}
    → v.id ≡ w.id
    → lookup w.id q.jobs ≡ some w
    → lookup id q.jobs ≡ some j
    → Change w (some v)
    → Change j (lookup id (insert v.id v q.jobs))
insert-Change q id w v {j} i p e c = elim (Bool-cases (eq_text v.id id)) [
  | inl hit ↦
      rw (lookup-insert v.id id v q.jobs, hit)
        (subst (λ (x : Job). Change x (some v)) (worker_is_entry hit) c)
  | inr miss ↦ rw (lookup-insert v.id id v q.jobs, miss, e) same
]
  where
    worker_is_entry : eq_text v.id id ≡ true → w ≡ j
    worker_is_entry hit = ground (arith, eq_text_iff v.id id)

remove-Change :
    (q : Queue) (k id : Text) {j : Job}
    → lookup id q.jobs ≡ some j
    → Change j (lookup id (remove k q.jobs))
remove-Change q k id e = elim (Bool-cases (eq_text k id)) [
  | inl hit ↦ rw (lookup-remove k id q.jobs, hit) gone
  | inr miss ↦ rw (lookup-remove k id q.jobs, miss, e) same
]

submit-Change :
    (q : Queue) (r : Request) (id : Text) {j : Job}
    → lookup r.job_id q.jobs ≡ none
    → lookup id q.jobs ≡ some j
    → lookup id (submit q r).0.jobs ≡ some j
unfolding submit enqueue
submit-Change q r id fresh e =
    ground (
      arith,
      lookup-insert r.job_id id (new_job r (length q.flags)) q.jobs,
      eq_text_iff r.job_id id,
    )

publish-Change : (w : Job) → w.status ≡ JobStatus.queued → Change w (some (as_processing w))
publish-Change w e =
    replaced (as_processing w) (inl e) (subst (λ s. Advances s JobStatus.processing) (sym e) begins)
      refl refl

conclude-Change :
    (w : Job) (o : Outcome) (now : ℕ)
    → w.status ≡ JobStatus.processing
    → Change w (some (conclude w o now))
conclude-Change w o now e =
    let (owner, flag) = conclude_frame w o now in
    replaced (conclude w o now) (inr e) (conclude_move w o now e) owner flag

Step-Change :
    {m n : Machine} (id : Text) {j : Job}
    → Ordered m
    → Step m n
    → lookup id m.queue.jobs ≡ some j
    → Change j (lookup id n.queue.jobs)
unfolding remove_from_order delete_entry
Step-Change {m} id o (submits r fresh) e = rw (submit-Change m.queue r id fresh e) same
Step-Change {m} id o (receives w rest f g) e = rw e same
Step-Change {m} id o (dequeues w f) e = rw e same
Step-Change {m} id o (publishes w f) e =
    let h = at_worker m (dequeued w) f o in
    insert-Change m.queue id w (as_processing w) refl h.published.0.0 e
      (publish-Change w h.waiting.0)
Step-Change {m} id o (finishes w out now f) e =
    let h = at_worker m (running w) f o in
    insert-Change m.queue id w (conclude w out now) (conclude-id w out now) h.published.0.0 e
      (conclude-Change w out now h.processing.0)
Step-Change {m} id o (releases w f) e = rw ((release_slot_frame m.queue w.owner_ip).0, e) same
Step-Change {m} id o (deletes k s) e = remove-Change m.queue k id e
Step-Change {m} id o (unlists k s) e = rw e same

-- In every reachable state, one step of any party does one of three things to a published job: it
-- deletes the entry, leaves it as it is, or replaces it, and then only if the job is not settled, by a
-- job of the same owner and the same download flag whose state is the same, or one move further along
-- queued, processing, then done or failed.
pub published_advances :
    (size : ℕ) (id : Text) {m n : Machine} {j : Job}
    → Reach (start size) m
    → Step m n
    → lookup id m.queue.jobs ≡ some j
    → Change j (lookup id n.queue.jobs)
published_advances size id r s e = Step-Change id (Reach-Ordered size r) s e
