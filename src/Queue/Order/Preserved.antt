-- ===== src/Queue/Order/Preserved.antt =====
-- The steps of the machine and the agreement of `queueOrder`, the published snapshots and the channel
-- (internal/queue/queue.go).
use filemagic_backend.Prelude.{
  ℕ, ◌≡◌, refl, inl, inr, List, [], ◌∷◌, ◌++◌, none, arith, length, All, All-append, Text,
  eq_text_refl, Bool-cases, sym, subst, ap, ◌∙◌,
}
use mathlib.Core.List.{append_assoc}
use filemagic_backend.Dict.{lookup, insert, lookup-insert_self}
use filemagic_backend.Queue.{
  Queue, Job, JobStatus, Request, Outcome, new_job, is_refused, enqueue, submit, release_slot,
  conclude, remove_from_order, delete_entry,
}
use filemagic_backend.Queue.Machine.{
  Machine, Worker, Step, IsSettled, idle, received, dequeued, running, finished, submits, receives,
  dequeues, publishes, finishes, releases, deletes, unlists, as_processing,
}
use filemagic_backend.Queue.Order.{
  unsettled, listed, unstarted, ids, IsPublished, Differs, HasDistinctIds, Ordered, fresh-Differs,
  IsPublished-insert, settled-Differs, IsPublished-remove, HasDistinctIds-append, ids-append,
  Differs-sym, erase_first_absent, listed-All,
}

-- A job is added behind all the others.
enqueue-Ordered :
    (m : Machine) (r : Request)
    → lookup r.job_id m.queue.jobs ≡ none
    → Ordered m
    → Ordered (record m { queue = enqueue m.queue r })
unfolding enqueue
enqueue-Ordered m r fresh o =
    let job = new_job r (length m.queue.flags) in
    let open_jobs = unsettled m.worker ++ m.queue.job_chan in
    let apart = fresh-Differs m.queue r.job_id open_jobs fresh o.published in
    record {
      order =
          rw (← append_assoc (listed m.worker) m.queue.job_chan (job ∷ []), o.order)
            (sym (ids-append (listed m.worker ++ m.queue.job_chan) (job ∷ [])));
      published = rw (← append_assoc (unsettled m.worker) m.queue.job_chan (job ∷ [])) (
          All-append _ open_jobs (job ∷ [])
            (IsPublished-insert m.queue r.job_id job open_jobs apart o.published)
            ((lookup-insert_self r.job_id job m.queue.jobs, inl refl), tt));
      distinct =
          rw (← append_assoc (unsettled m.worker) m.queue.job_chan (job ∷ []))
            (HasDistinctIds-append open_jobs job (Differs-sym r.job_id open_jobs apart) o.distinct);
      waiting =
          rw (← append_assoc (unstarted m.worker) m.queue.job_chan (job ∷ []))
            (All-append _ (unstarted m.worker ++ m.queue.job_chan) (job ∷ []) o.waiting (refl, tt));
      processing = o.processing;
    }

submit-Ordered :
    (m : Machine) (r : Request)
    → lookup r.job_id m.queue.jobs ≡ none
    → Ordered m
    → Ordered (record m { queue = (submit m.queue r).0 })
unfolding submit
submit-Ordered m r fresh o = elim (Bool-cases (is_refused m.queue r.owner_ip)) [
  | inl full ↦ rw full o
  | inr free ↦ rw free (enqueue-Ordered m r fresh o)
]

-- The invariant speaks of the worker only through its state.
pub at_worker :
    (m : Machine) (w : Worker)
    → m.worker ≡ w
    → Ordered m
    → Ordered (record { queue = m.queue; worker = w })
at_worker m w e o = subst (λ v. Ordered (record { queue = m.queue; worker = v })) e o

receive-Ordered :
    (q : Queue) (j : Job) (rest : List Job)
    → q.job_chan ≡ j ∷ rest
    → Ordered (record { queue = q; worker = idle })
    → Ordered (record { queue = record q { job_chan = rest }; worker = received j })
receive-Ordered q j rest e o = record {
  order = o.order ∙ ap ids e;
  published = subst (All (IsPublished q)) e o.published;
  distinct = subst HasDistinctIds e o.distinct;
  waiting = subst (All (λ k. k.status ≡ JobStatus.queued)) e o.waiting;
  processing = tt;
}

dequeue-Ordered :
    (q : Queue) (j : Job)
    → Ordered (record { queue = q; worker = received j })
    → Ordered (record { queue = remove_from_order q j.id; worker = dequeued j })
unfolding remove_from_order
dequeue-Ordered q j o = record {
  order = rw (o.order, eq_text_refl j.id);
  published = o.published;
  distinct = o.distinct;
  waiting = o.waiting;
  processing = tt;
}

publish-Ordered :
    (q : Queue) (j : Job)
    → Ordered (record { queue = q; worker = dequeued j })
    → Ordered (record {
      queue = record q { jobs = insert j.id (as_processing j) q.jobs };
      worker = running (as_processing j);
    })
publish-Ordered q j o = record {
  order = o.order;
  published = (
    (lookup-insert_self j.id (as_processing j) q.jobs, inr refl),
    IsPublished-insert q j.id (as_processing j) q.job_chan o.distinct.0 o.published.1,
  );
  distinct = o.distinct;
  waiting = o.waiting.1;
  processing = (refl, tt);
}

pub conclude-id : (j : Job) (o : Outcome) (now : ℕ) → (conclude j o now).id ≡ j.id
unfolding conclude
conclude-id j o now = ground arith

finish-Ordered :
    (q : Queue) (j k : Job)
    → k.id ≡ j.id
    → Ordered (record { queue = q; worker = running j })
    → Ordered (record { queue = record q { jobs = insert k.id k q.jobs }; worker = finished k })
finish-Ordered q j k e o = record {
  order = o.order;
  published =
      IsPublished-insert q k.id k q.job_chan
        (subst (λ id. All (Differs id) q.job_chan) (sym e) o.distinct.0) o.published.1;
  distinct = o.distinct.1;
  waiting = o.waiting;
  processing = tt;
}

-- A released slot leaves the jobs, the order and the channel alone.
pub release_slot_frame :
    (q : Queue) (ip : Text)
    → ((release_slot q ip).jobs ≡ q.jobs)
      × ((release_slot q ip).queue_order ≡ q.queue_order)
      × ((release_slot q ip).job_chan ≡ q.job_chan)
unfolding release_slot
release_slot_frame q ip = ground arith

release-Ordered :
    (q : Queue) (j : Job)
    → Ordered (record { queue = q; worker = finished j })
    → Ordered (record { queue = release_slot q j.owner_ip; worker = idle })
release-Ordered q j o =
    let (same_jobs, same_order, same_chan) = release_slot_frame q j.owner_ip in
    record {
      order = rw (same_order, same_chan) o.order;
      published = rw (same_jobs, same_chan) o.published;
      distinct = rw same_chan o.distinct;
      waiting = rw same_chan o.waiting;
      processing = tt;
    }

delete-Ordered :
    (m : Machine) (id : Text)
    → IsSettled m.queue id
    → Ordered m
    → Ordered (record m { queue = delete_entry m.queue id })
unfolding delete_entry
delete-Ordered m id s o =
    let open_jobs = unsettled m.worker ++ m.queue.job_chan in
    record {
      order = o.order;
      published =
          IsPublished-remove m.queue id open_jobs
            (settled-Differs m.queue id open_jobs s o.published) o.published;
      distinct = o.distinct;
      waiting = o.waiting;
      processing = o.processing;
    }

unlist-Ordered :
    (m : Machine) (id : Text)
    → lookup id m.queue.jobs ≡ none
    → Ordered m
    → Ordered (record m { queue = remove_from_order m.queue id })
unfolding remove_from_order
unlist-Ordered m id gone o =
    let kept = listed m.worker ++ m.queue.job_chan in
    let apart = fresh-Differs m.queue id kept gone (listed-All _ m.worker _ o.published) in
    record {
      order = rw o.order (erase_first_absent id kept apart);
      published = o.published;
      distinct = o.distinct;
      waiting = o.waiting;
      processing = o.processing;
    }

pub Step-Ordered : {m n : Machine} → Step m n → Ordered m → Ordered n
Step-Ordered {m} (submits r fresh) o = submit-Ordered m r fresh o
Step-Ordered {m} (receives j rest e f) o = receive-Ordered m.queue j rest f (at_worker m _ e o)
Step-Ordered {m} (dequeues j e) o = dequeue-Ordered m.queue j (at_worker m _ e o)
Step-Ordered {m} (publishes j e) o = publish-Ordered m.queue j (at_worker m _ e o)
Step-Ordered {m} (finishes j o now e) h =
    finish-Ordered m.queue j (conclude j o now) (conclude-id j o now) (at_worker m _ e h)
Step-Ordered {m} (releases j e) o = release-Ordered m.queue j (at_worker m _ e o)
Step-Ordered {m} (deletes id s) o = delete-Ordered m id s o
Step-Ordered {m} (unlists id gone) o = unlist-Ordered m id gone o
