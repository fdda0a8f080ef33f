-- ===== src/Queue/Accounting.antt =====
-- The per-client fairness counter and the bounds of the channel, over every history.
use filemagic_backend.Prelude.{
  ℕ, suc, ◌+◌, ◌-◌, ◌/◌, ◌≤◌, ◌<◌, max, ◌≡◌, refl, inl, inr, true, false, List, [], ◌∷◌, ◌++◌,
  arith, length, length-append, leb, if◌then◌else◌, Text, eq_text, eq_text_iff, non_empty, ◌||◌,
  ◌&&◌, Bool-cases,
}
use filemagic_backend.Dict.{lookup, insert, remove, lookup-insert, lookup-remove}
use filemagic_backend.Queue.{
  Queue, Job, Request, queue_full, accepted, new_job, inflight_of, is_refused, enqueue, submit,
  release_slot, conclude, remove_from_order, delete_entry,
}
use filemagic_backend.Queue.Machine.{
  Machine, Worker, Step, Reach, start, held, pending, idle, submits, receives, dequeues, publishes,
  finished, finishes, releases, deletes, unlists, here, next,
}

-- The number of jobs of one client.
unfoldable pub owned : Text → List Job → ℕ
owned ip [] = 0
owned ip (j ∷ js) = if eq_text j.owner_ip ip then suc (owned ip js) else owned ip js

owned-append : (ip : Text) (xs ys : List Job) → owned ip (xs ++ ys) ≡ owned ip xs + owned ip ys
unfolding owned
owned-append ip [] ys = omega arith
owned-append ip (x ∷ xs) ys = ground (arith, owned-append ip xs ys)

inflight_of-insert :
    (k ip : Text) (n : ℕ) (m : List (Text × ℕ))
    → inflight_of ip (insert k n m) ≡ (if eq_text k ip then n else inflight_of ip m)
unfolding inflight_of
inflight_of-insert k ip n m = ground (arith, lookup-insert k ip n m)

inflight_of-remove :
    (k ip : Text) (m : List (Text × ℕ))
    → inflight_of ip (remove k m) ≡ (if eq_text k ip then 0 else inflight_of ip m)
unfolding inflight_of
inflight_of-remove k ip m = ground (arith, lookup-remove k ip m)

-- The counter of one client, and the limits, between two steps.
pub record Counted (ip : Text) (m : Machine) : Type 0 where
  pub exact : inflight_of ip m.queue.inflight ≡ owned ip (pending m)
  pub fair : owned ip (pending m) ≤ m.queue.per_client_limit
  pub limited : 0 < m.queue.per_client_limit
  pub capped : length m.queue.job_chan ≤ m.queue.max_size

enqueue_inflight :
    (q : Queue) (r : Request) (ip : Text)
    → non_empty ip ≡ true
    → inflight_of ip (enqueue q r).inflight
      ≡ (if eq_text r.owner_ip ip then inflight_of ip q.inflight + 1 else inflight_of ip q.inflight)
unfolding enqueue
enqueue_inflight q r ip named = ground (
  arith,
  eq_text_iff r.owner_ip ip,
  inflight_of-insert r.owner_ip ip (inflight_of r.owner_ip q.inflight + 1) q.inflight,
)

release_slot_inflight :
    (q : Queue) (k ip : Text)
    → non_empty ip ≡ true
    → inflight_of ip (release_slot q k).inflight
      ≡ (if eq_text k ip then inflight_of ip q.inflight - 1 else inflight_of ip q.inflight)
unfolding release_slot
release_slot_inflight q k ip named = ground (
  arith,
  eq_text_iff k ip,
  inflight_of-remove k ip q.inflight,
  inflight_of-insert k ip (inflight_of k q.inflight - 1) q.inflight,
)

-- An accepted job adds one to its own client's count.
owned-enqueue :
    (w : Worker) (q : Queue) (r : Request) (ip : Text)
    → owned ip (held w ++ (enqueue q r).job_chan) ≡ (
        if eq_text r.owner_ip ip
        then owned ip (held w ++ q.job_chan) + 1
        else owned ip (held w ++ q.job_chan))
unfolding enqueue owned
owned-enqueue w q r ip =
    let job = new_job r (length q.flags) in
    ground (
      arith,
      owned-append ip (held w) (q.job_chan ++ job ∷ []),
      owned-append ip (held w) q.job_chan,
      owned-append ip q.job_chan (job ∷ []),
    )

enqueue-Counted :
    (m : Machine) (r : Request) (ip : Text)
    → non_empty ip ≡ true
    → is_refused m.queue r.owner_ip ≡ false
    → Counted ip m
    → Counted ip (record m { queue = enqueue m.queue r })
unfolding enqueue is_refused
enqueue-Counted m r ip named free c =
    let job = new_job r (length m.queue.flags) in
    ground (
      arith,
      eq_text_iff r.owner_ip ip,
      enqueue_inflight m.queue r ip named,
      owned-enqueue m.worker m.queue r ip,
      length-append m.queue.job_chan (job ∷ []),
    )

submit-Counted :
    (m : Machine) (r : Request) (ip : Text)
    → non_empty ip ≡ true
    → Counted ip m
    → Counted ip (record m { queue = (submit m.queue r).0 })
unfolding submit
submit-Counted m r ip named c = elim (Bool-cases (is_refused m.queue r.owner_ip)) [
  | inl full ↦ rw full c
  | inr free ↦ rw free (enqueue-Counted m r ip named free c)
]

release-Counted :
    (m : Machine) (j : Job) (ip : Text)
    → non_empty ip ≡ true
    → m.worker ≡ finished j
    → Counted ip m
    → Counted ip (record { queue = release_slot m.queue j.owner_ip; worker = idle })
unfolding release_slot owned
release-Counted m j ip named e c = ground (arith, release_slot_inflight m.queue j.owner_ip ip named)

pub Step-Counted :
    {m n : Machine} (ip : Text) → non_empty ip ≡ true → Step m n → Counted ip m → Counted ip n
unfolding owned remove_from_order conclude delete_entry
Step-Counted {m} ip named (submits r fresh) c = submit-Counted m r ip named c
Step-Counted {m} ip named (receives j rest e f) c = ground arith
Step-Counted {m} ip named (dequeues j e) c = ground arith
Step-Counted {m} ip named (publishes j e) c = ground arith
Step-Counted {m} ip named (finishes j o now e) c = ground arith
Step-Counted {m} ip named (releases j e) c = release-Counted m j ip named e c
Step-Counted {m} ip named (deletes id s) c = ground arith
Step-Counted {m} ip named (unlists id gone) c = ground arith

-- The limits are set by `New` and never change.
limits-Step :
    {m n : Machine}
    → Step m n
    → (n.queue.max_size ≡ m.queue.max_size) × (n.queue.per_client_limit ≡ m.queue.per_client_limit)
unfolding submit enqueue remove_from_order delete_entry release_slot
limits-Step (submits r fresh) = ground arith
limits-Step (receives j rest e f) = (refl, refl)
limits-Step (dequeues j e) = (refl, refl)
limits-Step (publishes j e) = (refl, refl)
limits-Step (finishes j o now e) = (refl, refl)
limits-Step (releases j e) = ground arith
limits-Step (deletes id s) = (refl, refl)
limits-Step (unlists id gone) = (refl, refl)

pub limits-Reach :
    (size : ℕ) {m : Machine}
    → Reach (start size) m
    → (m.queue.max_size ≡ size) × (m.queue.per_client_limit ≡ max (size / 3) 2)
unfolding start
limits-Reach size here = ground arith
limits-Reach size (next r s) = ground (arith, limits-Reach size r, limits-Step s)

start-Counted : (size : ℕ) (ip : Text) → Counted ip (start size)
unfolding start owned inflight_of lookup
start-Counted size ip = ground arith

pub Reach-Counted :
    (size : ℕ) (ip : Text) {m : Machine} → non_empty ip ≡ true → Reach (start size) m → Counted ip m
Reach-Counted size ip named here = start-Counted size ip
Reach-Counted size ip named (next r s) = Step-Counted ip named s (Reach-Counted size ip named r)

-- The channel's bound does not depend on a client.
length-Reach : (size : ℕ) {m : Machine} → Reach (start size) m → length m.queue.job_chan ≤ size
length-Reach size r =
    omega (arith, (Reach-Counted size (0 ∷ []) refl r).capped, limits-Reach size r)

-- In every state that the queue reaches from `New(size)`, by any interleaving of submissions, worker
-- steps and deletions, and for every client that has a non-empty address: the counter `inflight`
-- equals the number of its jobs that wait in the channel or are held by the worker, that number is at
-- most max(size / 3, 2), and the channel holds at most `size` jobs.
pub inflight_exact :
    (size : ℕ) (ip : Text) {m : Machine}
    → non_empty ip ≡ true
    → Reach (start size) m
    → (inflight_of ip m.queue.inflight ≡ owned ip (pending m))
      × (owned ip (pending m) ≤ max (size / 3) 2)
      × (length m.queue.job_chan ≤ size)
inflight_exact size ip named r =
    let c = Reach-Counted size ip named r in
    let l = limits-Reach size r in (c.exact, omega (arith, c.fair, l), length-Reach size r)

enqueue_position :
    (q : Queue) (r : Request) → length (enqueue q r).queue_order ≡ length q.queue_order + 1
unfolding enqueue
enqueue_position q r = length-append q.queue_order (r.job_id ∷ [])

-- The tests of `Submit` in terms of the jobs that are pending.
is_refused_lem :
    (size : ℕ) (ip : Text) {m : Machine}
    → Reach (start size) m
    → is_refused m.queue ip ≡ (
        leb size (length m.queue.job_chan)
        || (non_empty ip && leb (max (size / 3) 2) (owned ip (pending m))))
unfolding is_refused
is_refused_lem size [] r = ground (arith, limits-Reach size r)
is_refused_lem size (c ∷ ip) r =
    ground (arith, limits-Reach size r, inflight_exact size (c ∷ ip) refl r)

-- In every state reached from `New(size)`, `Submit` accepts a request, at the position behind all
-- waiting ids, exactly when the channel has room and the client is exempt (empty address) or has
-- fewer than max(size / 3, 2) unfinished jobs. Otherwise it reports a full queue and changes nothing.
pub submit_decides :
    (size : ℕ) (r : Request) {m : Machine}
    → Reach (start size) m
    → submit m.queue r ≡ (
        if leb size (length m.queue.job_chan)
          || (non_empty r.owner_ip && leb (max (size / 3) 2) (owned r.owner_ip (pending m)))
        then (m.queue, queue_full)
        else (
          enqueue m.queue r,
          accepted (new_job r (length m.queue.flags)) (length m.queue.queue_order + 1),
        ))
unfolding submit
submit_decides size r {m} reach =
    rw (is_refused_lem size r.owner_ip reach, enqueue_position m.queue r)
