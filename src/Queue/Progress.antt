-- ===== src/Queue/Progress.antt =====
-- Where the turns of the worker's loop lead when nobody else acts (`worker` in
-- internal/queue/queue.go).
use filemagic_backend.Prelude.{
  ℕ, zero, suc, ◌≤◌, ◌≡◌, refl, sym, ap, ◌∙◌, ◌⊎◌, inl, inr, true, [], ◌++◌, arith, Text, eq_text,
  eq_text_iff, non_empty, subst, Bool-cases,
}
use filemagic_backend.Dict.{lookup, lookup-insert}
use filemagic_backend.Queue.{
  Queue, Job, JobStatus, Outcome, inflight_of, conclude, store, remove_from_order, release_slot,
}
use filemagic_backend.Queue.Machine.{
  Machine, Worker, Reach, IsSettled, start, held, idle, received, dequeued, running, finished, next,
  as_processing,
}
use filemagic_backend.Queue.Order.{unsettled, listed, ids}
use filemagic_backend.Queue.Order.Preserved.{conclude-id, release_slot_frame}
use filemagic_backend.Queue.Order.Positions.{Reach-Ordered}
use filemagic_backend.Queue.Accounting.{owned, inflight_exact}
use filemagic_backend.Queue.Turns.{
  worker_turn, worker_turns, turns_held, turns_left, is_among, at, List-cases, turn_receives,
  turn_rests, turn-Turns,
}

-- The job is on its way through the worker, or settled.
abbrev InHand : Text → Machine → Type 0
InHand id m = (is_among id (unsettled m.worker ++ m.queue.job_chan) ≡ true) ⊎ IsSettled m.queue id

conclude_settles :
    (j : Job) (o : Outcome) (now : ℕ)
    → ((conclude j o now).status ≡ JobStatus.done) ⊎ ((conclude j o now).status ≡ JobStatus.error)
unfolding conclude
conclude_settles j o now = ground arith

-- Storing the verdict on a job leaves it settled, and any job that was.
concluded-IsSettled :
    (q : Queue) (o : Outcome) (now : ℕ) (id : Text) (j : Job)
    → IsSettled q id ⊎ (j.id ≡ id)
    → IsSettled (store q (conclude j o now)) id
concluded-IsSettled q o now id j h =
    let c = conclude j o now in
    elim (Bool-cases (eq_text c.id id)) [
      | inl hit ↦ (c, ground (arith, lookup-insert c.id id c q.jobs), conclude_settles j o now)
      | inr miss ↦ elim h [
        | inl (k, found, settled) ↦ (k, ground (arith, lookup-insert c.id id c q.jobs), settled)
        | inr same ↦ absurd (ground (arith, conclude-id j o now, eq_text_iff c.id id))
      ]
    ]

turn-InHand :
    (o : Outcome) (now : ℕ) (id : Text) (q : Queue) (w : Worker)
    → InHand id (at q w)
    → InHand id (worker_turn o now (at q w))
unfolding worker_turn is_among remove_from_order release_slot
turn-InHand o now id q idle h = elim (List-cases q.job_chan) [
  | inl e ↦ subst (InHand id) (sym (turn_rests o now q e)) h
  | inr (j, rest, e) ↦
      subst (InHand id) (sym (turn_receives o now q j rest e))
        (elim h [ inl found ↦ inl (ap (is_among id) (sym e) ∙ found) | inr settled ↦ inr settled ])
]
turn-InHand o now id q (received j) h = h
turn-InHand o now id q (dequeued j) (inl found) = inl found
turn-InHand o now id q (dequeued j) (inr (k, found, settled)) =
    elim (Bool-cases (eq_text j.id id)) [
      | inl hit ↦ inl (ground arith)
      | inr miss ↦ inr (k, ground (arith, lookup-insert j.id id (as_processing j) q.jobs), settled)
    ]
turn-InHand o now id q (running j) (inl found) = elim (Bool-cases (eq_text j.id id)) [
  | inl hit ↦ inr (concluded-IsSettled q o now id j (inr ((eq_text_iff j.id id).0 hit)))
  | inr miss ↦ inl (ground arith)
]
turn-InHand o now id q (running j) (inr settled) =
    inr (concluded-IsSettled q o now id j (inl settled))
turn-InHand o now id q (finished j) h =
    let (same_jobs, same_order, same_chan) = release_slot_frame q j.owner_ip in
    elim h [
      | inl found ↦ inl (ap (is_among id) same_chan ∙ found)
      | inr (k, found, settled) ↦ inr (k, ap (lookup id) same_jobs ∙ found, settled)
    ]

-- The worker's turns lead to a state that is reached, and without a turn to go.
turns-Reach :
    (ends : ℕ → Outcome × ℕ) (n : ℕ) {s m : Machine}
    → Reach s m
    → turns_left m ≤ n
    → Reach s (worker_turns ends n m) × (turns_left (worker_turns ends n m) ≡ 0)
unfolding worker_turns
turns-Reach ends zero {s} {m} r few = (r, omega arith)
turns-Reach ends (suc n) {s} {m} r few =
    let (o, now) = ends n in
    elim (turn-Turns o now m.queue m.worker) [
      | inl (same, over) ↦
          turns-Reach ends n (subst (Reach s) (sym same) r) (ground (arith, ap turns_left same))
      | inr (step, less) ↦ turns-Reach ends n (next r step) (omega (arith, less, few))
    ]

turns-InHand :
    (ends : ℕ → Outcome × ℕ) (n : ℕ) (id : Text) (m : Machine)
    → InHand id m
    → InHand id (worker_turns ends n m)
unfolding worker_turns
turns-InHand ends zero id m h = h
turns-InHand ends (suc n) id m h =
    turns-InHand ends n id (worker_turn (ends n).0 (ends n).1 m)
      (turn-InHand (ends n).0 (ends n).1 id m.queue m.worker h)

idle_worker : (w : Worker) → turns_held w ≡ 0 → w ≡ idle
unfolding turns_held
idle_worker idle e = refl
idle_worker (received j) e = absurd (ground arith)
idle_worker (dequeued j) e = absurd (ground arith)
idle_worker (running j) e = absurd (ground arith)
idle_worker (finished j) e = absurd (ground arith)

no_turns : (m : Machine) → turns_left m ≡ 0 → (m.worker ≡ idle) × (m.queue.job_chan ≡ [])
no_turns m e = (
  idle_worker m.worker (omega arith),
  elim (List-cases m.queue.job_chan) [
    | inl none_waits ↦ none_waits
    | inr (j, rest, some_wait) ↦ absurd (ground arith)
  ],
)

module _ (size : ℕ) (ends : ℕ → Outcome × ℕ) (n : ℕ) (m : Machine) where
  abbrev after_turns : Machine
  after_turns = worker_turns ends n m

  -- From every state that the queue reaches, the worker alone comes to rest, whatever the conversions
  -- give: after four turns at most for the job that it holds and five for each that waits it is idle,
  -- nothing waits, a client with a non-empty address has no job counted, and a job that was on its way
  -- is published as done or as failed.
  pub worker_rests :
      (ip id : Text)
      → Reach (start size) m
      → turns_left m ≤ n
      → non_empty ip ≡ true
      → is_among id (unsettled m.worker ++ m.queue.job_chan) ≡ true
      → (after_turns.worker ≡ idle)
        × (after_turns.queue.job_chan ≡ [])
        × (after_turns.queue.queue_order ≡ [])
        × (inflight_of ip after_turns.queue.inflight ≡ 0)
        × IsSettled after_turns.queue id
  unfolding is_among owned
  worker_rests ip id r few named among =
      let (reached, over) = turns-Reach ends n r few in
      let (rests, drained) = no_turns after_turns over in
      (
        rests,
        drained,
        (Reach-Ordered size reached).order
            ∙ ap (λ w. ids (listed w ++ after_turns.queue.job_chan)) rests
            ∙ ap ids drained,
        (inflight_exact size ip named reached).0
            ∙ ap (λ w. owned ip (held w ++ after_turns.queue.job_chan)) rests
            ∙ ap (owned ip) drained,
        elim (turns-InHand ends n id m (inl among)) [
          | inl still ↦ absurd (
              ground (
                arith,
                sym still
                    ∙ ap (λ w. is_among id (unsettled w ++ after_turns.queue.job_chan)) rests
                    ∙ ap (is_among id) drained,
              ))
          | inr settled ↦ settled
        ],
      )
