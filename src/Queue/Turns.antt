-- ===== src/Queue/Turns.antt =====
-- One turn of the worker's loop (`worker` in internal/queue/queue.go) as a function, when nobody else
-- acts: each is a step of the machine.
use filemagic_backend.Prelude.{
  ℕ, zero, suc, ◌+◌, ◌*◌, ◌≡◌, refl, sym, ap, ◌⊎◌, inl, inr, Bool, false, ◌||◌, List, [], ◌∷◌,
  arith, length, Text, eq_text, subst,
}
use filemagic_backend.Queue.{Queue, Job, Outcome, conclude, store, remove_from_order, release_slot}
use filemagic_backend.Queue.Machine.{
  Machine, Worker, Step, idle, received, dequeued, running, finished, receives, dequeues, publishes,
  finishes, releases, as_processing,
}

-- What the worker's next action makes of the machine; the outcome and the time are the conversion's,
-- if it is about to end.
unfoldable pub worker_turn : Outcome → ℕ → Machine → Machine
worker_turn o now m = elim m.worker [
  | idle ↦ elim m.queue.job_chan [
    | [] ↦ m
    | j ∷ rest ↦ record { queue = record m.queue { job_chan = rest }; worker = received j }
  ]
  | received j ↦ record { queue = remove_from_order m.queue j.id; worker = dequeued j }
  | dequeued j ↦ record {
    queue = store m.queue (as_processing j);
    worker = running (as_processing j);
  }
  | running j ↦ record {
    queue = store m.queue (conclude j o now);
    worker = finished (conclude j o now);
  }
  | finished j ↦ record { queue = release_slot m.queue j.owner_ip; worker = idle }
]

unfoldable pub worker_turns : (ℕ → Outcome × ℕ) → ℕ → Machine → Machine
worker_turns ends zero m = m
worker_turns ends (suc n) m = worker_turns ends n (worker_turn (ends n).0 (ends n).1 m)

-- The turns that the worker's own job still needs, and five for each job that waits.
unfoldable pub turns_held : Worker → ℕ
turns_held idle = 0
turns_held (received j) = 4
turns_held (dequeued j) = 3
turns_held (running j) = 2
turns_held (finished j) = 1

abbrev pub turns_left : Machine → ℕ
turns_left m = turns_held m.worker + 5 * length m.queue.job_chan

-- Is the id that of a job of the list?
unfoldable pub is_among : Text → List Job → Bool
is_among id [] = false
is_among id (j ∷ js) = eq_text j.id id || is_among id js

abbrev pub at : Queue → Worker → Machine
at q w = record { queue = q; worker = w }

pub List-cases : (js : List Job) → (js ≡ []) ⊎ ((j : Job) × (rest : List Job) × (js ≡ j ∷ rest))
List-cases [] = inl refl
List-cases (j ∷ js) = inr (j, js, refl)

-- The turn of an idle worker that has a job to take.
pub turn_receives :
    (o : Outcome) (now : ℕ) (q : Queue) (j : Job) (rest : List Job)
    → q.job_chan ≡ j ∷ rest
    → worker_turn o now (at q idle) ≡ at (record q { job_chan = rest }) (received j)
unfolding worker_turn
turn_receives o now q j rest e = ground arith

pub turn_rests :
    (o : Outcome) (now : ℕ) (q : Queue)
    → q.job_chan ≡ []
    → worker_turn o now (at q idle) ≡ at q idle
unfolding worker_turn
turn_rests o now q e = ground arith

-- A turn is a step of the machine, and there is one less to go; without a turn to go it is none.
abbrev pub Turns : Outcome → ℕ → Machine → Type 0
Turns o now m =
    ((worker_turn o now m ≡ m) × (turns_left m ≡ 0))
    ⊎ (Step m (worker_turn o now m) × (turns_left (worker_turn o now m) + 1 ≡ turns_left m))

pub turn-Turns : (o : Outcome) (now : ℕ) (q : Queue) (w : Worker) → Turns o now (at q w)
unfolding worker_turn turns_held remove_from_order release_slot
turn-Turns o now q idle = elim (List-cases q.job_chan) [
  | inl e ↦ inl (turn_rests o now q e, ground arith)
  | inr (j, rest, e) ↦
      let t = turn_receives o now q j rest e in
      inr
        (subst (Step (at q idle)) (sym t) (receives j rest refl e), ground (arith, ap turns_left t))
]
turn-Turns o now q (received j) = inr (dequeues j refl, omega arith)
turn-Turns o now q (dequeued j) = inr (publishes j refl, omega arith)
turn-Turns o now q (running j) = inr (finishes j o now refl, omega arith)
turn-Turns o now q (finished j) = inr (releases j refl, ground arith)
