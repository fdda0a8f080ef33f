-- ===== src/Queue/Examples.antt =====
-- Small histories of the queue, and the theorems at them.
use filemagic_backend.Prelude.{
  ℕ, arith, ◌/◌, ◌≤◌, max, ◌≡◌, refl, List, [], ◌∷◌, length, codes, none, some, Text, eq_text,
}
use filemagic_backend.Json.{end}
use filemagic_backend.Dict.{lookup, insert}
use filemagic_backend.Queue.{
  Job, Request, ocr, new_job, submit, accepted, enqueue, is_refused, inflight_of, get_position,
  Outcome, conclude, store, remove_from_order,
}
use filemagic_backend.Queue.Machine.{
  Machine, Reach, Step, IsSettled, idle, start, pending, here, next, submits, receives, dequeues,
  publishes, finishes, received, dequeued, running, finished, as_processing,
}
use filemagic_backend.Queue.Accounting.{owned, inflight_exact, submit_decides}
use filemagic_backend.Queue.Order.Positions.{position_exact}
use filemagic_backend.Queue.Lifecycle.{Change, published_advances}
use filemagic_backend.Queue.Progress.{worker_rests}
use filemagic_backend.Queue.Turns.{worker_turns, is_among, turns_held}

abbrev request : Text → Request
request id = record {
  job_id = id;
  owner_ip = codes "1.1.1.1";
  conv_type = ocr;
  input_path = codes "/in";
  original_name = codes "n";
  options = end;
  input_size = 7;
  now = 5;
}

abbrev first : Request
first = request (codes "a")

abbrev pub second : Request
second = request (codes "b")

-- One job is submitted, then another.
abbrev one_waiting : Machine
one_waiting = record (start 9) { queue = (submit (start 9).queue first).0 }

abbrev two_waiting : Machine
two_waiting = record one_waiting { queue = (submit one_waiting.queue second).0 }

first_move : Step (start 9) one_waiting
unfolding start lookup
first_move = submits first refl

second_move : Step one_waiting two_waiting
unfolding start lookup submit enqueue is_refused inflight_of insert eq_text
second_move = submits second refl

two_reached : Reach (start 9) two_waiting
two_reached = next (next here first_move) second_move

inflight_exact_example :
    (inflight_of (codes "1.1.1.1") two_waiting.queue.inflight
      ≡ owned (codes "1.1.1.1") (pending two_waiting))
    × (owned (codes "1.1.1.1") (pending two_waiting) ≤ max (9 / 3) 2)
    × (length two_waiting.queue.job_chan ≤ 9)
inflight_exact_example = inflight_exact 9 (codes "1.1.1.1") refl two_reached

submit_decides_example : submit two_waiting.queue (request (codes "c")) ≡ (
  enqueue two_waiting.queue (request (codes "c")),
  accepted (new_job (request (codes "c")) 2) 3,
)
unfolding start lookup enqueue submit is_refused inflight_of insert eq_text owned
submit_decides_example = submit_decides 9 (request (codes "c")) two_reached

position_exact_example : get_position two_waiting.queue (codes "b") ≡ 2
unfolding start lookup submit enqueue is_refused inflight_of insert eq_text
position_exact_example = position_exact 9 1 {j = new_job second 1} two_reached refl

published_advances_example : Change (new_job first 0) (lookup (codes "a") two_waiting.queue.jobs)
unfolding start lookup submit enqueue is_refused inflight_of insert eq_text
published_advances_example =
    published_advances 9 (codes "a") (next here first_move) second_move refl

-- Three requests race for the job, with another job's flag in between.
abbrev racing : List Job
racing = new_job first 0 ∷ new_job second 1 ∷ new_job first 0 ∷ new_job first 0 ∷ []

-- The worker takes the first job, and its conversion fails.
abbrev taken : Machine
taken = record {
  queue = record two_waiting.queue { job_chan = new_job second 1 ∷ [] };
  worker = received (new_job first 0);
}

abbrev failed_outcome : Outcome
failed_outcome = record {
  input_path = codes "/in";
  input_size = 7;
  output_path = [];
  output_size = 0;
  metadata = none;
  failure = some (codes "no tool");
}

abbrev failed_job : Job
failed_job = conclude (as_processing (new_job first 0)) failed_outcome 8

abbrev off_order : Machine
off_order = record {
  queue = remove_from_order taken.queue (codes "a");
  worker = dequeued (new_job first 0);
}

abbrev published : Machine
published = record {
  queue = store off_order.queue (as_processing (new_job first 0));
  worker = running (as_processing (new_job first 0));
}

abbrev pub concluded : Machine
concluded = record { queue = store published.queue failed_job; worker = finished failed_job }

taken_reached : Reach (start 9) taken
unfolding start submit enqueue is_refused inflight_of lookup insert eq_text
taken_reached = next two_reached (receives (new_job first 0) (new_job second 1 ∷ []) refl refl)

pub concluded_reached : Reach (start 9) concluded
unfolding start
concluded_reached =
    next
      (next (next taken_reached (dequeues (new_job first 0) refl))
        (publishes (new_job first 0) refl))
      (finishes (as_processing (new_job first 0)) failed_outcome 8 refl)

-- Nobody submits any more, and every conversion fails.
abbrev failing : ℕ → Outcome × ℕ
failing k = (failed_outcome, 8)

abbrev rested : Machine
rested = worker_turns failing 10 two_waiting

worker_rests_example :
    (rested.worker ≡ idle)
    × (rested.queue.job_chan ≡ [])
    × (rested.queue.queue_order ≡ [])
    × (inflight_of (codes "1.1.1.1") rested.queue.inflight ≡ 0)
    × IsSettled rested.queue (codes "b")
unfolding start lookup submit enqueue is_refused inflight_of insert eq_text is_among turns_held
worker_rests_example =
    worker_rests 9 failing 10 two_waiting (codes "1.1.1.1") (codes "b") two_reached (omega arith)
      refl refl
