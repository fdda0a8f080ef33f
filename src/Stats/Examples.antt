-- ===== src/Stats/Examples.antt =====
-- A history with a write that stays without an answer; the theorem at it.
use filemagic_backend.Prelude.{◌+◌, ◌≤◌, ◌≡◌, refl, List, [], ◌∷◌, some, arith}
use filemagic_backend.Stats.{
  World, answered, unanswered, new_counter, increment, prepare, put_write, flush, Event,
  incremented, flushed, happen, run,
}
use filemagic_backend.Archive.{parse_size, parse_digits}
use filemagic_backend.Prelude.{none, codes, true}
use filemagic_backend.Stats.Store.{
  Key, key_processed, key_thanks, HttpAnswer, do_failed, replied, get_key, put_end, put_key, Round,
  world, new, increment_key, is_confirmed, flush_key, flush_keys, flush_store, is_fresh, get,
  StoreEvent, counted, ticked, asked, occur, run_store,
}
use filemagic_backend.Stats.Both.{flushes_of, events_of, store_counted_once}
use filemagic_backend.Stats.Counted.{increments, target}

abbrev history : List Event
history =
    incremented
    ∷ flushed 2 (some 5) unanswered
    ∷ incremented
    ∷ flushed 0 (some 5) answered
    ∷ flushed 0 (some 7) answered
    ∷ []

abbrev after : World
after = run (record { counter = new_counter; remote = 5 }) history

-- All four increments have reached the service.
reached_all : after.remote ≡ 9
unfolding run happen flush prepare put_write increment new_counter
reached_all = refl

-- The first PUT for the thanks is taken over without an answer; the second tick sends it again.
abbrev visit : HttpAnswer → Key → Round
visit put k = record {
  meanwhile = 0;
  got = replied 200 (some (codes "5"));
  put = put;
  stored = true;
}

abbrev visits : List StoreEvent
visits =
    counted key_thanks
    ∷ counted key_processed
    ∷ asked 0 1 (replied 200 (some (codes "5"))) (replied 404 none)
    ∷ ticked (key_thanks ∷ key_processed ∷ []) (visit do_failed)
    ∷ counted key_thanks
    ∷ ticked (key_processed ∷ key_thanks ∷ []) (visit (replied 200 none))
    ∷ []

abbrev thanks_after : World
thanks_after =
    world key_thanks (run_store parse_size (new (codes "a") (codes "n") (codes "t") 5 5) visits)

store_counted_once_example :
    (target thanks_after + thanks_after.counter.pending ≡ 7) × (thanks_after.remote ≤ 7)
unfolding parse_size parse_digits new events_of flushes_of get_key put_end put_key increments run
    happen flush prepare put_write increment new_counter
store_counted_once_example =
    store_counted_once parse_size (codes "a") (codes "n") (codes "t") 5 5 visits key_thanks refl
      ((omega arith, omega arith), ((omega arith, omega arith), tt))

thanks_sent : thanks_after.remote ≡ 6
unfolding parse_size parse_digits run_store occur increment_key flush_store flush_keys flush_key
    is_confirmed get is_fresh new get_key put_end put_key run happen flush prepare put_write
    increment new_counter
thanks_sent = refl
