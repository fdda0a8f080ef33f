-- ===== src/Stats/Counted.antt =====
-- How the increments and the value that the service holds are related over a history
-- (internal/stats/cloudflare_kv.go).
use filemagic_backend.Prelude.{
  ℕ, ◌+◌, max, ◌≤◌, ◌≡◌, List, [], ◌∷◌, Option, none, some, arith, subst,
}
use filemagic_backend.Stats.{
  World, PutEnd, new_counter, increment, prepare, put_write, flush, Event, incremented, flushed,
  happen, run,
}

unfoldable pub increments : List Event → ℕ
increments [] = 0
increments (incremented ∷ es) = increments es + 1
increments (flushed meanwhile get result ∷ es) = increments es + meanwhile

-- Every read answers with a value from the first one up to the one that the service holds: it may lag
-- behind this server's own writes, and no one else writes.
abbrev IsLagging : ℕ → ℕ → Option ℕ → Type 0
IsLagging first remote none = Unit {0}
IsLagging first remote (some v) = (first ≤ v) × (v ≤ remote)

abbrev pub ReadsLag : ℕ → World → List Event → Type 0
ReadsLag first w [] = Unit {0}
ReadsLag first w (incremented ∷ es) = ReadsLag first (happen w incremented) es
ReadsLag first w (flushed meanwhile get result ∷ es) =
    IsLagging first w.remote get × ReadsLag first (happen w (flushed meanwhile get result)) es

-- The value that the service holds when the write that is retried has reached it.
unfoldable pub target : World → ℕ
target w = elim w.counter.write [ none ↦ w.remote | some v ↦ v ]

record Sound (first n : ℕ) (w : World) : Type 0 where
  total : target w + w.counter.pending ≡ first + n
  above : first ≤ w.remote
  below : w.remote ≤ target w
  known : w.counter.write ≡ none → w.remote ≡ max first w.counter.confirmed

increment-Sound :
    (first n k : ℕ) (w : World)
    → Sound first n w
    → Sound first (n + k) (record w { counter = increment k w.counter })
unfolding increment target
increment-Sound first n k w s = record {
  total = ground (arith, s.total);
  above = s.above;
  below = s.below;
  known = s.known;
}

prepare-Sound :
    (first n meanwhile : ℕ) (get : Option ℕ) (w : World)
    → IsLagging first w.remote get
    → Sound first n w
    → Sound first (n + meanwhile) (record w { counter = prepare meanwhile get w.counter })
unfolding prepare increment target
prepare-Sound first n meanwhile none w h s = record {
  total = ground (arith, s.total);
  above = s.above;
  below = ground (arith, s.below);
  known = ground (arith, s.known);
}
prepare-Sound first n meanwhile (some v) w h s = record {
  total = ground (arith, s.total, s.known);
  above = s.above;
  below = ground (arith, s.below, s.known);
  known = ground (arith, s.known);
}

put_write-Sound :
    (first n : ℕ) (result : PutEnd) (w : World)
    → Sound first n w
    → Sound first n (put_write result w)
unfolding put_write target
put_write-Sound first n result w s = record {
  total = ground (arith, s.total);
  above = ground (arith, s.above, s.below);
  below = ground (arith, s.below);
  known = ground (arith, s.known, s.above, s.below);
}

run-Sound :
    (first n : ℕ) (w : World) (es : List Event)
    → ReadsLag first w es
    → Sound first n w
    → Sound first (n + increments es) (run w es)
unfolding run increments happen flush
run-Sound first n w [] h s = subst (λ k. Sound first k w) (omega arith) s
run-Sound first n w (incremented ∷ es) h s =
    subst (λ k. Sound first k (run (happen w incremented) es)) (omega arith)
      (run-Sound first (n + 1) (happen w incremented) es h (increment-Sound first n 1 w s))
run-Sound first n w (flushed meanwhile get result ∷ es) h s =
    let w' = happen w (flushed meanwhile get result) in
    subst (λ k. Sound first k (run w' es)) (omega arith)
      (run-Sound first (n + meanwhile) w' es h.1 (
        put_write-Sound first (n + meanwhile) result
          (record w { counter = prepare meanwhile get w.counter })
          (prepare-Sound first n meanwhile get w h.0 s)))

-- Over every history of increments and flushes, whatever reads and writes fail or stay without an
-- answer, as long as the reads only lag behind this server's writes: the value that the service holds,
-- once a write under way has reached it, and the increments that wait sum up to the first value and all
-- increments; and the service never holds more than these.
pub counted_once :
    (first : ℕ) (es : List Event)
    → ReadsLag first (record { counter = new_counter; remote = first }) es
    → let w = run (record { counter = new_counter; remote = first }) es in
      (target w + w.counter.pending ≡ first + increments es) × (w.remote ≤ first + increments es)
unfolding new_counter target
counted_once first es h =
    let s =
      run-Sound first 0 (record { counter = new_counter; remote = first }) es h
        (record {
          total = omega arith;
          above = omega arith;
          below = omega arith;
          known = λ e. omega arith;
        }) in
    (ground (arith, s.total), ground (arith, s.total, s.below))
