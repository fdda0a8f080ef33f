-- ===== src/Stats/Both.antt =====
-- The statistics store as two independent counters (internal/stats/cloudflare_kv.go).
use filemagic_backend.Prelude.{
  ℕ, ◌+◌, ◌≤◌, ◌≡◌, refl, ◌∙◌, ap, Bool, true, false, List, [], ◌∷◌, ◌++◌, Option, arith,
  if◌then◌else◌, Text, subst, sym,
}
use filemagic_backend.Stats.{World, new_counter, Event, incremented, flushed, happen, run}
use filemagic_backend.Stats.Counted.{increments, target, ReadsLag, counted_once}
use filemagic_backend.Stats.Store.{
  Key, key_processed, key_thanks, get_key, put_end, Round, Store, world, new, increment_key,
  flush_key, flush_keys, flush_store, get, StoreEvent, counted, ticked, asked, occur, run_store,
}

abbrev pub same_key : Key → Key → Bool
same_key key_processed key_processed = true
same_key key_thanks key_thanks = true
same_key _ _ = false

module _ (unmarshal : Text → Option ℕ) where
  abbrev flush_event : Round → Event
  flush_event r = flushed r.meanwhile (get_key unmarshal r.got) (put_end r.stored r.put)

  -- The flushes of one key in a visit of the keys.
  unfoldable pub flushes_of : Key → List Key → (Key → Round) → List Event
  flushes_of k [] rounds = []
  flushes_of k (j ∷ js) rounds =
      let rest = flushes_of k js rounds in
      if same_key j k then flush_event (rounds j) ∷ rest else rest

  abbrev pub event_of : Key → StoreEvent → List Event
  event_of k (counted j) = if same_key j k then incremented ∷ [] else []
  event_of k (ticked order rounds) = flushes_of k order rounds
  event_of k (asked now later processed thanks) = []

  -- What a history of the store is for one of its counters.
  unfoldable pub events_of : Key → List StoreEvent → List Event
  events_of k [] = []
  events_of k (e ∷ es) = event_of k e ++ events_of k es

  run-append : (w : World) (xs ys : List Event) → run w (xs ++ ys) ≡ run (run w xs) ys
  unfolding run
  run-append w [] ys = refl
  run-append w (x ∷ xs) ys = run-append (happen w x) xs ys

  world-flush_key :
      (k j : Key) (r : Round) (s : Store)
      → world k (flush_key unmarshal j r s)
        ≡ (if same_key j k then happen (world k s) (flush_event r) else world k s)
  unfolding flush_key happen
  world-flush_key key_processed key_processed r s = ground arith
  world-flush_key key_processed key_thanks r s = ground arith
  world-flush_key key_thanks key_processed r s = ground arith
  world-flush_key key_thanks key_thanks r s = ground arith

  enabled-flush_key :
      (j : Key) (r : Round) (s : Store) → (flush_key unmarshal j r s).enabled ≡ s.enabled
  unfolding flush_key
  enabled-flush_key key_processed r s = ground arith
  enabled-flush_key key_thanks r s = ground arith

  enabled-flush_keys :
      (js : List Key) (rounds : Key → Round) (s : Store)
      → (flush_keys unmarshal js rounds s).enabled ≡ s.enabled
  unfolding flush_keys
  enabled-flush_keys [] rounds s = refl
  enabled-flush_keys (j ∷ js) rounds s =
      enabled-flush_keys js rounds (flush_key unmarshal j (rounds j) s)
      ∙ enabled-flush_key j (rounds j) s

  world-flush_keys :
      (k : Key) (js : List Key) (rounds : Key → Round) (s : Store)
      → world k (flush_keys unmarshal js rounds s) ≡ run (world k s) (flushes_of k js rounds)
  unfolding flush_keys flushes_of run
  world-flush_keys k [] rounds s = refl
  world-flush_keys k (j ∷ js) rounds s =
      let rest = world-flush_keys k js rounds (flush_key unmarshal j (rounds j) s) in
      let one = world-flush_key k j (rounds j) s in ground arith

  world-occur :
      (k : Key) (s : Store) (e : StoreEvent)
      → s.enabled ≡ true
      → ((occur unmarshal s e).enabled ≡ true)
        × (world k (occur unmarshal s e) ≡ run (world k s) (event_of k e))
  unfolding occur increment_key flush_store get run happen
  world-occur key_processed s (counted key_processed) h = ground arith
  world-occur key_processed s (counted key_thanks) h = ground arith
  world-occur key_thanks s (counted key_processed) h = ground arith
  world-occur key_thanks s (counted key_thanks) h = ground arith
  world-occur k s (ticked order rounds) h =
      ground (arith, enabled-flush_keys order rounds s, world-flush_keys k order rounds s)
  world-occur key_processed s (asked now later processed thanks) h = ground arith
  world-occur key_thanks s (asked now later processed thanks) h = ground arith

  -- A store that is enabled is two independent counters: over every history of increments, ticks and
  -- reads of the cache, in whatever order the ticks visit the keys, each counter and the service's value
  -- for it change as by the increments and flushes of its own key alone.
  pub world-run_store :
      (k : Key) (s : Store) (es : List StoreEvent)
      → s.enabled ≡ true
      → world k (run_store unmarshal s es) ≡ run (world k s) (events_of k es)
  unfolding run_store events_of run
  world-run_store k s [] h = refl
  world-run_store k s (e ∷ es) h =
      let (on, one) = world-occur k s e h in
      world-run_store k (occur unmarshal s e) es on
      ∙ ap (λ w. run w (events_of k es)) one
      ∙ sym (run-append (world k s) (event_of k e) (events_of k es))

  -- A store that is not enabled never changes.
  pub run_store-off :
      (s : Store) (es : List StoreEvent) → s.enabled ≡ false → run_store unmarshal s es ≡ s
  unfolding run_store occur increment_key flush_store get
  run_store-off s [] h = refl
  run_store-off s (counted k ∷ es) h = ground (arith, run_store-off s es h)
  run_store-off s (ticked order rounds ∷ es) h = ground (arith, run_store-off s es h)
  run_store-off s (asked now later processed thanks ∷ es) h = ground (arith, run_store-off s es h)

abbrev first_of : Key → ℕ → ℕ → ℕ
first_of key_processed p t = p
first_of key_thanks p t = t

abbrev started : ℕ → World
started first = record { counter = new_counter; remote = first }

world-new :
    (k : Key) (account_id namespace_id api_token : Text) (p t : ℕ)
    → world k (new account_id namespace_id api_token p t) ≡ started (first_of k p t)
unfolding new
world-new key_processed account_id namespace_id api_token p t = refl
world-new key_thanks account_id namespace_id api_token p t = refl

-- A new store that is enabled, over every history of increments, ticks and reads of the cache, whatever
-- requests fail or stay without an answer, as long as the reads of a key only lag behind this server's
-- writes of it: for either key, the value that the service holds, once a write under way has reached it,
-- and the increments that wait sum up to the first value and all increments of this key; and the service
-- never holds more than these.
pub store_counted_once :
    (unmarshal : Text → Option ℕ) (account_id namespace_id api_token : Text) (p t : ℕ)
    (es : List StoreEvent) (k : Key)
    → (new account_id namespace_id api_token p t).enabled ≡ true
    → ReadsLag (first_of k p t) (started (first_of k p t)) (events_of unmarshal k es)
    → let w = world k (run_store unmarshal (new account_id namespace_id api_token p t) es) in
      let total = first_of k p t + increments (events_of unmarshal k es) in
      (target w + w.counter.pending ≡ total) × (w.remote ≤ total)
store_counted_once unmarshal account_id namespace_id api_token p t es k h lag =
    let first = first_of k p t in
    let events = events_of unmarshal k es in
    subst
      (λ w.
        (target w + w.counter.pending ≡ first + increments events)
        × (w.remote ≤ first + increments events))
      (sym (
        world-run_store unmarshal k (new account_id namespace_id api_token p t) es h
        ∙ ap (λ w. run w events) (world-new k account_id namespace_id api_token p t)))
      (counted_once first events lag)
