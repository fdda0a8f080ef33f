-- ===== src/Stats/Store.antt =====
-- The statistics store (internal/stats/cloudflare_kv.go): its two counters, each with the value that the
-- service holds for it, and the cache of `Get`. The answers of the service are arguments, with
-- `json.Unmarshal` into an int64; values stay far under 2 ^ 63.
use filemagic_backend.Prelude.{
  ℕ, ◌-◌, ◌*◌, Bool, false, ◌&&◌, List, [], ◌∷◌, Option, none, some, take, ltb, ◌==◌, if◌then◌else◌,
  Text, non_empty,
}
use filemagic_backend.Stats.{
  Counter, World, PutEnd, answered, unanswered, lost, new_counter, increment, prepare, flush,
}

-- `keyProcessed` and `keyThanks`
pub data Key : Type 0 where
  key_processed key_thanks : Key

-- What `client.Do` gives: an error, or a status and a body, which may fail to be read.
pub data HttpAnswer : Type 0 where
  do_failed : HttpAnswer
  replied : ℕ → Option Text → HttpAnswer

-- `getKey`; `none` is an error.
unfoldable pub get_key : (Text → Option ℕ) → HttpAnswer → Option ℕ
get_key unmarshal do_failed = none
get_key unmarshal (replied status body) =
    if status == 404
    then some 0
    else if status == 200
    then elim body [ none ↦ none | some text ↦ unmarshal (take 64 text) ]
    else none

-- `putKey`: whether it returns without an error.
unfoldable pub put_key : HttpAnswer → Bool
put_key do_failed = false
put_key (replied status body) = status == 200

-- How a PUT ends, if `stored` says whether the service took the value over.
unfoldable pub put_end : Bool → HttpAnswer → PutEnd
put_end stored answer = if put_key answer then answered else if stored then unanswered else lost

-- What one flush meets for one key: the increments that come between the look at the pending ones and
-- their swap, the answers of both requests, and whether the service took over the value of the second.
pub record Round : Type 0 where
  pub meanwhile : ℕ
  pub got : HttpAnswer
  pub put : HttpAnswer
  pub stored : Bool

pub record Stats : Type 0 where
  pub files_processed : ℕ
  pub thanks : ℕ

-- `cached_at` is none for the zero time.
pub record Store : Type 0 where
  pub enabled : Bool
  pub processed : World
  pub thanked : World
  pub cached : Stats
  pub cached_at : Option ℕ

-- 30 seconds, in nanoseconds
abbrev pub cache_ttl : ℕ
cache_ttl = 30 * 1000000000

abbrev pub world : Key → Store → World
world key_processed s = s.processed
world key_thanks s = s.thanked

abbrev pub with_world : Key → World → Store → Store
with_world key_processed w s = record s { processed = w }
with_world key_thanks w s = record s { thanked = w }

-- `New`, where the service holds the two values.
unfoldable pub new : Text → Text → Text → ℕ → ℕ → Store
new account_id namespace_id api_token processed thanks = record {
  enabled = non_empty account_id && non_empty namespace_id && non_empty api_token;
  processed = record { counter = new_counter; remote = processed };
  thanked = record { counter = new_counter; remote = thanks };
  cached = record { files_processed = 0; thanks = 0 };
  cached_at = none;
}

-- `IncrementProcessed` and `IncrementThanks`
unfoldable pub increment_key : Key → Store → Store
increment_key k s =
    let w = world k s in
    if s.enabled then with_world k (record w { counter = increment 1 w.counter }) s else s

-- An increment, a tick of `flushLoop`, or a call of `Get`.
pub data StoreEvent : Type 0 where
  counted : Key → StoreEvent
  ticked : List Key → (Key → Round) → StoreEvent
  asked : ℕ → ℕ → HttpAnswer → HttpAnswer → StoreEvent

module _ (unmarshal : Text → Option ℕ) where
  -- The write of a round is there and its PUT succeeds.
  unfoldable pub is_confirmed : Round → Counter → Bool
  is_confirmed r c = elim (prepare r.meanwhile (get_key unmarshal r.got) c).write [
    | none ↦ false
    | some v ↦ put_key r.put
  ]

  -- The body of the loop of `flush`.
  unfoldable pub flush_key : Key → Round → Store → Store
  flush_key k r s =
      let w = world k s in
      let s' =
        with_world k (flush r.meanwhile (get_key unmarshal r.got) (put_end r.stored r.put) w) s in
      if is_confirmed r w.counter then record s' { cached_at = none } else s'

  -- `flush`, when Go visits the keys of the map in this order.
  unfoldable pub flush_keys : List Key → (Key → Round) → Store → Store
  flush_keys [] rounds s = s
  flush_keys (k ∷ ks) rounds s = flush_keys ks rounds (flush_key k (rounds k) s)

  -- A tick of `flushLoop`, which runs only in an enabled store, and the last flush of `Close`.
  unfoldable pub flush_store : List Key → (Key → Round) → Store → Store
  flush_store order rounds s = if s.enabled then flush_keys order rounds s else s

  unfoldable pub is_fresh : ℕ → Store → Bool
  is_fresh now s = elim s.cached_at [ none ↦ false | some t ↦ ltb (now - t) cache_ttl ]

  -- `Get`, at the time `now`, with the answers for both keys, and `later` when the cache is set.
  unfoldable pub get : ℕ → ℕ → HttpAnswer → HttpAnswer → Store → Store × Stats
  get now later processed thanks s =
      if s.enabled
      then (if is_fresh now s then (s, s.cached) else elim (get_key unmarshal processed) [
        | none ↦ (s, s.cached)
        | some p ↦ elim (get_key unmarshal thanks) [
          | none ↦ (s, s.cached)
          | some t ↦
              let st : Stats = record { files_processed = p; thanks = t } in
              (record s { cached = st; cached_at = some later }, st)
        ]
      ])
      else (s, record { files_processed = 0; thanks = 0 })

  unfoldable pub occur : Store → StoreEvent → Store
  occur s (counted k) = increment_key k s
  occur s (ticked order rounds) = flush_store order rounds s
  occur s (asked now later processed thanks) = (get now later processed thanks s).0

  unfoldable pub run_store : Store → List StoreEvent → Store
  run_store s [] = s
  run_store s (e ∷ es) = run_store (occur s e) es
