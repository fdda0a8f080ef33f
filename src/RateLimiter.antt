-- ===== src/RateLimiter.antt =====
-- The per-client rate limiter (internal/api/middleware.go, `RateLimiter`). Time is in nanoseconds on the
-- monotonic clock and is an argument of each call. The limits are natural numbers: a negative limit in
-- the configuration refuses every request, as 0 does.
pub mod Window
pub mod Frame
pub mod Credit
mod Examples
use filemagic_backend.Prelude.{
  ℕ, suc, ◌+◌, Bool, true, false, ◌||◌, List, [], ◌∷◌, Option, none, some, ltb, leb, if◌then◌else◌,
  Text,
}
use filemagic_backend.Dict.{lookup, insert}

abbrev pub minute : ℕ
minute = 60000000000

abbrev pub hour : ℕ
hour = 3600000000000

pub record ClientRate : Type 0 where
  pub minute_count : ℕ
  pub hour_count : ℕ
  pub minute_reset : ℕ
  pub hour_reset : ℕ

pub record RateLimiter : Type 0 where
  pub rpm : ℕ
  pub rph : ℕ
  pub clients : List (Text × ClientRate)

unfoldable pub new_rate_limiter : ℕ → ℕ → RateLimiter
new_rate_limiter rpm rph = record { rpm = rpm; rph = rph; clients = [] }

-- The entry that `Allow` makes for an unknown client.
unfoldable pub new_client : ℕ → ClientRate
new_client now = record {
  minute_count = 0;
  hour_count = 0;
  minute_reset = now + minute;
  hour_reset = now + hour;
}

-- The two resets of `Allow`; `now.After(t)` is t < now.
unfoldable pub refresh : ℕ → ClientRate → ClientRate
refresh now c =
    let c' =
      (if ltb c.minute_reset now
        then record c { minute_count = 0; minute_reset = now + minute }
        else c) in
    if ltb c'.hour_reset now then record c' { hour_count = 0; hour_reset = now + hour } else c'

unfoldable pub is_exhausted : RateLimiter → ClientRate → Bool
is_exhausted rl c = leb rl.rpm c.minute_count || leb rl.rph c.hour_count

unfoldable pub count_request : ClientRate → ClientRate
count_request c = record c { minute_count = c.minute_count + 1; hour_count = c.hour_count + 1 }

-- What `Allow` does to the entry of the client, and its answer.
unfoldable pub admit : RateLimiter → ℕ → ClientRate → ClientRate × Bool
admit rl now c =
    let c' = refresh now c in if is_exhausted rl c' then (c', false) else (count_request c', true)

unfoldable pub entry_of : RateLimiter → ℕ → Text → ClientRate
entry_of rl now ip = elim (lookup ip rl.clients) [ some c ↦ c | none ↦ new_client now ]

unfoldable pub allow : RateLimiter → ℕ → Text → RateLimiter × Bool
allow rl now ip =
    let (c, ok) = admit rl now (entry_of rl now ip) in
    (record rl { clients = insert ip c rl.clients }, ok)

-- The loop of `cleanup`: it deletes the clients whose hour is over.
unfoldable pub sweep_clients : ℕ → List (Text × ClientRate) → List (Text × ClientRate)
sweep_clients now [] = []
sweep_clients now ((ip, c) ∷ m) =
    let rest = sweep_clients now m in if ltb c.hour_reset now then rest else (ip, c) ∷ rest

unfoldable pub sweep : RateLimiter → ℕ → RateLimiter
sweep rl now = record rl { clients = sweep_clients now rl.clients }

-- What happens to a limiter, in the order of its lock: a request of a client, or the sweep.
pub data Event : Type 0 where
  request : ℕ → Text → Event
  tick : ℕ → Event

unfoldable pub serve : RateLimiter → Event → RateLimiter × Bool
serve rl (request now ip) = allow rl now ip
serve rl (tick now) = (sweep rl now, false)
