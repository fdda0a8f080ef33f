-- ===== src/RateLimiter/Frame.antt =====
-- The entry of one client, seen from outside the map (internal/api/middleware.go), under the requests
-- of this and of other clients.
use filemagic_backend.Prelude.{
  ℕ, ◌≡◌, refl, List, [], ◌∷◌, Option, none, some, arith, ltb, if◌then◌else◌, Text, eq_text,
  eq_text_iff,
}
use filemagic_backend.Dict.{lookup, insert, lookup-insert}
use filemagic_backend.RateLimiter.{
  ClientRate, RateLimiter, admit, entry_of, allow, sweep, sweep_clients, serve, Event, request,
  tick,
}

-- `Allow` replaces the entry of its client, and leaves the others.
pub lookup-allow :
    (rl : RateLimiter) (now : ℕ) (ip k : Text)
    → lookup k (allow rl now ip).0.clients
      ≡ (if eq_text ip k then some (admit rl now (entry_of rl now ip)).0 else lookup k rl.clients)
unfolding allow
lookup-allow rl now ip k = lookup-insert ip k (admit rl now (entry_of rl now ip)).0 rl.clients

unfoldable pub keep_live : ℕ → Option ClientRate → Option ClientRate
keep_live now none = none
keep_live now (some c) = if ltb c.hour_reset now then none else some c

-- Each client has one entry.
abbrev pub HasOneEntry : List (Text × ClientRate) → Type 0
HasOneEntry [] = Unit {0}
HasOneEntry ((ip, c) ∷ m) = (lookup ip m ≡ none) × HasOneEntry m

pub lookup-sweep_absent :
    (now : ℕ) (k : Text) (m : List (Text × ClientRate))
    → lookup k m ≡ none
    → lookup k (sweep_clients now m) ≡ none
unfolding lookup sweep_clients
lookup-sweep_absent now k [] e = refl
lookup-sweep_absent now k ((ip, c) ∷ m) e = ground (arith, lookup-sweep_absent now k m)

-- The sweep drops a client's entry when its hour is over, and leaves it otherwise.
pub lookup-sweep :
    (now : ℕ) (k : Text) (m : List (Text × ClientRate))
    → HasOneEntry m
    → lookup k (sweep_clients now m) ≡ keep_live now (lookup k m)
unfolding lookup sweep_clients keep_live
lookup-sweep now k [] u = refl
lookup-sweep now k ((ip, c) ∷ m) u =
    ground (arith, eq_text_iff ip k, lookup-sweep_absent now ip m, lookup-sweep now k m u.1)

HasOneEntry-insert :
    (k : Text) (c : ClientRate) (m : List (Text × ClientRate))
    → HasOneEntry m
    → HasOneEntry (insert k c m)
unfolding insert lookup
HasOneEntry-insert k c [] u = (refl, tt)
HasOneEntry-insert k c ((j, d) ∷ m) u =
    ground
      (arith, eq_text_iff j k, eq_text_iff k j, lookup-insert k j c m, HasOneEntry-insert k c m u.1)

HasOneEntry-sweep :
    (now : ℕ) (m : List (Text × ClientRate)) → HasOneEntry m → HasOneEntry (sweep_clients now m)
unfolding sweep_clients
HasOneEntry-sweep now [] u = tt
HasOneEntry-sweep now ((j, d) ∷ m) u =
    ground (arith, lookup-sweep_absent now j m u.0, HasOneEntry-sweep now m u.1)

pub serve-HasOneEntry :
    (rl : RateLimiter) (e : Event) → HasOneEntry rl.clients → HasOneEntry (serve rl e).0.clients
unfolding serve allow sweep
serve-HasOneEntry rl (request t ip) u =
    HasOneEntry-insert ip (admit rl t (entry_of rl t ip)).0 rl.clients u
serve-HasOneEntry rl (tick t) u = HasOneEntry-sweep t rl.clients u

pub serve_limits :
    (rl : RateLimiter) (e : Event) → ((serve rl e).0.rpm ≡ rl.rpm) × ((serve rl e).0.rph ≡ rl.rph)
unfolding serve allow sweep
serve_limits rl (request t ip) = (refl, refl)
serve_limits rl (tick t) = (refl, refl)
