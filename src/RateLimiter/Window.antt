-- ===== src/RateLimiter/Window.antt =====
-- How many requests of one client a limiter lets through in any interval as long as its window
-- (internal/api/middleware.go).
use filemagic_backend.Prelude.{
  ℕ, ◌+◌, ◌*◌, ◌≤◌, ◌≡◌, refl, Bool, false, List, [], ◌∷◌, Option, none, some, arith, if◌then◌else◌,
  Text, eq_text, eq_text_iff, Bool-cases, subst, sym, inl, inr,
}
use filemagic_backend.Dict.{lookup}
use filemagic_backend.RateLimiter.{
  ClientRate, RateLimiter, Event, request, tick, new_rate_limiter, new_client, admit, entry_of,
  allow, sweep, serve, hour,
}
use filemagic_backend.RateLimiter.Frame.{
  HasOneEntry, keep_live, lookup-allow, lookup-sweep, serve-HasOneEntry, serve_limits,
}
use filemagic_backend.RateLimiter.Credit.{
  Window, hour_window, credit, counted, admit-hour, credit_admit, credit_new, credit_later,
  credit_expire,
}

abbrev time_of : Event → ℕ
time_of (request t ip) = t
time_of (tick t) = t

-- The events come in the order of time.
abbrev pub InOrder : ℕ → List Event → Type 0
InOrder now [] = Unit {0}
InOrder now (e ∷ es) = (now ≤ time_of e) × InOrder (time_of e) es

-- Does the answer to this event count for the client in the interval?
hit : Text → ℕ → ℕ → Event → Bool → ℕ
hit ip a b (request t k) ok = if eq_text k ip then counted a b t ok else 0
hit ip a b (tick t) ok = 0

-- The number of requests of the client that are let through at a time from `a` to `b`.
unfoldable pub allowed_in : Text → ℕ → ℕ → RateLimiter → List Event → ℕ
unfolding hit counted
allowed_in ip a b rl [] = 0
allowed_in ip a b rl (e ∷ es) = hit ip a b e (serve rl e).1 + allowed_in ip a b (serve rl e).0 es

abbrev hour_of : Option ClientRate → Option Window
hour_of none = none
hour_of (some c) = some (hour_window c)

abbrev Fits : ℕ → Option Window → Type 0
Fits max none = Unit {0}
Fits max (some w) = w.count ≤ max

abbrev entry_or : ℕ → Option ClientRate → ClientRate
entry_or t none = new_client t
entry_or t (some c) = c

entry_of_lem :
    (rl : RateLimiter) (t : ℕ) (ip : Text) → entry_of rl t ip ≡ entry_or t (lookup ip rl.clients)
unfolding entry_of
entry_of_lem rl t ip = ground arith

allow_answer :
    (rl : RateLimiter) (t : ℕ) (k : Text) → (allow rl t k).1 ≡ (admit rl t (entry_of rl t k)).1
unfolding allow
allow_answer rl t k = refl

entry_swept :
    (rl : RateLimiter) (t : ℕ) (ip : Text)
    → HasOneEntry rl.clients
    → lookup ip (sweep rl t).clients ≡ keep_live t (lookup ip rl.clients)
unfolding sweep
entry_swept rl t ip u = lookup-sweep t ip rl.clients u

-- One event takes from the client's credit what it lets through.
credit_own :
    (rl : RateLimiter) (a now t : ℕ) (o : Option ClientRate)
    → now ≤ t
    → Fits rl.rph (hour_of o)
    → let r = admit rl t (entry_or t o) in
      (r.0.hour_count ≤ rl.rph)
      × (credit hour rl.rph a t (some (hour_window r.0)) + counted a (a + hour) t r.1
          ≤ credit hour rl.rph a now (hour_of o))
unfolding new_client
credit_own rl a now t none later f =
    credit_new hour rl.rph a now t later _ _ (admit-hour rl t (new_client t))
credit_own rl a now t (some c) later f =
    credit_admit hour rl.rph a now t later (hour_window c) _ _ f (admit-hour rl t c)

credit-request :
    (rl : RateLimiter) (a now t : ℕ) (ip k : Text)
    → now ≤ t
    → Fits rl.rph (hour_of (lookup ip rl.clients))
    → let o' = lookup ip (allow rl t k).0.clients in
      Fits rl.rph (hour_of o')
      × (credit hour rl.rph a t (hour_of o') + hit ip a (a + hour) (request t k) (allow rl t k).1
          ≤ credit hour rl.rph a now (hour_of (lookup ip rl.clients)))
unfolding hit
credit-request rl a now t ip k later f = elim (Bool-cases (eq_text k ip)) [
  | inl mine ↦ rw (lookup-allow rl t k ip, mine) (own ((eq_text_iff k ip).0 mine))
  | inr other ↦
      rw (lookup-allow rl t k ip, other)
        (f, omega (arith, credit_later hour rl.rph a now t later (hour_of (lookup ip rl.clients))))
]
  where
    own :
        k ≡ ip
        → let r = admit rl t (entry_of rl t k) in
          (r.0.hour_count ≤ rl.rph)
          × (credit hour rl.rph a t (some (hour_window r.0))
                + counted a (a + hour) t (allow rl t k).1
              ≤ credit hour rl.rph a now (hour_of (lookup ip rl.clients)))
    own same =
        rw (allow_answer rl t k, entry_of_lem rl t k, same)
          (credit_own rl a now t (lookup ip rl.clients) later f)

credit_tick :
    (rl : RateLimiter) (a now t : ℕ) (o : Option ClientRate)
    → now ≤ t
    → Fits rl.rph (hour_of o)
    → Fits rl.rph (hour_of (keep_live t o))
      × (credit hour rl.rph a t (hour_of (keep_live t o)) ≤ credit hour rl.rph a now (hour_of o))
unfolding keep_live
credit_tick rl a now t none later f = (tt, credit_later hour rl.rph a now t later none)
credit_tick rl a now t (some c) later f = ground (
  arith,
  credit_expire hour rl.rph a now t later (hour_window c) f,
  credit_later hour rl.rph a now t later (some (hour_window c)),
)

credit-serve :
    (rl : RateLimiter) (a now : ℕ) (ip : Text) (e : Event)
    → now ≤ time_of e
    → HasOneEntry rl.clients
    → Fits rl.rph (hour_of (lookup ip rl.clients))
    → let o' = lookup ip (serve rl e).0.clients in
      Fits rl.rph (hour_of o')
      × (credit hour rl.rph a (time_of e) (hour_of o') + hit ip a (a + hour) e (serve rl e).1
          ≤ credit hour rl.rph a now (hour_of (lookup ip rl.clients)))
unfolding serve hit
credit-serve rl a now ip (request t k) later u f = credit-request rl a now t ip k later f
credit-serve rl a now ip (tick t) later u f = ticked
  where
    swept : (lookup ip (sweep rl t).clients) ≡ keep_live t (lookup ip rl.clients)
    swept = entry_swept rl t ip u

    ticked :
        let o' = lookup ip (sweep rl t).clients in
        Fits rl.rph (hour_of o')
        × (credit hour rl.rph a t (hour_of o') + hit ip a (a + hour) (tick t) false
            ≤ credit hour rl.rph a now (hour_of (lookup ip rl.clients)))
    ticked =
        rw swept (
          let c = credit_tick rl a now t (lookup ip rl.clients) later f in
          (c.0, omega (arith, c.1)))

allowed_in-credit :
    (rl : RateLimiter) (a now : ℕ) (ip : Text) (es : List Event)
    → InOrder now es
    → HasOneEntry rl.clients
    → Fits rl.rph (hour_of (lookup ip rl.clients))
    → allowed_in ip a (a + hour) rl es ≤ credit hour rl.rph a now (hour_of (lookup ip rl.clients))
unfolding allowed_in
allowed_in-credit rl a now ip [] later u f = omega arith
allowed_in-credit rl a now ip (e ∷ es) later u f =
    let one = credit-serve rl a now ip e later.0 u f in
    let same = (serve_limits rl e).1 in
    let entry = hour_of (lookup ip (serve rl e).0.clients) in
    let rest =
      allowed_in-credit (serve rl e).0 a (time_of e) ip es later.1 (serve-HasOneEntry rl e u)
        (subst (λ r. Fits r entry) (sym same) one.0) in
    omega (
      arith,
      one.1,
      subst (λ r. allowed_in ip a (a + hour) (serve rl e).0 es ≤ credit hour r a (time_of e) entry)
          same rest,
    )

-- Over every history of requests and sweeps in the order of time, from a new limiter on, a client is
-- let through at most 2 * rph times in any closed interval of one hour.
pub hourly_bound :
    (rpm rph a : ℕ) (ip : Text) (es : List Event)
    → InOrder 0 es
    → allowed_in ip a (a + hour) (new_rate_limiter rpm rph) es ≤ 2 * rph
unfolding new_rate_limiter lookup credit
hourly_bound rpm rph a ip es order =
    ground (arith, allowed_in-credit (new_rate_limiter rpm rph) a 0 ip es order tt tt)
