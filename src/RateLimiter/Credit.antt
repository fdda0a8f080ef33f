-- ===== src/RateLimiter/Credit.antt =====
-- The credit of a client: how many requests can still be let through in an interval as long as a
-- window (internal/api/middleware.go).
use filemagic_backend.Prelude.{
  ℕ, ◌+◌, ◌-◌, ◌*◌, ◌≤◌, ◌<◌, ◌≡◌, refl, Bool, true, false, ◌&&◌, Option, none, some, arith, ltb,
  leb, if◌then◌else◌,
}
use filemagic_backend.RateLimiter.{
  ClientRate, RateLimiter, refresh, is_exhausted, count_request, admit, hour,
}

-- One of the two windows of a client: how many requests it has let through, and when it ends.
pub record Window : Type 0 where
  pub count : ℕ
  pub reset : ℕ

abbrev pub hour_window : ClientRate → Window
hour_window c = record { count = c.hour_count; reset = c.hour_reset }

-- What a request at time `t` does to a window of length `len` and limit `max`.
abbrev fresh_window : ℕ → ℕ → Window → Window
fresh_window len t w = if ltb w.reset t then record { count = 0; reset = t + len } else w

pub record Admits (len max t : ℕ) (w : Window) (ok : Bool) (w' : Window) : Type 0 where
  pub granted :
      ok ≡ true
      → ((fresh_window len t w).count < max)
        × (w'.count ≡ (fresh_window len t w).count + 1)
        × (w'.reset ≡ (fresh_window len t w).reset)
  pub refused :
      ok ≡ false
      → (w'.count ≡ (fresh_window len t w).count) × (w'.reset ≡ (fresh_window len t w).reset)

pub admit-hour :
    (rl : RateLimiter) (t : ℕ) (c : ClientRate)
    → Admits hour rl.rph t (hour_window c) (admit rl t c).1 (hour_window (admit rl t c).0)
unfolding admit refresh is_exhausted count_request
admit-hour rl t c = ground arith

-- How many requests can still be let through in the interval from `a` to `a + len`, when the time is
-- `now` and the client has this window, or none.
unfoldable pub credit : ℕ → ℕ → ℕ → ℕ → Option Window → ℕ
credit len max a now none = if ltb (a + len) now then 0 else if leb a now then max else 2 * max
credit len max a now (some w) =
    if ltb (a + len) now
    then 0
    else if leb (a + len) w.reset
    then max - w.count
    else if leb a w.reset
    then 2 * max - w.count
    else 2 * max

unfoldable pub counted : ℕ → ℕ → ℕ → Bool → ℕ
counted a b t ok = if leb a t && leb t b then (if ok then 1 else 0) else 0

module _ (len max a now t : ℕ) (later : now ≤ t) where
  pub credit_admit :
      (w : Window) (ok : Bool) (w' : Window)
      → w.count ≤ max
      → Admits len max t w ok w'
      → (w'.count ≤ max)
        × (credit len max a t (some w') + counted a (a + len) t ok ≤ credit len max a now (some w))
  unfolding credit counted
  credit_admit w true w' c h = ground (arith, h.granted refl)
  credit_admit w false w' c h = ground (arith, h.refused refl)

  pub credit_new :
      (ok : Bool) (w' : Window)
      → Admits len max t (record { count = 0; reset = t + len }) ok w'
      → (w'.count ≤ max)
        × (credit len max a t (some w') + counted a (a + len) t ok ≤ credit len max a now none)
  unfolding credit counted
  credit_new true w' h = ground (arith, h.granted refl)
  credit_new false w' h = ground (arith, h.refused refl)

  pub credit_later : (o : Option Window) → credit len max a t o ≤ credit len max a now o
  unfolding credit
  credit_later none = ground arith
  credit_later (some w) = ground arith

  pub credit_expire :
      (w : Window)
      → w.count ≤ max
      → w.reset < t
      → credit len max a t none ≤ credit len max a now (some w)
  unfolding credit
  credit_expire w c e = ground arith
