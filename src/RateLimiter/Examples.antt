-- ===== src/RateLimiter/Examples.antt =====
-- A client that floods a limiter of one request an hour, and the theorem at it.
use filemagic_backend.Prelude.{◌*◌, ◌+◌, ◌≤◌, ◌≡◌, refl, List, [], ◌∷◌, arith, codes, eq_text}
use filemagic_backend.Dict.{lookup, insert}
use filemagic_backend.RateLimiter.{
  Event, request, tick, hour, new_rate_limiter, serve, allow, admit, entry_of, new_client, refresh,
  is_exhausted, count_request, sweep, sweep_clients,
}
use filemagic_backend.RateLimiter.Window.{allowed_in, hourly_bound}

abbrev flood : List Event
flood =
    request 5 (codes "1.1.1.1")
    ∷ request 6 (codes "2.2.2.2")
    ∷ request 7 (codes "1.1.1.1")
    ∷ tick 3600000000006
    ∷ request 3600000000007 (codes "1.1.1.1")
    ∷ []

hourly_bound_example :
    allowed_in (codes "1.1.1.1") 5 (5 + hour) (new_rate_limiter 9 1) flood ≤ 2 * 1
hourly_bound_example = hourly_bound 9 1 5 (codes "1.1.1.1") flood (omega arith)

-- From the third request of the history on, one request of the flooding client is let through.
flood_reaches : allowed_in (codes "1.1.1.1") 7 (7 + hour) (new_rate_limiter 9 1) flood ≡ 1
unfolding allowed_in new_rate_limiter serve allow admit entry_of new_client refresh is_exhausted
    count_request sweep sweep_clients lookup insert eq_text
flood_reaches = refl
