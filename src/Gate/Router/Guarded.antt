-- ===== src/Gate/Router/Guarded.antt =====
-- What the table of routes guarantees of every request (internal/api/router.go).
use filemagic_backend.Prelude.{
  ℕ, zero, suc, ◌≤◌, ◌≡◌, refl, ◌∙◌, ap, ◌⊎◌, inl, inr, Bool, true, false, not, ◌&&◌, ◌||◌, List,
  [], ◌∷◌, Option, none, some, arith, get_elem?, if◌then◌else◌, Text, codes, eq_text, eq_text_refl,
  Option-cases, some_inj, subst, sym,
}
use filemagic_backend.RateLimiter.{RateLimiter, allow}
use filemagic_backend.Gate.{
  Request, Response, GateConfig, Verification, error_response, with_header, remote_ip,
  get_client_ip, is_trusted, limit_middleware, turnstile_middleware,
}
use filemagic_backend.Gate.Passage.{is_confirmed}
use filemagic_backend.Gate.Router.{
  Endpoint, health, stats, queue_status, queue_position, Limiter, rate_limiter, poll_limiter,
  Guards, Route, routes, Limiters, limiter_of, with_limiter, Found, matched, run_guards, dispatch,
}

abbrev pub all_of : (Route → Bool) → List Route → Bool
all_of test [] = true
all_of test (x ∷ xs) = test x && all_of test xs

pub all_of-get :
    (test : Route → Bool) (xs : List Route) (i : ℕ) (x : Route)
    → all_of test xs ≡ true
    → get_elem? xs i ≡ some x
    → test x ≡ true
all_of-get test [] i x h e = ground arith
all_of-get test (y ∷ ys) zero x h e = subst (λ z. test z ≡ true) (some_inj e) (ground arith)
all_of-get test (y ∷ ys) (suc i) x h e = all_of-get test ys i x (ground arith) e

-- The limiter that is meant for a handler: none for the health check, the polls' own for what a page asks
-- for again and again, and the main one for all else.
abbrev pub limiter_for : Endpoint → Option Limiter
limiter_for health = none
limiter_for stats = some poll_limiter
limiter_for queue_status = some poll_limiter
limiter_for queue_position = some poll_limiter
limiter_for _ = some rate_limiter

abbrev same_limiter : Option Limiter → Option Limiter → Bool
same_limiter none none = true
same_limiter (some rate_limiter) (some rate_limiter) = true
same_limiter (some poll_limiter) (some poll_limiter) = true
same_limiter _ _ = false

same_limiter-eq : (l k : Option Limiter) → same_limiter l k ≡ true → l ≡ k
same_limiter-eq none none h = refl
same_limiter-eq none (some k) h = ground arith
same_limiter-eq (some rate_limiter) none h = ground arith
same_limiter-eq (some poll_limiter) none h = ground arith
same_limiter-eq (some rate_limiter) (some rate_limiter) h = refl
same_limiter-eq (some rate_limiter) (some poll_limiter) h = ground arith
same_limiter-eq (some poll_limiter) (some rate_limiter) h = ground arith
same_limiter-eq (some poll_limiter) (some poll_limiter) h = refl

-- A route has the limiter meant for its handler, what is posted is checked by Turnstile, and no route is
-- for `OPTIONS`.
unfoldable pub is_guarded : Route → Bool
is_guarded rt =
    same_limiter rt.guards.limiter (limiter_for rt.endpoint)
    && ((not (eq_text rt.method (codes "POST")) || rt.guards.turnstile)
        && not (eq_text rt.method (codes "OPTIONS")))

pub routes_guarded : all_of is_guarded routes ≡ true
unfolding routes is_guarded eq_text
routes_guarded = refl

-- chi's answer to a method and a path is a route for this method.
abbrev pub FindsMethod : (Text → Text → Found) → Type 0
FindsMethod find =
    (m p : Text) (i : ℕ) (rt : Route)
    → find m p ≡ matched i
    → get_elem? routes i ≡ some rt
    → rt.method ≡ m

-- A request that may not pass to a handler: it is over the limit of the limiter, if there is one, or it
-- posts, and the Turnstile check does not confirm it.
abbrev pub IsRefused :
    GateConfig
    → (Text → Text → Text → Verification)
    → Option Limiter
    → Limiters
    → ℕ
    → Request
    → Type 0
IsRefused cfg verify limiter ls now r =
    ((l : Limiter) × (limiter ≡ some l)
      × ((allow (limiter_of l ls) now (get_client_ip r)).1 ≡ false))
    ⊎ ((r.method ≡ codes "POST") × (is_confirmed cfg verify r ≡ false))

module _ (cfg : GateConfig) (verify : Text → Text → Text → Verification) where
  turnstile_refused :
      (r : Request) (next next' : Request → Response)
      → is_trusted (remote_ip r) cfg.trusted_ips ≡ false
      → is_confirmed cfg verify r ≡ false
      → (turnstile_middleware cfg verify r next ≡ turnstile_middleware cfg verify r next')
        × (400 ≤ (turnstile_middleware cfg verify r next).status)
  unfolding turnstile_middleware is_confirmed error_response
  turnstile_refused r next next' t c = (ground arith, ground arith)

  limit_refused :
      (rl : RateLimiter) (now : ℕ) (r : Request) (next next' : Request → Response)
      → is_trusted (remote_ip r) cfg.trusted_ips ≡ false
      → (allow rl now (get_client_ip r)).1 ≡ false
      → (limit_middleware cfg rl now r next ≡ limit_middleware cfg rl now r next')
        × (400 ≤ (limit_middleware cfg rl now r next).1.status)
  unfolding limit_middleware error_response with_header
  limit_refused rl now r next next' t c = (ground arith, ground arith)

  limit_passed :
      (rl : RateLimiter) (now : ℕ) (r : Request) (next next' : Request → Response)
      → is_trusted (remote_ip r) cfg.trusted_ips ≡ false
      → (next r ≡ next' r) × (400 ≤ (next r).status)
      → (limit_middleware cfg rl now r next ≡ limit_middleware cfg rl now r next')
        × (400 ≤ (limit_middleware cfg rl now r next).1.status)
  unfolding limit_middleware error_response with_header
  limit_passed rl now r next next' t c = (ground arith, ground arith)

  guards_refused :
      (guards : Guards) (ls : Limiters) (now : ℕ) (r : Request) (next next' : Request → Response)
      → is_trusted (remote_ip r) cfg.trusted_ips ≡ false
      → (r.method ≡ codes "POST" → guards.turnstile ≡ true)
      → IsRefused cfg verify guards.limiter ls now r
      → (run_guards cfg verify guards ls now r next ≡ run_guards cfg verify guards ls now r next')
        × (400 ≤ (run_guards cfg verify guards ls now r next).1.status)
  unfolding run_guards
  guards_refused guards ls now r next next' t checked (inl (l, e, over)) = rw e (
      let (same, refused) =
        limit_refused (limiter_of l ls) now r
          (λ q. if guards.turnstile then turnstile_middleware cfg verify q next else next q)
          (λ q. if guards.turnstile then turnstile_middleware cfg verify q next' else next' q) t
          over in
      (ap (λ (p : RateLimiter × Response). (with_limiter l p.0 ls, p.1)) same, refused))
  guards_refused guards ls now r next next' t checked (inr (post, c)) =
      let (same, refused) = turnstile_refused r next next' t c in
      rw (checked post) (elim (Option-cases guards.limiter) [
        | inl e ↦ rw e (ap (λ (a : Response). (ls, a)) same, refused)
        | inr (l, e) ↦ rw e (
            let (same', refused') =
              limit_passed (limiter_of l ls) now r (λ q. turnstile_middleware cfg verify q next)
                (λ q. turnstile_middleware cfg verify q next') t (same, refused) in
            (ap (λ (p : RateLimiter × Response). (with_limiter l p.0 ls, p.1)) same', refused'))
      ])

  module _ (find : Text → Text → Found) where
    pub dispatch_refused :
        (ls : Limiters) (now : ℕ) (path : Text) (r : Request) (i : ℕ) (rt : Route)
        (handlers handlers' : Endpoint → Request → Response)
        → FindsMethod find
        → find r.method path ≡ matched i
        → get_elem? routes i ≡ some rt
        → is_trusted (remote_ip r) cfg.trusted_ips ≡ false
        → IsRefused cfg verify (limiter_for rt.endpoint) ls now r
        → (dispatch cfg verify find handlers ls now path r
            ≡ dispatch cfg verify find handlers' ls now path r)
          × (400 ≤ (dispatch cfg verify find handlers ls now path r).1.status)
    unfolding dispatch is_guarded
    dispatch_refused ls now path r i rt handlers handlers' agrees f g t refused =
        let guarded = all_of-get is_guarded routes i rt routes_guarded g in
        let method = agrees r.method path i rt f g in
        rw (f, dispatch)
          (rw g (
            guards_refused rt.guards ls now r (handlers rt.endpoint) (handlers' rt.endpoint) t
              (λ post.
                let e : eq_text rt.method (codes "POST") ≡ true =
                  rw (method ∙ post) (eq_text_refl (codes "POST")) in
                ground arith)
              (subst (λ l. IsRefused cfg verify l ls now r)
                (sym (same_limiter-eq rt.guards.limiter (limiter_for rt.endpoint) (ground arith)))
                refused)))
