-- ===== src/Gate/Router/Refused.antt =====
-- Which requests no handler sees (internal/api/router.go, internal/api/middleware.go,
-- internal/api/turnstile.go).
use filemagic_backend.Prelude.{
  ℕ, ◌≤◌, ◌≡◌, ◌∙◌, false, some, arith, get_elem?, Text, codes, eq_text, ap, sym,
}
use filemagic_backend.Gate.{
  Request, Response, GateConfig, Verification, remote_ip, is_trusted, cors_middleware,
  security_headers,
}
use filemagic_backend.Gate.Router.{
  Endpoint, Route, routes, Limiters, Found, matched, around, dispatch, is_preflight, request_logger,
  serve_http,
}
use filemagic_backend.Gate.Router.Guarded.{
  all_of-get, limiter_for, is_guarded, routes_guarded, FindsMethod, IsRefused, dispatch_refused,
}

module _ (cfg : GateConfig) (verify : Text → Text → Text → Verification)
    (find : Text → Text → Found) (handlers : Endpoint → Request → Response) where
  serve_http-status :
      (ls : Limiters) (now : ℕ) (path : Text) (r : Request)
      → eq_text r.method (codes "OPTIONS") ≡ false
      → (serve_http cfg verify find handlers ls now path r).response.status
        ≡ (dispatch cfg verify find handlers ls now path r).1.status
  unfolding serve_http around is_preflight security_headers cors_middleware request_logger
  serve_http-status ls now path r e = ground arith

  -- Where chi answers a method with a route for this method: a request of a peer that is not trusted, for
  -- any handler but that of the health check, which is over the limit (of the polls' limiter, if the
  -- handler is for the statistics, the queue or a position in it; of the main limiter, for any other
  -- handler), reaches no handler; nor does one that posts and is not confirmed by the Turnstile check. It
  -- gets the same reply, which is an error, whatever the handlers do.
  pub refused_unhandled :
      (handlers' : Endpoint → Request → Response) (ls : Limiters) (now : ℕ) (path : Text)
      (r : Request) (i : ℕ) (rt : Route)
      → FindsMethod find
      → find r.method path ≡ matched i
      → get_elem? routes i ≡ some rt
      → is_trusted (remote_ip r) cfg.trusted_ips ≡ false
      → IsRefused cfg verify (limiter_for rt.endpoint) ls now r
      → (serve_http cfg verify find handlers ls now path r
          ≡ serve_http cfg verify find handlers' ls now path r)
        × (400 ≤ (serve_http cfg verify find handlers ls now path r).response.status)
  unfolding is_guarded serve_http
  refused_unhandled handlers' ls now path r i rt agrees f g t refused =
      let guarded = all_of-get is_guarded routes i rt routes_guarded g in
      let (same, error) =
        dispatch_refused cfg verify find ls now path r i rt handlers handlers' agrees f g t
          refused in
      let other : eq_text r.method (codes "OPTIONS") ≡ false =
        ap (λ m. eq_text m (codes "OPTIONS")) (sym (agrees r.method path i rt f g))
        ∙ ground arith in
      (ap (around cfg ls path r) same, ground (arith, serve_http-status ls now path r other))
