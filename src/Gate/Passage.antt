-- ===== src/Gate/Passage.antt =====
-- Who reaches a handler behind the rate limit and the Turnstile check (internal/api/router.go,
-- internal/api/middleware.go, internal/api/turnstile.go), and which address a client is known by.
use filemagic_backend.Dict.{lookup}
use filemagic_backend.Prelude.{
  ℕ, ◌≡◌, Bool, true, false, not, ◌&&◌, ◌||◌, none, some, arith, if◌then◌else◌, Text, codes,
  eq_text, non_empty,
}
use filemagic_backend.RateLimiter.{RateLimiter, allow}
use filemagic_backend.Gate.{
  Request, Response, GateConfig, Verification, verified, rate_limited, internal_error,
  validation_error, error_response, with_header, header, remote_ip, get_client_ip, is_trusted,
  limit_middleware, turnstile_middleware, cors_middleware,
}

-- `r.With(rateLimiter.Middleware, turnstile)` around a handler.
unfoldable pub protected :
    GateConfig
    → (Text → Text → Text → Verification)
    → RateLimiter
    → ℕ
    → Request
    → (Request → Response)
    → RateLimiter × Response
protected cfg verify rl now r next =
    limit_middleware cfg rl now r (λ q. turnstile_middleware cfg verify q next)

module _ (cfg : GateConfig) (verify : Text → Text → Text → Verification) (r : Request) where
  abbrev token : Text
  token = header r (codes "X-Turnstile-Token")

  -- What the Turnstile service says of the request's token, for the client's address.
  abbrev pub verdict : Verification
  verdict = verify cfg.turnstile_secret token (get_client_ip r)

  -- No check is configured, or the service confirms the token.
  unfoldable pub is_confirmed : Bool
  is_confirmed =
      not (non_empty cfg.turnstile_secret)
      || (non_empty token && elim verdict [ verified ok ↦ ok | _ ↦ false ])

  -- The service could not be asked, or did not answer.
  unfoldable pub is_unanswered : Bool
  is_unanswered = non_empty token && elim verdict [ verified ok ↦ false | _ ↦ true ]

-- A request from a trusted peer reaches the handler and leaves the limiter alone. Any other request is
-- counted for its client. Over the limit it gets 429 with `Retry-After: 60`. Within the limit it reaches
-- the handler exactly if no secret is configured or the Turnstile service confirms its token; else it
-- gets 500 when the service gave no answer, and 403 when it refused or there is no token.
pub protected_passage :
    (cfg : GateConfig) (verify : Text → Text → Text → Verification) (rl : RateLimiter) (now : ℕ)
    (r : Request) (next : Request → Response)
    → let counted = allow rl now (get_client_ip r) in
      protected cfg verify rl now r next ≡ (
        if is_trusted (remote_ip r) cfg.trusted_ips
        then (rl, next r)
        else if not counted.1
        then (
          counted.0,
          with_header (codes "Retry-After") (codes "60") (
              error_response 429 rate_limited
                (codes "rate limit exceeded, please try again later")),
        )
        else if is_confirmed cfg verify r
        then (counted.0, next r)
        else if is_unanswered cfg verify r
        then (counted.0, error_response 500 internal_error (codes "security verification failed"))
        else if non_empty (header r (codes "X-Turnstile-Token"))
        then (counted.0, error_response 403 validation_error (codes "security verification failed"))
        else (counted.0, error_response 403 validation_error (codes "missing turnstile token")))
unfolding protected limit_middleware turnstile_middleware is_confirmed is_unanswered
protected_passage cfg verify rl now r next = ground arith

abbrev pub credentials : Text
credentials = codes "Access-Control-Allow-Credentials"

-- With a CORS origin configured an `OPTIONS` request gets 204 whatever the handler is; and credentials
-- are allowed with no wildcard: the answer carries the credentials header, where the handler does not
-- set it itself, exactly if the origin is neither empty nor `*`.
pub cors_credentials :
    (cfg : GateConfig) (r : Request) (next : Request → Response)
    → lookup credentials (next r).headers ≡ none
    → (lookup credentials (cors_middleware cfg r next).headers ≡ (
        if non_empty cfg.cors_origin && not (eq_text cfg.cors_origin (codes "*"))
        then some (codes "true")
        else none))
      × ((if non_empty cfg.cors_origin && eq_text r.method (codes "OPTIONS")
            then 204
            else (next r).status)
          ≡ (cors_middleware cfg r next).status)
unfolding cors_middleware lookup eq_text
cors_credentials cfg r next e = ground arith
