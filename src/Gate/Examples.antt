-- ===== src/Gate/Examples.antt =====
-- A request that passes both checks (internal/api/middleware.go, internal/api/turnstile.go).
use filemagic_backend.Dict.{lookup, insert}
use filemagic_backend.Prelude.{◌≡◌, refl, [], ◌∷◌, none, Text, codes, eq_text}
use filemagic_backend.RateLimiter.{
  new_rate_limiter, allow, admit, entry_of, new_client, refresh, is_exhausted, count_request,
}
use filemagic_backend.Gate.{
  Request, Response, GateConfig, Verification, verified, header, index_byte, last_index_byte,
  split_host, trim_space, remote_ip, get_client_ip, is_trusted, limit_middleware,
  turnstile_middleware,
}
use filemagic_backend.Gate.Passage.{protected}

abbrev site : GateConfig
site = record {
  trusted_ips = codes "10.0.0.1" ∷ [];
  turnstile_secret = codes "s";
  cors_origin = codes "https://filemagic.app";
}

abbrev upload : Request
upload = record {
  method = codes "POST";
  remote_addr = codes "1.1.1.1:443";
  headers = (codes "X-Turnstile-Token", codes "t") ∷ [];
}

abbrev accepted : Request → Response
accepted r = record { status = 202; code = none; message = []; headers = [] }

-- A service that confirms the token `t`.
abbrev service : Text → Text → Text → Verification
service secret token ip = verified (eq_text token (codes "t"))

-- The two checks pass the request on, and the limiter has counted it.
reaches_handler :
    protected site service (new_rate_limiter 10 100) 7 upload accepted
    ≡ ((allow (new_rate_limiter 10 100) 7 (codes "1.1.1.1")).0, accepted upload)
unfolding protected limit_middleware turnstile_middleware is_trusted remote_ip get_client_ip header
    split_host trim_space index_byte last_index_byte new_rate_limiter allow admit entry_of
    new_client refresh is_exhausted count_request lookup insert eq_text
reaches_handler = refl
