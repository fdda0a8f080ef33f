-- ===== src/Gate.antt =====
-- What a request passes before its handler (internal/api/middleware.go, internal/api/turnstile.go):
-- the client's address, the rate limit, the Turnstile check and the CORS headers. Header values and
-- addresses are ASCII bytes. The Turnstile service is the parameter `verify`.
pub mod Passage
pub mod Router
mod Examples
use filemagic_backend.Prelude.{
  ℕ, suc, ◌+◌, ◌-◌, Bool, true, false, not, ◌&&◌, ◌||◌, List, [], ◌∷◌, ◌++◌, Option, none, some,
  length, take, drop, ltb, leb, ◌==◌, if◌then◌else◌, Text, codes, eq_text, non_empty, slice,
}
use mathlib.Core.List.{reverse}
use filemagic_backend.Dict.{lookup, insert}
use filemagic_backend.RateLimiter.{RateLimiter, allow}

pub record Request : Type 0 where
  pub method : Text
  pub remote_addr : Text
  pub headers : List (Text × Text)

pub data ErrorCode : Type 0 where
  validation_error queue_full file_too_large rate_limited not_found internal_error : ErrorCode

-- `response.Error`: the status and the body; the headers set so far stand in `headers`.
pub record Response : Type 0 where
  pub status : ℕ
  pub code : Option ErrorCode
  pub message : Text
  pub headers : List (Text × Text)

unfoldable pub error_response : ℕ → ErrorCode → Text → Response
error_response status code message = record {
  status = status;
  code = some code;
  message = message;
  headers = [];
}

-- `w.Header().Set` before the rest of the handler runs.
unfoldable pub with_header : Text → Text → Response → Response
with_header k v r = record r { headers = (k, v) ∷ r.headers }

-- `r.Header.Get(name)`
unfoldable pub header : Request → Text → Text
header r name = elim (lookup name r.headers) [ some v ↦ v | none ↦ [] ]

-- `strings.IndexByte`
unfoldable pub index_byte : ℕ → Text → Option ℕ
index_byte c [] = none
index_byte c (x ∷ xs) =
    let rest = index_byte c xs in
    if x == c then some 0 else elim rest [ none ↦ none | some i ↦ some (i + 1) ]

-- `strings.LastIndexByte`
unfoldable pub last_index_byte : ℕ → Text → Option ℕ
last_index_byte c [] = none
last_index_byte c (x ∷ xs) = elim (last_index_byte c xs) [
  | some i ↦ some (i + 1)
  | none ↦ if x == c then some 0 else none
]

abbrev has_byte : ℕ → Text → Bool
has_byte c s = elim (index_byte c s) [ none ↦ false | some i ↦ true ]

-- The host of `net.SplitHostPort`; `none` is its error. A bracketed host ends at the first `]`, which
-- must stand right before the last colon, and no other bracket may follow.
bracketed_host : Text → ℕ → Option Text
unfolding index_byte
bracketed_host s colon = elim (index_byte b']' s) [
  | none ↦ none
  | some close ↦
      if close + 1 == colon
      then if has_byte b'[' (drop 1 s) || has_byte b']' (drop (close + 1) s)
        then none
        else some (slice 1 close s)
      else none
]

plain_host : Text → ℕ → Option Text
unfolding index_byte
plain_host s colon =
    let host = take colon s in
    if has_byte b':' host || has_byte b'[' s || has_byte b']' s then none else some host

abbrev opens_bracket : Text → Bool
opens_bracket [] = false
opens_bracket (c ∷ s) = c == b'['

unfoldable pub split_host : Text → Option Text
unfolding last_index_byte bracketed_host plain_host
split_host s = elim (last_index_byte b':' s) [
  | none ↦ none
  | some colon ↦ if opens_bracket s then bracketed_host s colon else plain_host s colon
]

-- The white space that `strings.TrimSpace` strips from ASCII text.
abbrev is_space : ℕ → Bool
is_space c = (leb 9 c && leb c 13) || c == 32

trim_left : Text → Text
trim_left [] = []
trim_left (c ∷ s) = elim (is_space c) [ true ↦ trim_left s | false ↦ c ∷ s ]

unfoldable pub trim_space : Text → Text
unfolding trim_left
trim_space s = reverse (trim_left (reverse (trim_left s)))

unfoldable pub remote_ip : Request → Text
remote_ip r = elim (split_host r.remote_addr) [ none ↦ r.remote_addr | some host ↦ host ]

unfoldable pub get_client_ip : Request → Text
get_client_ip r =
    let cf_ip = header r (codes "CF-Connecting-IP") in
    if non_empty cf_ip then trim_space cf_ip else remote_ip r

-- The part of `config.Config` that the middleware reads; `trusted_ips` is the set of the map's keys.
pub record GateConfig : Type 0 where
  pub trusted_ips : List Text
  pub turnstile_secret : Text
  pub cors_origin : Text

-- `cfg.TrustedIPs[ip]`
unfoldable pub is_trusted : Text → List Text → Bool
is_trusted ip [] = false
is_trusted ip (t ∷ ts) = eq_text t ip || is_trusted ip ts

-- `RateLimiter.Middleware`, at the time that `Allow` reads.
unfoldable pub limit_middleware :
    GateConfig → RateLimiter → ℕ → Request → (Request → Response) → RateLimiter × Response
limit_middleware cfg rl now r next =
    if is_trusted (remote_ip r) cfg.trusted_ips
    then (rl, next r)
    else let (rl', ok) = allow rl now (get_client_ip r) in
      if ok then (rl', next r) else (
        rl',
        with_header (codes "Retry-After") (codes "60")
            (error_response 429 rate_limited (codes "rate limit exceeded, please try again later")),
      )

-- The answer of the verification service, or why there is none.
pub data Verification : Type 0 where
  post_failed : Verification
  decode_failed : Verification
  verified : Bool → Verification

-- `TurnstileMiddleware`; `verify` posts the secret, the token and the client's address.
unfoldable pub turnstile_middleware :
    GateConfig → (Text → Text → Text → Verification) → Request → (Request → Response) → Response
turnstile_middleware cfg verify r next =
    if not (non_empty cfg.turnstile_secret)
    then next r
    else if is_trusted (remote_ip r) cfg.trusted_ips
    then next r
    else let token = header r (codes "X-Turnstile-Token") in
      if not (non_empty token)
      then error_response 403 validation_error (codes "missing turnstile token")
      else elim (verify cfg.turnstile_secret token (get_client_ip r)) [
        | post_failed ↦ error_response 500 internal_error (codes "security verification failed")
        | decode_failed ↦ error_response 500 internal_error (codes "security verification failed")
        | verified ok ↦
            if ok
            then next r
            else error_response 403 validation_error (codes "security verification failed")
      ]

abbrev cors_headers : Text → List (Text × Text)
cors_headers origin =
    (codes "Access-Control-Allow-Origin", origin)
    ∷ (codes "Access-Control-Allow-Methods", codes "GET, POST, OPTIONS")
    ∷ (codes "Access-Control-Allow-Headers", codes "Content-Type, Accept, X-Turnstile-Token")
    ∷ (codes "Access-Control-Expose-Headers", codes "Content-Disposition, Content-Length")
    ∷ (codes "Access-Control-Max-Age", codes "86400")
    ∷ []

-- `CORSWithConfig`
unfoldable pub cors_middleware : GateConfig → Request → (Request → Response) → Response
cors_middleware cfg r next =
    let origin = cfg.cors_origin in
    if not (non_empty origin)
    then next r
    else let credentials =
        (if eq_text origin (codes "*")
          then []
          else (codes "Access-Control-Allow-Credentials", codes "true") ∷ []) in
      let answer =
        (if eq_text r.method (codes "OPTIONS")
          then record { status = 204; code = none; message = []; headers = [] }
          else next r) in
      record answer { headers = credentials ++ cors_headers origin ++ answer.headers }

-- `SecurityHeaders`
unfoldable pub security_headers : Request → (Request → Response) → Response
security_headers r next =
    let answer = next r in
    record answer {
      headers =
          (codes "X-Frame-Options", codes "DENY")
          ∷ (codes "X-Content-Type-Options", codes "nosniff")
          ∷ (codes "X-XSS-Protection", codes "1; mode=block")
          ∷ (codes "Referrer-Policy", codes "no-referrer")
          ∷ answer.headers;
    }
