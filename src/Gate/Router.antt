-- ===== src/Gate/Router.antt =====
-- The routes of the service, with the middleware around each handler (internal/api/router.go). How chi
-- finds a path's route, and what it answers when there is none, is a parameter; a handler that panics is
-- not modelled.
pub mod Guarded
pub mod Refused
mod Examples
use filemagic_backend.Prelude.{
  ℕ, Bool, true, false, ◌&&◌, List, [], ◌∷◌, Option, none, some, get_elem?, if◌then◌else◌, Text,
  codes, eq_text, non_empty,
}
use filemagic_backend.RateLimiter.{RateLimiter, new_rate_limiter}
use filemagic_backend.Gate.{
  Request, Response, GateConfig, Verification, limit_middleware, turnstile_middleware,
  cors_middleware, security_headers,
}

-- The handlers' methods.
pub data Endpoint : Type 0 where
  health stats stats_thanks queue_status queue_position image_convert pdf_compress : Endpoint
  image_compress ocr metadata_remove metadata_inspect pdf_password pdf_edit : Endpoint
  pdf_extract_images cert_convert markdown_pdf audio_extract audio_convert : Endpoint
  video_compress mov_to_mp4 video_to_gif svg_to_png favicon font_convert pdf_repair : Endpoint
  ebook_convert pdf_merge image_to_pdf qr_code inspect_certificate : Endpoint
  inspect_certificate_text archive decompress contact_email download download_file : Endpoint
  download_zip : Endpoint

-- `rateLimiter` and `pollLimiter`
pub data Limiter : Type 0 where
  rate_limiter poll_limiter : Limiter

-- The middleware of a route inside that of the whole router.
pub record Guards : Type 0 where
  pub limiter : Option Limiter
  pub turnstile : Bool

pub record Route : Type 0 where
  pub method : Text
  pub pattern : Text
  pub guards : Guards
  pub endpoint : Endpoint

abbrev unlimited : Guards
unlimited = record { limiter = none; turnstile = false }

abbrev polled : Guards
polled = record { limiter = some poll_limiter; turnstile = false }

abbrev limited : Guards
limited = record { limiter = some rate_limiter; turnstile = false }

abbrev guarded : Guards
guarded = record { limiter = some rate_limiter; turnstile = true }

abbrev get_route : Text → Guards → Endpoint → Route
get_route pattern guards endpoint = record {
  method = codes "GET";
  pattern = pattern;
  guards = guards;
  endpoint = endpoint;
}

abbrev post_route : Text → Guards → Endpoint → Route
post_route pattern guards endpoint = record {
  method = codes "POST";
  pattern = pattern;
  guards = guards;
  endpoint = endpoint;
}

unfoldable pub routes : List Route
routes =
    get_route (codes "/api/health") unlimited health
    ∷ get_route (codes "/api/stats") polled stats
    ∷ post_route (codes "/api/stats/thanks") guarded stats_thanks
    ∷ get_route (codes "/api/queue/status") polled queue_status
    ∷ get_route (codes "/api/queue/position/{jobId}") polled queue_position
    ∷ post_route (codes "/api/convert/image") guarded image_convert
    ∷ post_route (codes "/api/convert/pdf/compress") guarded pdf_compress
    ∷ post_route (codes "/api/convert/image/compress") guarded image_compress
    ∷ post_route (codes "/api/convert/ocr") guarded ocr
    ∷ post_route (codes "/api/convert/metadata/remove") guarded metadata_remove
    ∷ post_route (codes "/api/convert/metadata/inspect") guarded metadata_inspect
    ∷ post_route (codes "/api/convert/pdf/password") guarded pdf_password
    ∷ post_route (codes "/api/convert/pdf/edit") guarded pdf_edit
    ∷ post_route (codes "/api/convert/pdf/extract-images") guarded pdf_extract_images
    ∷ post_route (codes "/api/convert/certificate") guarded cert_convert
    ∷ post_route (codes "/api/convert/markdown/pdf") guarded markdown_pdf
    ∷ post_route (codes "/api/convert/audio/extract") guarded audio_extract
    ∷ post_route (codes "/api/convert/audio") guarded audio_convert
    ∷ post_route (codes "/api/convert/video/compress") guarded video_compress
    ∷ post_route (codes "/api/convert/video/mov-to-mp4") guarded mov_to_mp4
    ∷ post_route (codes "/api/convert/video/gif") guarded video_to_gif
    ∷ post_route (codes "/api/convert/svg/png") guarded svg_to_png
    ∷ post_route (codes "/api/convert/favicon") guarded favicon
    ∷ post_route (codes "/api/convert/font") guarded font_convert
    ∷ post_route (codes "/api/convert/pdf/repair") guarded pdf_repair
    ∷ post_route (codes "/api/convert/ebook") guarded ebook_convert
    ∷ post_route (codes "/api/merge/pdf") guarded pdf_merge
    ∷ post_route (codes "/api/merge/image-to-pdf") guarded image_to_pdf
    ∷ post_route (codes "/api/generate/qrcode") guarded qr_code
    ∷ post_route (codes "/api/inspect/certificate") guarded inspect_certificate
    ∷ post_route (codes "/api/inspect/certificate/text") guarded inspect_certificate_text
    ∷ post_route (codes "/api/archive/create") guarded archive
    ∷ post_route (codes "/api/archive/decompress") guarded decompress
    ∷ post_route (codes "/api/contact/email") guarded contact_email
    ∷ get_route (codes "/api/download/{jobId}") limited download
    ∷ get_route (codes "/api/download/{jobId}/file/{index}") limited download_file
    ∷ get_route (codes "/api/download/{jobId}/zip") limited download_zip
    ∷ []

pub record Limiters : Type 0 where
  pub rate : RateLimiter
  pub poll : RateLimiter

-- The two limiters of `NewRouter`, for the configured limits.
unfoldable pub new_limiters : ℕ → ℕ → Limiters
new_limiters rpm rph = record { rate = new_rate_limiter rpm rph; poll = new_rate_limiter 60 600 }

abbrev pub limiter_of : Limiter → Limiters → RateLimiter
limiter_of rate_limiter ls = ls.rate
limiter_of poll_limiter ls = ls.poll

abbrev pub with_limiter : Limiter → RateLimiter → Limiters → Limiters
with_limiter rate_limiter rl ls = record ls { rate = rl }
with_limiter poll_limiter rl ls = record ls { poll = rl }

-- What chi finds for a method and a path: the number of a route, or none, with its own answer and the
-- middleware of the group of routes in which the search ended, which runs all the same.
pub data Found : Type 0 where
  matched : ℕ → Found
  unmatched : Guards → Response → Found

-- The line that `RequestLogger` writes, less the time that the request took.
pub record LogLine : Type 0 where
  pub method : Text
  pub path : Text
  pub status : ℕ

pub record Reply : Type 0 where
  pub limiters : Limiters
  pub response : Response
  pub logged : Option LogLine

-- `RequestLogger`
unfoldable pub request_logger : Text → Request → Response → LogLine
request_logger path r answer = record { method = r.method; path = path; status = answer.status }

module _ (cfg : GateConfig) where
  -- `CORSWithConfig` answers such a request itself.
  unfoldable pub is_preflight : Request → Bool
  is_preflight r = non_empty cfg.cors_origin && eq_text r.method (codes "OPTIONS")

  -- The middleware of the whole router around what its routes make of the request.
  unfoldable pub around : Limiters → Text → Request → Limiters × Response → Reply
  around ls path r (ls', answer) =
      let response = security_headers r (λ q. cors_middleware cfg q (λ p. answer)) in
      if is_preflight r
      then record { limiters = ls; response = response; logged = none }
      else record {
        limiters = ls';
        response = response;
        logged = some (request_logger path r answer);
      }

module _ (cfg : GateConfig) (verify : Text → Text → Text → Verification) where
  unfoldable pub run_guards :
      Guards → Limiters → ℕ → Request → (Request → Response) → Limiters × Response
  run_guards guards ls now r next =
      let inner = λ (q : Request).
        if guards.turnstile then turnstile_middleware cfg verify q next else next q in
      elim guards.limiter [
        | none ↦ (ls, inner r)
        | some l ↦
            let (rl, response) = limit_middleware cfg (limiter_of l ls) now r inner in
            (with_limiter l rl ls, response)
      ]

  module _ (find : Text → Text → Found) (handlers : Endpoint → Request → Response) where
    -- `ServeHTTP` of the routes. chi finds no route that is not in the table.
    unfoldable pub dispatch : Limiters → ℕ → Text → Request → Limiters × Response
    dispatch ls now path r = elim (find r.method path) [
      | unmatched guards response ↦ run_guards guards ls now r (λ q. response)
      | matched i ↦ elim (get_elem? routes i) [
        | none ↦ (ls, record { status = 404; code = none; message = []; headers = [] })
        | some route ↦ run_guards route.guards ls now r (handlers route.endpoint)
      ]
    ]

    unfoldable pub serve_http : Limiters → ℕ → Text → Request → Reply
    serve_http ls now path r = around cfg ls path r (dispatch ls now path r)
