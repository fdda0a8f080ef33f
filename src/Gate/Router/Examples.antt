-- ===== src/Gate/Router/Examples.antt =====
-- An upload without a Turnstile token; the theorem at it.
use filemagic_backend.Prelude.{
  false, ◌≤◌, ◌≡◌, refl, ◌∙◌, sym, ap, inl, inr, Bool, ◌&&◌, [], none, some, some_inj, arith, ℕ,
  if◌then◌else◌, Text, codes, eq_text, eq_text_iff, Bool-cases, get_elem?, subst,
}
use filemagic_backend.Dict.{lookup}
use filemagic_backend.Gate.{
  Request, Response, GateConfig, Verification, post_failed, header, index_byte, last_index_byte,
  split_host, trim_space, remote_ip, is_trusted,
}
use filemagic_backend.Gate.Passage.{is_confirmed}
use filemagic_backend.Gate.Router.{
  Endpoint, Route, routes, Found, matched, unmatched, Reply, new_limiters, serve_http,
}
use filemagic_backend.Gate.Router.Guarded.{FindsMethod}
use filemagic_backend.Gate.Router.Refused.{refused_unhandled}

abbrev site : GateConfig
site = record {
  trusted_ips = [];
  turnstile_secret = codes "s";
  cors_origin = codes "https://filemagic.app";
}

abbrev service : Text → Text → Text → Verification
service secret token ip = post_failed

abbrev answer : ℕ → Response
answer status = record { status = status; code = none; message = []; headers = [] }

-- A router that knows the one path.
abbrev is_image_upload : Text → Text → Bool
is_image_upload m p = eq_text m (codes "POST") && eq_text p (codes "/api/convert/image")

abbrev find : Text → Text → Found
find m p =
    if is_image_upload m p
    then matched 5
    else unmatched (record { limiter = none; turnstile = false }) (answer 404)

sixth_route : (rt : Route) → get_elem? routes 5 ≡ some rt → rt.method ≡ codes "POST"
unfolding routes
sixth_route rt g = sym (ap (λ (x : Route). x.method) (some_inj g))

find-FindsMethod : FindsMethod find
find-FindsMethod m p i rt e g = elim (Bool-cases (is_image_upload m p)) [
  | inl known ↦
      let index : 5 ≡ i = ground arith in
      sixth_route rt (subst (λ k. get_elem? routes k ≡ some rt) (sym index) g)
      ∙ sym ((eq_text_iff m (codes "POST")).0 (ground arith))
  | inr unknown ↦ absurd (ground arith)
]

abbrev upload : Request
upload = record { method = codes "POST"; remote_addr = codes "1.1.1.1:443"; headers = [] }

abbrev handled : ℕ → Endpoint → Request → Response
handled status e r = answer status

abbrev reply : ℕ → Reply
reply status =
    serve_http site service find (handled status) (new_limiters 10 60) 7
      (codes "/api/convert/image") upload

refused_unhandled_example : (reply 200 ≡ reply 202) × (400 ≤ (reply 200).response.status)
unfolding routes is_confirmed is_trusted remote_ip header split_host trim_space index_byte
    last_index_byte lookup eq_text
refused_unhandled_example =
    refused_unhandled site service find (handled 200) (handled 202) (new_limiters 10 60) 7
      (codes "/api/convert/image") upload 5 _ find-FindsMethod refl refl refl (inr (refl, refl))
