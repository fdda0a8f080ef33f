-- ===== src/Upload/Owner.antt =====
-- Whom the queue's cap on jobs counts an upload for (`ownerIP` in internal/api/handlers/convert.go),
-- beside the client that the rate limit counts (`getClientIP` in internal/api/middleware.go).
use filemagic_backend.Prelude.{◌≡◌, refl, [], arith, if◌then◌else◌, codes, non_empty}
use filemagic_backend.Gate
use filemagic_backend.Gate.{header, trim_space, remote_ip, get_client_ip, is_trusted, split_host}
use filemagic_backend.Upload.{UploadConfig, is_internal_request, owner_ip}

trim_nothing : trim_space [] ≡ []
unfolding trim_space
trim_nothing = refl

-- A request from a trusted peer counts for nobody. Any other counts for the very address that the rate
-- limit counts it for, unless its `CF-Connecting-IP` header is blank: then it counts for the peer.
pub owner_exact :
    (cfg : UploadConfig) (r : Gate.Request)
    → owner_ip cfg r ≡ (
        if is_trusted (remote_ip r) cfg.trusted_ips
        then []
        else if non_empty (trim_space (header r (codes "CF-Connecting-IP")))
        then get_client_ip r
        else remote_ip r)
unfolding owner_ip is_internal_request remote_ip get_client_ip
owner_exact cfg r = ground (arith, trim_nothing)
