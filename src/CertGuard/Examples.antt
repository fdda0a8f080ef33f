-- ===== src/CertGuard/Examples.antt =====
-- A PKCS#12 file with one encrypted content (internal/inspector/pkcs12_guard.go).
use filemagic_backend.Prelude.{ℕ, ◌↔◌, ◌≡◌, ◌≤◌, refl, [], ◌∷◌, none, some, Text, codes, eq_text}
use filemagic_backend.CertGuard.{
  Asn1, oid_encrypted_data_content_type, max_kdf_iterations, algorithm_iterations, is_over,
  over_in_content, over_in_contents, guard_contents, guard_p12_iterations, kdf_iterations_too_high,
}
use filemagic_backend.CertGuard.Sites.{KdfSite}
use filemagic_backend.CertGuard.Exact.{guard_p12_iterations-exact}

-- A decoder that reads each file as one encrypted content of `n` rounds.
abbrev decoder : ℕ → Asn1
decoder n = record {
  pfx_of = λ b. some (record { auth_safe = b; mac_iterations = 2048 });
  raw_of = λ b. some b;
  contents_of =
      λ b. some (record { content_type = oid_encrypted_data_content_type; content = b } ∷ []);
  encryption_of = λ b. some (record { algorithm = []; parameters = b });
  octets_of = λ b. none;
  bags_of = λ b. none;
  key_of = λ b. none;
  pbes2_kdf_of = λ b. none;
  pbkdf2_of = λ b. none;
  pbe_of = λ b. some n;
}

abbrev bomb : Text
bomb = codes "0"

bomb_refused : guard_p12_iterations (decoder 5000001) bomb ≡ some kdf_iterations_too_high
unfolding guard_p12_iterations guard_contents over_in_contents over_in_content is_over
    algorithm_iterations eq_text
bomb_refused = refl

guard_p12_iterations-exact_example :
    (guard_p12_iterations (decoder 5000001) bomb ≡ none)
    ↔ ((n : ℕ) → KdfSite (decoder 5000001) bomb n → n ≤ max_kdf_iterations)
guard_p12_iterations-exact_example = guard_p12_iterations-exact (decoder 5000001) bomb
