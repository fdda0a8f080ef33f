-- ===== src/CertGuard/Sites.antt =====
-- The key derivations that a PKCS#12 file shows before it is decrypted
-- (internal/inspector/pkcs12_guard.go).
use filemagic_backend.Prelude.{
  ℕ, zero, suc, ◌≤◌, ◌≡◌, true, false, List, [], ◌∷◌, none, some, arith, ltb, get_elem?, eq_text,
  Text,
}
use filemagic_backend.CertGuard.{
  Asn1, AlgorithmIdentifier, P12ContentInfo, P12PfxPdu, P12SafeBag, oid_data_content_type,
  oid_encrypted_data_content_type, oid_pkcs8_shrouded_key_bag, max_kdf_iterations,
  algorithm_iterations, is_over, over_in_bags, over_in_content, over_in_contents, guard_contents,
  guard_p12_iterations,
}

-- The algorithms of a content: its own when it is encrypted, and those of the shrouded keys in its bags.
pub data ContentSite (asn : Asn1) (ci : P12ContentInfo) : AlgorithmIdentifier → Type 0 where
  encrypted :
      (algo : AlgorithmIdentifier)
      → eq_text ci.content_type oid_encrypted_data_content_type ≡ true
      → asn.encryption_of ci.content ≡ some algo
      → ContentSite asn ci algo
  shrouded :
      (octets : Text) (bags : List P12SafeBag) (i : ℕ) (bag : P12SafeBag)
      (algo : AlgorithmIdentifier)
      → eq_text ci.content_type oid_data_content_type ≡ true
      → eq_text ci.content_type oid_encrypted_data_content_type ≡ false
      → asn.octets_of ci.content ≡ some octets
      → asn.bags_of octets ≡ some bags
      → get_elem? bags i ≡ some bag
      → eq_text bag.id oid_pkcs8_shrouded_key_bag ≡ true
      → asn.key_of bag.value ≡ some algo
      → ContentSite asn ci algo

-- The counts that the decoder will be asked for: the MAC's, and those of the contents.
pub data KdfSite (asn : Asn1) (bytes : Text) : ℕ → Type 0 where
  mac : (pfx : P12PfxPdu) → asn.pfx_of bytes ≡ some pfx → KdfSite asn bytes pfx.mac_iterations
  pbe :
      (pfx : P12PfxPdu) (inner : Text) (contents : List P12ContentInfo) (i : ℕ)
      (ci : P12ContentInfo) (algo : AlgorithmIdentifier)
      → asn.pfx_of bytes ≡ some pfx
      → asn.raw_of pfx.auth_safe ≡ some inner
      → asn.contents_of inner ≡ some contents
      → get_elem? contents i ≡ some ci
      → ContentSite asn ci algo
      → KdfSite asn bytes (algorithm_iterations asn algo)

module _ (asn : Asn1) where
  over_in_bags-none :
      (bags : List P12SafeBag) (i : ℕ) (bag : P12SafeBag) (algo : AlgorithmIdentifier)
      → over_in_bags asn bags ≡ false
      → get_elem? bags i ≡ some bag
      → eq_text bag.id oid_pkcs8_shrouded_key_bag ≡ true
      → asn.key_of bag.value ≡ some algo
      → is_over asn algo ≡ false
  unfolding over_in_bags
  over_in_bags-none [] i bag algo e h s k = ground arith
  over_in_bags-none (b ∷ bags) zero bag algo e h s k = ground arith
  over_in_bags-none (b ∷ bags) (suc i) bag algo e h s k =
      over_in_bags-none bags i bag algo (ground arith) h s k

  over_in_content-none :
      (ci : P12ContentInfo) (algo : AlgorithmIdentifier)
      → over_in_content asn ci ≡ false
      → ContentSite asn ci algo
      → is_over asn algo ≡ false
  unfolding over_in_content
  over_in_content-none ci _ e (encrypted algo t h) = ground arith
  over_in_content-none ci _ e (shrouded octets bags i bag algo t t' o b h s k) =
      over_in_bags-none bags i bag algo (ground arith) h s k

  over_in_contents-none :
      (contents : List P12ContentInfo) (i : ℕ) (ci : P12ContentInfo)
      → over_in_contents asn contents ≡ false
      → get_elem? contents i ≡ some ci
      → over_in_content asn ci ≡ false
  unfolding over_in_contents
  over_in_contents-none [] i ci e h = ground arith
  over_in_contents-none (c ∷ contents) zero ci e h = ground arith
  over_in_contents-none (c ∷ contents) (suc i) ci e h =
      over_in_contents-none contents i ci (ground arith) h

  guard_contents-none :
      (auth_safe inner : Text) (contents : List P12ContentInfo)
      → guard_contents asn auth_safe ≡ none
      → asn.raw_of auth_safe ≡ some inner
      → asn.contents_of inner ≡ some contents
      → over_in_contents asn contents ≡ false
  unfolding guard_contents
  guard_contents-none auth_safe inner contents e r c = ground arith

  guard_p12_iterations-none :
      (bytes : Text) (pfx : P12PfxPdu)
      → guard_p12_iterations asn bytes ≡ none
      → asn.pfx_of bytes ≡ some pfx
      → (ltb max_kdf_iterations pfx.mac_iterations ≡ false)
        × (guard_contents asn pfx.auth_safe ≡ none)
  unfolding guard_p12_iterations
  guard_p12_iterations-none bytes pfx e h = ground arith

  is_over-none :
      (algo : AlgorithmIdentifier)
      → is_over asn algo ≡ false
      → algorithm_iterations asn algo ≤ max_kdf_iterations
  unfolding is_over
  is_over-none algo e = ground arith

  pub guard_p12_iterations-bounded :
      (bytes : Text) (n : ℕ)
      → guard_p12_iterations asn bytes ≡ none
      → KdfSite asn bytes n
      → n ≤ max_kdf_iterations
  guard_p12_iterations-bounded bytes _ e (mac pfx h) =
      let (small, rest) = guard_p12_iterations-none bytes pfx e h in ground arith
  guard_p12_iterations-bounded bytes _ e (pbe pfx inner contents i ci algo h r c g site) =
      let (small, rest) = guard_p12_iterations-none bytes pfx e h in
      is_over-none algo (
        over_in_content-none ci algo
          (over_in_contents-none contents i ci
            (guard_contents-none pfx.auth_safe inner contents rest r c) g)
          site)
