-- ===== src/CertGuard/Exact.antt =====
-- That the guard finds every key derivation over the limit, and refuses nothing else
-- (internal/inspector/pkcs12_guard.go).
use filemagic_backend.Prelude.{
  Bool-cases, Option-cases, inl, inr, refl, ◌↔◌, ℕ, suc, ◌≤◌, ◌≡◌, true, false, List, [], ◌∷◌, none,
  some, arith, get_elem?, eq_text, Text,
}
use filemagic_backend.CertGuard.{
  Asn1, AlgorithmIdentifier, P12ContentInfo, P12SafeBag, oid_data_content_type,
  oid_encrypted_data_content_type, oid_pkcs8_shrouded_key_bag, max_kdf_iterations,
  algorithm_iterations, is_over, over_in_bags, over_in_content, over_in_contents, guard_contents,
  guard_p12_iterations,
}
use filemagic_backend.CertGuard.Sites.{
  ContentSite, encrypted, shrouded, KdfSite, mac, pbe, guard_p12_iterations-bounded,
}

module _ (asn : Asn1) where
  over_in_bags-clear :
      (bags : List P12SafeBag)
      → ((i : ℕ) (bag : P12SafeBag) (algo : AlgorithmIdentifier)
          → get_elem? bags i ≡ some bag
          → eq_text bag.id oid_pkcs8_shrouded_key_bag ≡ true
          → asn.key_of bag.value ≡ some algo
          → is_over asn algo ≡ false)
      → over_in_bags asn bags ≡ false
  unfolding over_in_bags
  over_in_bags-clear [] h = refl
  over_in_bags-clear (b ∷ bags) h =
      let rest = over_in_bags-clear bags (λ i. h (suc i)) in
      elim (Option-cases (asn.key_of b.value)) [
        | inl unread ↦ ground arith
        | inr (algo, k) ↦ ground (arith, h 0 b algo)
      ]

  over_in_content-clear :
      (ci : P12ContentInfo)
      → ((algo : AlgorithmIdentifier) → ContentSite asn ci algo → is_over asn algo ≡ false)
      → over_in_content asn ci ≡ false
  unfolding over_in_content
  over_in_content-clear ci h =
      elim (Bool-cases (eq_text ci.content_type oid_encrypted_data_content_type)) [
        | inl t ↦ elim (Option-cases (asn.encryption_of ci.content)) [
          | inl unread ↦ ground arith
          | inr (algo, k) ↦ let clear = h algo (encrypted algo t k) in ground arith
        ]
        | inr t ↦ elim (Bool-cases (eq_text ci.content_type oid_data_content_type)) [
          | inl d ↦ elim (Option-cases (asn.octets_of ci.content)) [
            | inl unread ↦ ground arith
            | inr (octets, o) ↦ elim (Option-cases (asn.bags_of octets)) [
              | inl unread ↦ ground arith
              | inr (bags, b) ↦
                  let clear =
                    over_in_bags-clear bags (λ i bag algo g s k.
                      h algo (shrouded octets bags i bag algo d t o b g s k)) in
                  ground arith
            ]
          ]
          | inr d ↦ ground arith
        ]
      ]

  over_in_contents-clear :
      (contents : List P12ContentInfo)
      → ((i : ℕ) (ci : P12ContentInfo)
          → get_elem? contents i ≡ some ci
          → over_in_content asn ci ≡ false)
      → over_in_contents asn contents ≡ false
  unfolding over_in_contents
  over_in_contents-clear [] h = refl
  over_in_contents-clear (c ∷ contents) h =
      ground (arith, h 0 c refl, over_in_contents-clear contents (λ i. h (suc i)))

  is_over-clear :
      (algo : AlgorithmIdentifier)
      → algorithm_iterations asn algo ≤ max_kdf_iterations
      → is_over asn algo ≡ false
  unfolding is_over
  is_over-clear algo h = ground arith

  guard_p12_iterations-clear :
      (bytes : Text)
      → ((n : ℕ) → KdfSite asn bytes n → n ≤ max_kdf_iterations)
      → guard_p12_iterations asn bytes ≡ none
  unfolding guard_p12_iterations guard_contents
  guard_p12_iterations-clear bytes h = elim (Option-cases (asn.pfx_of bytes)) [
    | inl unread ↦ ground arith
    | inr (pfx, p) ↦
        let small = h pfx.mac_iterations (mac pfx p) in
        elim (Option-cases (asn.raw_of pfx.auth_safe)) [
          | inl unread ↦ ground arith
          | inr (inner, r) ↦ elim (Option-cases (asn.contents_of inner)) [
            | inl unread ↦ ground arith
            | inr (contents, c) ↦
                let clear = over_in_contents-clear contents (λ i ci g.
                  over_in_content-clear ci (λ algo site. is_over-clear algo (
                    h (algorithm_iterations asn algo)
                      (pbe pfx inner contents i ci algo p r c g site)))) in
                ground arith
          ]
        ]
  ]

  -- A PKCS#12 file passes the guard exactly if no key derivation that it shows, of its MAC, of an
  -- encrypted content, or of a shrouded key in a plain content, asks for more than 5,000,000 rounds.
  pub guard_p12_iterations-exact :
      (bytes : Text)
      → (guard_p12_iterations asn bytes ≡ none)
        ↔ ((n : ℕ) → KdfSite asn bytes n → n ≤ max_kdf_iterations)
  guard_p12_iterations-exact bytes =
      (λ e n. guard_p12_iterations-bounded asn bytes n e, guard_p12_iterations-clear bytes)
