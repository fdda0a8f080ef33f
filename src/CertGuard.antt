-- ===== src/CertGuard.antt =====
-- The guard against PKCS#12 files that ask for too many key derivation rounds
-- (internal/inspector/pkcs12_guard.go). `asn1.Unmarshal` is a parameter, one function for each type that
-- it fills. A count below 1 is 0, since the code treats all of these alike.
pub mod Sites
pub mod Exact
mod Examples
use filemagic_backend.Prelude.{
  ℕ, Bool, true, false, List, [], ◌∷◌, Option, none, some, ltb, if◌then◌else◌, Text, eq_text,
}

abbrev pub max_kdf_iterations : ℕ
max_kdf_iterations = 5000000

pub data GuardError : Type 0 where
  kdf_iterations_too_high : GuardError

-- `asn1.ObjectIdentifier`
abbrev pub Oid : Type 0
Oid = List ℕ

abbrev pub oid_data_content_type : Oid
oid_data_content_type = 1 ∷ 2 ∷ 840 ∷ 113549 ∷ 1 ∷ 7 ∷ 1 ∷ []

abbrev pub oid_encrypted_data_content_type : Oid
oid_encrypted_data_content_type = 1 ∷ 2 ∷ 840 ∷ 113549 ∷ 1 ∷ 7 ∷ 6 ∷ []

abbrev pub oid_pkcs8_shrouded_key_bag : Oid
oid_pkcs8_shrouded_key_bag = 1 ∷ 2 ∷ 840 ∷ 113549 ∷ 1 ∷ 12 ∷ 10 ∷ 1 ∷ 2 ∷ []

abbrev pub oid_pbes2 : Oid
oid_pbes2 = 1 ∷ 2 ∷ 840 ∷ 113549 ∷ 1 ∷ 5 ∷ 13 ∷ []

-- `pkix.AlgorithmIdentifier`, with the bytes of its parameters
pub record AlgorithmIdentifier : Type 0 where
  algorithm : Oid
  parameters : Text

-- The type of a content, and its bytes.
pub record P12ContentInfo : Type 0 where
  content_type : Oid
  content : Text

-- The bytes of the authenticated safe, and the rounds of the MAC.
pub record P12PfxPdu : Type 0 where
  auth_safe : Text
  mac_iterations : ℕ

pub record P12SafeBag : Type 0 where
  id : Oid
  value : Text

-- `asn1.Unmarshal` for the types of the code, with the fields that the code reads.
pub record Asn1 : Type 0 where
  pfx_of : Text → Option P12PfxPdu
  raw_of : Text → Option Text
  contents_of : Text → Option (List P12ContentInfo)
  encryption_of : Text → Option AlgorithmIdentifier
  octets_of : Text → Option Text
  bags_of : Text → Option (List P12SafeBag)
  key_of : Text → Option AlgorithmIdentifier
  pbes2_kdf_of : Text → Option AlgorithmIdentifier
  pbkdf2_of : Text → Option ℕ
  pbe_of : Text → Option ℕ

module _ (asn : Asn1) where
  unfoldable pub algorithm_iterations : AlgorithmIdentifier → ℕ
  algorithm_iterations algo =
      if eq_text algo.algorithm oid_pbes2
      then elim (asn.pbes2_kdf_of algo.parameters) [
        | none ↦ 0
        | some kdf ↦ elim (asn.pbkdf2_of kdf.parameters) [ none ↦ 0 | some n ↦ n ]
      ]
      else elim (asn.pbe_of algo.parameters) [ none ↦ 0 | some n ↦ n ]

  unfoldable pub is_over : AlgorithmIdentifier → Bool
  is_over algo = ltb max_kdf_iterations (algorithm_iterations algo)

  -- The loop over the bags: true when it returns the error.
  unfoldable pub over_in_bags : List P12SafeBag → Bool
  over_in_bags [] = false
  over_in_bags (bag ∷ bags) =
      let rest = over_in_bags bags in
      if eq_text bag.id oid_pkcs8_shrouded_key_bag
      then elim (asn.key_of bag.value) [
        | none ↦ rest
        | some algo ↦ if is_over algo then true else rest
      ]
      else rest

  -- The body of the loop over the contents: true when it returns the error.
  unfoldable pub over_in_content : P12ContentInfo → Bool
  over_in_content ci =
      if eq_text ci.content_type oid_encrypted_data_content_type
      then elim (asn.encryption_of ci.content) [ none ↦ false | some algo ↦ is_over algo ]
      else if eq_text ci.content_type oid_data_content_type
      then elim (asn.octets_of ci.content) [
        | none ↦ false
        | some octets ↦ elim (asn.bags_of octets) [ none ↦ false | some bags ↦ over_in_bags bags ]
      ]
      else false

  unfoldable pub over_in_contents : List P12ContentInfo → Bool
  over_in_contents [] = false
  over_in_contents (ci ∷ contents) =
      let rest = over_in_contents contents in if over_in_content ci then true else rest

  unfoldable pub guard_contents : Text → Option GuardError
  guard_contents auth_safe = elim (asn.raw_of auth_safe) [
    | none ↦ none
    | some inner ↦ elim (asn.contents_of inner) [
      | none ↦ none
      | some contents ↦ if over_in_contents contents then some kdf_iterations_too_high else none
    ]
  ]

  unfoldable pub guard_p12_iterations : Text → Option GuardError
  guard_p12_iterations bytes = elim (asn.pfx_of bytes) [
    | none ↦ none
    | some pfx ↦
        if ltb max_kdf_iterations pfx.mac_iterations
        then some kdf_iterations_too_high
        else guard_contents pfx.auth_safe
  ]
