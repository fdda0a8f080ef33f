-- ===== src/Upload/Several/Names.antt =====
-- The search for a free name in an archive upload (`handleArchiveConversion` in
-- internal/api/handlers/convert.go).
use filemagic_backend.Prelude.{
  ℕ, zero, suc, ◌+◌, ◌≤◌, ◌<◌, ◌≡◌, refl, ◌≢◌, ◌⊎◌, inl, inr, true, false, List, none, some, arith,
  length, ltb, if◌then◌else◌, Text, Bool-cases, ◌==◌,
}
use filemagic_backend.Validator.Names.{one_of}
use filemagic_backend.Sanitize.{byte_length}
use filemagic_backend.Upload.Several.{
  StatEnd, present, missing, stat_failed, suffixed, find_free, free_name,
}
use filemagic_backend.Upload.Several.Suffixes.{unused, suffixed_length, suffixed_differ}

-- A directory that takes names of at most 255 bytes: `os.Stat` fails on a longer one, and otherwise
-- says whether the name is there.
abbrev pub HonestStat : (List Text → Text → StatEnd) → Type 0
HonestStat stat =
    (names : List Text) (name : Text)
    → stat names name ≡ (
        if ltb 255 (byte_length name)
        then stat_failed
        else if one_of name names
        then present
        else missing)

StatEnd-cases : (r : StatEnd) → (r ≡ missing) ⊎ (r ≢ missing)
StatEnd-cases missing = inl refl
StatEnd-cases present = inr (ground arith)
StatEnd-cases stat_failed = inr (ground arith)

module _ (stat : List Text → Text → StatEnd) (print_decimal : ℕ → Text) (unicode_upper : ℕ → ℕ)
    (honest : HonestStat stat) where
  -- A try that `os.Stat` finds missing ends the loop.
  find_free_reaches :
      (fuel i k : ℕ) (names : List Text) (name : Text)
      → i ≤ k
      → k < i + fuel
      → ltb 255 (byte_length (suffixed print_decimal name k)) ≡ false
      → one_of (suffixed print_decimal name k) names ≡ false
      → (free : Text) × (find_free stat print_decimal unicode_upper fuel i names name ≡ some free)
  unfolding find_free
  find_free_reaches zero i k names name low high fits free = absurd (omega arith)
  find_free_reaches (suc fuel) i k names name low high fits free =
      elim (StatEnd-cases (stat names (suffixed print_decimal name i))) [
        | inl e ↦ (suffixed print_decimal name i, ground arith)
        | inr e ↦
            let found =
              find_free_reaches fuel (i + 1) k names name (later e) (omega arith) fits free in
            (found.0, ground (arith, found.1))
      ]
    where
      later : (stat names (suffixed print_decimal name i) ≢ missing) → i + 1 ≤ k
      later e = elim (Bool-cases (i == k)) [
        | inr d ↦ ground arith
        | inl d ↦ absurd (e (ground (arith, honest names (suffixed print_decimal name k))))
      ]

  find_free_fresh :
      (fuel i : ℕ) (names : List Text) (name free : Text)
      → find_free stat print_decimal unicode_upper fuel i names name ≡ some free
      → one_of free names ≡ false
  unfolding find_free
  find_free_fresh zero i names name free e = cc
  find_free_fresh (suc fuel) i names name free e =
      elim (StatEnd-cases (stat names (suffixed print_decimal name i))) [
        | inl m ↦ ground (arith, honest names (suffixed print_decimal name i))
        | inr m ↦ find_free_fresh fuel (i + 1) names name free (ground arith)
      ]

  -- A name of at most 255 bytes gives a name that is not in the directory.
  pub free_name_fresh :
      (fuel : ℕ) (names : List Text) (name free : Text)
      → byte_length name ≤ 255
      → free_name stat print_decimal unicode_upper fuel names name ≡ some free
      → one_of free names ≡ false
  unfolding free_name
  free_name_fresh fuel names name free short e =
      ground (arith, honest names name, find_free_fresh fuel 1 names name free)

  -- On a file system that takes names of up to 255 bytes and answers `os.Stat` truly, the search for
  -- a free name ends: if numbers print to different texts, and the names with the numbers up to one
  -- more than the directory has files are not too long, then that many turns are enough, and the
  -- name that they find is not in the directory.
  pub free_name_found :
      (names : List Text) (name : Text)
      → ((j k : ℕ) → print_decimal j ≡ print_decimal k → j ≡ k)
      → ((k : ℕ) → k ≤ length names + 1 → byte_length (suffixed print_decimal name k) ≤ 255)
      → byte_length name ≤ 255
      → (free : Text) × (free_name stat print_decimal unicode_upper (length names + 1) names name
          ≡ some free)
        × (one_of free names ≡ false)
  unfolding free_name
  free_name_found names name inj fits short =
      let (k, low, high, unused_k) =
        unused (suffixed print_decimal name) (length names + 1) 1 names
          (λ j k l. suffixed_differ print_decimal name j k (λ e. ground (arith, inj j k e)))
          (omega arith) in
      let (free, e) =
        find_free_reaches (length names + 1) 1 k names name low high (ground (arith, fits k))
          unused_k in
      elim (Bool-cases (one_of name names)) [
        | inr new ↦ (name, ground (arith, honest names name), new)
        | inl taken ↦ (
          free,
          ground (arith, honest names name),
          find_free_fresh (length names + 1) 1 names name free e,
        )
      ]

  find_free_stuck :
      (fuel i : ℕ) (names : List Text) (name : Text)
      → ((k : ℕ) → 255 < byte_length (suffixed print_decimal name k))
      → find_free stat print_decimal unicode_upper fuel i names name ≡ none
  unfolding find_free
  find_free_stuck zero i names name long = refl
  find_free_stuck (suc fuel) i names name long = ground (
    arith,
    long i,
    honest names (suffixed print_decimal name i),
    find_free_stuck fuel (i + 1) names name long,
  )

  -- On a file system that takes names of up to 255 bytes and answers `os.Stat` truly, and where
  -- numbers do not print to the empty text, the search for a free name never ends, whatever number
  -- of turns it is given, for a name of 254 or 255 bytes that is in the directory already: each name
  -- that it tries is too long for `os.Stat` to find it missing.
  pub free_name_stuck :
      (fuel : ℕ) (names : List Text) (name : Text)
      → ((k : ℕ) → 0 < byte_length (print_decimal k))
      → 254 ≤ byte_length name
      → byte_length name ≤ 255
      → one_of name names ≡ true
      → free_name stat print_decimal unicode_upper fuel names name ≡ none
  unfolding free_name
  free_name_stuck fuel names name prints long short taken = ground (
    arith,
    honest names name,
    find_free_stuck fuel 1 names name
        (λ k. omega (arith, prints k, suffixed_length print_decimal name k)),
  )
