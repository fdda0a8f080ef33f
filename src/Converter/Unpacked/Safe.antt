-- ===== src/Converter/Unpacked/Safe.antt =====
-- The listing of an unpacked archive (`Convert` in internal/converter/decompress.go).
use filemagic_backend.Prelude.{
  ◌≤◌, ◌<◌, ◌≡◌, refl, ◌≢◌, true, false, List, [], ◌∷◌, some, arith, length, ◌==◌, Text, codes,
  has_prefix, All, Bool-cases, inl, inr, subst,
}
use filemagic_backend.Json.{Fields, str, field_value}
use filemagic_backend.Paths.{split_on}
use filemagic_backend.Queue.{max_output_size}
use filemagic_backend.Converter.Manifest.{Listing}
use filemagic_backend.Converter.Unpacked.{
  PathKind, link, directory, plain, unreadable, contains, goes_up,
}
use filemagic_backend.Converter.Gives.{Gives}

-- What a split of a path gives: its first part is a prefix, and the later ones follow a slash.
record Parts (s : Text) : Type 0 where
  first : Text
  later : List Text
  split : split_on b'/' s ≡ first ∷ later
  prefix : has_prefix s first ≡ true
  downward : contains s (codes "/..") ≡ false → All (λ part. part ≢ codes "..") later

not_parent :
    (s p : Text) → has_prefix s p ≡ true → has_prefix s (codes "..") ≡ false → p ≢ codes ".."
not_parent s p h up e = absurd (clash (subst (λ q. has_prefix s q ≡ true) e h) up)
  where
    clash : has_prefix s (codes "..") ≡ true → has_prefix s (codes "..") ≡ false → ⊥
    clash a b = ground arith

path_divided : (s : Text) → Parts s
unfolding split_on has_prefix contains
path_divided [] = record { first = []; later = []; split = refl; prefix = refl; downward = λ h. tt }
path_divided (c ∷ s) =
    let r = path_divided s in
    elim (Bool-cases (c == b'/')) [
      | inl slash ↦ record {
        first = [];
        later = r.first ∷ r.later;
        split = rw (r.split, slash) refl;
        prefix = refl;
        downward = λ h. (not_parent s r.first r.prefix (ground arith), r.downward (ground arith));
      }
      | inr other ↦ record {
        first = c ∷ r.first;
        later = r.later;
        split = rw (r.split, other) refl;
        prefix = ground (arith, r.prefix);
        downward = λ h. r.downward (ground arith);
      }
    ]

-- A name that the walk lets pass has no part that goes up.
pub goes_up-downward :
    (name : Text) → goes_up name ≡ false → All (λ part. part ≢ codes "..") (split_on b'/' name)
unfolding goes_up
goes_up-downward name h =
    let r = path_divided name in
    rw r.split (not_parent name r.first r.prefix (ground arith), r.downward (ground arith))

-- A file of the listing: its name stays below the directory.
pub record IsBelow (f : Fields) : Type 0 where
  pub name : Text
  pub named : field_value (codes "name") f ≡ some (str name)
  pub no_backslash : contains name (codes "\\") ≡ false
  pub downward : All (λ part. part ≢ codes "..") (split_on b'/' name)

pub record IsListing (l : Listing) : Type 0 where
  pub few : length l.files ≤ 100
  pub small : l.total ≤ max_output_size
  pub below : All IsBelow l.files

-- The sizes that the walk reports are far from the bound of an int64.
abbrev pub Plausible : Text × PathKind → Type 0
Plausible (path, link) = Unit
Plausible (path, directory) = Unit
Plausible (path, plain size) = size < 4611686018427387904
Plausible (path, unreadable e) = Unit
