-- ===== src/Validator/Order.antt =====
-- `DetectFileType` (internal/validator/validator.go) ranges over a Go map: the order in which
-- the keys come, and its answer.
use filemagic_backend.Prelude.{
  ◌≡◌, refl, sym, ap, ◌∙◌, ◌⊎◌, inl, inr, ◌↔◌, true, List, [], ◌∷◌, some, arith, Text, Bool-cases,
  Option-cases,
}
use filemagic_backend.Validator.{
  FileType, magic_bytes, accepts_any, detect, ReadResult, bytes_read, read_failed, detect_file_type,
}
use filemagic_backend.Validator.Unique.{accepted_unique}

abbrev pub Occurs : FileType → List FileType → Type 0
Occurs ft [] = ⊥
Occurs ft (x ∷ xs) = (x ≡ ft) ⊎ Occurs ft xs

-- Every key of the map is visited.
abbrev pub Covers : List FileType → Type 0
Covers order = (ft : FileType) → Occurs ft order

detect_sound :
    (order : List FileType) (h : Text) (ft : FileType)
    → detect order h ≡ some ft
    → accepts_any ft h (magic_bytes ft) ≡ true
unfolding detect
detect_sound [] h ft e = cc
detect_sound (x ∷ xs) h ft e = elim (Bool-cases (accepts_any x h (magic_bytes x))) [
  | inl hit ↦ ground (arith, detect_sound xs h ft)
  | inr miss ↦ detect_sound xs h ft (ground arith)
]

detect_complete :
    (order : List FileType) (h : Text) (ft : FileType)
    → Occurs ft order
    → accepts_any ft h (magic_bytes ft) ≡ true
    → detect order h ≡ some ft
unfolding detect
detect_complete [] h ft o a = absurd o
detect_complete (x ∷ xs) h ft o a = elim (Bool-cases (accepts_any x h (magic_bytes x))) [
  | inl hit ↦ rw hit (ap some (accepted_unique h x ft hit a))
  | inr miss ↦ ground (arith, detect_complete xs h ft)
]

-- Whatever the order in which the map is visited, a header is detected as a type exactly when it
-- passes that type's signature and structure tests.
pub detect_exact :
    (order : List FileType) (h : Text) (ft : FileType)
    → Covers order
    → (detect order h ≡ some ft) ↔ (accepts_any ft h (magic_bytes ft) ≡ true)
detect_exact order h ft c = (detect_sound order h ft, detect_complete order h ft (c ft))

detect_same : (o p : List FileType) (h : Text) → Covers o → Covers p → detect o h ≡ detect p h
detect_same o p h c d = elim (Option-cases (detect o h)) [
  | inr (ft, e) ↦ e ∙ sym (detect_complete p h ft (d ft) (detect_sound o h ft e))
  | inl e ↦ elim (Option-cases (detect p h)) [
    | inl f ↦ e ∙ sym f
    | inr (ft, f) ↦ detect_complete o h ft (c ft) (detect_sound p h ft f) ∙ sym f
  ]
]

-- Two orders that each visit every key of the map give the same answer on every result of the read,
-- read errors included.
pub order_independent :
    (o p : List FileType) (r : ReadResult)
    → Covers o
    → Covers p
    → detect_file_type o r ≡ detect_file_type p r
unfolding detect_file_type
order_independent o p (bytes_read h) c d = rw (detect_same o p h c d, detect_file_type)
order_independent o p (read_failed e) c d = refl
