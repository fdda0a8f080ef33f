-- ===== src/Converter/Pdf/Attempts.antt =====
-- The attempts to compress a PDF to a size (internal/converter/pdf_compress.go).
use filemagic_backend.Prelude.{ℕ, ◌≤◌, arith, length, All}
use filemagic_backend.Float.{Integer, clamp_int}
use filemagic_backend.Converter.Pdf.{Attempt, attempts_from, used_dpi}

-- A resolution within the limits.
abbrev pub Moderate : Attempt → Type 0
Moderate a = (36 ≤ used_dpi a.dpi) × (used_dpi a.dpi ≤ 300)

clamp_int-bounds : (i : Integer) → (36 ≤ clamp_int 36 300 i) × (clamp_int 36 300 i ≤ 300)
unfolding clamp_int
clamp_int-bounds i = (ground arith, ground arith)

attempts_from-bounds :
    (start : ℕ)
    → 36 ≤ start
    → start ≤ 300
    → (1 ≤ length (attempts_from start))
      × (length (attempts_from start) ≤ 4)
      × All Moderate (attempts_from start)
unfolding attempts_from
attempts_from-bounds start low high = ground arith

-- Whatever the estimate is, the search for a size makes one to four attempts, each at a resolution of 36
-- to 300.
pub attempts_from-clamp_int :
    (estimate : Integer)
    → (1 ≤ length (attempts_from (clamp_int 36 300 estimate)))
      × (length (attempts_from (clamp_int 36 300 estimate)) ≤ 4)
      × All Moderate (attempts_from (clamp_int 36 300 estimate))
attempts_from-clamp_int estimate =
    let (low, high) = clamp_int-bounds estimate in
    attempts_from-bounds (clamp_int 36 300 estimate) low high
