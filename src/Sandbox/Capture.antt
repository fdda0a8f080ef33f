-- ===== src/Sandbox/Capture.antt =====
-- The bounded capture of a tool's output (`limitedBuffer` in internal/converter/nsjail.go).
use native.Mathlib.Nat.{sub-zero, suc-sub-suc}
use mathlib.Core.List.{append-nil, append_assoc, flatten}
use filemagic_backend.Prelude.{
  ℕ, zero, suc, ◌-◌, ◌≤◌, ◌≡◌, refl, sym, ap, true, List, [], ◌∷◌, ◌++◌, arith, length, take, ltb,
  Text, All, length-append, length-take, non_empty, subst,
}
use filemagic_backend.Sandbox.{LimitedBuffer, new_limited_buffer, write, write_all}

take_none : (n : ℕ) (xs : Text) → n ≡ 0 → take n xs ≡ []
take_none zero xs h = refl
take_none (suc n) xs h = absurd (omega arith)

take-append : (n : ℕ) (xs ys : Text) → take n (xs ++ ys) ≡ take n xs ++ take (n - length xs) ys
take-append n [] ys = rw (sub-zero n) (take_nil n)
  where
    take_nil : (k : ℕ) → take k ys ≡ take {A = ℕ} k [] ++ take k ys
    take_nil zero = refl
    take_nil (suc k) = refl
take-append zero (x ∷ xs) ys = sym (take_none (zero - length (x ∷ xs)) ys (omega arith))
take-append (suc n) (x ∷ xs) ys = rw (suc-sub-suc n (length xs)) (ap (◌∷◌ x) (take-append n xs ys))

pub take_all : (n : ℕ) (xs : Text) → length xs ≤ n → take n xs ≡ xs
take_all zero [] h = refl
take_all (suc n) [] h = refl
take_all zero (x ∷ xs) h = absurd (omega arith)
take_all (suc n) (x ∷ xs) h = ap (◌∷◌ x) (take_all n xs (omega arith))

abbrev pub AreNonEmpty : List Text → Type 0
AreNonEmpty = All (λ p. non_empty p ≡ true)

-- What the buffer holds after a history of bytes.
record Holds (limit : ℕ) (bytes : Text) (b : LimitedBuffer) : Type 0 where
  held : b.buf ≡ take limit bytes
  same_limit : b.limit ≡ limit
  flagged : b.truncated ≡ ltb limit (length bytes)

write-Holds :
    (limit : ℕ) (bytes p : Text) (b : LimitedBuffer)
    → non_empty p ≡ true
    → Holds limit bytes b
    → Holds limit (bytes ++ p) (write b p).0
unfolding write
write-Holds limit bytes [] b n h = cc
write-Holds limit bytes (x ∷ q) b n h =
    let p = x ∷ q in
    ground (
      arith,
      take-append limit bytes p,
      take_none (limit - length bytes) p,
      take_all (limit - length bytes) p,
      take_all limit bytes,
      length-take limit bytes,
      length-append bytes p,
      append-nil (take limit bytes),
    )

write_all-Holds :
    (limit : ℕ) (bytes : Text) (b : LimitedBuffer) (ps : List Text)
    → AreNonEmpty ps
    → Holds limit bytes b
    → Holds limit (bytes ++ flatten ps) (write_all b ps)
unfolding write_all flatten
write_all-Holds limit bytes b [] n h = subst (λ x. Holds limit x b) (sym (append-nil bytes)) h
write_all-Holds limit bytes b (p ∷ ps) n h =
    subst (λ x. Holds limit x (write_all (write b p).0 ps)) (append_assoc bytes p (flatten ps))
      (write_all-Holds limit (bytes ++ p) (write b p).0 ps n.1 (write-Holds limit bytes p b n.0 h))

start : (limit : ℕ) → Holds limit [] (new_limited_buffer limit)
unfolding new_limited_buffer
start zero = record { held = refl; same_limit = refl; flagged = refl }
start (suc n) = record { held = refl; same_limit = refl; flagged = ground arith }

-- After any writes of non-empty pieces into a new buffer, it holds the first `limit` bytes of all that
-- was written, and its flag says whether more than `limit` bytes came.
pub capture_exact :
    (limit : ℕ) (ps : List Text)
    → AreNonEmpty ps
    → ((write_all (new_limited_buffer limit) ps).buf ≡ take limit (flatten ps))
      × ((write_all (new_limited_buffer limit) ps).truncated ≡ ltb limit (length (flatten ps)))
unfolding new_limited_buffer
capture_exact limit ps n =
    let h = write_all-Holds limit [] (new_limited_buffer limit) ps n (start limit) in
    (h.held, h.flagged)
