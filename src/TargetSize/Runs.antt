-- ===== src/TargetSize/Runs.antt =====
-- How often a compression to a target size runs the image tool, and with which qualities
-- (internal/converter/image_compress.go).
use filemagic_backend.Prelude.{
  ℕ, zero, suc, ◌+◌, ◌≤◌, ◌≡◌, refl, ◌⊎◌, inl, inr, Bool, true, false, ◌&&◌, ◌||◌, [], some, arith,
  length, ltb, leb, ◌==◌, if◌then◌else◌, All, if_not, if_bad, if_each,
}
use filemagic_backend.TargetSize.{
  ToolEnd, Command, jpegsave, resize, Workshop, Verdict, stored, unset, Search, Tools,
  raise_quality, lower_quality, scale_down, reduce_resolution, finish, is_repeated, refine, clamp,
  jpeg_target_size, png_target_size, Task, is_jpeg, compress_to_target_size, min_q, max_q,
}
use filemagic_backend.TargetSize.Reports.{with_tool_each, after}

-- A quality that the code may ask for: 10 to 95.
unfoldable pub is_allowed : Command → Bool
is_allowed (jpegsave q) = leb min_q q && leb q max_q
is_allowed resize = true

-- At most `n` commands, all of them allowed.
abbrev pub IsBounded : ℕ → Workshop × Verdict → Type 0
IsBounded n (w, v) = (length w.log ≤ n) × All (λ c. is_allowed c ≡ true) w.log

abbrev IsLogged : ℕ → Workshop → Type 0
IsLogged n w = (length w.log ≤ n) × All (λ c. is_allowed c ≡ true) w.log

IsBounded-weaker : (m n : ℕ) (x : Workshop × Verdict) → m ≤ n → IsBounded m x → IsBounded n x
IsBounded-weaker m n (w, v) le (few, fine) = (omega arith, fine)

module _ (target : ℕ) (tools : Tools) where
  scale_down-IsBounded :
      (run : ℕ → tools.Scale → ToolEnd) (smaller : tools.Scale → ℕ → tools.Scale)
      (at_end : Workshop → Verdict) (n : ℕ) (scale : tools.Scale) (k : ℕ) (w : Workshop)
      → IsLogged k w
      → IsBounded (k + n) (scale_down tools target run smaller at_end n scale w)
  unfolding scale_down is_allowed
  scale_down-IsBounded run smaller at_end zero scale k w (few, fine) = (omega arith, fine)
  scale_down-IsBounded run smaller at_end (suc n) scale k w (few, fine) =
      with_tool_each (IsBounded (k + suc n)) resize (run (length w.log) scale) w _
        (λ f. (omega arith, (refl, fine)))
        (λ size.
          let w1 = after resize size w in
          if_bad (IsBounded (k + suc n)) (leb size target || n == 0) (w1, stored size) _
            (omega arith, (refl, fine))
            (λ over.
              let (few1, fine1) =
                scale_down-IsBounded run smaller at_end n (smaller scale size) (suc k) w1
                  (omega arith, (refl, fine)) in
              (omega arith, fine1)))

  reduce_resolution-IsBounded :
      (k : ℕ) (w : Workshop) → IsLogged k w → IsBounded (k + 4) (reduce_resolution tools target w)
  unfolding reduce_resolution is_allowed
  reduce_resolution-IsBounded k w (few, fine) =
      with_tool_each (IsBounded (k + 4)) (jpegsave min_q) (tools.save (length w.log) min_q) w _
        (λ f. (omega arith, (refl, fine)))
        (λ size.
          let w1 = after (jpegsave min_q) size w in
          if_bad (IsBounded (k + 4)) (leb size target) (w1, stored size) _
            (omega arith, (refl, fine))
            (λ over.
              let (few1, fine1) =
                scale_down-IsBounded tools.resize_jpeg tools.smaller_jpeg (λ w2. stored w2.output) 3
                  (tools.jpeg_scale size) (suc k) w1 (omega arith, (refl, fine)) in
              (omega arith, fine1)))

  -- The qualities of the search.
  record IsSound (s : Search) : Type 0 where
    now : (min_q ≤ s.quality) × (s.quality ≤ max_q)
    best : (s.best_quality ≡ 0) ⊎ ((min_q ≤ s.best_quality) × (s.best_quality ≤ max_q))

  finish-IsBounded :
      (k : ℕ) (s : Search) (w : Workshop)
      → IsSound s
      → IsLogged k w
      → IsBounded (k + 4) (finish tools target s w)
  unfolding finish is_allowed
  finish-IsBounded k s w sound (few, fine) =
      let keeps : (s.best_quality == 0) ≡ false → is_allowed (jpegsave s.best_quality) ≡ true =
        λ e. ground (arith, sound.best) in
      if_each (IsBounded (k + 4)) (s.best_quality == 0) (reduce_resolution tools target w) _
        (λ unfound. reduce_resolution-IsBounded k w (few, fine))
        (λ found.
          if_bad (IsBounded (k + 4)) (s.best_size == 0) _ (w, stored s.best_size)
            (with_tool_each (IsBounded (k + 4)) (jpegsave s.best_quality)
              (tools.save (length w.log) s.best_quality) w _
              (λ f. (omega arith, (keeps found, fine)))
              (λ size. (omega arith, (keeps found, fine))))
            (λ some_size. (omega arith, fine)))

  raised_in_range :
      (q size : ℕ)
      → min_q ≤ q
      → (min_q ≤ raise_quality tools target q size) × (raise_quality tools target q size ≤ max_q)
  unfolding raise_quality
  raised_in_range q size low = ground arith

  lowered_in_range :
      (q size : ℕ)
      → q ≤ max_q
      → (min_q ≤ lower_quality tools target q size) × (lower_quality tools target q size ≤ max_q)
  unfolding lower_quality
  lowered_in_range q size high = ground arith

  refine-IsBounded :
      (n k : ℕ) (s : Search) (w : Workshop)
      → IsSound s
      → IsLogged k w
      → IsBounded (k + n + 4) (refine tools target n s w)
  unfolding refine is_allowed
  refine-IsBounded zero k s w sound (few, fine) =
      let (few1, fine1) = finish-IsBounded k s w sound (few, fine) in (omega arith, fine1)
  refine-IsBounded (suc n) k s w sound (few, fine) =
      let all = k + suc n + 4 in
      let allowed : is_allowed (jpegsave s.quality) ≡ true = ground (arith, sound.now) in
      if_bad (IsBounded all) (is_repeated tools target s) (finish tools target s w) _
        (IsBounded-weaker (k + 4) all (finish tools target s w) (omega arith)
          (finish-IsBounded k s w sound (few, fine)))
        (λ new.
          with_tool_each (IsBounded all) (jpegsave s.quality) (tools.save (length w.log) s.quality)
            w _ (λ f. (omega arith, (allowed, fine)))
            (λ size.
              let w1 = after (jpegsave s.quality) size w in
              let tried = record s { last_quality = some s.quality } in
              let best = record tried { best_quality = s.quality; best_size = size } in
              let higher = record best { quality = raise_quality tools target s.quality size } in
              let lower = record tried { quality = lower_quality tools target s.quality size } in
              let under = leb size target in
              let s1 = if under then higher else lower in
              if_bad (IsBounded all) (under && (tools.is_near size || n == 0))
                (finish tools target best w1) (refine tools target n s1 w1)
                (IsBounded-weaker (suc k + 4) all (finish tools target best w1) (omega arith) (
                  finish-IsBounded (suc k) best w1
                    (record { now = sound.now; best = inr sound.now })
                    (omega arith, (allowed, fine))))
                (λ go.
                  IsBounded-weaker (suc k + n + 4) all (refine tools target n s1 w1) (omega arith) (
                    refine-IsBounded n (suc k) s1 w1
                      (if_bad IsSound under higher lower
                        (record {
                          now = raised_in_range s.quality size sound.now.0;
                          best = inr sound.now;
                        })
                        (λ over. record {
                          now = lowered_in_range s.quality size sound.now.1;
                          best = sound.best;
                        }))
                      (omega arith, (allowed, fine))))))

  clamped : (min_q ≤ clamp tools.first_quality) × (clamp tools.first_quality ≤ max_q)
  unfolding clamp
  clamped = ground arith

  -- A compression to a target size ends after at most eight runs of the image tool, whatever the runs
  -- and the floating-point numbers give, and every quality that it asks for is between 10 and 95.
  pub runs-IsBounded :
      (unicode_lower : ℕ → ℕ) (task : Task) (size : ℕ)
      → IsBounded 8 (
          compress_to_target_size unicode_lower tools task target
            (record { output = size; log = [] }))
  unfolding compress_to_target_size jpeg_target_size png_target_size
  runs-IsBounded unicode_lower task size =
      if_not (IsBounded 8) task.prepared _ _ (omega arith, tt)
        (λ a.
          if_not (IsBounded 8) task.dimensions_valid _ _ (omega arith, tt)
            (λ b.
              if_bad (IsBounded 8) (ltb 0 task.input_size && leb task.input_size target) _ _
                (if_not (IsBounded 8) task.copies _ _ (omega arith, tt) (λ c. (omega arith, tt)))
                (λ large.
                  if_bad (IsBounded 8) (is_jpeg unicode_lower task.original_name) _ _
                    (refine-IsBounded 4 0 _ _ (record { now = clamped; best = inl refl })
                      (omega arith, tt))
                    (λ png.
                      IsBounded-weaker 3 8
                        (scale_down tools target tools.resize_png tools.smaller_png (λ w1. unset) 3
                          tools.png_scale (record { output = size; log = [] }))
                        (omega arith)
                        (scale_down-IsBounded tools.resize_png tools.smaller_png (λ w1. unset) 3
                          tools.png_scale 0 _ (omega arith, tt))))))
