-- ===== src/TargetSize/Reports.antt =====
-- The size that a job is given after a compression to a target size, and the size of its file
-- (internal/converter/image_compress.go).
use filemagic_backend.Prelude.{
  ℕ, zero, suc, ◌≤◌, ◌<◌, ◌≡◌, refl, ◌⊎◌, inl, inr, ◌&&◌, ◌||◌, ◌∷◌, some, arith, length, ltb, leb,
  ◌==◌, if◌then◌else◌, if_not, if_bad, if_each,
}
use filemagic_backend.TargetSize.{
  ToolEnd, run_failed, no_output, wrote, Command, jpegsave, resize, Workshop, Failure, tool_failed,
  output_missing, prepare_failed, invalid_dimensions, copy_failed, Verdict, failed, stored, unset,
  with_tool, Search, Tools, raise_quality, lower_quality, scale_down, reduce_resolution, finish,
  is_repeated, refine, jpeg_target_size, png_target_size, Task, is_jpeg, compress_to_target_size,
  min_q,
}

-- The workshop after a run that wrote a file.
abbrev pub after : Command → ℕ → Workshop → Workshop
after c size w = record { output = size; log = c ∷ w.log }

-- What holds of both ends of a run of the tool.
pub with_tool_each {κ} :
    (P : Workshop × Verdict → Type κ) (c : Command) (e : ToolEnd) (w : Workshop)
    (next : ℕ → Workshop → Workshop × Verdict)
    → ((f : Failure) → P (record w { log = c ∷ w.log }, failed f))
    → ((size : ℕ) → P (next size (after c size w)))
    → P (with_tool c e w next)
unfolding with_tool
with_tool_each P c run_failed w next p q = p tool_failed
with_tool_each P c no_output w next p q = p output_missing
with_tool_each P c (wrote size) w next p q = q size

module _ (target : ℕ) where
  -- A size that is stored is the file's, or it keeps to the target while the file does not.
  abbrev pub Tells : Workshop × Verdict → Type 0
  Tells (w, v) =
      (size : ℕ) → v ≡ stored size → (size ≡ w.output) ⊎ ((size ≤ target) × (target < w.output))

  failed-Tells : (w : Workshop) (f : Failure) → Tells (w, failed f)
  failed-Tells w f size e = absurd (ground arith)

  stored-Tells : (w : Workshop) (size : ℕ) → size ≡ w.output → Tells (w, stored size)
  stored-Tells w size same size' e = inl (ground arith)

  -- The best size so far is the file's, or the file is over the target.
  abbrev IsTracked : Search → Workshop → Type 0
  IsTracked s w =
      (s.best_quality ≡ 0)
      ⊎ ((s.best_size ≤ target) × ((s.best_size ≡ w.output) ⊎ (target < w.output)))

  module _ (tools : Tools) where
    scale_down-Tells :
        (run : ℕ → tools.Scale → ToolEnd) (smaller : tools.Scale → ℕ → tools.Scale)
        (at_end : Workshop → Verdict)
        → ((w : Workshop) → Tells (w, at_end w))
        → (n : ℕ) (scale : tools.Scale) (w : Workshop)
        → Tells (scale_down tools target run smaller at_end n scale w)
    unfolding scale_down
    scale_down-Tells run smaller at_end last zero scale w = last w
    scale_down-Tells run smaller at_end last (suc n) scale w =
        with_tool_each Tells resize (run (length w.log) scale) w _
          (failed-Tells (record w { log = resize ∷ w.log }))
          (λ size.
            let w1 = after resize size w in
            if_bad Tells (leb size target || n == 0) (w1, stored size)
              (scale_down tools target run smaller at_end n (smaller scale size) w1)
              (stored-Tells w1 size refl)
              (λ over. scale_down-Tells run smaller at_end last n (smaller scale size) w1))

    reduce_resolution-Tells : (w : Workshop) → Tells (reduce_resolution tools target w)
    unfolding reduce_resolution
    reduce_resolution-Tells w =
        with_tool_each Tells (jpegsave min_q) (tools.save (length w.log) min_q) w _
          (failed-Tells (record w { log = jpegsave min_q ∷ w.log }))
          (λ size.
            let w1 = after (jpegsave min_q) size w in
            if_bad Tells (leb size target) (w1, stored size) _ (stored-Tells w1 size refl)
              (λ over.
                scale_down-Tells tools.resize_jpeg tools.smaller_jpeg (λ w2. stored w2.output)
                  (λ w2. stored-Tells w2 w2.output refl) 3 (tools.jpeg_scale size) w1))

    finish-Tells : (s : Search) (w : Workshop) → IsTracked s w → Tells (finish tools target s w)
    unfolding finish
    finish-Tells s w tracked =
        if_bad Tells (s.best_quality == 0) (reduce_resolution tools target w) _
          (reduce_resolution-Tells w)
          (λ found.
            if_bad Tells (s.best_size == 0) _ (w, stored s.best_size)
              (with_tool_each Tells (jpegsave s.best_quality)
                (tools.save (length w.log) s.best_quality) w _
                (failed-Tells (record w { log = jpegsave s.best_quality ∷ w.log }))
                (λ size. stored-Tells (after (jpegsave s.best_quality) size w) size refl))
              (λ some_size size e. ground arith))

    IsTracked-over :
        (s : Search) (w w1 : Workshop) → IsTracked s w → target < w1.output → IsTracked s w1
    IsTracked-over s w w1 (inl nothing) high = inl nothing
    IsTracked-over s w w1 (inr (low, e)) high = inr (low, inr high)

    refine-Tells :
        (n : ℕ) (s : Search) (w : Workshop) → IsTracked s w → Tells (refine tools target n s w)
    unfolding refine
    refine-Tells zero s w tracked = finish-Tells s w tracked
    refine-Tells (suc n) s w tracked =
        if_bad Tells (is_repeated tools target s) (finish tools target s w) _
          (finish-Tells s w tracked)
          (λ new.
            with_tool_each Tells (jpegsave s.quality) (tools.save (length w.log) s.quality) w _
              (failed-Tells (record w { log = jpegsave s.quality ∷ w.log }))
              (λ size.
                let w1 = after (jpegsave s.quality) size w in
                let under = leb size target in
                let tried = record s { last_quality = some s.quality } in
                let best = record tried { best_quality = s.quality; best_size = size } in
                let s1 =
                  if under
                  then record best { quality = raise_quality tools target s.quality size }
                  else record tried { quality = lower_quality tools target s.quality size } in
                if_each Tells (under && (tools.is_near size || n == 0))
                  (finish tools target best w1) (refine tools target n s1 w1)
                  (λ stop. finish-Tells best w1 (inr (ground arith, inl refl)))
                  (λ go. refine-Tells n s1 w1 (
                    if_each (λ (s2 : Search). IsTracked s2 w1) under
                      (record best { quality = raise_quality tools target s.quality size })
                      (record tried { quality = lower_quality tools target s.quality size })
                      (λ low. inr (ground arith, inl refl))
                      (λ high. IsTracked-over s w w1 tracked (ground arith))))))

  -- If the compression to a target size ends well, then the size that the job is given is the size
  -- of the file that is left behind; or it is within the target, while the file that is left behind
  -- is over it.
  pub stored_size :
      (unicode_lower : ℕ → ℕ) (tools : Tools) (task : Task) (w : Workshop)
      → Tells (compress_to_target_size unicode_lower tools task target w)
  unfolding compress_to_target_size jpeg_target_size png_target_size
  stored_size unicode_lower tools task w =
      if_not Tells task.prepared (w, failed prepare_failed) _ (failed-Tells w prepare_failed)
        (λ a.
          if_not Tells task.dimensions_valid (w, failed invalid_dimensions) _
            (failed-Tells w invalid_dimensions)
            (λ b.
              if_each Tells (ltb 0 task.input_size && leb task.input_size target) _ _
                (λ small.
                  if_not Tells task.copies (w, failed copy_failed) _ (failed-Tells w copy_failed)
                    (λ c.
                      stored-Tells (record w { output = task.input_size }) task.input_size refl))
                (λ large.
                  if_each Tells (is_jpeg unicode_lower task.original_name) _ _
                    (λ jpeg. refine-Tells tools 4 _ w (inl refl))
                    (λ png.
                      scale_down-Tells tools tools.resize_png tools.smaller_png (λ w1. unset)
                        (λ w1 size e. absurd (ground arith)) 3 tools.png_scale w))))
