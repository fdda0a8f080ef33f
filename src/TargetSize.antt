-- ===== src/TargetSize.antt =====
-- The compression of an image to a target size (internal/converter/image_compress.go:
-- compressToTargetSize, jpegTargetSize, pngTargetSize). Parameters: what the image tool leaves behind in
-- each run, and the arithmetic on floating-point numbers, by the values that it gives.
pub mod Reports
pub mod Runs
mod Examples
use filemagic_backend.Prelude.{
  ℕ, zero, suc, ◌+◌, ◌-◌, Bool, true, false, not, ◌&&◌, ◌||◌, List, [], ◌∷◌, Option, none, some,
  length, ltb, leb, ◌==◌, if◌then◌else◌, Text, codes, eq_text,
}
use filemagic_backend.Paths.{ext}
use filemagic_backend.Validator.Names.{to_lower}

abbrev pub min_q : ℕ
min_q = 10

abbrev pub max_q : ℕ
max_q = 95

-- What one run of the tool leaves behind: an error, no file, or a file of some size.
pub data ToolEnd : Type 0 where
  run_failed no_output : ToolEnd
  wrote : ℕ → ToolEnd

pub data Command : Type 0 where
  jpegsave : ℕ → Command
  resize : Command

-- The size of the output file, and the commands that ran, the last one first.
pub record Workshop : Type 0 where
  pub output : ℕ
  pub log : List Command

pub data Failure : Type 0 where
  tool_failed output_missing prepare_failed invalid_dimensions copy_failed : Failure

-- The error, or the size that the job is given; `unset` is a return without either.
pub data Verdict : Type 0 where
  failed : Failure → Verdict
  stored : ℕ → Verdict
  unset : Verdict

-- `runner.Run`, then `os.Stat`.
unfoldable pub with_tool :
    Command → ToolEnd → Workshop → (ℕ → Workshop → Workshop × Verdict) → Workshop × Verdict
with_tool c run_failed w next = (record w { log = c ∷ w.log }, failed tool_failed)
with_tool c no_output w next = (record w { log = c ∷ w.log }, failed output_missing)
with_tool c (wrote size) w next = next size (record { output = size; log = c ∷ w.log })

unfoldable pub clamp : ℕ → ℕ
clamp q = if ltb q min_q then min_q else if ltb max_q q then max_q else q

-- The variables of the loop of `jpegTargetSize`.
pub record Search : Type 0 where
  pub quality : ℕ
  pub last_quality : Option ℕ
  pub best_quality : ℕ
  pub best_size : ℕ

-- The tool, by the number of the run; then what the code computes in floating point: the next quality by
-- proportion, whether a size is within 10% of the target, the scale factors and their steps.
pub record Tools : Type 1 where
  pub Scale : Type 0
  pub save : ℕ → ℕ → ToolEnd
  pub resize_jpeg : ℕ → Scale → ToolEnd
  pub resize_png : ℕ → Scale → ToolEnd
  pub first_quality : ℕ
  pub proportional : ℕ → ℕ → ℕ
  pub is_near : ℕ → Bool
  pub jpeg_scale : ℕ → Scale
  pub png_scale : Scale
  pub smaller_jpeg : Scale → ℕ → Scale
  pub smaller_png : Scale → ℕ → Scale

module _ (tools : Tools) (target : ℕ) where
  unfoldable pub raise_quality : ℕ → ℕ → ℕ
  raise_quality q size =
      let p = tools.proportional q size in
      let new = if leb p q then q + 2 else p in if ltb max_q new then max_q else new

  unfoldable pub lower_quality : ℕ → ℕ → ℕ
  lower_quality q size =
      let p = tools.proportional q size in
      let new = if leb q p then q - 5 else p in if ltb new min_q then min_q else new

  -- One of the loops that scale down; the runs that are left, and what follows the last.
  unfoldable pub scale_down :
      (ℕ → tools.Scale → ToolEnd)
      → (tools.Scale → ℕ → tools.Scale)
      → (Workshop → Verdict)
      → ℕ
      → tools.Scale
      → Workshop
      → Workshop × Verdict
  scale_down run smaller at_end zero scale w = (w, at_end w)
  scale_down run smaller at_end (suc n) scale w =
      with_tool resize (run (length w.log) scale) w (λ size w1.
        let rest = scale_down run smaller at_end n (smaller scale size) w1 in
        if leb size target || n == 0 then (w1, stored size) else rest)

  -- What `jpegTargetSize` does when no quality reached the target.
  unfoldable pub reduce_resolution : Workshop → Workshop × Verdict
  reduce_resolution w = with_tool (jpegsave min_q) (tools.save (length w.log) min_q) w (λ size w1.
      if leb size target
      then (w1, stored size)
      else scale_down tools.resize_jpeg tools.smaller_jpeg (λ w2. stored w2.output) 3
          (tools.jpeg_scale size) w1)

  -- What follows its loop over the qualities.
  unfoldable pub finish : Search → Workshop → Workshop × Verdict
  finish s w =
      if s.best_quality == 0
      then reduce_resolution w
      else if s.best_size == 0
      then with_tool (jpegsave s.best_quality) (tools.save (length w.log) s.best_quality) w
          (λ size w1. (w1, stored size))
      else (w, stored s.best_size)

  unfoldable pub is_repeated : Search → Bool
  is_repeated s = elim s.last_quality [ none ↦ false | some q ↦ s.quality == q ]

  -- That loop, with the number of turns that are left.
  unfoldable pub refine : ℕ → Search → Workshop → Workshop × Verdict
  refine zero s w = finish s w
  refine (suc n) s w =
      if is_repeated s
      then finish s w
      else with_tool (jpegsave s.quality) (tools.save (length w.log) s.quality) w (λ size w1.
        let tried = record s { last_quality = some s.quality } in
        let best = record tried { best_quality = s.quality; best_size = size } in
        let under = leb size target in
        let s1 =
          if under
          then record best { quality = raise_quality s.quality size }
          else record tried { quality = lower_quality s.quality size } in
        let rest = refine n s1 w1 in
        if under && (tools.is_near size || n == 0) then finish best w1 else rest)

  unfoldable pub jpeg_target_size : Workshop → Workshop × Verdict
  jpeg_target_size w =
      refine 4
        (record {
          quality = clamp tools.first_quality;
          last_quality = none;
          best_quality = 0;
          best_size = 0;
        })
        w

  unfoldable pub png_target_size : Workshop → Workshop × Verdict
  png_target_size w =
      scale_down tools.resize_png tools.smaller_png (λ w1. unset) 3 tools.png_scale w

-- The job, with what `PrepareJobDir`, `ValidateImageDimensions` and `copyFile` answer; and the lower
-- case of runes outside ASCII.
pub record Task : Type 0 where
  pub input_size : ℕ
  pub original_name : Text
  pub prepared : Bool
  pub dimensions_valid : Bool
  pub copies : Bool

unfoldable pub is_jpeg : (ℕ → ℕ) → Text → Bool
is_jpeg unicode_lower name =
    let e = to_lower unicode_lower (ext name) in
    eq_text e (codes ".jpg") || eq_text e (codes ".jpeg")

unfoldable pub compress_to_target_size : (ℕ → ℕ) → Tools → Task → ℕ → Workshop → Workshop × Verdict
compress_to_target_size unicode_lower tools task target w =
    if not task.prepared
    then (w, failed prepare_failed)
    else if not task.dimensions_valid
    then (w, failed invalid_dimensions)
    else if ltb 0 task.input_size && leb task.input_size target
    then (if not task.copies
        then (w, failed copy_failed)
        else (record w { output = task.input_size }, stored task.input_size))
    else if is_jpeg unicode_lower task.original_name
    then jpeg_target_size tools target w
    else png_target_size tools target w
