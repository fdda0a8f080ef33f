-- ===== src/TargetSize/Examples.antt =====
-- A photo that is to have 100 bytes, with a tool that writes 80 bytes up to quality 56 and 105 above;
-- the theorems at it.
use filemagic_backend.Prelude.{
  ℕ, ◌*◌, ◌/◌, ◌≡◌, refl, true, [], codes, leb, ◌==◌, if◌then◌else◌, eq_text,
}
use filemagic_backend.Paths.{ext, last_slash}
use filemagic_backend.Validator.Names.{to_lower, lower_rune}
use filemagic_backend.TargetSize.{
  wrote, Workshop, Verdict, stored, with_tool, clamp, Tools, Task, raise_quality, lower_quality,
  finish, is_repeated, refine, jpeg_target_size, is_jpeg, compress_to_target_size,
}
use filemagic_backend.TargetSize.Reports.{Tells, stored_size}
use filemagic_backend.TargetSize.Runs.{IsBounded, runs-IsBounded}

abbrev same : ℕ → ℕ
same c = c

abbrev tools : Tools
tools = record {
  Scale = ℕ;
  save = λ run q. wrote (if leb q 56 then 80 else 105);
  resize_jpeg = λ run scale. wrote 70;
  resize_png = λ run scale. wrote 70;
  first_quality = 50;
  proportional = λ q size. if size == 80 then q * 1118 / 1000 else q * 976 / 1000;
  is_near = λ size. leb 91 size;
  jpeg_scale = λ size. 95;
  png_scale = 90;
  smaller_jpeg = λ scale size. scale;
  smaller_png = λ scale size. scale;
}

abbrev photo : Task
photo = record {
  input_size = 400;
  original_name = codes "a.jpg";
  prepared = true;
  dimensions_valid = true;
  copies = true;
}

abbrev start : Workshop
start = record { output = 0; log = [] }

stored_size_example : Tells 100 (compress_to_target_size same tools photo 100 start)
stored_size_example = stored_size 100 same tools photo start

runs-IsBounded_example : IsBounded 8 (compress_to_target_size same tools photo 100 start)
runs-IsBounded_example = runs-IsBounded 100 tools same photo 0

abbrev result : Workshop × Verdict
result = compress_to_target_size same tools photo 100 start

-- The job is given 80 bytes, while its file has 105.
over_target : (result.1 ≡ stored 80) × (result.0.output ≡ 105)
unfolding compress_to_target_size is_jpeg to_lower lower_rune ext last_slash jpeg_target_size clamp
    refine is_repeated raise_quality lower_quality with_tool finish eq_text
over_target = (refl, refl)
