-- ===== src/Sandbox/Examples.antt =====
-- A tool that writes two pieces under a site's configuration; the theorems at it.
use mathlib.Core.List.{flatten}
use filemagic_backend.Prelude.{
  ℕ, ◌≡◌, ◌≤◌, refl, Bool, true, List, [], ◌∷◌, some, Text, codes, eq_text, length,
}
use filemagic_backend.Sandbox.{
  RunnerConfig, ProcessEnd, exit_ok, new_limited_buffer, write, write_all, stdout_limit_for_config,
  run_with_output,
}
use filemagic_backend.Sandbox.Capture.{capture_exact}
use filemagic_backend.Sandbox.Launch.{Launched, output_complete}

capture_exact_example :
    ((write_all (new_limited_buffer 3) (codes "ab" ∷ codes "cd" ∷ [])).buf ≡ codes "abc")
    × ((write_all (new_limited_buffer 3) (codes "ab" ∷ codes "cd" ∷ [])).truncated ≡ true)
unfolding flatten
capture_exact_example = capture_exact 3 (codes "ab" ∷ codes "cd" ∷ []) (refl, (refl, tt))

abbrev runner_config : RunnerConfig
runner_config = record {
  nsjail_config_dir = codes "/etc/nsjail";
  nsjail_path = codes "/usr/bin/nsjail";
  cgroupv2_mount = [];
  job_timeout = 60;
}

abbrev two_pieces : Text → List Text → ℕ → List Text × ProcessEnd
two_pieces path args timeout = (codes "ab" ∷ codes "cd" ∷ [], exit_ok)

abbrev anywhere : Text → Bool
anywhere path = true

abbrev no_digits : ℕ → Text
no_digits n = []

output_complete_example :
    (chunks : List Text) × Launched anywhere some no_digits two_pieces runner_config
      (codes "tool" ∷ [])
      (codes "/tmp/j")
      (codes "cert.cfg")
      0
      chunks
    × (codes "abcd" ≡ flatten chunks)
    × (length (codes "abcd") ≤ stdout_limit_for_config (codes "cert.cfg"))
unfolding run_with_output write write_all new_limited_buffer stdout_limit_for_config eq_text
output_complete_example =
    output_complete anywhere some no_digits two_pieces runner_config (codes "tool" ∷ [])
      (codes "/tmp/j") (codes "cert.cfg") 0 (codes "abcd") (λ path args t. (refl, (refl, tt))) refl
