-- ===== src/Sandbox/Launch.antt =====
-- What a completed run of the sandbox says of its profile files, its launch and its output
-- (internal/converter/nsjail.go).
use mathlib.Core.List.{flatten}
use filemagic_backend.Prelude.{
  ℕ, ◌≤◌, ◌≡◌, ap, ◌∙◌, inl, inr, Bool, true, false, List, Option, some, arith, length, take, ltb,
  ◌==◌, if◌then◌else◌, Text, Option-cases,
}
use filemagic_backend.Paths.{join_path, dir}
use filemagic_backend.Sandbox.{
  RunnerConfig, RunResult, completed, ProcessEnd, exit_ok, guarded, output_end, run_with_output,
  nsjail_args, seccomp_file, stdout_limit_for_config, new_limited_buffer, write_all,
}
use filemagic_backend.Sandbox.Capture.{AreNonEmpty, capture_exact, take_all}

module _ (exists : Text → Bool) (abs : Text → Option Text) (print_decimal : ℕ → Text)
    (launch : Text → List Text → ℕ → List Text × ProcessEnd) where
  -- The launch that produced a result: the profile and its seccomp policy exist, and the process got
  -- the arguments that name both.
  pub record Launched (cfg : RunnerConfig) (command : List Text) (job_dir config_file : Text)
      (timeout : ℕ) (chunks : List Text) : Type 0 where
    pub config_path : Text
    pub resolved : abs (join_path cfg.nsjail_config_dir config_file) ≡ some config_path
    pub has_config : exists config_path ≡ true
    pub has_policy : exists (join_path (dir config_path) (seccomp_file config_file)) ≡ true
    pub launched :
        launch cfg.nsjail_path
          (nsjail_args print_decimal cfg config_path
            (join_path (dir config_path) (seccomp_file config_file))
            job_dir
            config_file
            command)
          (if timeout == 0 then cfg.job_timeout else timeout)
        ≡ (chunks, exit_ok)

  -- The launch that follows the guards, once both files are found.
  attempt : RunnerConfig → List Text → Text → Text → ℕ → Text → List Text × ProcessEnd
  attempt cfg command job_dir config_file timeout config_path =
      launch cfg.nsjail_path
        (nsjail_args print_decimal cfg config_path
          (join_path (dir config_path) (seccomp_file config_file)) job_dir config_file command)
        (if timeout == 0 then cfg.job_timeout else timeout)

  guarded_inversion :
      (cfg : RunnerConfig) (command : List Text) (job_dir config_file : Text) (timeout : ℕ)
      (conclude : List Text → ProcessEnd → RunResult) {out : Text}
      → guarded exists abs print_decimal launch cfg command job_dir config_file timeout conclude
        ≡ completed out
      → (config_path : Text) × (abs (join_path cfg.nsjail_config_dir config_file)
          ≡ some config_path)
        × (exists config_path ≡ true)
        × (exists (join_path (dir config_path) (seccomp_file config_file)) ≡ true)
        × (let r = attempt cfg command job_dir config_file timeout config_path in
            conclude r.0 r.1 ≡ completed out)
  unfolding guarded attempt
  guarded_inversion cfg command job_dir config_file timeout conclude e =
      elim (Option-cases (abs (join_path cfg.nsjail_config_dir config_file))) [
        | inl f ↦ absurd (ground arith)
        | inr (config_path, f) ↦ (config_path, f, ground arith, ground arith, ground arith)
      ]

  output_end_inversion :
      (limit : ℕ) (chunks : List Text) (end : ProcessEnd) {out : Text}
      → output_end exists abs print_decimal launch limit chunks end ≡ completed out
      → (end ≡ exit_ok)
        × ((write_all (new_limited_buffer limit) chunks).truncated ≡ false)
        × (out ≡ (write_all (new_limited_buffer limit) chunks).buf)
  unfolding output_end
  output_end_inversion limit chunks exit_ok e = ground arith
  output_end_inversion limit chunks _ e = cc

  complete_lem :
      (limit : ℕ) (chunks : List Text) (out : Text)
      → let b = write_all (new_limited_buffer limit) chunks in
        out ≡ b.buf
        → b.truncated ≡ false
        → b.buf ≡ take limit (flatten chunks)
        → b.truncated ≡ ltb limit (length (flatten chunks))
        → (out ≡ flatten chunks) × (length out ≤ limit)
  complete_lem limit chunks out same whole held flag =
      let fits : length (flatten chunks) ≤ limit = ground arith in
      let equal = same ∙ held ∙ take_all limit (flatten chunks) fits in (equal, rw equal fits)

  -- If `RunWithOutput` completes with an output, then the profile and its seccomp policy exist, nsjail
  -- was launched with the arguments that name both and ended well, and the output is all that it wrote,
  -- within the limit of the profile. The tool's pieces are not empty, as the copying of a pipe delivers
  -- them.
  pub output_complete :
      (cfg : RunnerConfig) (command : List Text) (job_dir config_file : Text) (timeout : ℕ)
      (out : Text)
      → ((path : Text) (args : List Text) (t : ℕ) → AreNonEmpty (launch path args t).0)
      → run_with_output exists abs print_decimal launch cfg command job_dir config_file timeout
        ≡ completed out
      → (chunks : List Text) × Launched cfg command job_dir config_file timeout chunks
        × (out ≡ flatten chunks)
        × (length out ≤ stdout_limit_for_config config_file)
  unfolding run_with_output attempt
  output_complete cfg command job_dir config_file timeout out pieces e =
      let limit = stdout_limit_for_config config_file in
      let (config_path, f, g, k, c) =
        guarded_inversion cfg command job_dir config_file timeout
          (output_end exists abs print_decimal launch limit) e in
      let r = attempt cfg command job_dir config_file timeout config_path in
      let (ok, whole, same) = output_end_inversion limit r.0 r.1 c in
      let (held, flag) = capture_exact limit r.0 (pieces _ _ _) in
      (
        r.0,
        record {
          config_path = config_path;
          resolved = f;
          has_config = g;
          has_policy = k;
          launched = ap (λ (x : ProcessEnd). (r.0, x)) ok;
        },
        (complete_lem limit r.0 out same whole held flag).0,
        (complete_lem limit r.0 out same whole held flag).1,
      )
