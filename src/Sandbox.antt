-- ===== src/Sandbox.antt =====
-- The nsjail runner (internal/converter/nsjail.go): the bounded capture of a tool's output, the profile
-- tables, the redaction of commands, and the guarded launch. The file system (`exists`), the working
-- directory (`abs`) and the launched process (`launch`) are parameters.
pub mod Capture
pub mod Redaction
pub mod Launch
pub mod Waiting
mod Examples
use filemagic_backend.Prelude.{
  ℕ, zero, suc, ◌+◌, ◌-◌, ◌*◌, ◌^◌, ◌≡◌, Bool, true, false, not, ◌&&◌, ◌||◌, List, [], ◌∷◌, ◌++◌,
  map, Option, none, some, length, take, drop, ltb, leb, ◌==◌, if◌then◌else◌, Text, codes, eq_text,
  has_prefix, non_empty, get_or,
}
use filemagic_backend.Paths.{join_path, dir, base, trim_suffix, replace_first}

-- 1 << 20, 4 << 20 and 64 << 10
abbrev pub default_nsjail_stdout_bytes : ℕ
default_nsjail_stdout_bytes = 1048576

abbrev pub large_nsjail_stdout_bytes : ℕ
large_nsjail_stdout_bytes = 4194304

abbrev pub max_nsjail_stderr_bytes : ℕ
max_nsjail_stderr_bytes = 65536

abbrev pub required_configs : List Text
required_configs =
    codes "archive.cfg"
    ∷ codes "cert.cfg"
    ∷ codes "ebook.cfg"
    ∷ codes "ffmpeg.cfg"
    ∷ codes "font.cfg"
    ∷ codes "image.cfg"
    ∷ codes "image_to_pdf.cfg"
    ∷ codes "metadata.cfg"
    ∷ codes "ocr.cfg"
    ∷ codes "pandoc.cfg"
    ∷ codes "pdf.cfg"
    ∷ codes "poppler.cfg"
    ∷ codes "pymupdf.cfg"
    ∷ codes "qpdf.cfg"
    ∷ codes "svg.cfg"
    ∷ []

unfoldable pub stdout_limit_for_config : Text → ℕ
stdout_limit_for_config file =
    if eq_text file (codes "archive.cfg") || eq_text file (codes "metadata.cfg")
    then large_nsjail_stdout_bytes
    else default_nsjail_stdout_bytes

abbrev megabytes : ℕ → ℕ
megabytes n = n * 1048576

-- The rows of the `switch` of `cgroupLimits`: memory in bytes, and processes.
abbrev pub cgroup_rows : List (Text × ℕ × ℕ)
cgroup_rows =
    (codes "pdf.cfg", megabytes 1024, 32)
    ∷ (codes "image.cfg", 0, 0)
    ∷ (codes "ocr.cfg", megabytes 1024, 32)
    ∷ (codes "image_to_pdf.cfg", megabytes 1024, 32)
    ∷ (codes "metadata.cfg", megabytes 256, 16)
    ∷ (codes "cert.cfg", megabytes 256, 16)
    ∷ (codes "archive.cfg", megabytes 512, 16)
    ∷ (codes "pandoc.cfg", megabytes 512, 32)
    ∷ (codes "ffmpeg.cfg", megabytes 2048, 32)
    ∷ (codes "qpdf.cfg", megabytes 256, 16)
    ∷ (codes "svg.cfg", megabytes 256, 16)
    ∷ (codes "poppler.cfg", megabytes 512, 32)
    ∷ (codes "pymupdf.cfg", megabytes 512, 8)
    ∷ (codes "font.cfg", megabytes 512, 8)
    ∷ (codes "ebook.cfg", megabytes 1024, 32)
    ∷ []

-- A `switch` over the rows, with its default.
unfoldable pub limits_from : Text → List (Text × ℕ × ℕ) → ℕ × ℕ
limits_from file [] = (megabytes 256, 16)
limits_from file ((name, mem, pids) ∷ rows) =
    if eq_text file name then (mem, pids) else limits_from file rows

unfoldable pub cgroup_limits : Text → ℕ × ℕ
cgroup_limits file = limits_from file cgroup_rows

-- `limitedBuffer`
pub record LimitedBuffer : Type 0 where
  pub buf : Text
  pub limit : ℕ
  pub truncated : Bool

unfoldable pub new_limited_buffer : ℕ → LimitedBuffer
new_limited_buffer limit = record { buf = []; limit = limit; truncated = false }

-- `Write`: the new buffer and the count that it reports.
unfoldable pub write : LimitedBuffer → Text → LimitedBuffer × ℕ
write b p =
    let remaining = b.limit - length b.buf in
    if b.limit == 0
    then (record b { truncated = true }, length p)
    else if ltb 0 remaining
    then if ltb remaining (length p)
      then (record b { buf = b.buf ++ take remaining p; truncated = true }, length p)
      else (record b { buf = b.buf ++ p }, length p)
    else (record b { truncated = true }, length p)

-- The writes of a process, one after the other.
unfoldable pub write_all : LimitedBuffer → List Text → LimitedBuffer
write_all b [] = b
write_all b (p ∷ ps) = write_all (write b p).0 ps

-- The part of `config.Config` that the runner reads.
pub record RunnerConfig : Type 0 where
  pub nsjail_config_dir : Text
  pub nsjail_path : Text
  pub cgroupv2_mount : Text
  pub job_timeout : ℕ

unfoldable pub seccomp_file : Text → Text
seccomp_file config_file = trim_suffix config_file (codes ".cfg") ++ codes "_seccomp.policy"

-- The loop of `ValidateConfigs`: the first path that is missing.
unfoldable pub validate_configs : (Text → Bool) → Text → List Text → Option Text
validate_configs exists config_dir [] = none
validate_configs exists config_dir (file ∷ files) =
    let rest = validate_configs exists config_dir files in
    if not (exists (join_path config_dir file))
    then some (join_path config_dir file)
    else if not (exists (join_path config_dir (seccomp_file file)))
    then some (join_path config_dir (seccomp_file file))
    else rest

-- `fmt.Sprintf("%d", n)`, a parameter.
module _ (print_decimal : ℕ → Text) where
  unfoldable pub cgroup_args : RunnerConfig → Text → List Text
  cgroup_args cfg config_file =
      let (mem_max, pids_max) = cgroup_limits config_file in
      if non_empty cfg.cgroupv2_mount && ltb 0 mem_max && ltb 0 pids_max
      then codes "--detect_cgroupv2"
        ∷ codes "--cgroupv2_mount"
        ∷ cfg.cgroupv2_mount
        ∷ codes "--cgroup_mem_max"
        ∷ print_decimal mem_max
        ∷ codes "--cgroup_pids_max"
        ∷ print_decimal pids_max
        ∷ []
      else []

  -- The argument list of `executeNsjail`.
  unfoldable pub nsjail_args : RunnerConfig → Text → Text → Text → Text → List Text → List Text
  nsjail_args cfg config_path seccomp_path job_dir config_file command =
      (codes "--config"
        ∷ config_path
        ∷ codes "--bindmount_ro"
        ∷ (job_dir ++ codes ":/work")
        ∷ codes "--bindmount"
        ∷ (job_dir ++ codes "/output:/work/output")
        ∷ codes "--quiet"
        ∷ codes "--seccomp_policy"
        ∷ seccomp_path
        ∷ [])
      ++ cgroup_args cfg config_file
      ++ codes "--" ∷ map (replace_first job_dir (codes "/work")) command

-- How the launched process ended.
pub data ProcessEnd : Type 0 where
  start_failed timed_out exit_failed exit_ok : ProcessEnd

pub data RunResult : Type 0 where
  unresolved_config : RunResult
  config_missing : Text → RunResult
  seccomp_missing : Text → RunResult
  not_started conversion_timed_out conversion_failed : RunResult
  output_exceeded : ℕ → RunResult
  completed : Text → RunResult

-- The process is launched with a path, its arguments and a timeout; it writes to its standard output in
-- pieces.
module _ (exists : Text → Bool) (abs : Text → Option Text) (print_decimal : ℕ → Text)
    (launch : Text → List Text → ℕ → List Text × ProcessEnd) where
  -- The guards of `executeNsjail` and `executeNsjailWithOutput`, then the launch.
  guarded :
      RunnerConfig → List Text → Text → Text → ℕ → (List Text → ProcessEnd → RunResult) → RunResult
  guarded cfg command job_dir config_file timeout conclude =
      elim (abs (join_path cfg.nsjail_config_dir config_file)) [
        | none ↦ unresolved_config
        | some config_path ↦
            let seccomp_path = join_path (dir config_path) (seccomp_file config_file) in
            if not (exists config_path)
            then config_missing config_path
            else if not (exists seccomp_path)
            then seccomp_missing seccomp_path
            else let args =
                nsjail_args print_decimal cfg config_path seccomp_path job_dir config_file
                  command in
              let limit : ℕ = if timeout == 0 then cfg.job_timeout else timeout in
              let (chunks, end) = launch cfg.nsjail_path args limit in conclude chunks end
      ]

  -- The end of `executeNsjail`; its standard output is not captured.
  run_end : List Text → ProcessEnd → RunResult
  run_end chunks start_failed = not_started
  run_end chunks timed_out = conversion_timed_out
  run_end chunks exit_failed = conversion_failed
  run_end chunks exit_ok = completed []

  unfoldable pub run : RunnerConfig → List Text → Text → Text → ℕ → RunResult
  unfolding guarded run_end
  run cfg command job_dir config_file timeout =
      guarded cfg command job_dir config_file timeout run_end

  -- The end of `executeNsjailWithOutput`: the pieces go through a limited buffer.
  output_end : ℕ → List Text → ProcessEnd → RunResult
  output_end limit chunks start_failed = not_started
  output_end limit chunks timed_out = conversion_timed_out
  output_end limit chunks exit_failed = conversion_failed
  output_end limit chunks exit_ok =
      let b = write_all (new_limited_buffer limit) chunks in
      if b.truncated then output_exceeded limit else completed b.buf

  unfoldable pub run_with_output : RunnerConfig → List Text → Text → Text → ℕ → RunResult
  unfolding guarded output_end
  run_with_output cfg command job_dir config_file timeout =
      guarded cfg command job_dir config_file timeout
        (output_end (stdout_limit_for_config config_file))
