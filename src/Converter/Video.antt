-- ===== src/Converter/Video.antt =====
-- The compressor of films (internal/converter/video_compress.go). `strconv.ParseFloat` is a parameter.
pub mod Rates
use filemagic_backend.Prelude.{
  ℕ, Bool, true, false, not, ◌&&◌, ◌||◌, List, [], ◌∷◌, ◌++◌, Option, none, some, if◌then◌else◌,
  Text, codes, eq_text,
}
use filemagic_backend.Gate.{trim_space}
use filemagic_backend.Paths.{join_path, dir}
use filemagic_backend.Float.{whole, is_above, is_nan, at_least_zero}
use filemagic_backend.Converter.{
  World, Task, pure, need, panic, check, ◌>>=◌, ◌>>◌, get_job, text_option, float_option, or_else,
  Dirs, int_of, prepare_job_dir, capture, run_tool, run_wrapped, finish,
}
use filemagic_backend.Converter.Media.{ffmpeg_from, duration_of, video_bitrate}

module _ (w : World) (parse_float : Text → Option ℕ) where
  unfoldable pub compress_with_quality : Dirs → Text → Text → Text → Task (Unit {0})
  compress_with_quality d input_file output_file quality = run_tool w d (codes "ffmpeg.cfg") 300 (
      ffmpeg_from input_file
      ++ codes "-c:v"
        ∷ codes "libx264"
        ∷ codes "-crf"
        ∷ (if eq_text quality (codes "low")
            then codes "28"
            else if eq_text quality (codes "high")
            then codes "18"
            else codes "23")
        ∷ codes "-preset"
        ∷ codes "medium"
        ∷ codes "-c:a"
        ∷ codes "aac"
        ∷ codes "-b:a"
        ∷ codes "128k"
        ∷ codes "-movflags"
        ∷ codes "+faststart"
        ∷ codes "-y"
        ∷ output_file
        ∷ [])

  -- One pass of two: the arguments after the bitrate's.
  unfoldable pub encoding_pass : Dirs → Text → Text → Text → Text → List Text → Task (Unit {0})
  encoding_pass d input_file output_file bitrate number rest =
      run_wrapped w (codes "2-pass encoding pass " ++ number ++ codes " failed: ") (record {
        args =
            ffmpeg_from input_file
            ++ codes "-c:v"
              ∷ codes "libx264"
              ∷ codes "-b:v"
              ∷ bitrate
              ∷ codes "-pass"
              ∷ number
              ∷ codes "-passlogfile"
              ∷ join_path (dir output_file) (codes "ffmpeg2pass")
              ∷ codes "-preset"
              ∷ codes "medium"
              ∷ rest;
        job_dir = d.job_dir;
        profile = codes "ffmpeg.cfg";
        seconds = 300;
      })

  -- The two passes, once the bitrate is known.
  unfoldable pub encode : Dirs → Text → Text → ℕ → Task (Unit {0})
  encode d input_file output_file rate = do
    encoding_pass d input_file output_file (w.print rate) (codes "1")
        (codes "-an" ∷ codes "-f" ∷ codes "null" ∷ codes "/dev/null" ∷ codes "-y" ∷ [])
    encoding_pass d input_file output_file (w.print rate) (codes "2") (
        codes "-c:a"
        ∷ codes "aac"
        ∷ codes "-b:a"
        ∷ codes "128k"
        ∷ codes "-movflags"
        ∷ codes "+faststart"
        ∷ codes "-y"
        ∷ output_file
        ∷ [])

  -- The passes, or the panic of a division by zero.
  unfoldable pub encode_at : Dirs → Text → Text → Option ℕ → Task (Unit {0})
  encode_at d input_file output_file none = panic
  encode_at d input_file output_file (some rate) = encode d input_file output_file rate

  unfoldable pub compress_to_size : Dirs → Text → Text → ℕ → Task (Unit {0})
  compress_to_size d input_file output_file target_bytes = do
    probed ← capture w (record {
      args = duration_of input_file;
      job_dir = d.job_dir;
      profile = codes "ffmpeg.cfg";
      seconds = 30;
    })
    out ← need probed (codes "failed to probe video duration")
    duration ← need (parse_float (trim_space out)) (codes "failed to parse video duration")
    check (is_nan duration || is_above duration (whole 0)) (codes "failed to parse video duration")
    encode_at d input_file output_file (video_bitrate target_bytes (int_of w duration))

  unfoldable pub convert_video_compress : Task (Unit {0})
  convert_video_compress = do
    job ← get_job
    let mode = or_else (text_option (codes "mode") job.options) []
    d ← prepare_job_dir w
    let output_file = join_path d.output_dir (codes "output.mp4")
    let size = or_else (float_option (codes "targetSize") job.options) 0
    if eq_text mode (codes "targetSize")
        then check
            ((is_nan size || is_above size (whole 0)) && not (is_above size (whole 209715200)))
            (codes "invalid target size")
          >> compress_to_size d job.input_path output_file (at_least_zero (int_of w size))
        else compress_with_quality d job.input_path output_file
            (or_else (text_option (codes "quality") job.options) [])
    finish w output_file
