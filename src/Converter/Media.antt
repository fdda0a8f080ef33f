-- ===== src/Converter/Media.antt =====
-- The converters of sound and film (internal/converter: audio_convert.go, audio_extract.go,
-- mov_to_mp4.go, video_to_gif.go, video_compress.go). `strconv.ParseFloat` is a parameter.
pub mod Ranges
use filemagic_backend.Prelude.{
  ℕ, zero, suc, ◌+◌, ◌-◌, ◌*◌, ◌/◌, Bool, true, false, not, ◌&&◌, ◌||◌, List, [], ◌∷◌, ◌++◌, Option,
  none, some, ltb, if◌then◌else◌, Text, codes, eq_text, non_empty,
}
use filemagic_backend.Json.{Fields}
use filemagic_backend.Gate.{trim_space}
use filemagic_backend.Paths.{join_path, dir}
use filemagic_backend.Float.{
  Integer, pos, negsuc, whole, fraction, is_below, is_above, is_nan, equals, at_least_zero,
}
use filemagic_backend.Validator.Names.{one_of, to_lower}
use filemagic_backend.Converter.{
  World, Task, pure, fail, need, check, ◌>>=◌, ◌>>◌, get_job, text_option, float_option, or_else,
  Dirs, int_of, prepare_job_dir, capture, run_tool, run_wrapped, file_size, set_output, finish,
}

abbrev pub valid_audio_formats : List Text
valid_audio_formats = codes "mp3" ∷ codes "wav" ∷ codes "flac" ∷ codes "aac" ∷ []

-- The first arguments of each command of ffmpeg.
abbrev pub ffmpeg_from : Text → List Text
ffmpeg_from input =
    codes "/usr/bin/ffmpeg"
    ∷ codes "-nostdin"
    ∷ codes "-protocol_whitelist"
    ∷ codes "file,pipe"
    ∷ codes "-i"
    ∷ input
    ∷ []

unfoldable pub codec_args : Text → List Text
codec_args format =
    if eq_text format (codes "mp3")
    then codes "-acodec" ∷ codes "libmp3lame" ∷ codes "-q:a" ∷ codes "2" ∷ []
    else if eq_text format (codes "wav")
    then codes "-acodec" ∷ codes "pcm_s16le" ∷ []
    else if eq_text format (codes "flac")
    then codes "-acodec" ∷ codes "flac" ∷ []
    else if eq_text format (codes "aac")
    then codes "-acodec" ∷ codes "aac" ∷ codes "-b:a" ∷ codes "192k" ∷ []
    else []

unfoldable pub ffmpeg_command : Text → Text → Text → Bool → List Text
ffmpeg_command input output format strip_video =
    ffmpeg_from input
    ++ (if strip_video then codes "-vn" ∷ [] else [])
    ++ codec_args format
    ++ codes "-y" ∷ output ∷ []

-- AAC is written to an M4A container.
abbrev pub audio_extension : Text → Text
audio_extension format = if eq_text format (codes "aac") then codes "m4a" else format

abbrev pub audio_streams_of : Text → List Text
audio_streams_of input =
    codes "/usr/bin/ffprobe"
    ∷ codes "-protocol_whitelist"
    ∷ codes "file,pipe"
    ∷ codes "-v"
    ∷ codes "error"
    ∷ codes "-select_streams"
    ∷ codes "a"
    ∷ codes "-show_entries"
    ∷ codes "stream=codec_type"
    ∷ codes "-of"
    ∷ codes "default=noprint_wrappers=1:nokey=1"
    ∷ input
    ∷ []

abbrev pub duration_of : Text → List Text
duration_of input =
    codes "/usr/bin/ffprobe"
    ∷ codes "-protocol_whitelist"
    ∷ codes "file,pipe"
    ∷ codes "-v"
    ∷ codes "error"
    ∷ codes "-show_entries"
    ∷ codes "format=duration"
    ∷ codes "-of"
    ∷ codes "default=noprint_wrappers=1:nokey=1"
    ∷ input
    ∷ []

-- `options["startTime"]` and the others, brought into their ranges.
pub record GifOptions : Type 0 where
  pub start_time : ℕ
  pub duration : ℕ
  pub fps : ℕ
  pub max_width : ℕ
  pub speed : ℕ

-- The float64 values 1, 5, 10, 15, 320 and 640.
abbrev pub one_bits : ℕ
one_bits = 4607182418800017408

abbrev pub five_bits : ℕ
five_bits = 4617315517961601024

abbrev pub ten_bits : ℕ
ten_bits = 4621819117588971520

abbrev pub fifteen_bits : ℕ
fifteen_bits = 4624633867356078080

abbrev pub width_320_bits : ℕ
width_320_bits = 4644337115725824000

abbrev pub width_640_bits : ℕ
width_640_bits = 4648840715353194496

abbrev pub start_in_range : ℕ → ℕ
start_in_range v = if is_below v (whole 0) then 0 else v

abbrev pub duration_in_range : ℕ → ℕ
duration_in_range v =
    if not (is_nan v) && not (is_above v (whole 0)) || is_above v (whole 15) then five_bits else v

abbrev pub raised_fps : ℕ → ℕ
raised_fps v = if is_below v (whole 5) then ten_bits else v

abbrev pub fps_in_range : ℕ → ℕ
fps_in_range v = if is_above (raised_fps v) (whole 15) then fifteen_bits else raised_fps v

abbrev pub raised_width : ℕ → ℕ
raised_width v = if is_below v (whole 160) then width_320_bits else v

abbrev pub width_in_range : ℕ → ℕ
width_in_range v = if is_above (raised_width v) (whole 640) then width_640_bits else raised_width v

abbrev pub speed_in_range : ℕ → ℕ
speed_in_range v = if is_below v (fraction 1 2) || is_above v (whole 3) then one_bits else v

-- `job.Options[key].(float64)`, or 0.
abbrev pub number_option : Text → Fields → ℕ
number_option key options = or_else (float_option key options) 0

unfoldable pub gif_options : Fields → GifOptions
gif_options options = record {
  start_time = start_in_range (number_option (codes "startTime") options);
  duration = duration_in_range (number_option (codes "duration") options);
  fps = fps_in_range (number_option (codes "fps") options);
  max_width = width_in_range (number_option (codes "maxWidth") options);
  speed = speed_in_range (number_option (codes "speed") options);
}

-- The bits per second of the film, for a size in bytes and the whole seconds that it lasts: none if
-- that divides by zero. The size is at most 200 MB, so that nothing overflows.
unfoldable pub video_bitrate : ℕ → Integer → Option ℕ
video_bitrate target (pos zero) = none
video_bitrate target (pos (suc n)) =
    let v = target * 8 / suc n - 128000 in some (if ltb v 100000 then 100000 else v)
video_bitrate target (negsuc n) = some 100000

module _ (w : World) where
  unfoldable pub convert_mov_to_mp4 : Task (Unit {0})
  convert_mov_to_mp4 = do
    d ← prepare_job_dir w
    job ← get_job
    let output_file = join_path d.output_dir (codes "output.mp4")
    run_tool w d (codes "ffmpeg.cfg") 300 (
        ffmpeg_from job.input_path
        ++ codes "-c:v"
          ∷ codes "libx264"
          ∷ codes "-c:a"
          ∷ codes "aac"
          ∷ codes "-movflags"
          ∷ codes "+faststart"
          ∷ codes "-y"
          ∷ output_file
          ∷ [])
    finish w output_file

  unfoldable pub convert_audio : Task (Unit {0})
  convert_audio = do
    job ← get_job
    given ←
        need (text_option (codes "outputFormat") job.options) (codes "missing outputFormat option")
    let format = to_lower w.unicode_lower given
    check (one_of format valid_audio_formats) (codes "unsupported audio format")
    d ← prepare_job_dir w
    let output_file = join_path d.output_dir (codes "output." ++ audio_extension format)
    run_tool w d (codes "ffmpeg.cfg") 120 (ffmpeg_command job.input_path output_file format false)
    finish w output_file

  unfoldable pub extract_audio : Task (Unit {0})
  extract_audio = do
    job ← get_job
    let format =
        to_lower w.unicode_lower
          (or_else (text_option (codes "outputFormat") job.options) (codes "mp3"))
    check (one_of format valid_audio_formats) (codes "unsupported audio format")
    d ← prepare_job_dir w
    probed ← capture w (record {
      args = audio_streams_of job.input_path;
      job_dir = d.job_dir;
      profile = codes "ffmpeg.cfg";
      seconds = 30;
    })
    out ← need probed (codes "failed to probe file")
    check (non_empty (trim_space out)) (codes "no audio stream found in file")
    let output_file = join_path d.output_dir (codes "output." ++ audio_extension format)
    run_tool w d (codes "ffmpeg.cfg") 180 (ffmpeg_command job.input_path output_file format true)
    finish w output_file

  -- `VideoToGifConverter.Convert`: the filters.
  unfoldable pub gif_filter : GifOptions → Text
  gif_filter o =
      (if equals o.speed (whole 1)
        then []
        else codes "setpts=PTS/" ++ w.print_fixed o.speed ++ codes ",")
      ++ codes "fps="
      ++ w.print (at_least_zero (int_of w o.fps))
      ++ codes ",scale="
      ++ w.print (at_least_zero (int_of w o.max_width))
      ++ codes ":-1:flags=lanczos,split[s0][s1];[s0]palettegen[p];[s1][p]paletteuse"

  unfoldable pub convert_video_to_gif : Task (Unit {0})
  convert_video_to_gif = do
    job ← get_job
    let o = gif_options job.options
    d ← prepare_job_dir w
    let output_file = join_path d.output_dir (codes "output.gif")
    run_tool w d (codes "ffmpeg.cfg") 180 (
        codes "/usr/bin/ffmpeg"
        ∷ codes "-nostdin"
        ∷ codes "-protocol_whitelist"
        ∷ codes "file,pipe"
        ∷ codes "-ss"
        ∷ w.print_fixed o.start_time
        ∷ codes "-t"
        ∷ w.print_fixed o.duration
        ∷ codes "-i"
        ∷ job.input_path
        ∷ codes "-vf"
        ∷ gif_filter o
        ∷ codes "-y"
        ∷ output_file
        ∷ [])
    size ← file_size w (codes "output file not found: ") output_file
    check (not (ltb 20971520 size)) (codes "generated GIF is too large")
    set_output output_file size
