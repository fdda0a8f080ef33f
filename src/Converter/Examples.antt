-- ===== src/Converter/Examples.antt =====
-- A converter's surroundings, a job, and the theorems at them.
use filemagic_backend.Prelude.{
  ℕ, ◌≤◌, ◌≡◌, refl, ◌↔◌, true, List, [], ◌∷◌, Option, none, some, length, All, Text, codes,
  eq_text,
}
use filemagic_backend.Json.{Fields, end, field, nil, cons, float, arr, field_value}
use filemagic_backend.Paths.{base}
use filemagic_backend.Float.{
  pos, negsuc, whole, value, less, is_nan, is_below, is_above, is_whole, exponent_of, is_zero,
  is_positive,
}
use filemagic_backend.Queue.{Job, JobStatus, markdown_pdf}
use filemagic_backend.Outputs.{Answer}
use filemagic_backend.TargetSize
use filemagic_backend.Upload.Several.{as_items}
use filemagic_backend.Validator.{tiff}
use filemagic_backend.Validator.Tables.{for_ocr, get_extension}
use filemagic_backend.Converter.ImageCompress.{compress_image_quality, keep_smaller, side_option}
use filemagic_backend.Converter.Crop.{int_option}
use filemagic_backend.Converter.{
  copy_file, run_tool, World, Site, Dirs, get_job, prepare_job_dir, make_dir, capture, need, check,
  pure, run_wrapped, file_size, set_output, ◌>>=◌, ◌>>◌,
}
use filemagic_backend.Sandbox.{validate_configs}
use filemagic_backend.Converter.Registry.{Kit, process}
use filemagic_backend.Converter.Keeps.{log_of, site_of, outline}
use filemagic_backend.Converter.Confined.{Backed, process-Backed, process-outline}
use filemagic_backend.Converter.Ocr.{preparation, refused, guard_dimensions, accept_sides}
use filemagic_backend.Converter.Ocr.Types.{preparation-for_ocr}
use filemagic_backend.ImageDimensions.{within_limits}
use filemagic_backend.Converter.Listed.{item_count, get_file_list}
use filemagic_backend.Converter.Listed.Names.{get_file_list-exact}
use filemagic_backend.Converter.Guarded.{Measured, compress, open_image-IsSmall}
use filemagic_backend.Converter.Certs.{build_convert_command}
use filemagic_backend.Converter.Certs.Secret.{command_of, build_convert_command_secret}
use filemagic_backend.Converter.PdfEdit.{
  validate_pdf_edit_options, if_present, check_pages, any_bad, is_bad, to_float64, is_bad_page,
}
use filemagic_backend.Converter.PdfEdit.Admitted.{IsPageList, validated_pages}
use filemagic_backend.Converter.Video.{compress_to_size}
use filemagic_backend.Converter.Video.Rates.{is_panicked, compress_to_size-panics}

-- Every tool runs without an error and prints `0.5`, and every file has 7 bytes.
abbrev world : World
world = record {
  tmpfs_path = codes "/tmp/filemagic";
  nsjail_config_dir = codes "/etc/nsjail";
  run = λ log c. none;
  output = λ log c. some (codes "0.5");
  stat = λ log path. some 7;
  makes = λ log path. true;
  writes = λ log path content. true;
  copies = λ log src dst. true;
  lists = λ log path. some [];
  print = λ n. n ∷ [];
  print_fixed = λ b. b ∷ [];
  int_of_other = λ b. negsuc 9223372036854775807;
  unicode_lower = λ c. c;
  type_by_extension = λ e. [];
}

abbrev job : Job
job = record {
  id = codes "job";
  status = JobStatus.processing;
  conversion_type = markdown_pdf;
  input_path = codes "/tmp/filemagic/job/input/input.md";
  output_path = [];
  options = end;
  original_name = codes "a.md";
  created_at = 0;
  completed_at = 0;
  error_text = [];
  input_size = 9;
  output_size = 0;
  metadata = none;
  owner_ip = [];
  downloaded = 0;
}

abbrev site : Site
site = record { job = job; log = [] }

abbrev dirs : Dirs
dirs = record {
  job_dir = codes "/tmp/filemagic/job";
  output_dir = codes "/tmp/filemagic/job/output";
}

abbrev tools : TargetSize.Tools
tools = record {
  Scale = ℕ;
  save = λ n q. TargetSize.wrote 7;
  resize_jpeg = λ n s. TargetSize.wrote 7;
  resize_png = λ n s. TargetSize.wrote 7;
  first_quality = 80;
  proportional = λ q size. q;
  is_near = λ size. true;
  jpeg_scale = λ size. 1;
  png_scale = 1;
  smaller_jpeg = λ s size. s;
  smaller_png = λ s size. s;
}

-- The bit pattern of 0.5.
abbrev half : ℕ
half = 4602678819172646912

abbrev half_text : Text → Option ℕ
half_text t = some half

abbrev kit : Kit
kit = record {
  font_script = [];
  editor_script = [];
  is_dir = λ p. true;
  fscan = λ t. (10, 10);
  scan_int = λ t. 10;
  parse_float = half_text;
  parse_results = λ t. none;
  marshal = λ f. some [];
  float_of = λ n. 0;
  estimate = λ t n. pos 150;
  print_scale = λ a b. [];
  glyphs = record {
    runes = λ t. t;
    is_print = λ r. true;
    scan_pair = λ t. (10, 10);
    print_fraction = λ n. [];
  };
  walks = λ log dir. [];
  working_dir = Answer.ok (codes "/");
  qr = record { encode = λ t l. some 21; draw = λ log t l p d. none };
  tools = tools;
}

process-Backed_example :
    All (Backed (λ path. true) (codes "/etc/nsjail")) (log_of (process world kit site))
unfolding validate_configs
process-Backed_example = process-Backed world kit (λ path. true) (codes "/etc/nsjail") job refl

process-outline_example : outline (site_of (process world kit site)).job ≡ outline job
process-outline_example = process-outline world kit job

compress_to_size-panics_example :
    is_panicked
      (compress_to_size world half_text dirs (codes "in.mp4") (codes "out.mp4") 1000000 site)
    ≡ is_below half (whole 1)
unfolding is_above is_below is_nan less value exponent_of
compress_to_size-panics_example =
    compress_to_size-panics world half_text dirs (codes "in.mp4") (codes "out.mp4") 1000000 half
      site (codes "0.5") refl refl refl refl

preparation-for_ocr_example : (preparation (get_extension tiff) ≡ refused) ↔ (tiff ≡ tiff)
unfolding for_ocr
preparation-for_ocr_example = preparation-for_ocr tiff refl

abbrev printed : List Text → Option Text
printed args = some (codes "0.5")

abbrev scanned : Text → ℕ × ℕ
scanned out = (640, 480)

open_image-IsSmall_example : Measured printed scanned site.job.input_path
unfolding compress_image_quality keep_smaller copy_file run_tool guard_dimensions within_limits
    get_job prepare_job_dir make_dir capture need check pure accept_sides run_wrapped file_size
    set_output ◌>>=◌ ◌>>◌ is_zero side_option is_positive int_option field_value
open_image-IsSmall_example =
    open_image-IsSmall world printed scanned (λ log c. refl) compress site refl refl

abbrev two_names : List Text
two_names = codes "a.pdf" ∷ codes "b.pdf" ∷ []

abbrev files_option : Fields
files_option = field (codes "files") (arr (as_items two_names)) end

get_file_list-exact_example : (get_file_list files_option 2 ≡ some two_names) ↔ (
    (field_value (codes "files") files_option ≡ some (arr (as_items two_names)))
    × (2 ≤ length two_names)
    × All (λ name. base name ≡ name) two_names)
get_file_list-exact_example = get_file_list-exact files_option 2 two_names

build_convert_command_secret_example :
    command_of (
      build_convert_command world
        (codes "p12")
        (codes "pem")
        (codes "in.p12")
        (codes "out.pem")
        (codes "one")
        []
        (codes "/o")
        site)
    ≡ command_of (
        build_convert_command world
          (codes "p12")
          (codes "pem")
          (codes "in.p12")
          (codes "out.pem")
          (codes "two")
          []
          (codes "/o")
          site)
build_convert_command_secret_example =
    build_convert_command_secret world (codes "p12") (codes "pem") (codes "in.p12")
      (codes "out.pem") (codes "one") [] (codes "two") [] (codes "/o") site site
      (λ path c1 c2. refl)

-- `pages` with the number 1.
abbrev one_page : Fields
one_page = field (codes "pages") (arr (cons (float 4607182418800017408) nil)) end

validated_pages_example : IsPageList (λ n. 0) (arr (cons (float 4607182418800017408) nil))
unfolding validate_pdf_edit_options if_present field_value eq_text check_pages item_count any_bad
    is_bad to_float64 is_bad_page is_below is_above is_whole is_nan exponent_of less value
validated_pages_example =
    validated_pages (λ n. 0) one_page (arr (cons (float 4607182418800017408) nil)) refl refl
