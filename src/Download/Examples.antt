-- ===== src/Download/Examples.antt =====
-- A finished job that is downloaded twice and cleaned up; the theorem at this history.
use filemagic_backend.Prelude.{
  ℕ, ◌≤◌, ◌≡◌, refl, true, false, List, [], ◌∷◌, none, Text, codes, eq_text,
}
use filemagic_backend.Json.{end}
use filemagic_backend.Dict.{lookup, remove}
use filemagic_backend.Queue
use filemagic_backend.Queue.{Job, JobStatus, get_job, mark_downloaded, delete_job}
use filemagic_backend.Upload.{is_internal_request, remove_all, without}
use filemagic_backend.Upload.Examples.{handlers, page, disk}
use filemagic_backend.Outputs.{open_regular_file_no_follow, is_symlink, is_regular}
use filemagic_backend.Outputs.Examples.{files}
use filemagic_backend.Download.{
  Host, Request, download, with_done_job, with_flag, count_and_clean_up, clean_up,
}
use filemagic_backend.Download.Passes.{is_refused}
use filemagic_backend.Download.Once.{
  Event, whole_file, cleaned, serve, counts, room, handed_out, handed_out_once,
}

abbrev job : Job
job = record {
  id = codes "j";
  status = JobStatus.done;
  conversion_type = Queue.ocr;
  input_path = codes "/t/j/input";
  output_path = codes "/t/o/a.png";
  options = end;
  original_name = codes "b.jpg";
  created_at = 1;
  completed_at = 2;
  error_text = [];
  input_size = 3;
  output_size = 3;
  metadata = none;
  owner_ip = codes "1.1.1.1";
  downloaded = 0;
}

abbrev host : Host
host = record {
  server = record {
    queue = record (Queue.new 9) { jobs = (codes "j", job) ∷ []; flags = false ∷ [] };
    job_dirs = codes "/t/j" ∷ [];
  };
  processed = 0;
  cleanups = [];
}

abbrev request : Request
request = record {
  job_id = codes "j";
  index = [];
  peer = page;
  files = files;
  later_files = files;
  copied = true;
  begins = λ name. true;
}

abbrev history : List Event
history =
    whole_file request ∷ whole_file request ∷ cleaned disk (codes "j") ∷ whole_file request ∷ []

abbrev no_type : Text → Text
no_type e = []

abbrev same : ℕ → ℕ
same c = c

handed_out_once_example :
    handed_out no_type same handlers (codes "j") history host ≤ room (codes "j") host
handed_out_once_example = handed_out_once no_type same handlers (codes "j") history host

-- The file is handed out, once.
once : handed_out no_type same handlers (codes "j") history host ≡ 1
unfolding handed_out serve counts is_refused download with_done_job with_flag count_and_clean_up
    clean_up get_job mark_downloaded delete_job lookup remove open_regular_file_no_follow is_symlink
    is_regular is_internal_request remove_all without eq_text Queue.new
once = refl
