-- ===== src/Queue.antt =====
-- The in-memory job queue (internal/queue/queue.go). A `*Job` is a record; the one field that is
-- mutated after publication, the pointer `downloaded *atomic.Bool` that all copies of a job share,
-- is an address into `flags`. Time is an argument; `process_func` is described by what it leaves
-- behind in the worker's copy (`Outcome`).
pub mod Machine
pub mod Accounting
pub mod Order
pub mod Lifecycle
pub mod Downloads
pub mod Turns
pub mod Progress
pub mod Examples
use filemagic_backend.Prelude.{
  ℕ, suc, ◌+◌, ◌-◌, ◌*◌, ◌/◌, ◌^◌, Bool, true, false, ◌&&◌, List, [], ◌∷◌, ◌++◌, map, Option, none,
  some, length, get_elem?, set, ltb, leb, ◌==◌, if◌then◌else◌, Text, codes, eq_text, non_empty,
}
use filemagic_backend.Dict.{lookup, insert, remove}
use filemagic_backend.Json.{Fields}

pub data JobStatus : Type 0 where
  queued processing done error : JobStatus

pub data ConversionType : Type 0 where
  image_format pdf_compress image_compress ocr metadata_remove pdf_merge image_to_pdf qr_code :
      ConversionType
  cert_convert archive metadata_inspect markdown_pdf audio_extract audio_convert : ConversionType
  video_compress mov_to_mp4 video_to_gif decompress pdf_password svg_to_png : ConversionType
  pdf_extract_images pdf_edit favicon pdf_repair ebook_convert font_convert : ConversionType

pub record Job : Type 0 where
  pub id : Text
  pub status : JobStatus
  pub conversion_type : ConversionType
  pub input_path : Text
  pub output_path : Text
  pub options : Fields
  pub original_name : Text
  pub created_at : ℕ
  pub completed_at : ℕ
  pub error_text : Text
  pub input_size : ℕ
  pub output_size : ℕ
  pub metadata : Option Fields
  pub owner_ip : Text
  pub downloaded : ℕ

-- 100 << 20
abbrev pub max_output_size : ℕ
max_output_size = 104857600

pub record Queue : Type 0 where
  pub jobs : List (Text × Job)
  pub job_chan : List Job
  pub max_size : ℕ
  pub queue_order : List Text
  pub inflight : List (Text × ℕ)
  pub per_client_limit : ℕ
  pub flags : List Bool

-- `New`; the process function is an argument of the worker's steps.
unfoldable pub new : ℕ → Queue
new max_size =
    let third = max_size / 3 in
    record {
      jobs = [];
      job_chan = [];
      max_size = max_size;
      queue_order = [];
      inflight = [];
      per_client_limit = if ltb third 2 then 2 else third;
      flags = [];
    }

-- `q.inflight[ip]`, where a missing key reads as 0.
unfoldable pub inflight_of : Text → List (Text × ℕ) → ℕ
inflight_of ip m = elim (lookup ip m) [ none ↦ 0 | some n ↦ n ]

pub data SubmitResult : Type 0 where
  queue_full : SubmitResult
  accepted : Job → ℕ → SubmitResult

-- What the caller passes to `Submit`, with the time that `time.Now()` reads.
pub record Request : Type 0 where
  pub job_id : Text
  pub owner_ip : Text
  pub conv_type : ConversionType
  pub input_path : Text
  pub original_name : Text
  pub options : Fields
  pub input_size : ℕ
  pub now : ℕ

abbrev pub new_job : Request → ℕ → Job
new_job r flag = record {
  id = r.job_id;
  status = queued;
  conversion_type = r.conv_type;
  input_path = r.input_path;
  output_path = [];
  options = r.options;
  original_name = r.original_name;
  created_at = r.now;
  completed_at = 0;
  error_text = [];
  input_size = r.input_size;
  output_size = 0;
  metadata = none;
  owner_ip = r.owner_ip;
  downloaded = flag;
}

-- The tests of `Submit` under which it returns `ErrQueueFull`.
unfoldable pub is_refused : Queue → Text → Bool
is_refused q ip =
    if leb q.max_size (length q.job_chan)
    then true
    else non_empty ip
      && ltb 0 q.per_client_limit
      && leb q.per_client_limit (inflight_of ip q.inflight)

-- The part of `Submit` after its tests.
unfoldable pub enqueue : Queue → Request → Queue
enqueue q r =
    let job = new_job r (length q.flags) in
    record q {
      jobs = insert job.id job q.jobs;
      queue_order = q.queue_order ++ job.id ∷ [];
      inflight =
          if non_empty r.owner_ip
          then insert r.owner_ip (inflight_of r.owner_ip q.inflight + 1) q.inflight
          else q.inflight;
      job_chan = q.job_chan ++ job ∷ [];
      flags = q.flags ++ false ∷ [];
    }

unfoldable pub submit : Queue → Request → Queue × SubmitResult
submit q r =
    if is_refused q r.owner_ip
    then (q, queue_full)
    else (enqueue q r, accepted (new_job r (length q.flags)) (length (enqueue q r).queue_order))

unfoldable pub release_slot : Queue → Text → Queue
release_slot q ip =
    if non_empty ip
    then if leb (inflight_of ip q.inflight) 1
      then record q { inflight = remove ip q.inflight }
      else record q { inflight = insert ip (inflight_of ip q.inflight - 1) q.inflight }
    else q

unfoldable pub get_job : Queue → Text → Option Job
get_job q id = lookup id q.jobs

-- The loop of `GetPosition`; `i` counts the entries passed.
unfoldable pub position_from : ℕ → Text → List Text → ℕ
position_from i id [] = 0
position_from i id (x ∷ xs) = if eq_text x id then i + 1 else position_from (i + 1) id xs

unfoldable pub get_position : Queue → Text → ℕ
get_position q id = position_from 0 id q.queue_order

unfoldable pub queue_length : Queue → ℕ
queue_length q = length q.job_chan

-- The loop of `removeFromOrder`: it drops the first occurrence and returns.
unfoldable pub erase_first : Text → List Text → List Text
erase_first id [] = []
erase_first id (x ∷ xs) = if eq_text x id then xs else x ∷ erase_first id xs

unfoldable pub remove_from_order : Queue → Text → Queue
unfolding erase_first
remove_from_order q id = record q { queue_order = erase_first id q.queue_order }

unfoldable pub delete_entry : Queue → Text → Queue
delete_entry q id = record q { jobs = remove id q.jobs }

unfoldable pub delete_job : Queue → Text → Queue
unfolding delete_entry remove_from_order
delete_job q id = remove_from_order (delete_entry q id) id

unfoldable pub get_all_jobs : Queue → List Job
get_all_jobs q = map (λ e. e.1) q.jobs

-- `downloaded.CompareAndSwap(false, true)`: the new flags, and whether this call was the first.
unfoldable pub mark_downloaded : List Bool → Job → List Bool × Bool
mark_downloaded flags j = elim (get_elem? flags j.downloaded) [
  | some false ↦ (set flags j.downloaded true, true)
  | _ ↦ (flags, false)
]

-- What `processFunc` leaves in the worker's copy of the job, and the error that it returns.
pub record Outcome : Type 0 where
  pub input_path : Text
  pub input_size : ℕ
  pub output_path : Text
  pub output_size : ℕ
  pub metadata : Option Fields
  pub failure : Option Text

abbrev pub oversize_text : Text
oversize_text = codes "output file exceeds maximum allowed size"

abbrev processed : Job → Outcome → Job
processed j o = record j {
  input_path = o.input_path;
  input_size = o.input_size;
  output_path = o.output_path;
  output_size = o.output_size;
  metadata = o.metadata;
}

-- The worker's verdict on a processed job.
unfoldable pub conclude : Job → Outcome → ℕ → Job
conclude j o now = elim o.failure [
  | some e ↦ record (processed j o) { status = error; error_text = e; completed_at = now }
  | none ↦
      if ltb max_output_size o.output_size
      then record (processed j o) { status = error; error_text = oversize_text; completed_at = now }
      else record (processed j o) { status = done; completed_at = now }
]

abbrev pub store : Queue → Job → Queue
store q j = record q { jobs = insert j.id j q.jobs }
