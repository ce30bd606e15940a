-- ===== src/Server/Scheduler/Media.antt =====
-- server/scheduler/media.go: a reviewed media file becomes a job request. What the file system says
-- of the source path and of the file is an argument; numbers that an `int64` holds are natural.
pub mod Passed
pub mod Queued
use Prim.Native.String.{◌++◌}
use transcoderd.Prelude.{
  ℕ, Bool, true, false, not, ◌&&◌, ◌||◌, Option, none, some, String, str_eq, ltb, ◌==◌,
  if◌then◌else◌,
}
use transcoderd.Model.Events.{Job}
use transcoderd.Server.Library.Paths.{
  MediaError, invalid_path, source_changed, os_fails, below_minimum, not_reviewed, stopped,
  valid_path, is_video_path, check_path,
}
use transcoderd.Server.Repository.Store.{Store, Result}
use transcoderd.Server.Scheduler.Intake.{JobRequest, Outside, schedule_job_request}
use transcoderd.Server.Scheduler.Search.{trim_ext, format_target_name}

-- The file as it was reviewed; `probe` is none without metadata or a probe in it.
pub record ReviewedFile : Type 0 where
  pub root : String
  pub path : String
  pub size : ℕ
  pub modified_ns : ℕ
  pub probe : Option String

pub record FileInfo : Type 0 where
  pub is_regular : Bool
  pub size : ℕ
  pub modified_ns : ℕ

-- What is found on disk: whether the source path opens, its links, and the opened file's information,
-- none where opening it or asking for that fails.
pub record Disk : Type 0 where
  pub fs_valid : String → Bool
  pub root_opens : Bool
  pub lstat : String → Option Bool
  pub stat : Option FileInfo

pub record Retries : Type 0 where
  pub retry_failed : Bool
  pub retry_canceled : Bool

unfoldable pub media_target : String → String
unfolding format_target_name trim_ext
media_target path =
    let target = format_target_name path in
    if str_eq target path then trim_ext path ++ "_encoded.mkv" else target

abbrev pub refused_info : ℕ → ReviewedFile → Option FileInfo → Option MediaError
refused_info min_size file none = some os_fails
refused_info min_size file (some info) =
    if not info.is_regular
      || not (info.size == file.size)
      || not (info.modified_ns == file.modified_ns)
    then some source_changed
    else if ltb info.size min_size
    then some below_minimum
    else none

abbrev pub or_else : Option MediaError → Option MediaError → Option MediaError
or_else (some e) next = some e
or_else none next = next

-- The first refusal before the metadata is looked at.
unfoldable pub media_refusal : Disk → ℕ → ReviewedFile → Option MediaError
media_refusal d min_size file =
    if not (str_eq file.root "source")
      || not (valid_path d.fs_valid file.path false)
      || not (is_video_path file.path)
    then some invalid_path
    else if not d.root_opens
    then some os_fails
    else or_else (check_path d.fs_valid d.lstat file.path false) (refused_info min_size file d.stat)

unfoldable pub media_request : ReviewedFile → Retries → String → JobRequest
unfolding media_target
media_request file retries probe = record {
  source_probe = some probe;
  source_path = file.path;
  force_completed = false;
  force_failed = retries.retry_failed;
  force_canceled = retries.retry_canceled;
  force_assigned = false;
  source_size = file.size;
  target_path = media_target file.path;
}

pub data Queueing : Type 0 where
  refused : MediaError → Queueing
  answered : Result Job → Queueing

abbrev pub answer_of : Store × Result Job → Store × Queueing
answer_of (s, r) = (s, answered r)

abbrev pub with_probe :
    Outside → ReviewedFile → Retries → Option MediaError → Option String → Store → Store × Queueing
with_probe o file retries (some e) probe s = (s, refused e)
with_probe o file retries none none s = (s, refused not_reviewed)
with_probe o file retries none (some probe) s =
    answer_of (schedule_job_request o false (media_request file retries probe) s)

unfoldable pub queue_media_file :
    Disk → ℕ → Outside → Bool → ReviewedFile → Retries → Store → Store × Queueing
unfolding media_refusal media_request
queue_media_file d min_size o is_stopped file retries s =
    if is_stopped
    then (s, refused stopped)
    else with_probe o file retries (media_refusal d min_size file) file.probe s
