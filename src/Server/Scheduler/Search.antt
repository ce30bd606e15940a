-- ===== src/Server/Scheduler/Search.antt =====
-- server/scheduler/scheduler.go: the files of a requested directory become job requests, one by one.
-- `filepath.Walk` visits a tree of files in the order of their names, which is the order here; the
-- walk is not cancelled.
pub mod Targets
pub mod Walked
pub mod Scheduled
use Prim.Native.Char.{Char, code}
use Prim.Native.String.{◌++◌}
use transcoderd.Prelude.{
  ◌≡◌, refl, ℕ, suc, Bool, true, false, not, Option, none, some, List, [], ◌∷◌, ◌++◌ as ◌+++◌,
  String, str_eq, ltb, ◌==◌, if◌then◌else◌, map,
}
use transcoderd.Model.Events.{Job}
use transcoderd.Server.Files.Paths.{FilePath, join, path_eq, relative}
use transcoderd.Server.Files.Names.{split_ext}
use transcoderd.Server.Repository.Store.{Store, Error, Result, ok, err}
use transcoderd.Server.Scheduler.Naming.{Phase, at_start, replace_audio, replace_video, split_path}
use transcoderd.Server.Scheduler.Intake.{JobRequest, Outside, schedule_job_request}

-- The text after a prefix, if it begins with that.
unfoldable pub cut_prefix : String → String → Option String
cut_prefix String.[] s = some s
cut_prefix (String.◌∷◌ p ps) String.[] = none
cut_prefix (String.◌∷◌ p ps) (String.◌∷◌ c s) =
    let rest = cut_prefix ps s in if code p == code c then rest else none

abbrev pub in_front : Char → Option String → Option String
in_front c none = none
in_front c (some s) = some (String.◌∷◌ c s)

abbrev pub or_later : Option String → String → Option String → Option String
or_later later new none = later
or_later later new (some rest) = some (new ++ rest)

-- `strings.Replace` of the first occurrence, none without one.
unfoldable pub replace_found : String → String → String → Option String
unfolding cut_prefix
replace_found old new String.[] = or_later none new (cut_prefix old "")
replace_found old new (String.◌∷◌ c s) =
    or_later (in_front c (replace_found old new s)) new (cut_prefix old (String.◌∷◌ c s))

abbrev pub or_same : String → Option String → String
or_same s none = s
or_same s (some t) = t

unfoldable pub replace_first : String → String → String → String
unfolding replace_found
replace_first old new s = or_same s (replace_found old new s)

-- `filepath.Ext`, which looks at the last name of a path.
unfoldable pub path_ext : String → String
unfolding split_path split_ext
path_ext path = (split_ext (split_path path).1).1

-- `TrimSuffix` with `Ext`.
unfoldable pub trim_ext : String → String
unfolding split_path split_ext
trim_ext path = (split_path path).0 ++ (split_ext (split_path path).1).0

unfoldable pub format_target_name : String → String
unfolding replace_first path_ext replace_audio replace_video
format_target_name path =
    let p = replace_audio 0 (replace_video "x265" at_start path) in
    replace_first (path_ext p) ".mkv" p

-- A target that would be the source itself.
unfoldable pub target_path : String → String
unfolding format_target_name replace_first path_ext
target_path source =
    let target = format_target_name source in
    if str_eq target source then replace_first (path_ext target) "_encoded.mkv" target else target

abbrev pub valid_extensions : List String
valid_extensions =
    "mp4" ∷ "mpg" ∷ "m4a" ∷ "m4v" ∷ "f4v" ∷ "f4a" ∷ "m4b" ∷ "m4r" ∷ "f4b" ∷ "mov " ∷ "ogg" ∷ "oga"
    ∷ "ogv" ∷ "ogx " ∷ "wmv" ∷ "wma" ∷ "asf " ∷ "webm" ∷ "avi" ∷ "flv" ∷ "vob " ∷ "mkv" ∷ []

unfoldable pub valid_extension : List String → String → Bool
valid_extension [] extension = false
valid_extension (x ∷ xs) extension =
    let rest = valid_extension xs extension in if str_eq extension x then true else rest

pub data FileProblem : Type 0 where
  too_small : FileProblem
  invalid_extension : String → FileProblem

pub record JobRequestResult : Type 0 where
  pub job_request : JobRequest
  pub errors : List FileProblem

unfoldable pub request_of : JobRequest → String → ℕ → JobRequest
unfolding target_path
request_of parent relative size = record {
  source_probe = none;
  source_path = relative;
  force_completed = parent.force_completed;
  force_failed = parent.force_failed;
  force_canceled = false;
  force_assigned = parent.force_assigned;
  source_size = size;
  target_path = target_path relative;
}

abbrev pub problems : ℕ → ℕ → String → List FileProblem
problems min_size size extension =
    (if ltb size min_size then too_small ∷ [] else [])
    +++ (if valid_extension valid_extensions extension
        then []
        else invalid_extension extension ∷ [])

-- What the walk reads of `Config`.
pub record SearchConfig : Type 0 where
  pub source_path : FilePath
  pub min_file_size : ℕ

-- A name without an extension has no `[1:]`: the slice panics, which is none.
abbrev pub with_extension : ℕ → JobRequest → String → ℕ → String → Option (List JobRequestResult)
with_extension min_size parent relative size String.[] = none
with_extension min_size parent relative size (String.◌∷◌ dot extension) = some (
    record {
      job_request = request_of parent relative size;
      errors = problems min_size size extension;
    }
    ∷ [])

-- The path of a file, below the source path.
unfoldable pub search_file :
    SearchConfig → JobRequest → FilePath → String → ℕ → Option (List JobRequestResult)
unfolding split_ext valid_extension request_of
search_file config parent path name size =
    with_extension config.min_file_size parent (relative config.source_path path) size
      (split_ext name).1

-- A tree of files, with their sizes.
mutual
  pub data Entry : Type 0 where
    file : String → ℕ → Entry
    directory : String → Entries → Entry

  pub data Entries : Type 0 where
    nothing : Entries
    entry : Entry → Entries → Entries

abbrev pub both {ℓ} : {A : Type ℓ} → Option (List A) → Option (List A) → Option (List A)
both none l = none
both (some k) none = none
both (some k) (some l) = some (k +++ l)

abbrev pub unless_uploads {ℓ} :
    {A : Type ℓ} → SearchConfig → FilePath → Option (List A) → Option (List A)
unless_uploads config at l =
    if path_eq at (join config.source_path ".transcoderd-upload") then some [] else l

-- The results for a tree below a directory, none where the walk panics.
unfoldable mutual
  pub search : SearchConfig → JobRequest → FilePath → Entry → Option (List JobRequestResult)
  search config parent at (file name size) = search_file config parent (name ∷ at) name size
  search config parent at (directory name entries) =
      let below = search_all config parent (name ∷ at) entries in
      unless_uploads config (name ∷ at) below

  pub search_all : SearchConfig → JobRequest → FilePath → Entries → Option (List JobRequestResult)
  search_all config parent at nothing = some []
  search_all config parent at (entry e entries) =
      both (search config parent at e) (search_all config parent at entries)

-- The requested path itself, joined to the source path.
unfoldable pub search_root : SearchConfig → JobRequest → Entry → Option (List JobRequestResult)
unfolding search_file search search_all join
search_root config parent (file name size) =
    search_file config parent (join config.source_path parent.source_path) name size
search_root config parent (directory name entries) =
    let at = join config.source_path parent.source_path in
    unless_uploads config at (search_all config parent at entries)

pub data JobFailure : Type 0 where
  not_a_job : List FileProblem → JobFailure
  not_scheduled : Error → JobFailure

-- `errors.Is(err, ErrorFileSkipped)` holds of no error of the intake, so no file is skipped.
pub record ScheduleResult : Type 0 where
  pub scheduled_jobs : List Job
  pub failed_job_request : List (JobRequest × JobFailure)

abbrev pub add_job_of : Result Job → JobRequest → ScheduleResult → ScheduleResult
add_job_of (ok v) r result = record result {
  scheduled_jobs = record v { events = [] } ∷ result.scheduled_jobs;
}
add_job_of (err e) r result = record result {
  failed_job_request = (r, not_scheduled e) ∷ result.failed_job_request;
}

-- The results of the files after the first, behind its own.
abbrev pub scheduled_first :
    JobRequest → Store × Result Job → (Store → Store × ScheduleResult) → Store × ScheduleResult
scheduled_first r (s, answer) rest = let (t, result) = rest s in (t, add_job_of answer r result)

abbrev pub no_results : ScheduleResult
no_results = record { scheduled_jobs = []; failed_job_request = [] }

abbrev pub add_failure :
    JobRequest → List FileProblem → Store × ScheduleResult → Store × ScheduleResult
add_failure r problems (s, result) =
    (s, record result { failed_job_request = (r, not_a_job problems) ∷ result.failed_job_request })

abbrev pub schedule_one :
    Outside
    → JobRequest
    → List FileProblem
    → Store
    → (Store → Store × ScheduleResult)
    → Store × ScheduleResult
schedule_one o r [] s rest = scheduled_first r (schedule_job_request o false r s) rest
schedule_one o r (p ∷ ps) s rest = add_failure r (p ∷ ps) (rest s)

-- The loop over the results of the search; `outside` is what each request takes from outside.
unfoldable pub schedule_results :
    (ℕ → Outside) → ℕ → List JobRequestResult → Store → Store × ScheduleResult
unfolding schedule_job_request
schedule_results outside n [] s = (s, no_results)
schedule_results outside n (x ∷ rest) s =
    schedule_one (outside n) x.job_request x.errors s (schedule_results outside (suc n) rest)

-- A panic ends the server; which of the files before it were scheduled is left open.
pub data Requested : Type 0 where
  no_such_path : Requested
  server_panics : Requested
  requested : Store → ScheduleResult → Requested

abbrev pub requested_of : Option (Store × ScheduleResult) → Requested
requested_of none = server_panics
requested_of (some (s, result)) = requested s result

abbrev pub scheduled_all :
    (ℕ → Outside) → Option (List JobRequestResult) → Store → Option (Store × ScheduleResult)
scheduled_all outside none s = none
scheduled_all outside (some results) s = some (schedule_results outside 0 results s)

-- `root` is what is at the requested path.
unfoldable pub schedule_job_requests :
    (ℕ → Outside) → SearchConfig → JobRequest → Option Entry → Store → Requested
unfolding schedule_results search_root
schedule_job_requests outside config parent none s = no_such_path
schedule_job_requests outside config parent (some root) s =
    requested_of (scheduled_all outside (search_root config parent root) s)

-- The first occurrence of the extension may be in the name of a directory.
replaced_in_directory : format_target_name "shows.avi/clip.avi" ≡ "shows.mkv/clip.avi"
unfolding format_target_name
replaced_in_directory = refl

-- Some of the valid extensions end with a space.
mov_is_invalid : valid_extension valid_extensions "mov" ≡ false
unfolding valid_extension
mov_is_invalid = refl
