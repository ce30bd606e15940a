-- ===== src/Server/Library.antt =====
-- server/library/operations.go: the background operations of the library, and the bulk queueing of
-- reviewed files. Times are in seconds. What happens outside at each file is an argument.

pub mod Paths
pub mod Selection
pub mod Bounded
pub mod Counted
use transcoderd.Prelude.{
  ℕ, suc, ◌+◌, Bool, true, false, not, ◌&&◌, ◌||◌, Option, none, some, List, [], ◌∷◌, ◌++◌, String,
  str_eq, ltb, leb, ◌==◌, if◌then◌else◌, length, keep,
}

pub record MediaFile : Type 0 where
  pub id : String
  pub path : String
  pub size : ℕ
  pub modified_ns : ℕ

pub data LoadState : Type 0 where
  scheduled skipped not_queued : LoadState

pub record MediaLoadResult : Type 0 where
  pub id : String
  pub path : String
  pub state : LoadState
  pub job_id : String
  pub message : String

pub data OperationState : Type 0 where
  running completed canceled failed : OperationState

pub record MediaOperation : Type 0 where
  pub id : String
  pub kind : String
  pub state : OperationState
  pub stage : String
  pub updated_at : ℕ
  pub target : ℕ
  pub candidates : ℕ
  pub examined : ℕ
  pub scheduled_files : ℕ
  pub skipped_files : ℕ
  pub failed_files : ℕ
  pub results : List MediaLoadResult
  pub error : String

abbrev pub still_running : MediaOperation → Bool
still_running op = elim op.state [ running ↦ true | _ ↦ false ]

-- Finished, and not touched for half an hour.
abbrev pub is_expired : ℕ → MediaOperation → Bool
is_expired now op = not (still_running op) && ltb (op.updated_at + 1800) now

unfoldable pub sweep : ℕ → List MediaOperation → List MediaOperation
sweep now = keep (λ op. not (is_expired now op))

unfoldable pub count_running : List MediaOperation → ℕ
count_running [] = 0
count_running (op ∷ ops) =
    let rest = count_running ops in if still_running op then suc rest else rest

abbrev pub older : MediaOperation → Option MediaOperation → Option MediaOperation
older op none = some op
older op (some o) = if ltb o.updated_at op.updated_at then some o else some op

-- The finished operation that was touched first.
unfoldable pub oldest_finished : List MediaOperation → Option MediaOperation
oldest_finished [] = none
oldest_finished (op ∷ ops) =
    let rest = oldest_finished ops in if still_running op then rest else older op rest

unfoldable pub delete : String → List MediaOperation → List MediaOperation
delete id [] = []
delete id (op ∷ ops) = let rest = delete id ops in if str_eq op.id id then rest else op ∷ rest

abbrev pub fresh : String → String → ℕ → MediaOperation
fresh id kind now = record {
  id = id;
  kind = kind;
  state = running;
  stage = "starting";
  updated_at = now;
  target = 0;
  candidates = 0;
  examined = 0;
  scheduled_files = 0;
  skipped_files = 0;
  failed_files = 0;
  results = [];
  error = "";
}

-- Where eight operations are kept, the oldest that is finished makes place.
abbrev pub evict : List MediaOperation → Option MediaOperation → Option (List MediaOperation)
evict ops none = none
evict ops (some oldest) = some (delete oldest.id ops)

abbrev pub make_room : List MediaOperation → Option (List MediaOperation)
make_room ops = if leb 8 (length ops) then evict ops (oldest_finished ops) else some ops

abbrev pub with_room :
    List MediaOperation
    → MediaOperation
    → Option (List MediaOperation)
    → List MediaOperation × Option MediaOperation
with_room swept op none = (swept, none)
with_room swept op (some ops) = (op ∷ ops, some op)

-- The operations that are left, and the new one; none where the library is busy.
unfoldable pub new_operation :
    String → String → ℕ → List MediaOperation → List MediaOperation × Option MediaOperation
unfolding sweep count_running oldest_finished delete
new_operation id kind now ops =
    let swept = sweep now ops in
    if leb 2 (count_running ops)
    then (swept, none)
    else with_room swept (fresh id kind now) (make_room swept)

-- How an operation ends: none is no error.
pub data Ending : Type 0 where
  context_done : Ending
  stopped_by : String → Ending

abbrev pub ended : Option Ending → MediaOperation → MediaOperation
ended none op = record op { state = completed; stage = "done" }
ended (some context_done) op = record op { state = canceled; stage = "done" }
ended (some (stopped_by error)) op = record op { state = failed; stage = "done"; error = error }

unfoldable pub finish : ℕ → Option Ending → MediaOperation → MediaOperation
finish now e op = record (ended e op) { updated_at = now }

-- What `annotate` finds of a file: an error, that it may be queued, or why not.
pub data Annotation : Type 0 where
  annotate_error : String → Annotation
  eligible : Annotation
  ineligible : String → Annotation

pub data Queued : Type 0 where
  queued : String → Queued
  unavailable : Queued
  rejected : String → Queued

-- What happens at one file of `load`, in the order in which it is asked for.
pub record Attempt : Type 0 where
  pub recorded_at : ℕ
  pub is_canceled : Bool
  pub current : Option MediaFile
  pub before : Annotation
  pub queue : Queued
  pub is_canceled_after : Bool
  pub after : Annotation

pub data Step : Type 0 where
  result : LoadState → String → String → Step
  stop : Ending → Step

abbrev pub gone : String
gone = "The file changed or is no longer available"

-- Another request may have taken the file in: then it is skipped.
abbrev pub latest_of : String → Annotation → Step
latest_of message (ineligible reason) = result skipped "" reason
latest_of message _ = result not_queued "" message

abbrev pub refused_of : Attempt → Queued → Step
refused_of a (queued job_id) = result scheduled job_id ""
refused_of a unavailable = result skipped "" gone
refused_of a (rejected message) = latest_of message a.after

abbrev pub queue_of : Attempt → Queued → Step
queue_of a (queued job_id) = result scheduled job_id ""
queue_of a q = if a.is_canceled_after then stop context_done else refused_of a q

abbrev pub annotated : Attempt → Annotation → Step
annotated a (annotate_error error) = stop (stopped_by error)
annotated a (ineligible reason) = result skipped "" reason
annotated a eligible = queue_of a a.queue

abbrev pub unchanged : MediaFile → Option MediaFile → Bool
unchanged f none = false
unchanged f (some c) = (c.size == f.size) && (c.modified_ns == f.modified_ns)

unfoldable pub attempt : MediaFile → Attempt → Step
attempt f a = if unchanged f a.current then annotated a a.before else result skipped "" gone

abbrev pub counted : LoadState → MediaOperation → MediaOperation
counted scheduled op = record op { scheduled_files = op.scheduled_files + 1 }
counted skipped op = record op { skipped_files = op.skipped_files + 1 }
counted not_queued op = record op { failed_files = op.failed_files + 1 }

abbrev pub is_scheduled : LoadState → Bool
is_scheduled scheduled = true
is_scheduled s = false

-- `update` with the result of a file, at a time.
unfoldable pub with_result :
    ℕ → MediaFile → LoadState → String → String → MediaOperation → MediaOperation
with_result now f state job_id message op = counted state (record op {
  updated_at = now;
  examined = op.examined + 1;
  results =
      op.results
      ++ (record { id = f.id; path = f.path; state = state; job_id = job_id; message = message }
          ∷ []);
})

-- One file of the loop: canceled, the target reached, stopped, or its result and the other files.
abbrev pub file_done :
    MediaOperation
    → Bool
    → Bool
    → Step
    → (LoadState → String → String → MediaOperation × Option Ending)
    → MediaOperation × Option Ending
file_done op true is_full s go = (op, some context_done)
file_done op false true s go = (op, none)
file_done op false false (stop e) go = (op, some e)
file_done op false false (result state job_id message) go = go state job_id message

-- The loop over the files, with how many are scheduled.
unfoldable pub load :
    ℕ → ℕ → MediaOperation → List (MediaFile × Attempt) → MediaOperation × Option Ending
unfolding attempt with_result
load target n op [] = (op, none)
load target n op (entry ∷ rest) =
    file_done op entry.1.is_canceled (leb target n) (attempt entry.0 entry.1)
      (λ state job_id message.
        load target (if is_scheduled state then suc n else n)
          (with_result entry.1.recorded_at entry.0 state job_id message op) rest)
