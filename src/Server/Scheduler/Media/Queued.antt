-- ===== src/Server/Scheduler/Media/Queued.antt =====
-- What server/scheduler/media.go queues of the reviewed files.

use transcoderd.Prelude.{ℕ, ◌≡◌, ◌≢◌, refl, Bool, true, false, Option, none, some, String, arith}
use transcoderd.Model.Events.{TaskEvent, Job, job, queued}
use transcoderd.Server.Library.Paths.{MediaError}
use transcoderd.Server.Repository.Store.{Store, Error, Result, ok, err, roll_back, with_transaction}
use transcoderd.Server.Repository.Queries.{has_status}
use transcoderd.Server.Repository.Invariant.{status_row}
use transcoderd.Server.Scheduler.Intake.{
  JobRequest, Outside, schedule_in_transaction, schedule_job_request,
}
use transcoderd.Server.Scheduler.Intake.Outcome.{schedule_job_request-queued}
use transcoderd.Server.Scheduler.Media.{
  ReviewedFile, Disk, Retries, media_target, media_refusal, media_request, Queueing, refused,
  answered, with_probe, queue_media_file,
}
use transcoderd.Server.Scheduler.Media.Passed.{Passes, media_target-differs, media_refusal-Passes}

roll_back-err :
    {A : Type 0} (s t : Store) (x : Store × Result A) (e : Error)
    → roll_back s x ≡ (t, err e)
    → t ≡ s
roll_back-err s t (u, ok a) e h = absurd (ground (arith, h))
roll_back-err s t (u, err x) e h = ground (arith, h)

-- What the intake says of the request that is made.
pub data Answer (r : JobRequest) (s t : Store) : Result Job → Type 0 where
  fails : (e : Error) → t ≡ s → Answer r s t (err e)
  queues :
      (v : Job)
      → (row : TaskEvent) → status_row v.id t ≡ some row
      → has_status job queued row ≡ true
      → Answer r s t (ok v)

intake-Answer :
    (o : Outside) (r : JobRequest) (s t : Store) (a : Result Job)
    → schedule_job_request o false r s ≡ (t, a)
    → Answer r s t a
unfolding schedule_job_request with_transaction
intake-Answer o r s t (err e) h = fails e (roll_back-err s t (schedule_in_transaction o r s) e h)
intake-Answer o r s t (ok v) h =
    let (row, e, waits) = schedule_job_request-queued o false r s t v h in queues v row e waits

pub data Guarded (d : Disk) (min_size : ℕ) (file : ReviewedFile) (retries : Retries) (s t : Store)
    : Queueing → Type 0 where
  keeps : (e : MediaError) → t ≡ s → Guarded d min_size file retries s t (refused e)
  asks :
      (probe : String) (a : Result Job)
      → Passes d min_size file
      → file.probe ≡ some probe
      → media_target file.path ≢ file.path
      → Answer (media_request file retries probe) s t a
      → Guarded d min_size file retries s t (answered a)

-- `QueueMediaFile` either refuses the file, and then changes nothing, or makes a request for a
-- video of the source root that is there as it was reviewed, large enough, with a probe, under a
-- valid path without hidden names and symbolic links; its target is another path, and the job is
-- then queued, or nothing changes.
pub queue_media_file-Guarded :
    (d : Disk) (min_size : ℕ) (o : Outside) (is_stopped : Bool) (file : ReviewedFile)
    (retries : Retries) (s : Store)
    → let (t, q) = queue_media_file d min_size o is_stopped file retries s in
      Guarded d min_size file retries s t q
unfolding queue_media_file
queue_media_file-Guarded d min_size o true file retries s = keeps _ refl
queue_media_file-Guarded d min_size o false file retries s =
    by_refusal (media_refusal d min_size file) refl file.probe refl
  where
    by_refusal :
        (refusal : Option MediaError)
        → media_refusal d min_size file ≡ refusal
        → (probe : Option String) → file.probe ≡ probe
        → let (t, q) = with_probe o file retries refusal probe s in
          Guarded d min_size file retries s t q
    by_refusal (some e) k probe p = keeps e refl
    by_refusal none k none p = keeps _ refl
    by_refusal none k (some probe) p =
        let passes = media_refusal-Passes d min_size file k in
        asks probe _ passes p (media_target-differs file.path passes.video)
          (intake-Answer o (media_request file retries probe) s _ _ refl)
