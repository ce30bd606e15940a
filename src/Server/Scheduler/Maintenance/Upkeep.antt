-- ===== src/Server/Scheduler/Maintenance/Upkeep.antt =====
-- What the maintenance of server/scheduler/scheduler.go keeps, and what it removes.
use transcoderd.Prelude.{ℕ, Bool, true, false, not, List, [], ◌∷◌, String, if◌then◌else◌}
use transcoderd.Model.Events.{job, queued, failed, TaskEvent, Job, is_assigned}
use transcoderd.Server.Repository.Store.{Store, ok, M}
use transcoderd.Server.Repository.Queries.{get_job, get_jobs_by_status, get_timeout_jobs}
use transcoderd.Server.Repository.Invariant.{IsConsistent}
use transcoderd.Server.Repository.Statements.{
  Keeps, run_Keeps, Keeps-bind, Keeps-query, Keeps-pure, Keeps-event,
}
use transcoderd.Server.Scheduler.Intake.{JobRequest, Outside}
use transcoderd.Server.Scheduler.Intake.Outcome.{Keeps-schedule_job_request}
use transcoderd.Server.Scheduler.Failures.{verify_failure_message}
use transcoderd.Server.Scheduler.Maintenance.{
  for_each, fail_missing, queued_job_maintenance, retry_failed, retry_assigned, reschedule,
  retry_or_cancel, failed_job_maintenance, restart, restart_timed_out, assigned_job_maintenance,
  job_maintenance,
}

Keeps-if : {A : Type 0} (b : Bool) {m n : M A} → Keeps m → Keeps n → Keeps (if b then m else n)
Keeps-if true k l = k
Keeps-if false k l = l

Keeps-for_each {ℓ} :
    {A : Type ℓ} (f : A → M (Unit {0})) (xs : List A)
    → ((x : A) → Keeps (f x))
    → Keeps (for_each f xs)
unfolding for_each
Keeps-for_each f [] k = Keeps-pure tt
Keeps-for_each f (x ∷ xs) k = Keeps-bind (k x) λ _. Keeps-for_each f xs k

Keeps-fail_missing :
    (now : ℕ) (exists : String → Bool) (v : Job) → Keeps (fail_missing now exists v)
unfolding fail_missing
Keeps-fail_missing now exists v =
    Keeps-if (exists v.source_path) (Keeps-pure tt) (Keeps-event now _)

Keeps-reschedule : (o : Outside) (stopped : Bool) (r : JobRequest) → Keeps (reschedule o stopped r)
unfolding reschedule
Keeps-reschedule o stopped r =
    Keeps-bind (Keeps-schedule_job_request o stopped r) λ _. Keeps-pure tt

Keeps-retry_or_cancel :
    (o : Outside) (stopped : Bool) (v : Job) → Keeps (retry_or_cancel o stopped v)
unfolding retry_or_cancel
Keeps-retry_or_cancel o stopped v =
    Keeps-if (not (verify_failure_message v.status_message)) (Keeps-pure tt)
      (Keeps-if _ (Keeps-event o.now _) (Keeps-reschedule o stopped (retry_failed v)))

Keeps-restart_timed_out :
    (o : Outside) (stopped : Bool) (e : TaskEvent) → Keeps (restart_timed_out o stopped e)
unfolding restart_timed_out restart
Keeps-restart_timed_out o stopped e =
    Keeps-if (is_assigned e)
      (Keeps-bind (Keeps-query (get_job e.job_id))
        λ v. Keeps-reschedule o stopped (retry_assigned v))
      (Keeps-pure tt)

Keeps-job_maintenance :
    (o : Outside) (timeout : ℕ) (stopped : Bool) (exists : String → Bool)
    → Keeps (job_maintenance o timeout stopped exists)
unfolding job_maintenance queued_job_maintenance failed_job_maintenance assigned_job_maintenance
Keeps-job_maintenance o timeout stopped exists =
    Keeps-bind
      (Keeps-bind (Keeps-query (λ s. ok (get_jobs_by_status job queued s)))
        λ jobs. Keeps-for_each (fail_missing o.now exists) jobs (Keeps-fail_missing o.now exists))
      λ _.
        Keeps-bind
          (Keeps-bind (Keeps-query (λ s. ok (get_jobs_by_status job failed s))) λ jobs.
            Keeps-for_each (retry_or_cancel o stopped) jobs (Keeps-retry_or_cancel o stopped))
          λ _. Keeps-bind (Keeps-query (λ s. ok (get_timeout_jobs o.now timeout s))) λ events.
            Keeps-for_each (restart_timed_out o stopped) events (Keeps-restart_timed_out o stopped)

-- A round of the job maintenance that starts from consistent tables leaves consistent tables, also
-- where it stops with an error.
pub job_maintenance-IsConsistent :
    (o : Outside) (timeout : ℕ) (stopped : Bool) (exists : String → Bool) (s : Store)
    → IsConsistent s
    → IsConsistent (job_maintenance o timeout stopped exists s).0
job_maintenance-IsConsistent o timeout stopped exists =
    run_Keeps (Keeps-job_maintenance o timeout stopped exists)
