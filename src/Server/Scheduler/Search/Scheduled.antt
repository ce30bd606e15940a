-- ===== src/Server/Scheduler/Search/Scheduled.antt =====
-- server/scheduler/scheduler.go: what becomes of the results of a search.
use transcoderd.Prelude.{
  ℕ, suc, ◌+◌, ◌≡◌, refl, ap, Bool, true, false, List, [], ◌∷◌, length, keep, map, arith,
}
use transcoderd.Model.Events.{Job}
use transcoderd.Server.Repository.Store.{Store, Result, ok, err}
use transcoderd.Server.Repository.Statements.{run_Keeps}
use transcoderd.Server.Repository.Invariant.{IsConsistent}
use transcoderd.Server.Scheduler.Intake.{JobRequest, Outside, schedule_job_request}
use transcoderd.Server.Scheduler.Intake.Outcome.{Keeps-schedule_job_request}
use transcoderd.Server.Scheduler.Search.{
  JobRequestResult, FileProblem, JobFailure, not_a_job, not_scheduled, ScheduleResult, add_job_of,
  schedule_one, schedule_results,
}

abbrev pub has_problems : JobRequestResult → Bool
has_problems x = elim x.errors [ [] ↦ false | p ∷ ps ↦ true ]

abbrev pub is_refused : JobRequest × JobFailure → Bool
is_refused (r, not_a_job problems) = true
is_refused (r, not_scheduled e) = false

-- The results and what became of them: consistent tables, as many jobs and failures as results, and
-- the requests that were refused for problems with their files, in order.
pub record Accounted (results : List JobRequestResult) (t : Store) (result : ScheduleResult)
    : Type 0 where
  pub consistent : IsConsistent t
  pub counted : length result.scheduled_jobs + length result.failed_job_request ≡ length results
  pub refused :
      map (λ f. f.0) (keep is_refused result.failed_job_request)
      ≡ map (λ x. x.job_request) (keep has_problems results)

scheduled_first-Accounted :
    (x : JobRequestResult) (results : List JobRequestResult) (answer : Result Job) (u : Store)
    (result : ScheduleResult)
    → x.errors ≡ []
    → Accounted results u result
    → Accounted (x ∷ results) u (add_job_of answer x.job_request result)
scheduled_first-Accounted x results (ok v) u result e h = record {
  consistent = h.consistent;
  counted = omega (arith, h.counted);
  refused = rw e h.refused;
}
scheduled_first-Accounted x results (err error) u result e h = record {
  consistent = h.consistent;
  counted = omega (arith, h.counted);
  refused = rw e h.refused;
}

one-Accounted :
    (o : Outside) (x : JobRequestResult) (results : List JobRequestResult)
    (rest : Store → Store × ScheduleResult)
    → ((t : Store) → IsConsistent t → Accounted results (rest t).0 (rest t).1)
    → (s : Store) → IsConsistent s
    → (problems : List FileProblem) → x.errors ≡ problems
    → let (t, result) = schedule_one o x.job_request problems s rest in
      Accounted (x ∷ results) t result
one-Accounted o x results rest h s c [] e =
    let kept = run_Keeps (Keeps-schedule_job_request o false x.job_request) s c in
    scheduled_first-Accounted x results (schedule_job_request o false x.job_request s).1 _ _ e
      (h _ kept)
one-Accounted o x results rest h s c (p ∷ ps) e =
    let k = h s c in
    record {
      consistent = k.consistent;
      counted = omega (arith, k.counted);
      refused = rw e (ap (λ l. x.job_request ∷ l) k.refused);
    }

-- From consistent tables the loop over the results of a search ends with consistent tables, and
-- adds exactly one job or failure for each result; the failures that did not reach the tables are
-- those of the results with problems, in order.
pub schedule_results-Accounted :
    (outside : ℕ → Outside) (n : ℕ) (results : List JobRequestResult) (s : Store)
    → IsConsistent s
    → let (t, result) = schedule_results outside n results s in Accounted results t result
unfolding schedule_results
schedule_results-Accounted outside n [] s c = record {
  consistent = c;
  counted = refl;
  refused = refl;
}
schedule_results-Accounted outside n (x ∷ rest) s c =
    one-Accounted (outside n) x rest (schedule_results outside (suc n) rest)
      (λ t k. schedule_results-Accounted outside (suc n) rest t k) s c x.errors refl
