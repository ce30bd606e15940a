-- ===== src/Server/Repository/Statements.antt =====
-- Programs over the tables keep their invariant: the rules for the monad's forms.
use transcoderd.Prelude.{ℕ}
use transcoderd.Model.Events.{TaskEvent, Job}
use transcoderd.Server.Repository.Store.{
  Store, Error, Result, ok, err, M, bind_result, pure, fail, query, ◌>>=◌, roll_back,
  with_transaction,
}
use transcoderd.Server.Repository.Commands.{add_new_task_event, add_job, update_job}
use transcoderd.Server.Repository.Invariant.{
  IsConsistent, add_new_task_event-IsConsistent, add_job-IsConsistent, update_job-IsConsistent,
}

-- From consistent tables the program leaves consistent tables, in failure too.
pub data Keeps {A : Type 0} (m : M A) : Type 0 where
  keeps : ((s : Store) → IsConsistent s → IsConsistent (m s).0) → Keeps m

pub run_Keeps :
    {A : Type 0} {m : M A} → Keeps m → (s : Store) → IsConsistent s → IsConsistent (m s).0
run_Keeps (keeps f) = f

after_bind :
    {A B : Type 0} (r : Store × Result A) (f : A → M B)
    → IsConsistent r.0
    → ((a : A) → Keeps (f a))
    → IsConsistent (bind_result r f).0
after_bind (s, ok a) f h k = run_Keeps (k a) s h
after_bind (s, err e) f h k = h

pub Keeps-bind :
    {A B : Type 0} {m : M A} {f : A → M B} → Keeps m → ((a : A) → Keeps (f a)) → Keeps (m >>= f)
Keeps-bind {m = m} {f = f} (keeps g) k = keeps (λ s h. after_bind (m s) f (g s h) k)

pub Keeps-query : {A : Type 0} (f : Store → Result A) → Keeps (query f)
Keeps-query f = keeps (λ s h. h)

pub Keeps-pure : {A : Type 0} (a : A) → Keeps (pure a)
Keeps-pure a = keeps (λ s h. h)

pub Keeps-fail : {A : Type 0} (e : Error) → Keeps (fail {A = A} e)
Keeps-fail e = keeps (λ s h. h)

after_roll_back :
    {A : Type 0} (s : Store) (r : Store × Result A)
    → IsConsistent s
    → IsConsistent r.0
    → IsConsistent (roll_back s r).0
after_roll_back s (t, ok a) h k = k
after_roll_back s (t, err e) h k = h

pub Keeps-transaction : {A : Type 0} {m : M A} → Keeps m → Keeps (with_transaction m)
unfolding with_transaction
Keeps-transaction {m = m} (keeps g) = keeps (λ s h. after_roll_back s (m s) h (g s h))

pub Keeps-event : (now : ℕ) (e : TaskEvent) → Keeps (add_new_task_event now e)
Keeps-event now e = keeps (λ s h. add_new_task_event-IsConsistent now e s h)

pub Keeps-add_job : (v : Job) → Keeps (add_job v)
Keeps-add_job v = keeps (λ s h. add_job-IsConsistent v s h)

pub Keeps-update_job : (v : Job) → Keeps (update_job v)
Keeps-update_job v = keeps (λ s h. update_job-IsConsistent v s h)

pub ruleset statements = (
  Keeps-bind, Keeps-query, Keeps-pure, Keeps-fail, Keeps-transaction, Keeps-event, Keeps-add_job,
  Keeps-update_job,
)
