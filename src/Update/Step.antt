-- ===== src/Update/Step.antt =====
-- update/managed/manager.go: `Step` and `ClearCompleted`. Old downloads that `ClearCompleted` removes are
-- not modelled.
use transcoderd.Prelude.{
  ℕ, ◌+◌, Bool, true, false, ◌&&◌, ◌||◌, Option, none, some, String, str_eq, leb, if◌then◌else◌,
}
use transcoderd.Prelude.Int.{pos}
use transcoderd.Update.Manifest.{Candidate, Manifest, Reply, reply, refusal, verify}
use transcoderd.Update.Manager.{
  State, Transaction, Loaded, absent, loaded, unreadable, Machine, Host, Outcome, recover_call,
  active, ended, failure, set_then,
}
use transcoderd.Update.Fetch.{proceed}

abbrev pub supersedes : Host → Manifest → Reply Manifest → Bool
supersedes h manifest (refusal error) = true
supersedes h manifest (reply old) = h.newer manifest.version old.version

abbrev pub select_new : Host → Manifest → Option Candidate → Bool
select_new h manifest none = true
select_new h manifest (some c) = supersedes h manifest (verify h.keys c)

abbrev pub selected : Candidate → Manifest → State → State
selected c manifest s = record s {
  candidate = some c;
  target_version = manifest.version;
  total = manifest.installer.size;
  downloaded = pos 0;
  attempts = 0;
  pending = true;
  phase = "pending";
  message = "New jobs are blocked while the mandatory update completes.";
  next_retry = none;
}

abbrev pub current : State → State
current s = record s {
  phase = "current";
  message = "Your installation is up to date.";
  next_retry = none;
  attempts = 0;
}

abbrev pub offered : Host → Option (Candidate × Manifest) → State → State
offered h none s = s
offered h (some (c, manifest)) s =
    if select_new h manifest s.candidate then selected c manifest s else s

abbrev pub or_current : State → State
or_current s = if s.pending then s else current s

abbrev pub checked :
    Host → ℕ → Bool → State → Machine → Reply (Option (Candidate × Manifest)) → Outcome
checked h now retry_due s m (refusal error) = failure h s error now m
checked h now retry_due s m (reply offer) =
    set_then h now (or_current (offered h offer s)) m
      (proceed h now retry_due (or_current (offered h offer s)))

abbrev pub is_due : Option ℕ → ℕ → Bool
is_due none now = true
is_due (some time) now = leb time now

abbrev pub is_stale : Option ℕ → ℕ → ℕ → Bool
is_stale none interval now = true
is_stale (some time) interval now = leb (time + interval) now

abbrev pub checks : Host → ℕ → Bool → State → Bool
checks h now force s =
    force
    || (is_due s.next_retry now
        && (is_stale s.last_check h.interval now || str_eq s.phase "retrying"))

abbrev pub looking : Host → ℕ → Bool → State → Machine → Bool → Outcome
looking h now retry_due s m true =
    checked h now retry_due (record s { last_check = some now }) m h.check
looking h now retry_due s m false = proceed h now retry_due s m

unfoldable pub look_for_releases : Host → ℕ → Bool → State → Machine → Outcome
unfolding proceed failure set_then
look_for_releases h now force s m =
    looking h now (is_due s.next_retry now) s m (checks h now force s)

abbrev pub read_state : Loaded State → State
read_state (loaded s) = s
read_state _ = record {
  pending = false;
  phase = "";
  target_version = "";
  installed_version = "";
  downloaded = pos 0;
  total = pos 0;
  next_retry = none;
  last_check = none;
  message = "";
  attempts = 0;
  candidate = none;
}

abbrev pub cleared : String → State → State
cleared version s = record s {
  pending = false;
  phase = "updated";
  installed_version = version;
  target_version = version;
  message = "The complete installation was updated successfully.";
  next_retry = none;
  attempts = 0;
  candidate = none;
}

abbrev pub after_clearing : Host → State → Machine → Option String → Outcome
after_clearing h s m (some error) = ended m (some error)
after_clearing h s m none = ended (record m { saved = loaded s }) h.list_error

abbrev pub clear_saved : Host → State → Machine → Outcome
clear_saved h s m = after_clearing h s m (h.save_error s)

abbrev pub clear_read : Host → Machine → Loaded State → Outcome
clear_read h m (unreadable error) = ended m (some error)
clear_read h m d = clear_saved h (cleared h.version (read_state d)) m

unfoldable pub clear_completed : Host → Machine → Outcome
clear_completed h m = clear_read h m m.saved

abbrev pub same_candidate : Candidate → Option Candidate → Bool
same_candidate c none = true
same_candidate c (some d) = str_eq d.content c.content && str_eq d.signature c.signature

abbrev pub same_pending : State → Transaction → Manifest → Bool
same_pending s t manifest =
    str_eq s.target_version manifest.version && same_candidate t.candidate s.candidate

abbrev pub if_same : Host → ℕ → Bool → State → Machine → Bool → Outcome
if_same h now force s m true = clear_completed h m
if_same h now force s m false = look_for_releases h now force s m

abbrev pub committed :
    Host → ℕ → Bool → State → Machine → Transaction → Manifest → Option String → Outcome
committed h now force s m t manifest (some error) = failure h s error now m
committed h now force s m t manifest none =
    if_same h now force s m (h.same_version h.version manifest.version && same_pending s t manifest)

abbrev pub commit_verified :
    Host → ℕ → Bool → State → Machine → Transaction → Reply Manifest → Outcome
commit_verified h now force s m t (refusal error) = failure h s error now m
commit_verified h now force s m t (reply manifest) =
    committed h now force s m t manifest (h.parse_error h.version)

abbrev pub recovering : State → Transaction → State
recovering s t = record s {
  pending = true;
  phase = t.phase;
  message = if str_eq t.error "" then s.message else t.error;
}

abbrev pub recovered : Transaction → Machine → Option (Transaction → Option String) → Outcome
recovered t m none = ended m none
recovered t m (some recover) = record {
  machine = m;
  error = recover t;
  call = some (recover_call t);
}

abbrev pub with_idle : Host → ℕ → Bool → State → Machine → Transaction → Bool → Outcome
with_idle h now force s m t true = commit_verified h now force s m t (verify h.keys t.candidate)
with_idle h now force s m t false = look_for_releases h now force s m

abbrev pub with_loaded : Host → ℕ → Bool → State → Machine → Transaction → Bool → Outcome
with_loaded h now force s m t true = recovered t (record m { memory = recovering s t }) h.recover
with_loaded h now force s m t false =
    with_idle h now force s m t (str_eq t.phase "completed" && s.pending)

abbrev pub for_transaction : Host → ℕ → Bool → State → Machine → Loaded Transaction → Outcome
for_transaction h now force s m (unreadable error) =
    failure h (record s { pending = true }) error now m
for_transaction h now force s m absent = look_for_releases h now force s m
for_transaction h now force s m (loaded t) = with_loaded h now force s m t (active t)

abbrev pub from_disk : Host → ℕ → Bool → Machine → State → Bool → Outcome
from_disk h now force m d true = for_transaction h now force m.memory m m.transaction
from_disk h now force m d false =
    let s = record d { installed_version = h.version } in
    for_transaction h now force s (record m { memory = s }) m.transaction

abbrev pub from_saved : Host → ℕ → Bool → Machine → Loaded State → Outcome
from_saved h now force m (unreadable error) =
    failure h (record m.memory { pending = true }) error now m
from_saved h now force m absent = from_disk h now force m (read_state absent) true
from_saved h now force m (loaded d) = from_disk h now force m d (str_eq d.phase "")

unfoldable pub step : Host → ℕ → Bool → Machine → Outcome
unfolding look_for_releases clear_completed active failure
step h now force m = from_saved h now force m m.saved
