-- ===== src/Worker/Pause.antt =====
-- helper/command/pause.go: suspending the encoding processes of a worker. The map of processes is a
-- list in the order in which the loop meets them, any order at all. Whether the system call on a
-- process succeeds is an argument, `set`, of the process and of the state asked for.
pub mod Transition
pub mod Held
pub mod Holds
use transcoderd.Prelude.{
  ℕ, suc, ◌+◌, Bool, true, false, not, ◌&&◌, ◌||◌, Option, none, some, List, [], ◌∷◌, ◌++◌, String,
  str_eq, ◌==◌, if◌then◌else◌, any, keep,
}

-- `active` is none for a process that cannot be asked, and else what it answers.
pub data Activity : Type 0 where
  unasked : Activity
  running : Activity
  exited : Activity
  inspection_fails : Activity

pub record Process : Type 0 where
  pub pid : ℕ
  pub key : String
  pub paused : Bool
  pub individual : Bool
  pub active : Activity

-- `changes` counts the channels that were closed.
pub record Controller : Type 0 where
  pub paused : Bool
  pub changes : ℕ
  pub processes : List Process

pub data Outcome : Type 0 where
  done : Outcome
  change_fails : Outcome
  not_running : Outcome
  inspect_fails : Outcome

abbrev pub bool_eq : Bool → Bool → Bool
bool_eq true b = b
bool_eq false b = not b

-- A process whose change is taken back after a later one has failed.
unfoldable pub rolled_back : (ℕ → Bool → Bool) → Bool → Process → Process
rolled_back set desired p = if set p.pid p.paused then p else record p { paused = desired }

abbrev pub unwind :
    (ℕ → Bool → Bool) → Bool → Process → List Process × Outcome → List Process × Outcome
unwind set desired p (rest, done) = (record p { paused = desired } ∷ rest, done)
unwind set desired p (rest, o) = (rolled_back set desired p ∷ rest, o)

abbrev pub past : Process → List Process × Outcome → List Process × Outcome
past p (rest, o) = (p ∷ rest, o)

-- The loop of `transitionLocked`: the processes that a failing change leaves behind it are rolled
-- back from the last to the first, as the recursion returns.
unfoldable pub transition :
    (ℕ → Bool → Bool) → (Process → Bool) → List Process → List Process × Outcome
unfolding rolled_back
transition set target [] = ([], done)
transition set target (p ∷ ps) =
    let rest = transition set target ps in
    if bool_eq p.paused (target p)
    then past p rest
    else if set p.pid (target p)
    then unwind set (target p) p rest
    else (p ∷ ps, change_fails)

abbrev pub notify : Controller → Controller
notify c = record c { changes = c.changes + 1 }

abbrev pub settle : Controller → Bool → List Process × Outcome → Controller × Outcome
settle c paused (ps, done) = (notify (record c { paused = paused; processes = ps }), done)
settle c paused (ps, o) = (record c { processes = ps }, o)

unfoldable pub set_paused : (ℕ → Bool → Bool) → Bool → Controller → Controller × Outcome
set_paused set paused c = settle c paused (transition set (λ p. paused || p.individual) c.processes)

-- The processes of a job: none for the empty key.
abbrev pub owned : String → Process → Bool
owned key p = str_eq p.key key && not (str_eq key "")

-- The first loop of `SetJobPaused`.
unfoldable pub inspect : String → Bool → List Process → Outcome
inspect key found [] = if found then done else not_running
inspect key found (p ∷ ps) =
    let skip = inspect key found ps in
    let next = inspect key true ps in
    if owned key p
    then elim p.active [
      | unasked ↦ next
      | running ↦ next
      | exited ↦ not_running
      | inspection_fails ↦ inspect_fails
    ]
    else skip

unfoldable pub mark : String → Bool → List Process → List Process
mark key paused [] = []
mark key paused (p ∷ ps) =
    let rest = mark key paused ps in
    if str_eq p.key key then record p { individual = paused } ∷ rest else p ∷ rest

abbrev pub settle_job : Controller → String → Bool → List Process × Outcome → Controller × Outcome
settle_job c key paused (ps, done) = (record c { processes = mark key paused ps }, done)
settle_job c key paused (ps, o) = (record c { processes = ps }, o)

abbrev pub job_target : Controller → String → Bool → Process → Bool
job_target c key paused p = if str_eq p.key key then c.paused || paused else p.paused

abbrev pub after_inspection :
    (ℕ → Bool → Bool) → String → Bool → Controller → Outcome → Controller × Outcome
after_inspection set key paused c done =
    settle_job c key paused (transition set (job_target c key paused) c.processes)
after_inspection set key paused c o = (c, o)

unfoldable pub set_job_paused :
    (ℕ → Bool → Bool) → String → Bool → Controller → Controller × Outcome
set_job_paused set key paused c = after_inspection set key paused c (inspect key false c.processes)

unfoldable pub release : List Process → List Process
release [] = []
release (p ∷ ps) = record p { individual = false } ∷ release ps

abbrev pub settle_all : Controller → List Process × Outcome → Controller × Outcome
settle_all c (ps, done) = (notify (record c { paused = false; processes = release ps }), done)
settle_all c (ps, o) = (record c { processes = ps }, o)

unfoldable pub resume_all : (ℕ → Bool → Bool) → Controller → Controller × Outcome
resume_all set c = settle_all c (transition set (λ _. false) c.processes)

unfoldable pub suspended : List Process → ℕ
suspended [] = 0
suspended (p ∷ ps) = let n = suspended ps in if p.paused then suc n else n

-- `start` waits while the controller is paused (none), and then attaches a running process.
unfoldable pub start : Controller → ℕ → String → Activity → Option Controller
start c pid key active =
    if c.paused
    then none
    else some (record c {
      processes =
          record { pid = pid; key = key; paused = false; individual = false; active = active }
          ∷ c.processes;
    })

-- The function that `start` returns.
unfoldable pub detach : ℕ → Controller → Controller
detach pid c = record c { processes = keep (λ p. not (p.pid == pid)) c.processes }
