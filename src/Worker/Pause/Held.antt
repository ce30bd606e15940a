-- ===== src/Worker/Pause/Held.antt =====
-- Which processes helper/command/pause.go keeps suspended: under a general pause all of them, and
-- else those with a hold of their own.
use transcoderd.Prelude.{
  ℕ, ◌≡◌, refl, ◌⊎◌, inl, inr, Bool, true, false, not, ◌||◌, Option, none, some, List, [], ◌∷◌,
  String, arith, All, if◌then◌else◌, Bool-cases, str_eq, keep, ◌==◌,
}
use transcoderd.Worker.Pause.{
  Process, Controller, Outcome, Activity, done, change_fails, transition, settle, set_paused,
  inspect, mark, settle_job, job_target, after_inspection, set_job_paused, release, settle_all,
  resume_all, start, detach,
}
use transcoderd.Worker.Pause.Transition.{settled, CanRollBack, transition_done, transition_fails}

abbrev pub IsHeld : Bool → List Process → Type 0
IsHeld general = All (λ p. p.paused ≡ general || p.individual)

settled-IsHeld :
    (general : Bool) (ps : List Process)
    → IsHeld general (settled (λ p. general || p.individual) ps)
settled-IsHeld general [] = tt
settled-IsHeld general (p ∷ ps) = (refl, settled-IsHeld general ps)

release-IsHeld : (ps : List Process) → IsHeld false (release (settled (λ _. false) ps))
unfolding release
release-IsHeld [] = tt
release-IsHeld (p ∷ ps) = (refl, release-IsHeld ps)

settle-IsHeld :
    (c : Controller) (general : Bool) (r : List Process × Outcome)
    → IsHeld c.paused c.processes
    → ((r.1 ≡ done) × IsHeld general r.0) ⊎ ((r.1 ≡ change_fails) × (r.0 ≡ c.processes))
    → IsHeld (settle c general r).0.paused (settle c general r).0.processes
settle-IsHeld c general (ps, done) h (inl (e, k)) = k
settle-IsHeld c general (ps, done) h (inr (e, k)) = absurd (ground (arith, e))
settle-IsHeld c general (ps, change_fails) h (inl (e, k)) = absurd (ground (arith, e))
settle-IsHeld c general (ps, change_fails) h (inr (e, k)) = rw k h
settle-IsHeld c general (ps, _) h (inl (e, k)) = absurd (ground (arith, e))
settle-IsHeld c general (ps, _) h (inr (e, k)) = absurd (ground (arith, e))

-- What a transition leaves: all that was wanted, or all as it was.
transition_cases :
    (set : ℕ → Bool → Bool) (target : Process → Bool) (ps : List Process)
    → CanRollBack set ps
    → (((transition set target ps).1 ≡ done) × ((transition set target ps).0 ≡ settled target ps))
      ⊎ (((transition set target ps).1 ≡ change_fails) × ((transition set target ps).0 ≡ ps))
transition_cases set target ps b = elim (transition_fails set target ps b) [
  | inl e ↦ inl (e, transition_done set target ps e)
  | inr (k, e) ↦ inr (e, k)
]

-- The general pause keeps the rule, whether its transition succeeds or is taken back.
pub set_paused-IsHeld :
    (set : ℕ → Bool → Bool) (general : Bool) (c : Controller)
    → CanRollBack set c.processes
    → IsHeld c.paused c.processes
    → let d = (set_paused set general c).0 in IsHeld d.paused d.processes
unfolding set_paused
set_paused-IsHeld set general c b h =
    settle-IsHeld c general _ h
      (elim (transition_cases set (λ p. general || p.individual) c.processes b) [
        | inl (e, k) ↦ inl (e, rw k (settled-IsHeld general c.processes))
        | inr (e, k) ↦ inr (e, k)
      ])

mark-IsHeld :
    (c : Controller) (key : String) (hold : Bool) (ps : List Process)
    → IsHeld c.paused ps
    → IsHeld c.paused (mark key hold (settled (job_target c key hold) ps))
unfolding mark
mark-IsHeld c key hold [] h = tt
mark-IsHeld c key hold (p ∷ ps) h = elim (Bool-cases (str_eq p.key key)) [
  | inl own ↦ rw own (refl, mark-IsHeld c key hold ps h.1)
  | inr other ↦ rw other (h.0, mark-IsHeld c key hold ps h.1)
]

settle_job-IsHeld :
    (c : Controller) (key : String) (hold : Bool) (r : List Process × Outcome)
    → IsHeld c.paused c.processes
    → ((r.1 ≡ done) × (r.0 ≡ settled (job_target c key hold) c.processes))
      ⊎ ((r.1 ≡ change_fails) × (r.0 ≡ c.processes))
    → IsHeld c.paused (settle_job c key hold r).0.processes
settle_job-IsHeld c key hold (ps, done) h (inl (e, k)) = rw k (mark-IsHeld c key hold c.processes h)
settle_job-IsHeld c key hold (ps, done) h (inr (e, k)) = absurd (ground (arith, e))
settle_job-IsHeld c key hold (ps, change_fails) h (inr (e, k)) = rw k h
settle_job-IsHeld c key hold (ps, _) h (inl (e, k)) = absurd (ground (arith, e))
settle_job-IsHeld c key hold (ps, _) h (inr (e, k)) = absurd (ground (arith, e))

settle_job_paused :
    (c : Controller) (key : String) (hold : Bool) (r : List Process × Outcome)
    → (settle_job c key hold r).0.paused ≡ c.paused
settle_job_paused c key hold (ps, done) = refl
settle_job_paused c key hold (ps, _) = refl

after_inspection-IsHeld :
    (set : ℕ → Bool → Bool) (key : String) (hold : Bool) (c : Controller) (o : Outcome)
    → CanRollBack set c.processes
    → IsHeld c.paused c.processes
    → let d = (after_inspection set key hold c o).0 in IsHeld d.paused d.processes
after_inspection-IsHeld set key hold c done b h =
    rw (settle_job_paused c key hold (transition set (job_target c key hold) c.processes)) (
      settle_job-IsHeld c key hold _ h (transition_cases set (job_target c key hold) c.processes b))
after_inspection-IsHeld set key hold c _ b h = h

pub set_job_paused-IsHeld :
    (set : ℕ → Bool → Bool) (key : String) (hold : Bool) (c : Controller)
    → CanRollBack set c.processes
    → IsHeld c.paused c.processes
    → let d = (set_job_paused set key hold c).0 in IsHeld d.paused d.processes
unfolding set_job_paused
set_job_paused-IsHeld set key hold c b h =
    after_inspection-IsHeld set key hold c (inspect key false c.processes) b h

settle_all-IsHeld :
    (c : Controller) (r : List Process × Outcome)
    → IsHeld c.paused c.processes
    → ((r.1 ≡ done) × (r.0 ≡ settled (λ _. false) c.processes))
      ⊎ ((r.1 ≡ change_fails) × (r.0 ≡ c.processes))
    → IsHeld (settle_all c r).0.paused (settle_all c r).0.processes
settle_all-IsHeld c (ps, done) h (inl (e, k)) = rw k (release-IsHeld c.processes)
settle_all-IsHeld c (ps, done) h (inr (e, k)) = absurd (ground (arith, e))
settle_all-IsHeld c (ps, change_fails) h (inr (e, k)) = rw k h
settle_all-IsHeld c (ps, _) h (inl (e, k)) = absurd (ground (arith, e))
settle_all-IsHeld c (ps, _) h (inr (e, k)) = absurd (ground (arith, e))

pub resume_all-IsHeld :
    (set : ℕ → Bool → Bool) (c : Controller)
    → CanRollBack set c.processes
    → IsHeld c.paused c.processes
    → let d = (resume_all set c).0 in IsHeld d.paused d.processes
unfolding resume_all
resume_all-IsHeld set c b h =
    settle_all-IsHeld c _ h (transition_cases set (λ _. false) c.processes b)

keep-IsHeld :
    (general : Bool) (f : Process → Bool) (ps : List Process)
    → IsHeld general ps
    → IsHeld general (keep f ps)
keep-IsHeld general f [] h = tt
keep-IsHeld general f (p ∷ ps) h = elim (Bool-cases (f p)) [
  | inl kept ↦ rw kept (h.0, keep-IsHeld general f ps h.1)
  | inr gone ↦ rw gone (keep-IsHeld general f ps h.1)
]

-- What may happen to a controller; a start that has to wait changes nothing.
pub data Request : Type 0 where
  pause_all : Bool → Request
  pause_job : String → Bool → Request
  resume : Request
  attach : ℕ → String → Activity → Request
  finished : ℕ → Request

abbrev pub waits : Controller → Option Controller → Controller
waits c none = c
waits c (some d) = d

unfoldable pub serve : (ℕ → Bool → Bool) → Controller → Request → Controller
serve set c (pause_all general) = (set_paused set general c).0
serve set c (pause_job key hold) = (set_job_paused set key hold c).0
serve set c resume = (resume_all set c).0
serve set c (attach pid key active) = waits c (start c pid key active)
serve set c (finished pid) = detach pid c

attached-IsHeld :
    (c : Controller) (pid : ℕ) (key : String) (active : Activity) (b : Bool)
    → c.paused ≡ b
    → IsHeld c.paused c.processes
    → let d = waits c (
        if b
        then none
        else some (record c {
          processes =
              record { pid = pid; key = key; paused = false; individual = false; active = active }
              ∷ c.processes;
        })) in
      IsHeld d.paused d.processes
attached-IsHeld c pid key active true e h = h
attached-IsHeld c pid key active false e h = (ground arith, h)

start-IsHeld :
    (c : Controller) (pid : ℕ) (key : String) (active : Activity)
    → IsHeld c.paused c.processes
    → let d = waits c (start c pid key active) in IsHeld d.paused d.processes
unfolding start
start-IsHeld c pid key active h = attached-IsHeld c pid key active c.paused refl h

-- Where the calls that take changes back succeed, no request to the pause controller breaks the
-- rule that a process is suspended exactly if the general pause is on or it has a hold of its own.
pub serve-IsHeld :
    (set : ℕ → Bool → Bool) (c : Controller) (r : Request)
    → CanRollBack set c.processes
    → IsHeld c.paused c.processes
    → IsHeld (serve set c r).paused (serve set c r).processes
unfolding serve detach
serve-IsHeld set c (pause_all general) b h = set_paused-IsHeld set general c b h
serve-IsHeld set c (pause_job key hold) b h = set_job_paused-IsHeld set key hold c b h
serve-IsHeld set c resume b h = resume_all-IsHeld set c b h
serve-IsHeld set c (attach pid key active) b h = start-IsHeld c pid key active h
serve-IsHeld set c (finished pid) b h = keep-IsHeld c.paused (λ p. not (p.pid == pid)) c.processes h
