-- ===== src/Worker/Pause/Holds.antt =====
-- Which processes have a hold of their own after an operation of helper/command/pause.go.
use transcoderd.Prelude.{ℕ, ◌≡◌, refl, inl, inr, Bool, false, List, [], ◌∷◌, All, Bool-cases, ◌||◌}
use transcoderd.Worker.Pause.{
  Process, Controller, Outcome, done, bool_eq, transition, unwind, rolled_back, settle, set_paused,
  release, settle_all, resume_all,
}
use transcoderd.Worker.Pause.Transition.{CanRollBack}
use transcoderd.Worker.Pause.Held.{IsHeld, set_paused-IsHeld, resume_all-IsHeld}

-- No process has a hold of its own.
abbrev pub IsFree : List Process → Type 0
IsFree = All (λ p. p.individual ≡ false)

-- From `c` to `p`: the general pause is `general`, the rule of the holds is kept, and no hold is new.
pub record Changed (c p : Controller) (general : Bool) : Type 0 where
  pub paused : p.paused ≡ general
  pub held : IsHeld p.paused p.processes
  pub free : IsFree c.processes → IsFree p.processes

-- A success has set the general pause, an error has kept it.
abbrev pub Suspended : Bool → Controller → Controller × Outcome → Type 0
Suspended general c (p, done) = Changed c p general
Suspended general c (p, _) = Changed c p c.paused

-- A success has ended all holds, an error has kept the general pause.
abbrev pub Resumed : Controller → Controller × Outcome → Type 0
Resumed c (p, done) = Changed c p false × IsFree p.processes
Resumed c (p, _) = Changed c p c.paused

unwind-IsFree :
    (set : ℕ → Bool → Bool) (desired : Bool) (p : Process) (r : List Process × Outcome)
    → p.individual ≡ false
    → IsFree r.0
    → IsFree (unwind set desired p r).0
unfolding rolled_back
unwind-IsFree set desired p (ps, done) e h = (e, h)
unwind-IsFree set desired p (ps, _) e h = elim (Bool-cases (set p.pid p.paused)) [
  | inl back ↦ rw back (e, h)
  | inr stuck ↦ rw stuck (e, h)
]

transition-IsFree :
    (set : ℕ → Bool → Bool) (target : Process → Bool) (ps : List Process)
    → IsFree ps
    → IsFree (transition set target ps).0
unfolding transition
transition-IsFree set target [] h = tt
transition-IsFree set target (p ∷ ps) h = elim (Bool-cases (bool_eq p.paused (target p))) [
  | inl same ↦ rw same (h.0, transition-IsFree set target ps h.1)
  | inr other ↦ elim (Bool-cases (set p.pid (target p))) [
    | inl works ↦
        rw (other, works)
          (unwind-IsFree set (target p) p (transition set target ps) h.0
            (transition-IsFree set target ps h.1))
    | inr fails ↦ rw (other, fails) h
  ]
]

settle-Suspended :
    (c : Controller) (general : Bool) (r : List Process × Outcome)
    → IsHeld (settle c general r).0.paused (settle c general r).0.processes
    → (IsFree c.processes → IsFree r.0)
    → Suspended general c (settle c general r)
settle-Suspended c general (ps, done) h f = record { paused = refl; held = h; free = f }
settle-Suspended c general (ps, _) h f = record { paused = refl; held = h; free = f }

pub set_paused-Suspended :
    (set : ℕ → Bool → Bool) (general : Bool) (c : Controller)
    → CanRollBack set c.processes
    → IsHeld c.paused c.processes
    → Suspended general c (set_paused set general c)
unfolding set_paused
set_paused-Suspended set general c b h =
    settle-Suspended c general _ (set_paused-IsHeld set general c b h)
      (transition-IsFree set (λ p. general || p.individual) c.processes)

release-IsFree : (ps : List Process) → IsFree (release ps)
unfolding release
release-IsFree [] = tt
release-IsFree (p ∷ ps) = (refl, release-IsFree ps)

settle_all-Resumed :
    (c : Controller) (r : List Process × Outcome)
    → IsHeld (settle_all c r).0.paused (settle_all c r).0.processes
    → (IsFree c.processes → IsFree r.0)
    → Resumed c (settle_all c r)
settle_all-Resumed c (ps, done) h f =
    (record { paused = refl; held = h; free = λ _. release-IsFree ps }, release-IsFree ps)
settle_all-Resumed c (ps, _) h f = record { paused = refl; held = h; free = f }

pub resume_all-Resumed :
    (set : ℕ → Bool → Bool) (c : Controller)
    → CanRollBack set c.processes
    → IsHeld c.paused c.processes
    → Resumed c (resume_all set c)
unfolding resume_all
resume_all-Resumed set c b h =
    settle_all-Resumed c _ (resume_all-IsHeld set c b h)
      (transition-IsFree set (λ _. false) c.processes)
