-- ===== src/Worker/Pause/Transition.antt =====
-- The transition of helper/command/pause.go takes place for all processes or for none.
use transcoderd.Prelude.{
  ℕ, ◌≡◌, refl, ap, sym, ◌∙◌, ◌||◌, ◌⊎◌, inl, inr, Bool, true, List, [], ◌∷◌, arith, All,
}
use transcoderd.Worker.Pause.{
  Process, Controller, Outcome, done, change_fails, not_running, inspect_fails, transition, settle,
  set_paused,
}

-- Each process in the state that is wanted of it.
abbrev pub settled : (Process → Bool) → List Process → List Process
settled target [] = []
settled target (p ∷ ps) = record p { paused = target p } ∷ settled target ps

-- Every rollback would succeed.
abbrev pub CanRollBack : (ℕ → Bool → Bool) → List Process → Type 0
CanRollBack set = All (λ p. set p.pid p.paused ≡ true)

-- A transition that succeeds leaves every process in the state that was asked for it.
pub transition_done :
    (set : ℕ → Bool → Bool) (target : Process → Bool) (ps : List Process)
    → (transition set target ps).1 ≡ done
    → (transition set target ps).0 ≡ settled target ps
unfolding transition
transition_done set target [] h = refl
transition_done set target (p ∷ ps) h = ground (arith, transition_done set target ps)

-- A transition that fails leaves every process as it was, where the system calls that take changes
-- back succeed.
pub transition_fails :
    (set : ℕ → Bool → Bool) (target : Process → Bool) (ps : List Process)
    → CanRollBack set ps
    → ((transition set target ps).1 ≡ done)
      ⊎ ((transition set target ps).0 ≡ ps) × ((transition set target ps).1 ≡ change_fails)
unfolding transition
transition_fails set target [] h = inl refl
transition_fails set target (p ∷ ps) h = ground (arith, transition_fails set target ps h.1, h.0)

-- A transition of the encoding processes either leaves every process in the state that was asked
-- for it, or fails and, where the system calls that take changes back succeed, leaves every
-- process as it was.
pub transition-atomic :
    (set : ℕ → Bool → Bool) (target : Process → Bool) (ps : List Process)
    → CanRollBack set ps
    → let (after, outcome) = transition set target ps in
      ((outcome ≡ done) × (after ≡ settled target ps)) ⊎ ((outcome ≡ change_fails) × (after ≡ ps))
transition-atomic set target ps h = elim (transition_fails set target ps h) [
  | inl d ↦ inl (d, transition_done set target ps d)
  | inr (same, failed) ↦ inr (failed, same)
]

-- Where all encodes are paused or resumed, the controller is, and every process is suspended exactly
-- if that was asked for or it has a hold of its own.
pub set_paused-done :
    (set : ℕ → Bool → Bool) (paused : Bool) (c : Controller)
    → (set_paused set paused c).1 ≡ done
    → ((set_paused set paused c).0.paused ≡ paused)
      × ((set_paused set paused c).0.processes ≡ settled (λ p. paused || p.individual) c.processes)
unfolding set_paused
set_paused-done set paused c =
    by_change (transition set (λ p. paused || p.individual) c.processes) refl
  where
    by_change :
        (r : List Process × Outcome)
        → transition set (λ p. paused || p.individual) c.processes ≡ r
        → (settle c paused r).1 ≡ done
        → ((settle c paused r).0.paused ≡ paused)
          × ((settle c paused r).0.processes ≡ settled (λ p. paused || p.individual) c.processes)
    by_change (ps, done) k h = (
      refl,
      ap (λ x. x.0) (sym k)
          ∙ transition_done set (λ p. paused || p.individual) c.processes (ap (λ x. x.1) k),
    )
    by_change (ps, change_fails) k h = absurd (ground (arith, h))
    by_change (ps, not_running) k h = absurd (ground (arith, h))
    by_change (ps, inspect_fails) k h = absurd (ground (arith, h))
