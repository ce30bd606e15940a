-- ===== src/Examples/Encodes.antt =====
-- Concrete encodes: processes that are held and pools that start them.
use transcoderd.Prelude.{ℕ, ◌≡◌, ◌⊎◌, refl, Bool, true, false, not, ◌&&◌, ◌==◌, some, List, [], ◌∷◌}
use transcoderd.Worker.Pause.{Process, Controller, done, change_fails, transition, running}
use transcoderd.Worker.Pause.Transition.{settled, transition-atomic}
use transcoderd.Worker.Pause.Held.{IsHeld, serve, serve-IsHeld, pause_all}
use transcoderd.Worker.EncodePool.{cpu, new_encode_concurrency, try_start_encoder}
use transcoderd.Worker.EncodePool.Starts.{Admitted, try_start_encoder-cases}

abbrev process : ℕ → Process
process pid = record {
  pid = pid;
  key = "job";
  paused = false;
  individual = false;
  active = running;
}

abbrev two_processes : List Process
two_processes = process 1 ∷ process 2 ∷ []

-- The system refuses to suspend process 2, and only that.
abbrev refuses_two : ℕ → Bool → Bool
refuses_two pid b = not (pid == 2 && b)

all_done : (transition (λ pid b. true) (λ p. true) two_processes).1 ≡ done
unfolding transition
all_done = refl

transition-atomic_example :
    let (after, outcome) = transition refuses_two (λ p. true) two_processes in
    ((outcome ≡ done) × (after ≡ settled (λ p. true) two_processes))
    ⊎ ((outcome ≡ change_fails) × (after ≡ two_processes))
transition-atomic_example =
    transition-atomic refuses_two (λ p. true) two_processes (refl, (refl, tt))

abbrev two_running : Controller
two_running = record { paused = false; changes = 0; processes = two_processes }

serve-IsHeld_example :
    IsHeld
      (serve refuses_two two_running (pause_all true)).paused
      (serve refuses_two two_running (pause_all true)).processes
serve-IsHeld_example =
    serve-IsHeld refuses_two two_running (pause_all true) (refl, (refl, tt)) (refl, (refl, tt))

try_start_encoder-cases_example :
    Admitted
      (some cpu)
      (new_encode_concurrency 2)
      (try_start_encoder (some cpu) (new_encode_concurrency 2))
try_start_encoder-cases_example = try_start_encoder-cases (some cpu) (new_encode_concurrency 2)
