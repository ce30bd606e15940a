-- ===== src/Model/Settings/Totals.antt =====
-- Which limits model/workerSettings.go accepts.
use transcoderd.Prelude.{
  ℕ, ◌+◌, ◌-◌, ◌≤◌, ◌≡◌, inl, inr, refl, Bool, true, not, ◌&&◌, ◌||◌, if◌then◌else◌, Option, none,
  some, arith, ltb, Bool-cases,
}
use transcoderd.Prelude.Int.{ℤ, pos}
use transcoderd.Model.Settings.{
  WorkerSettings, WorkerControl, independent, max_int, checked_sum, is_some, is_nonnegative, total,
  validate_write,
}

-- The two forms of settings: one limit for all encodes, or one for each class.
pub data Form (s : WorkerSettings) : Type 0 where
  one_limit :
      (n : ℕ)
      → s.control ≡ none
      → s.max_active_jobs ≡ some (pos n)
      → s.cpu_jobs ≡ none
      → s.gpu_jobs ≡ none
      → Form s
  two_limits :
      (c g : ℕ)
      → s.control ≡ none
      → s.max_active_jobs ≡ none
      → s.cpu_jobs ≡ some (pos c)
      → s.gpu_jobs ≡ some (pos g)
      → (g ≤ max_int → c + g ≤ max_int)
      → total s ≡ some (c + g)
      → Form s

abbrev valid : Option WorkerControl → Option ℤ → Option ℤ → Option ℤ → Bool
valid control max c g =
    not (is_some control)
    && (if is_some c || is_some g
        then (is_some c && is_some g) && not (is_some max) && is_some (checked_sum c g)
        else is_nonnegative max)

sum_fits :
    (c g : ℕ)
    → is_some (checked_sum (some (pos c)) (some (pos g))) ≡ true
    → (g ≤ max_int → c + g ≤ max_int) × (checked_sum (some (pos c)) (some (pos g)) ≡ some (c + g))
sum_fits c g h = elim (Bool-cases (ltb (max_int - g) c)) [
  | inl over ↦ absurd (ground (arith, h, over))
  | inr fits ↦ ((λ k. ground arith), rw fits refl)
]

valid-Form :
    (s : WorkerSettings) (control : Option WorkerControl) (max c g : Option ℤ)
    → s.control ≡ control
    → s.max_active_jobs ≡ max
    → s.cpu_jobs ≡ c
    → s.gpu_jobs ≡ g
    → valid control max c g ≡ true
    → Form s
unfolding total
valid-Form s none (some (pos n)) none none e f i j h = one_limit n e f i j
valid-Form s none none (some (pos c)) (some (pos g)) e f i j h =
    let (small, sum) = sum_fits c g h in two_limits c g e f i j small (rw (i, j) sum)
valid-Form s _ _ _ _ e f i j h = absurd (ground arith)

-- Settings that may be written carry no command and have one of two forms: one limit that is not
-- negative, or one for each class that is not negative, with a sum that an int holds.
pub validate_write-Form : (s : WorkerSettings) → validate_write s ≡ true → Form s
unfolding validate_write total independent
validate_write-Form s h =
    valid-Form s s.control s.max_active_jobs s.cpu_jobs s.gpu_jobs refl refl refl refl h
