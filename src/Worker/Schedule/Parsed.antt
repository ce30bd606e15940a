-- ===== src/Worker/Schedule/Parsed.antt =====
-- What the texts that worker/config/schedule.go accepts stand for.
use transcoderd.Prelude.{
  ℕ, zero, suc, ◌+◌, ◌-◌, ◌/◌, ◌%◌, ◌^◌, ◌≤◌, ◌<◌, ◌≡◌, inl, inr, refl, sym, Bool, true, false, not,
  ◌&&◌, Option, none, some, List, [], ◌∷◌, arith, leb, ◌==◌, Bool-cases, String,
}
use transcoderd.Worker.Schedule.{
  AdmissionWindow, days_loop, clock_time, parse_admission_minute, same_text, codes, window_of,
  hours_of, parse_admission_window, entry_parts, trim_space, cut, parse_admission_days,
}
use transcoderd.Worker.Schedule.Windows.{IsWindow}

-- A test of all numbers below a bound.
abbrev all_below : ℕ → (ℕ → Bool) → Bool
all_below zero f = true
all_below (suc n) f = f n && all_below n f

all_below_lem : (n : ℕ) (f : ℕ → Bool) (d : ℕ) → all_below n f ≡ true → d < n → f d ≡ true
all_below_lem zero f d h k = absurd (omega arith)
all_below_lem (suc n) f d h k = elim (Bool-cases (d == n)) [
  | inl last_one ↦ grind (arith, h, last_one)
  | inr earlier ↦ all_below_lem n f d (ground (arith, h)) (ground (arith, earlier, k))
]

-- Whether a weekday is in a range that may go on past the week's end.
abbrev pub in_range : ℕ → ℕ → ℕ → Bool
in_range a b d = leb ((d + 7 - a) % 7) ((b + 7 - a) % 7)

abbrev bool_same : Bool → Bool → Bool
bool_same true b = b
bool_same false b = not b

abbrev has_days : ℕ → ℕ → Option ℕ → Bool
has_days a b none = false
has_days a b (some mask) = all_below 7 (λ d. bool_same ((mask / (2 ^ d)) % 2 == 1) (in_range a b d))

all_ranges : all_below 7 (λ a. all_below 7 (λ b. has_days a b (days_loop 7 a b 0))) ≡ true
unfolding days_loop
all_ranges = refl

masked :
    (a b : ℕ) (mask : Option ℕ)
    → has_days a b mask ≡ true
    → (m : ℕ) × (mask ≡ some m) × ((d : ℕ) → d < 7 → ((m / (2 ^ d)) % 2 == 1) ≡ in_range a b d)
masked a b none h = absurd (ground (arith, h))
masked a b (some m) h = (
  m,
  refl,
  λ d k.
      same_bits _ _
        (all_below_lem 7 (λ d. bool_same ((m / (2 ^ d)) % 2 == 1) (in_range a b d)) d h k),
)
  where
    same_bits : (x y : Bool) → bool_same x y ≡ true → x ≡ y
    same_bits true y h = sym h
    same_bits false true h = absurd (ground (arith, h))
    same_bits false false h = refl

-- The loop over the weekdays from one to another ends, and sets the bits of exactly the weekdays
-- of that range, which may go on past the end of the week.
pub days_loop-range :
    (a b : ℕ)
    → a < 7
    → b < 7
    → (m : ℕ) × (days_loop 7 a b 0 ≡ some m)
      × ((d : ℕ) → d < 7 → ((m / (2 ^ d)) % 2 == 1) ≡ in_range a b d)
days_loop-range a b k l = masked a b (days_loop 7 a b 0) (
    all_below_lem 7 (λ b. has_days a b (days_loop 7 a b 0)) b
      (all_below_lem 7 (λ a. all_below 7 (λ b. has_days a b (days_loop 7 a b 0))) a all_ranges k) l)

clock_time-bound : (s : List ℕ) (n : ℕ) → clock_time s ≡ some n → n < 1440
clock_time-bound (a ∷ b ∷ colon ∷ c ∷ d ∷ []) n h = ground (arith, h)
clock_time-bound [] n h = absurd (ground (arith, h))
clock_time-bound (a ∷ []) n h = absurd (ground (arith, h))
clock_time-bound (a ∷ b ∷ []) n h = absurd (ground (arith, h))
clock_time-bound (a ∷ b ∷ c ∷ []) n h = absurd (ground (arith, h))
clock_time-bound (a ∷ b ∷ c ∷ d ∷ []) n h = absurd (ground (arith, h))
clock_time-bound (a ∷ b ∷ c ∷ d ∷ e ∷ f ∷ s) n h = absurd (ground (arith, h))

start-bound : (s : List ℕ) (n : ℕ) → parse_admission_minute false s ≡ some n → n < 1440
unfolding parse_admission_minute
start-bound s n h = clock_time-bound s n h

end-bound : (s : List ℕ) (n : ℕ) → parse_admission_minute true s ≡ some n → n ≤ 1440
unfolding parse_admission_minute
end-bound s n h = elim (Bool-cases (same_text s (codes "24:00"))) [
  | inl midnight ↦ ground (arith, rw midnight at h)
  | inr other ↦ ground (arith, clock_time-bound s n (rw other at h))
]

window_of-IsWindow :
    (days x y : Option ℕ) (w : AdmissionWindow)
    → ((a : ℕ) → x ≡ some a → a < 1440)
    → ((b : ℕ) → y ≡ some b → b ≤ 1440)
    → window_of days x y ≡ some w
    → IsWindow w
window_of-IsWindow (some mask) (some a) (some b) w f g h = elim (Bool-cases (a == b)) [
  | inl same ↦ absurd (ground (arith, h, same))
  | inr differ ↦ record {
    start_in_day = ground (arith, h, differ, f a refl);
    end_in_day = ground (arith, h, differ, g b refl);
    differ = λ e. ground (arith, h, differ, e);
  }
]
window_of-IsWindow none x y w f g h = absurd (ground (arith, h))
window_of-IsWindow (some mask) none y w f g h = absurd (ground (arith, h))
window_of-IsWindow (some mask) (some a) none w f g h = absurd (ground (arith, h))

hours_of-IsWindow :
    (days : Option ℕ) (parts : Option (List ℕ × List ℕ)) (w : AdmissionWindow)
    → hours_of days parts ≡ some w
    → IsWindow w
hours_of-IsWindow days none w h = absurd (ground (arith, h))
hours_of-IsWindow days (some (a, b)) w h =
    window_of-IsWindow days (parse_admission_minute false a) (parse_admission_minute true b) w
      (start-bound a) (end-bound b) h

-- An entry that is accepted gives a window that starts within a day, ends within it or at its end,
-- and does not end where it starts.
pub parse_admission_window-IsWindow :
    (entry : String) (w : AdmissionWindow) → parse_admission_window entry ≡ some w → IsWindow w
unfolding parse_admission_window
parse_admission_window-IsWindow entry w h =
    let (days, hours) =
      entry_parts (trim_space (codes entry)) (cut b'@' (trim_space (codes entry))) in
    hours_of-IsWindow (parse_admission_days days) (cut b'-' hours) w h
