-- ===== src/Worker/Schedule/Windows.antt =====
-- A window of worker/config/schedule.go as a span of the week.
use transcoderd.Prelude.{
  ℕ, ◌+◌, ◌-◌, ◌*◌, ◌%◌, ◌≤◌, ◌<◌, ◌≡◌, ◌↔◌, ◌⊎◌, inl, inr, true, ◌&&◌, arith, ltb, leb,
  if◌then◌else◌, Bool-cases,
}
use transcoderd.Worker.Schedule.{AdmissionWindow, includes, window_admits}

-- How long a window lasts: past midnight where its end is not after its start.
abbrev pub duration : AdmissionWindow → ℕ
duration w = if ltb w.start w.end then w.end - w.start else w.end + 1440 - w.start

-- The minutes from the start of the window on weekday `d` to a minute of the week, going forward.
abbrev pub since : AdmissionWindow → ℕ → ℕ → ℕ → ℕ
since w d day minute = (day * 1440 + minute + 10080 - (d * 1440 + w.start)) % 10080

-- The window of one of its weekdays is open.
abbrev pub IsOpen : AdmissionWindow → ℕ → ℕ → Type 0
IsOpen w day minute =
    (d : ℕ) × (d < 7) × (includes w d ≡ true) × (since w d day minute < duration w)

pub record IsWindow (w : AdmissionWindow) : Type 0 where
  pub start_in_day : w.start < 1440
  pub end_in_day : w.end ≤ 1440
  pub differ : w.start ≡ w.end → ⊥

previous :
    (day d minute start : ℕ)
    → day < 7
    → d < 7
    → minute < 1440
    → start < 1440
    → (day * 1440 + minute + 10080 - (d * 1440 + start)) % 10080 < 1440
    → (d ≡ day) × (start ≤ minute) ⊎ (d ≡ (day + 6) % 7) × (minute < start)
previous day d minute start a b c e h = ground arith

opened :
    (w : AdmissionWindow) (day minute : ℕ)
    → day < 7
    → minute < 1440
    → IsWindow w
    → window_admits day minute w ≡ true
    → IsOpen w day minute
unfolding window_admits
opened w day minute a b v h = elim (Bool-cases (ltb w.start w.end)) [
  | inl within ↦ (day, a, ground (arith, h, within), ground (arith, h, within))
  | inr past ↦ elim (Bool-cases (includes w day && leb w.start minute)) [
    | inl today ↦
        (day, a, ground (arith, today), ground (arith, today, past, v.start_in_day, v.end_in_day))
    | inr other ↦ (
      (day + 6) % 7,
      omega arith,
      ground (arith, h, past, other),
      ground (arith, h, past, other, v.start_in_day, v.end_in_day),
    )
  ]
]

admitted :
    (w : AdmissionWindow) (day minute : ℕ)
    → day < 7
    → minute < 1440
    → IsWindow w
    → IsOpen w day minute
    → window_admits day minute w ≡ true
unfolding window_admits
admitted w day minute a b v (d, c, i, s) =
    elim (previous day d minute w.start a c b v.start_in_day
      (ground (arith, s, v.start_in_day, v.end_in_day))) [
        | inl (same, k) ↦
            let today : includes w day ≡ true = rw same at i in
            let soon : since w day day minute < duration w = rw same at s in
            ground (arith, today, soon, k, v.start_in_day, v.end_in_day, a, b)
        | inr (same, k) ↦
            let yesterday : includes w ((day + 6) % 7) ≡ true = rw same at i in
            let soon : since w ((day + 6) % 7) day minute < duration w = rw same at s in
            ground (arith, yesterday, soon, k, v.start_in_day, v.end_in_day, a, b)
      ]

-- A window that starts within a day, ends within it or at its end and does not end where it starts
-- admits jobs exactly from its start on one of its weekdays for its whole duration, past midnight
-- and past the end of the week too.
pub window_admits_iff :
    (w : AdmissionWindow) (day minute : ℕ)
    → day < 7
    → minute < 1440
    → IsWindow w
    → (window_admits day minute w ≡ true) ↔ IsOpen w day minute
window_admits_iff w day minute a b v = (opened w day minute a b v, admitted w day minute a b v)
