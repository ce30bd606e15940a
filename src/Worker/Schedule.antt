-- ===== src/Worker/Schedule.antt =====
-- worker/config/schedule.go: when a worker may request jobs. A text is the list of its character
-- codes. The time package is an argument: whether a zone is known, and the local time in it.
pub mod Windows
pub mod Parsed
use Prim.Native.Char.{code}
use transcoderd.Prelude.{
  ℕ, zero, suc, ◌+◌, ◌-◌, ◌*◌, ◌/◌, ◌%◌, ◌^◌, Bool, true, false, not, ◌&&◌, ◌||◌, Option, none,
  some, List, [], ◌∷◌, ◌++◌, String, str_eq, ltb, leb, ◌==◌, if◌then◌else◌,
}

-- `days` has a bit for each weekday, Sunday's the lowest; `start` and `end` are minutes.
pub record AdmissionWindow : Type 0 where
  pub days : ℕ
  pub start : ℕ
  pub end : ℕ

pub record ScheduleConfig : Type 0 where
  pub time_zone : String
  pub windows : List String

-- The fields of the worker's configuration that the schedule reads; durations in nanoseconds.
pub record Config : Type 0 where
  pub start_after : Option ℕ
  pub stop_after : Option ℕ
  pub schedule : Option ScheduleConfig

-- The weekday and the minute of the day in a zone, and the nanoseconds since midnight.
pub record Clock : Type 0 where
  pub zone_known : String → Bool
  pub weekday : String → ℕ
  pub minute : String → ℕ
  pub elapsed : ℕ

unfoldable pub includes : AdmissionWindow → ℕ → Bool
includes w day = (w.days / (2 ^ day)) % 2 == 1

-- The body of the loop of `AdmissionAllowedAt`.
unfoldable pub window_admits : ℕ → ℕ → AdmissionWindow → Bool
window_admits day minute w =
    if ltb w.start w.end
    then includes w day && leb w.start minute && ltb minute w.end
    else includes w day && leb w.start minute || includes w ((day + 6) % 7) && ltb minute w.end

abbrev codes : String → List ℕ
codes String.[] = []
codes (String.◌∷◌ c s) = code c ∷ codes s

abbrev pub same_text : List ℕ → List ℕ → Bool
same_text [] [] = true
same_text (a ∷ s) (b ∷ t) = a == b && same_text s t
same_text _ _ = false

-- `unicode.IsSpace`.
abbrev is_space : ℕ → Bool
is_space c =
    leb 9 c && leb c 13
    || c == 32
    || c == 133
    || c == 160
    || c == 5760
    || leb 8192 c && leb c 8202
    || c == 8232
    || c == 8233
    || c == 8239
    || c == 8287
    || c == 12288

abbrev trim_left : List ℕ → List ℕ
trim_left [] = []
trim_left (c ∷ s) = if is_space c then trim_left s else c ∷ s

abbrev trim_right : List ℕ → List ℕ
trim_right [] = []
trim_right (c ∷ s) = let rest = trim_right s in trimmed c rest
  where
    trimmed : ℕ → List ℕ → List ℕ
    trimmed c [] = if is_space c then [] else c ∷ []
    trimmed c (d ∷ t) = c ∷ d ∷ t

abbrev trim_space : List ℕ → List ℕ
trim_space s = trim_right (trim_left s)

abbrev prepend : ℕ → Option (List ℕ × List ℕ) → Option (List ℕ × List ℕ)
prepend c none = none
prepend c (some (before, after)) = some (c ∷ before, after)

-- `strings.Cut`, none where the separator is not found.
abbrev cut : ℕ → List ℕ → Option (List ℕ × List ℕ)
cut sep [] = none
cut sep (c ∷ s) = if c == sep then some ([], s) else prepend c (cut sep s)

-- `strings.ToLower`, on ASCII letters and the two other letters that become ASCII ones.
abbrev lower : ℕ → ℕ
lower c =
    if leb b'A' c && leb c b'Z'
    then c + 32
    else if c == 304
    then b'i'
    else if c == 8490
    then b'k'
    else c

abbrev lower_all : List ℕ → List ℕ
lower_all [] = []
lower_all (c ∷ s) = lower c ∷ lower_all s

abbrev day_in : List String → ℕ → List ℕ → Option ℕ
day_in [] n s = none
day_in (name ∷ names) n s = if same_text (codes name) s then some n else day_in names (n + 1) s

-- The map `names`.
abbrev day_names : List String
day_names = "sun" ∷ "mon" ∷ "tue" ∷ "wed" ∷ "thu" ∷ "fri" ∷ "sat" ∷ []

abbrev day_of : List ℕ → Option ℕ
day_of s = day_in day_names 0 s

abbrev pub with_day : ℕ → ℕ → ℕ
with_day mask day = if (mask / (2 ^ day)) % 2 == 1 then mask else mask + 2 ^ day

-- The loop of `parseAdmissionDays`, on fuel: none where it has run out.
unfoldable pub days_loop : ℕ → ℕ → ℕ → ℕ → Option ℕ
days_loop zero day end mask = none
days_loop (suc fuel) day end mask =
    let rest = days_loop fuel ((day + 1) % 7) end (with_day mask day) in
    if day == end then some (with_day mask day) else rest

abbrev pub days_between : Option ℕ → Option ℕ → Option ℕ
days_between (some a) (some b) = days_loop 7 a b 0
days_between _ _ = none

-- Without a range the day ends where it starts.
abbrev pub day_range : List ℕ → Option (List ℕ × List ℕ) → Option ℕ
day_range whole none = days_between (day_of whole) (day_of whole)
day_range whole (some (a, b)) = days_between (day_of a) (day_of b)

unfoldable pub parse_admission_days : List ℕ → Option ℕ
unfolding days_loop
parse_admission_days s =
    let value = lower_all s in
    if same_text s (codes "*") then some 127 else day_range value (cut b'-' value)

abbrev is_digit : ℕ → Bool
is_digit c = leb b'0' c && leb c b'9'

abbrev two_digits : ℕ → ℕ → ℕ
two_digits a b = (a - b'0') * 10 + (b - b'0')

abbrev clock_time : List ℕ → Option ℕ
clock_time (a ∷ b ∷ colon ∷ c ∷ d ∷ []) =
    if colon == b':'
      && is_digit a
      && is_digit b
      && is_digit c
      && is_digit d
      && leb (two_digits a b) 23
      && leb (two_digits c d) 59
    then some (two_digits a b * 60 + two_digits c d)
    else none
clock_time _ = none

unfoldable pub parse_admission_minute : Bool → List ℕ → Option ℕ
parse_admission_minute allow_end_of_day s =
    if allow_end_of_day && same_text s (codes "24:00") then some 1440 else clock_time s

abbrev pub window_of : Option ℕ → Option ℕ → Option ℕ → Option AdmissionWindow
window_of (some mask) (some a) (some b) =
    if a == b then none else some (record { days = mask; start = a; end = b })
window_of _ _ _ = none

abbrev pub hours_of : Option ℕ → Option (List ℕ × List ℕ) → Option AdmissionWindow
hours_of days none = none
hours_of days (some (a, b)) =
    window_of days (parse_admission_minute false a) (parse_admission_minute true b)

abbrev pub entry_parts : List ℕ → Option (List ℕ × List ℕ) → List ℕ × List ℕ
entry_parts entry none = (codes "*", entry)
entry_parts entry (some parts) = parts

unfoldable pub parse_admission_window : String → Option AdmissionWindow
unfolding parse_admission_days parse_admission_minute
parse_admission_window entry =
    let text = trim_space (codes entry) in
    let (days, hours) = entry_parts text (cut b'@' text) in
    hours_of (parse_admission_days days) (cut b'-' hours)

abbrev pub add_window :
    Option AdmissionWindow → Option (List AdmissionWindow) → Option (List AdmissionWindow)
add_window (some w) (some ws) = some (w ∷ ws)
add_window _ _ = none

unfoldable pub parse_windows : List String → Option (List AdmissionWindow)
unfolding parse_admission_window
parse_windows [] = some []
parse_windows (entry ∷ entries) = add_window (parse_admission_window entry) (parse_windows entries)

-- The zone that is loaded.
abbrev zone : ScheduleConfig → String
zone s = if str_eq s.time_zone "" then "Local" else s.time_zone

unfoldable pub parse : Clock → ScheduleConfig → Option (List AdmissionWindow)
unfolding parse_windows
parse clock s = if clock.zone_known (zone s) then parse_windows s.windows else none

-- `HaveSettedPeriodTime`.
abbrev pub period : Option ℕ → Option ℕ → Option (ℕ × ℕ)
period (some a) (some b) = if a == 0 && b == 0 then none else some (a, b)
period _ _ = none

abbrev pub within_period : ℕ → Option (ℕ × ℕ) → Bool
within_period elapsed none = true
within_period elapsed (some (a, b)) = leb a elapsed && leb elapsed b

abbrev pub no_period : Option (ℕ × ℕ) → Bool
no_period none = true
no_period (some p) = false

abbrev any_admits : ℕ → ℕ → Option (List AdmissionWindow) → Bool
any_admits day minute none = false
any_admits day minute (some []) = false
any_admits day minute (some (w ∷ ws)) =
    window_admits day minute w || any_admits day minute (some ws)

abbrev by_windows : Clock → Option (ℕ × ℕ) → ScheduleConfig → Bool
by_windows clock p s =
    no_period p && any_admits (clock.weekday (zone s)) (clock.minute (zone s)) (parse clock s)

abbrev has_windows : List String → Bool
has_windows [] = false
has_windows (x ∷ xs) = true

unfoldable pub admission_allowed_at : Clock → Config → Bool
unfolding window_admits parse
admission_allowed_at clock c = elim c.schedule [
  | none ↦ within_period clock.elapsed (period c.start_after c.stop_after)
  | some s ↦
      if has_windows s.windows
      then by_windows clock (period c.start_after c.stop_after) s
      else within_period clock.elapsed (period c.start_after c.stop_after)
]
