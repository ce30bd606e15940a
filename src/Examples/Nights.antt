-- ===== src/Examples/Nights.antt =====
-- A concrete schedule: the nights of the working days.
use transcoderd.Prelude.{◌≡◌, ◌↔◌, refl, arith, true, none, some, [], ◌∷◌}
use transcoderd.Worker.Schedule.{
  AdmissionWindow, Clock, includes, window_admits, days_loop, parse_admission_days,
  parse_admission_minute, parse_admission_window, parse_windows, parse, admission_allowed_at,
}
use transcoderd.Worker.Schedule.Windows.{IsWindow, IsOpen, window_admits_iff}
use transcoderd.Worker.Schedule.Parsed.{parse_admission_window-IsWindow}

abbrev nights : AdmissionWindow
nights = record { days = 62; start = 1320; end = 360 }

nights_parsed : parse_admission_window " Mon-Fri@22:00-06:00" ≡ some nights
unfolding parse_admission_window parse_admission_days parse_admission_minute days_loop
nights_parsed = refl

parse_admission_window-IsWindow_example : IsWindow nights
parse_admission_window-IsWindow_example =
    parse_admission_window-IsWindow " Mon-Fri@22:00-06:00" nights nights_parsed

-- Saturday at three in the morning.
window_admits_iff_example : (window_admits 6 180 nights ≡ true) ↔ IsOpen nights 6 180
window_admits_iff_example =
    window_admits_iff nights 6 180 (omega arith) (omega arith)
      (parse_admission_window-IsWindow " Mon-Fri@22:00-06:00" nights nights_parsed)

abbrev saturday_morning : Clock
saturday_morning = record {
  zone_known = λ z. true;
  weekday = λ z. 6;
  minute = λ z. 180;
  elapsed = 10800000000000;
}

night_worker :
    admission_allowed_at saturday_morning (record {
      start_after = none;
      stop_after = none;
      schedule =
          some (record { time_zone = "Europe/Madrid"; windows = "Mon-Fri@22:00-06:00" ∷ [] });
    })
    ≡ true
unfolding admission_allowed_at parse parse_windows parse_admission_window parse_admission_days
    parse_admission_minute days_loop window_admits includes
night_worker = refl
