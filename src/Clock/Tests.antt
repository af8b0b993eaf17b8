-- ===== src/Clock/Tests.antt =====
-- A clock that is advanced, reset and advanced again.
use peas_engine.Prelude.{◌≡◌, refl, [], ◌∷◌, ok}
use peas_engine.Clock.{
  ManualClock, to, by, back, create_clock, run_clock, IsClock, run_clock-IsClock,
}

abbrev start : ManualClock
start = record { initial_ms = 5; current_ms = 5 }

abbrev after : ManualClock
after = record { initial_ms = 5; current_ms = 8 }

advanced : run_clock start (to 9 ∷ by 4 ∷ back ∷ by 3 ∷ []) ≡ ok after
unfolding run_clock
advanced = refl

created : create_clock 5 ≡ ok start
unfolding create_clock
created = refl

run_clock-IsClock_example : IsClock 5 after
run_clock-IsClock_example =
    run_clock-IsClock 5 start after (to 9 ∷ by 4 ∷ back ∷ by 3 ∷ []) created advanced
