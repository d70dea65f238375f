-- ===== src/Charts/Tests.antt =====
-- Runs of the time axis.
use everyup.Common.{ℕ, ◌≡◌, refl, length}
use everyup.Charts.Axis.{Zone, Row, tick_step, first_tick, time_ticks}

abbrev empty_row : ℕ → Row ℕ
empty_row t = record { t = t; rest = 0 }

-- A window of eight steps that starts on a tick has nine ticks.
time_ticks_test : length (time_ticks (Zone.east 0) 0 2400000) ≡ 9
unfolding time_ticks tick_step first_tick
time_ticks_test = refl
