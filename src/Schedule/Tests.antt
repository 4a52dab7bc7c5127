-- ===== src/Schedule/Tests.antt =====
-- Runs of the scheduling functions of scheduler.py, and their theorems there, in a zone an hour
-- ahead of the clock.
use domain_lens.Prelude.{
  ℕ, ◌+◌, ◌*◌, ◌/◌, ◌≡◌, refl, false, Option, none, some, arith, codes, String,
}
use domain_lens.Prelude.Int.{pos}
use domain_lens.Schedule.{Zone, minute, day_minutes, next_run, parse_time, clock_text, plan_slot}
use domain_lens.Schedule.NextRun.{IsFixed}

abbrev utc : Zone
utc = record { local_day = λ t. t / (day_minutes * minute); instant = λ w. w * minute }

utc-IsFixed : IsFixed utc
utc-IsFixed = record {
  steady = λ w v. omega arith;
  begins = λ t. omega arith;
  ends = λ t. omega arith;
}

abbrev zones : String → Option Zone
zones name = some utc

-- A run at 02:00 on the third day, for a daily scan at 03:00 and for an hourly one on the half hour.
abbrev two_o_clock : ℕ
two_o_clock = (2 * day_minutes + 120) * minute

next_run_daily :
    next_run zones (some (pos 1440)) (some (codes "03:00")) (some "UTC") two_o_clock false
    ≡ (2 * day_minutes + 180) * minute
unfolding next_run
next_run_daily = refl

next_run_hourly :
    next_run zones (some (pos 60)) (some (codes "03:30")) (some "UTC") two_o_clock false
    ≡ (2 * day_minutes + 150) * minute
unfolding next_run
next_run_hourly = refl

parse_time_loose : parse_time (some (codes " 7 :05")) ≡ some (7, 5)
unfolding parse_time
parse_time_loose = refl

parse_time_bad : parse_time (some (codes "24:00")) ≡ none
unfolding parse_time
parse_time_bad = refl

plan_slot_second : plan_slot (codes "23:50") 20 1 ≡ some (codes "00:10")
unfolding plan_slot parse_time clock_text
plan_slot_second = refl
