-- ===== src/Schedule/Plan.antt =====
-- The times of a plan in scheduler.py: they are valid, and a free one is found where there is one.
use domain_lens.Prelude.{
  ℕ, zero, suc, ◌+◌, ◌*◌, ◌/◌, ◌%◌, ◌<◌, ◌≤◌, ◌≡◌, refl, ◌⊎◌, Bool, true, false, ◌&&◌, Option, none,
  some, List, arith, ◌==◌, Text, strip,
}
use domain_lens.Schedule.{
  day_minutes, parse_time, valid_time, clock_text, plan_slot, is_taken, search_slot,
}

abbrev agrees : ℕ → Option (ℕ × ℕ) → Bool
agrees total none = false
agrees total (some (h, m)) = h == total / 60 && m == total % 60

-- Whether a time of day is read back from its text.
reads_back : ℕ → Bool
unfolding parse_time clock_text strip valid_time
reads_back total =
    agrees total (parse_time (some (clock_text total))) && valid_time (some (clock_text total))

-- Every number from 0 up to the last passes.
passes_to : (ℕ → Bool) → ℕ → Bool
passes_to test zero = test 0
passes_to test (suc last) = test (suc last) && passes_to test last

passes_to-at :
    (test : ℕ → Bool) (last n : ℕ) → n ≤ last → passes_to test last ≡ true → test n ≡ true
unfolding passes_to
passes_to-at test zero n h all = let e : n ≡ 0 = omega arith in rw e all
passes_to-at test (suc last) n h all = ground (arith, passes_to-at test last n)

day_table : passes_to reads_back 1439 ≡ true
unfolding passes_to reads_back
day_table = refl

parse_time-clock_text :
    (total : ℕ)
    → total < day_minutes
    → (parse_time (some (clock_text total)) ≡ some (total / 60, total % 60))
      × (valid_time (some (clock_text total)) ≡ true)
parse_time-clock_text total h =
    let seen : reads_back total ≡ true =
      passes_to-at reads_back 1439 total (omega arith) day_table in
    unfold reads_back in ground arith

-- Each time of a plan is a valid time, and reads back as the minute of the day that lies the index
-- times the spacing behind the start, round the clock.
pub plan_slot-valid :
    (start slot : Text) (spacing index h m : ℕ)
    → parse_time (some start) ≡ some (h, m)
    → plan_slot start spacing index ≡ some slot
    → (valid_time (some slot) ≡ true)
      × (parse_time (some slot)
          ≡ some (
            (h * 60 + m + index * spacing) % day_minutes / 60,
            (h * 60 + m + index * spacing) % day_minutes % 60,
          ))
unfolding plan_slot
plan_slot-valid start slot spacing index h m begins made =
    let total = (h * 60 + m + index * spacing) % day_minutes in
    let back = parse_time-clock_text total (omega arith) in
    let same : clock_text total ≡ slot = ground arith in rw (← same) (back.1, back.0)

-- All indices of a stretch of the plan are taken.
abbrev pub AllTaken : Text → ℕ → List Text → ℕ → ℕ → Type 0
AllTaken start spacing taken index zero = Unit
AllTaken start spacing taken index (suc rounds) =
    ((slot : Text) × (plan_slot start spacing index ≡ some slot) × (is_taken slot taken ≡ true))
    × AllTaken start spacing taken (index + 1) rounds

abbrev Found : Text → ℕ → List Text → ℕ → ℕ → Type 0
Found start spacing taken index rounds =
    (slot : Text) × (search_slot start spacing taken index rounds ≡ some slot)
    × ((is_taken slot taken ≡ false) ⊎ AllTaken start spacing taken index rounds)
