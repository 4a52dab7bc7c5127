-- ===== src/Schedule.antt =====
-- scheduler.py: when a monitor runs next, and the times of a plan. Instants are microseconds. A
-- zone is what `zoneinfo` gives: the number of the local day of an instant, and the instant of a
-- wall-clock minute, counted from the first day.
pub mod NextRun
pub mod Plan
mod Tests
use domain_lens.Prelude.{
  ℕ, zero, suc, ◌+◌, ◌-◌, ◌*◌, ◌/◌, ◌%◌, max, Bool, true, false, ◌&&◌, ◌||◌, Option, none, some,
  List, [], ◌∷◌, ltb, leb, ◌==◌, String, str_eq, Text, text_eq, strip, if◌then◌else◌, length,
}
use domain_lens.Prelude.Int.{ℤ, pos, negsuc}

abbrev pub minute : ℕ
minute = 60000000

abbrev pub day_minutes : ℕ
day_minutes = 1440

pub record Zone : Type 0 where
  pub local_day : ℕ → ℕ
  pub instant : ℕ → ℕ

-- The digits of `int(text)`, after `acc`; one underscore may stand between two digits.
unfoldable pub digits : ℕ → Bool → Text → Option ℕ
digits acc after_digit [] = if after_digit then some acc else none
digits acc after_digit (c ∷ rest) =
    let with_digit = digits (acc * 10 + (c - 48)) true rest in
    let with_gap = digits acc false rest in
    if leb 48 c && leb c 57 then with_digit else if c == 95 && after_digit then with_gap else none

abbrev negate : Option ℕ → Option ℤ
negate none = none
negate (some zero) = some (pos 0)
negate (some (suc n)) = some (negsuc n)

abbrev positive : Option ℕ → Option ℤ
positive none = none
positive (some n) = some (pos n)

abbrev signed : Text → Option ℤ
signed [] = none
signed (c ∷ rest) =
    let minus = negate (digits 0 false rest) in
    let plus = positive (digits 0 false rest) in
    let bare = positive (digits 0 false (c ∷ rest)) in
    if c == b'-' then minus else if c == b'+' then plus else bare

-- Python's `int(text)`, on ASCII digits.
unfoldable pub int_of : Text → Option ℤ
unfolding digits strip
int_of text = signed (strip text)

-- `text.split(c)`, the part before the first `c` first.
abbrev into_first : ℕ → List Text → List Text
into_first c [] = (c ∷ []) ∷ []
into_first c (part ∷ parts) = (c ∷ part) ∷ parts

unfoldable pub split : ℕ → Text → List Text
split c [] = [] ∷ []
split c (d ∷ rest) = let parts = split c rest in if d == c then [] ∷ parts else into_first d parts

abbrev in_day : Option ℤ → Option ℤ → Option (ℕ × ℕ)
in_day (some (pos hour)) (some (pos minutes)) =
    if ltb hour 24 && ltb minutes 60 then some (hour, minutes) else none
in_day _ _ = none

abbrev two_parts : List Text → Option (ℕ × ℕ)
two_parts (h ∷ (m ∷ [])) = in_day (int_of h) (int_of m)
two_parts _ = none

-- `_parse_time`: hour and minute of "HH:MM".
unfoldable pub parse_time : Option Text → Option (ℕ × ℕ)
unfolding int_of split
parse_time none = none
parse_time (some value) = two_parts (split b':' value)

abbrev is_some {ℓ} : {A : Type ℓ} → Option A → Bool
is_some none = false
is_some (some _) = true

unfoldable pub valid_time : Option Text → Bool
unfolding parse_time
valid_time none = false
valid_time (some value) = is_some (parse_time (some value)) && length value == 5

-- `_zone`: `zone_of` is the library's table of zones.
unfoldable pub find_zone : (String → Option Zone) → Option String → Option Zone
find_zone zone_of none = none
find_zone zone_of (some name) = if str_eq name "" then none else zone_of name

unfoldable pub valid_zone : (String → Option Zone) → Option String → Bool
unfolding find_zone
valid_zone zone_of name = is_some (find_zone zone_of name)

-- `max(int(schedule_minutes or 1440), 1)`.
abbrev pub interval : Option ℤ → ℕ
interval none = 1440
interval (some (pos zero)) = 1440
interval (some (pos (suc n))) = suc n
interval (some (negsuc n)) = 1

-- The slots of a day, for an interval below a day: `(now - anchor) // step + 1` intervals behind the
-- anchor, a count that is below 1 while the anchor is still to come.
unfoldable pub slot_run : Zone → ℕ → ℕ → ℕ → ℕ
slot_run zone minutes time now =
    let base = zone.local_day now * day_minutes + time in
    let anchor = zone.instant base in
    let step = minutes * minute in
    if leb anchor now
    then zone.instant (base + ((now - anchor) / step + 1) * minutes)
    else zone.instant (base + minutes - ((anchor - now + (step - 1)) / step) * minutes)

-- The first time of day that is not before `earliest`.
unfoldable pub daily_run : Zone → ℕ → ℕ → ℕ
daily_run zone time earliest =
    let day = zone.local_day earliest in
    let candidate = zone.instant (day * day_minutes + time) in
    if ltb candidate earliest then zone.instant ((day + 1) * day_minutes + time) else candidate

-- The wait before the first time that a daily or longer schedule takes.
abbrev pub lead : ℕ → Bool → ℕ
lead minutes first = if first then 1 else minutes - day_minutes + 1

unfoldable pub timed_run : Zone → ℕ → ℕ → ℕ → Bool → ℕ
unfolding slot_run daily_run
timed_run zone minutes time now first =
    if ltb minutes day_minutes
    then slot_run zone minutes time now
    else daily_run zone time (now + lead minutes first * minute)

pub next_run : (String → Option Zone) → Option ℤ → Option Text → Option String → ℕ → Bool → ℕ
unfolding parse_time find_zone timed_run
next_run zone_of schedule_minutes scan_time scan_tz now first =
    let minutes = interval schedule_minutes in
    elim (parse_time scan_time) [
      | none ↦ now + minutes * minute
      | some (h, m) ↦ elim (find_zone zone_of scan_tz) [
        | none ↦ now + minutes * minute
        | some zone ↦ timed_run zone minutes (h * 60 + m) now first
      ]
    ]

-- `f"{total // 60:02d}:{total % 60:02d}"`.
unfoldable pub clock_text : ℕ → Text
clock_text total =
    (48 + total / 60 / 10)
    ∷ (48 + total / 60 % 10)
    ∷ b':'
    ∷ (48 + total % 60 / 10)
    ∷ (48 + total % 60 % 10)
    ∷ []

-- `plan_slot`; none where the start is no time, on which the code raises.
unfoldable pub plan_slot : Text → ℕ → ℕ → Option Text
plan_slot start spacing index = elim (parse_time (some start)) [
  | none ↦ none
  | some (h, m) ↦ some (clock_text ((h * 60 + m + index * spacing) % day_minutes))
]

unfoldable pub is_taken : Text → List Text → Bool
unfolding text_eq
is_taken slot [] = false
is_taken slot (t ∷ rest) = text_eq t slot || is_taken slot rest

-- `set(taken)`.
unfoldable pub distinct : List Text → List Text
unfolding is_taken
distinct [] = []
distinct (t ∷ rest) = let others = distinct rest in if is_taken t rest then others else t ∷ others

-- The loop of `free_plan_slot`, with `rounds` indices left.
unfoldable pub search_slot : Text → ℕ → List Text → ℕ → ℕ → Option Text
search_slot start spacing taken index zero = plan_slot start spacing (length (distinct taken))
search_slot start spacing taken index (suc rounds) =
    let onward = search_slot start spacing taken (index + 1) rounds in
    elim (plan_slot start spacing index) [
      | none ↦ none
      | some slot ↦ if is_taken slot taken then onward else some slot
    ]

abbrev pub plan_rounds : ℕ → ℕ
plan_rounds spacing = max (day_minutes / max spacing 1) 1

pub free_plan_slot : Text → ℕ → List Text → Option Text
unfolding search_slot distinct
free_plan_slot start spacing taken = search_slot start spacing taken 0 (plan_rounds spacing)
