-- ===== src/Schedule/NextRun.antt =====
-- Where `next_run` of scheduler.py lands. A zone with a fixed offset is one whose wall clock runs
-- minute by minute with time and whose local days hold their instants; no clock change is in it.
use domain_lens.Prelude.{
  ℕ, ◌+◌, ◌-◌, ◌*◌, ◌/◌, ◌≤◌, ◌<◌, ◌≡◌, sym, ap, ◌∙◌, ◌⊎◌, inl, inr, Bool, false, Option, none,
  arith, ltb, leb, String, Text, Bool-cases, leb→le, ltb→lt,
}
use native.Mathlib.Nat.{div-mul-le_self, lt-div-mul-add}
use domain_lens.Prelude.Int.{ℤ}
use domain_lens.Schedule.{
  Zone, minute, day_minutes, interval, slot_run, daily_run, lead, timed_run, parse_time, find_zone,
  next_run,
}

pub record IsFixed (zone : Zone) : Type 0 where
  pub steady : (w v : ℕ) → zone.instant (w + v) ≡ zone.instant w + v * minute
  pub begins : (t : ℕ) → zone.instant (zone.local_day t * day_minutes) ≤ t
  pub ends : (t : ℕ) → t < zone.instant (zone.local_day t * day_minutes + day_minutes)

daily_run-fixed :
    (zone : Zone) (time earliest : ℕ)
    → IsFixed zone
    → time < day_minutes
    → (earliest ≤ daily_run zone time earliest)
      × (daily_run zone time earliest < earliest + day_minutes * minute)
unfolding daily_run
daily_run-fixed zone time earliest f t =
    let day = zone.local_day earliest in
    let base = f.begins earliest in
    let top = f.ends earliest in
    let a = f.steady (day * day_minutes) time in
    let b = f.steady (day * day_minutes) day_minutes in
    let e : (day + 1) * day_minutes + time ≡ day * day_minutes + (day_minutes + time) =
      omega arith in
    let c = ap zone.instant e ∙ f.steady (day * day_minutes) (day_minutes + time) in
    elim (Bool-cases (ltb (zone.instant (day * day_minutes + time)) earliest)) [
      | inl early ↦ let past = ltb→lt _ _ early in rw early (omega arith)
      | inr fits ↦ rw fits (ground arith)
    ]

-- For a schedule below a day the next run lies after now and at most one interval ahead.
slot_run-fixed :
    (zone : Zone) (minutes time now : ℕ)
    → IsFixed zone
    → 1 ≤ minutes
    → minutes < day_minutes
    → time < day_minutes
    → (now < slot_run zone minutes time now)
      × (slot_run zone minutes time now ≤ now + minutes * minute)
unfolding slot_run
slot_run-fixed zone minutes time now f m below t =
    let base = zone.local_day now * day_minutes + time in
    let anchor = zone.instant base in
    let step = minutes * minute in
    let positive : 1 ≤ step = omega arith in
    elim (Bool-cases (leb anchor now)) [
      | inl passed ↦
          let reached = leb→le _ _ passed in
          let q = (now - anchor) / step in
          let low = div-mul-le_self (now - anchor) step in
          let high = lt-div-mul-add {a = now - anchor} positive in
          let at = f.steady base ((q + 1) * minutes) in
          let grouped : (q + 1) * minutes * minute ≡ q * step + step = grind arith in
          rw passed (omega arith)
      | inr coming ↦
          let ahead : now < anchor = ground arith in
          let q = (anchor - now + (step - 1)) / step in
          let low = div-mul-le_self (anchor - now + (step - 1)) step in
          let high = lt-div-mul-add {a = anchor - now + (step - 1)} positive in
          let grouped : q * minutes * minute ≡ q * step = grind arith in
          let today = f.begins now in
          let later = f.steady (zone.local_day now * day_minutes) time in
          let enough : q * minutes ≤ base + minutes = omega arith in
          let whole : (base + minutes - q * minutes) + q * minutes ≡ base + minutes = omega arith in
          let at =
            sym (f.steady (base + minutes - q * minutes) (q * minutes))
            ∙ ap zone.instant whole
            ∙ f.steady base minutes in
          rw coming (omega arith)
    ]

-- In a zone with a fixed offset a schedule with a time of day runs next after now: below a day
-- within one interval; otherwise, unless it is the first run, not before an interval less a day and
-- a minute has passed, and within the interval and a minute.
pub timed_run-fixed :
    (zone : Zone) (minutes time now : ℕ)
    → IsFixed zone
    → 1 ≤ minutes
    → time < day_minutes
    → (now < timed_run zone minutes time now false)
      × (now + (minutes - day_minutes) * minute < timed_run zone minutes time now false)
      × (timed_run zone minutes time now false ≤ now + (minutes + 1) * minute)
unfolding timed_run
timed_run-fixed zone minutes time now f m t = elim (Bool-cases (ltb minutes day_minutes)) [
  | inl short ↦
      let below = ltb→lt _ _ short in
      let b = slot_run-fixed zone minutes time now f m below t in rw short (omega arith)
  | inr long ↦
      let above : day_minutes ≤ minutes = ground arith in
      let b = daily_run-fixed zone time (now + lead minutes false * minute) f t in
      rw long (omega arith)
]

-- A daily or longer schedule with a time of day always runs at that time of the zone's wall clock,
-- on some day, in every zone.
pub timed_run_on_time :
    (zone : Zone) (minutes time now : ℕ) (first : Bool)
    → day_minutes ≤ minutes
    → (day : ℕ) × (timed_run zone minutes time now first ≡ zone.instant (day * day_minutes + time))
unfolding timed_run daily_run
timed_run_on_time zone minutes time now first long =
    let earliest = now + lead minutes first * minute in
    let day = zone.local_day earliest in
    let daily : ltb minutes day_minutes ≡ false = ground arith in
    elim (Bool-cases (ltb (zone.instant (day * day_minutes + time)) earliest)) [
      | inl early ↦ (day + 1, rw (daily, early))
      | inr fits ↦ (day, rw (daily, fits))
    ]

-- Without a time of day, or in a zone that is not known, the next run is one interval after now.
pub next_run_plain :
    (zone_of : String → Option Zone) (schedule_minutes : Option ℤ) (scan_time : Option Text)
    (scan_tz : Option String) (now : ℕ) (first : Bool)
    → (parse_time scan_time ≡ none) ⊎ (find_zone zone_of scan_tz ≡ none)
    → next_run zone_of schedule_minutes scan_time scan_tz now first
      ≡ now + interval schedule_minutes * minute
unfolding next_run
next_run_plain zone_of schedule_minutes scan_time scan_tz now first h = ground arith
