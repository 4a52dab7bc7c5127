-- ===== src/RateLimits/Tests.antt =====
-- Runs of rate_limits.py with a small budget, and its theorems there.
use domain_lens.Prelude.{ℕ, ◌+◌, ◌*◌, ◌≤◌, ◌≡◌, refl, Option, none, some, List, [], ◌∷◌, arith}
use domain_lens.RateLimits.{Config, Entry, Moment, Reason, minute_limit, acquire, second, minute}
use domain_lens.RateLimits.Window.{Event, turned, cooled, play, in_minute, on_day, play-minute}
use domain_lens.RateLimits.Days.{play-day}
use domain_lens.RateLimits.Waiting.{acquire-answers}

abbrev cfg : Config
cfg = record {
  virustotal_per_minute = some 2;
  virustotal_per_day = some 3;
  ip_api_per_minute = none;
  wait_seconds = none;
}

abbrev at_second : ℕ → Moment
at_second n = record { now = n * second; today = 7 }

-- Three lookups wanted within a minute, and one after it: the third has to wait.
abbrev events : List Event
events =
    turned (at_second 70)
    ∷ turned (at_second 30)
    ∷ cooled (5 * second) 2 "slow down"
    ∷ turned (at_second 3)
    ∷ turned (at_second 1)
    ∷ []

granted_at : (play (some 2) (some 3) events).1 ≡ at_second 70 ∷ at_second 3 ∷ at_second 1 ∷ []
unfolding play
granted_at = refl

play-minute_example : in_minute (50 * second) (play (some 2) (some 3) events).1 ≤ 2
play-minute_example = play-minute 1 (some 3) events (50 * second) (omega arith)

play-day_example : on_day 7 (play (some 2) (some 3) events).1 ≤ 3
play-day_example = play-day 1 2 events 7 (omega arith)

abbrev busy : Entry
busy = record { calls = second ∷ 3 * second ∷ []; day = some (7, 2); cooldown = none }

abbrev idle_others : ℕ → Entry → Entry
idle_others k e = e

-- The second turn comes after the pause, when the oldest call is over a minute old.
waits_then_gets :
    acquire cfg "virustotal" (some minute) idle_others (λ k. at_second (30 + k * 32)) busy
    ≡ some
        (record { calls = 3 * second ∷ 62 * second ∷ []; day = some (7, 3); cooldown = none }, none)
unfolding acquire
waits_then_gets = refl

gives_up :
    acquire cfg "virustotal" (some second) idle_others (λ k. at_second 30) busy
    ≡ some (busy, some minute_limit)
unfolding acquire
gives_up = refl

acquire-answers_example :
    (answer : Entry × Option Reason) × (acquire cfg "virustotal"
        (some minute)
        idle_others
        at_second
        busy
      ≡ some answer)
acquire-answers_example = acquire-answers cfg "virustotal" (some minute) idle_others at_second busy
