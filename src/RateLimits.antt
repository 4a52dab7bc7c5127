-- ===== src/RateLimits.antt =====
-- rate_limits.py: the budgets of the outside services. A time is in microseconds of the monotonic
-- clock, a day is the number of its UTC date. The settings are numbers that are not negative.
pub mod Window
pub mod Waiting
pub mod Days
mod Tests
use domain_lens.Prelude.{
  ℕ, zero, suc, ◌+◌, ◌-◌, ◌*◌, ◌/◌, Bool, true, false, not, ◌&&◌, ◌||◌, Option, none, some, List,
  [], ◌∷◌, ◌++◌, ltb, leb, ◌==◌, length, keep, String, str_eq, if◌then◌else◌, min, max,
}

abbrev pub second : ℕ
second = 1000000

abbrev pub minute : ℕ
minute = 60 * second

-- The margin of a twentieth of a second that a pause has.
abbrev pub margin : ℕ
margin = 50000

-- The settings `api_limits`; none where one is absent.
pub record Config : Type 0 where
  pub virustotal_per_minute : Option ℕ
  pub virustotal_per_day : Option ℕ
  pub ip_api_per_minute : Option ℕ
  pub wait_seconds : Option ℕ

-- `cfg.get(name) or default`.
abbrev pub or_default : ℕ → Option ℕ → ℕ
or_default n none = n
or_default n (some zero) = n
or_default n (some (suc m)) = suc m

unfoldable pub limits : Config → String → Option ℕ × Option ℕ
limits cfg provider =
    if str_eq provider "virustotal"
    then (
      some (or_default 4 cfg.virustotal_per_minute),
      some (or_default 500 cfg.virustotal_per_day),
    )
    else if str_eq provider "ip-api"
    then (some (or_default 45 cfg.ip_api_per_minute), none)
    else (none, none)

abbrev pub max_wait : Config → ℕ
max_wait cfg = elim cfg.wait_seconds [ none ↦ 20 * second | some n ↦ n * second ]

-- Why a lookup is not made: the reason of a cooldown, or one of the two limits.
pub data Reason : Type 0 where
  told : String → Reason
  daily_limit minute_limit : Reason

-- What is kept of a provider: its entries of `_minute`, `_day` and `_cooldown`.
pub record Entry : Type 0 where
  pub calls : List ℕ
  pub day : Option (ℕ × ℕ)
  pub cooldown : Option (ℕ × String)

abbrev pub no_entry : Entry
no_entry = record { calls = []; day = none; cooldown = none }

pub record Moment : Type 0 where
  pub now : ℕ
  pub today : ℕ

pub data Verdict : Type 0 where
  granted : Verdict
  refused : Reason → Verdict
  wait : ℕ → Verdict

-- The reason of a cooldown that is not over.
unfoldable pub blocked : ℕ → Entry → Option String
blocked now e = elim e.cooldown [
  | none ↦ none
  | some (until, reason) ↦ if ltb now until then some reason else none
]

abbrev pub count_on : ℕ → Option (ℕ × ℕ) → ℕ
count_on today none = 0
count_on today (some (day, count)) = if day == today then count else 0

-- `limit and count >= limit`.
abbrev pub is_reached : Option ℕ → ℕ → Bool
is_reached none count = false
is_reached (some zero) count = false
is_reached (some (suc n)) count = leb (suc n) count

-- `not limit or count < limit`.
abbrev pub has_room : Option ℕ → ℕ → Bool
has_room none count = true
has_room (some zero) count = true
has_room (some (suc n)) count = ltb count (suc n)

-- The calls that are less than a minute old, the oldest first.
unfoldable pub drop_old : ℕ → List ℕ → List ℕ
drop_old now [] = []
drop_old now (c ∷ cs) = let rest = drop_old now cs in if leb (c + minute) now then rest else c ∷ cs

-- `60 - (now - calls[0]) + 0.05`; there is a call where the limit is reached.
abbrev pub pause_for : ℕ → List ℕ → ℕ
pause_for now [] = 0
pause_for now (c ∷ cs) = c + minute + margin - now

-- The end of a turn, once the old calls are dropped.
unfoldable pub take_slot : Option ℕ → Moment → List ℕ → Entry → Entry × Verdict
take_slot per_minute t calls e =
    if has_room per_minute (length calls)
    then (
      record e { calls = calls ++ t.now ∷ []; day = some (t.today, count_on t.today e.day + 1) },
      granted,
    )
    else (record e { calls = calls }, wait (pause_for t.now calls))

-- One turn of the loop of `acquire`, under the lock.
unfoldable pub turn : Option ℕ → Option ℕ → Moment → Entry → Entry × Verdict
unfolding blocked drop_old take_slot
turn per_minute per_day t e = elim (blocked t.now e) [
  | some reason ↦ (e, refused (told reason))
  | none ↦
      if is_reached per_day (count_on t.today e.day)
      then (e, refused daily_limit)
      else take_slot per_minute t (drop_old t.now e.calls) e
]

-- What `acquire` does after a turn: it returns, or sleeps and goes on.
abbrev pub after_turn :
    ℕ
    → ℕ
    → (ℕ → Entry → Option (Entry × Option Reason))
    → Entry × Verdict
    → Option (Entry × Option Reason)
after_turn budget waited again (e, granted) = some (e, none)
after_turn budget waited again (e, refused reason) = some (e, some reason)
after_turn budget waited again (e, wait pause) = elim (ltb budget (waited + pause)) [
  | true ↦ some (e, some minute_limit)
  | false ↦ again (waited + pause) e
]

-- `acquire`, with a bound on the turns: none where they do not suffice. `others` is what the other
-- threads do to the entry while this one sleeps for the k-th time, and `clock` is read at each turn.
unfoldable pub acquire_from :
    Option ℕ
    → Option ℕ
    → ℕ
    → (ℕ → Entry → Entry)
    → (ℕ → Moment)
    → ℕ
    → ℕ
    → ℕ
    → Entry
    → Option (Entry × Option Reason)
unfolding turn
acquire_from per_minute per_day budget others clock zero k waited e = none
acquire_from per_minute per_day budget others clock (suc fuel) k waited e =
    after_turn budget waited
      (λ waited' e'.
        acquire_from per_minute per_day budget others clock fuel (suc k) waited' (others k e'))
      (turn per_minute per_day (clock k) e)

-- As many turns as there are margins in the budget, and one.
abbrev pub enough : ℕ → ℕ
enough budget = suc (budget / margin)

abbrev pub budget_of : Config → Option ℕ → ℕ
budget_of cfg none = max_wait cfg
budget_of cfg (some given) = given

pub acquire :
    Config
    → String
    → Option ℕ
    → (ℕ → Entry → Entry)
    → (ℕ → Moment)
    → Entry
    → Option (Entry × Option Reason)
unfolding limits acquire_from
acquire cfg provider given others clock e =
    let (per_minute, per_day) = limits cfg provider in
    let budget = budget_of cfg given in
    acquire_from per_minute per_day budget others clock (enough budget) 0 0 e

-- `cooldown`, for a number of seconds.
pub cool_down : ℕ → ℕ → String → Entry → Entry
cool_down now seconds reason e = record e { cooldown = some (now + max 1 seconds * second, reason) }

-- The header `Retry-After`: none where it is absent or no number.
abbrev pub retry_seconds : Option ℕ → ℕ
retry_seconds none = 60
retry_seconds (some n) = min n (24 * 3600)

pub note_response : ℕ → ℕ → Option ℕ → String → Entry → Entry × Bool
unfolding cool_down
note_response now status_code header reason e =
    if status_code == 429 then (cool_down now (retry_seconds header) reason e, true) else (e, false)

pub record Usage : Type 0 where
  pub per_minute : Option ℕ
  pub per_day : Option ℕ
  pub last_minute : ℕ
  pub today : ℕ
  pub blocked_for_seconds : ℕ
  pub blocked_reason : Option String

abbrev pub until_of : Option (ℕ × String) → ℕ
until_of none = 0
until_of (some (until, reason)) = until

-- What `status` says of a provider.
pub usage : Config → String → Moment → Entry → Usage
unfolding limits blocked keep
usage cfg provider t e = record {
  per_minute = (limits cfg provider).0;
  per_day = (limits cfg provider).1;
  last_minute = length (keep (λ c. ltb t.now (c + minute)) e.calls);
  today = count_on t.today e.day;
  blocked_for_seconds = (until_of e.cooldown - t.now) / second;
  blocked_reason = blocked t.now e;
}
