-- ===== src/RateLimits/Window.antt =====
-- The budgets that `acquire` of rate_limits.py keeps, over every order of the turns of all threads.
use domain_lens.Prelude.{
  ℕ, suc, ◌+◌, ◌≤◌, ◌≡◌, refl, ◌≢◌, inl, inr, ◌⊎◌, false, ◌&&◌, Option, some, List, [], ◌∷◌, ◌++◌,
  map, arith, ltb, leb, ◌==◌, length, length-keep, keep, All, String,
}
use domain_lens.RateLimits.{
  Entry, Moment, Verdict, granted, refused, wait, minute, drop_old, is_reached, count_on, take_slot,
  turn, cool_down, no_entry,
}

-- What happens to a provider: a turn of some thread's `acquire`, or a cooldown.
pub data Event : Type 0 where
  turned : Moment → Event
  cooled : ℕ → ℕ → String → Event

-- Whether an event that is a turn is not later than a moment.
abbrev pub NotAfter : Moment → Event → Type 0
NotAfter t (turned s) = (s.now ≤ t.now) × (s.today ≤ t.today)
NotAfter t (cooled now seconds reason) = Unit

-- The clock and the calendar do not go back; the events stand with the last one first.
abbrev pub InOrder : List Event → Type 0
InOrder [] = Unit
InOrder (turned t ∷ past) = All (NotAfter t) past × InOrder past
InOrder (cooled now seconds reason ∷ past) = InOrder past

abbrev pub noted : Moment → Verdict → List Moment → List Moment
noted t granted gs = t ∷ gs
noted t (refused reason) gs = gs
noted t (wait pause) gs = gs

-- The entry after the events, and the moments of the lookups that were granted.
unfoldable pub play : Option ℕ → Option ℕ → List Event → Entry × List Moment
unfolding turn cool_down
play per_minute per_day [] = (no_entry, [])
play per_minute per_day (turned t ∷ past) =
    let (e, gs) = play per_minute per_day past in
    let (e', verdict) = turn per_minute per_day t e in (e', noted t verdict gs)
play per_minute per_day (cooled now seconds reason ∷ past) =
    let (e, gs) = play per_minute per_day past in (cool_down now seconds reason e, gs)

-- The calls that are less than a minute old at a time.
abbrev pub recent : ℕ → List ℕ → ℕ
recent now calls = length (keep (λ c. ltb now (c + minute)) calls)

recent-drop_old :
    (now later : ℕ) (calls : List ℕ)
    → now ≤ later
    → recent later (drop_old now calls) ≡ recent later calls
unfolding keep drop_old
recent-drop_old now later [] h = refl
recent-drop_old now later (c ∷ cs) h = ground (arith, recent-drop_old now later cs h)

recent-append : (now c : ℕ) (calls : List ℕ) → recent now (calls ++ c ∷ []) ≡ recent now (c ∷ calls)
unfolding keep
recent-append now c [] = refl
recent-append now c (d ∷ calls) = ground (arith, recent-append now c calls)

-- What a turn does to the entry: it grants, or it does not.
pub record Granted (n : ℕ) (per_day : Option ℕ) (t : Moment) (e e' : Entry) : Type 0 where
  pub called : e'.calls ≡ drop_old t.now e.calls ++ t.now ∷ []
  pub room : length (drop_old t.now e.calls) ≤ n
  pub counted : e'.day ≡ some (t.today, count_on t.today e.day + 1)
  pub allowed : is_reached per_day (count_on t.today e.day) ≡ false

pub record Kept (t : Moment) (e e' : Entry) : Type 0 where
  pub calls : (e'.calls ≡ e.calls) ⊎ (e'.calls ≡ drop_old t.now e.calls)
  pub day : e'.day ≡ e.day

pub turn-granted :
    (n : ℕ) (per_day : Option ℕ) (t : Moment) (e : Entry)
    → (turn (some (suc n)) per_day t e).1 ≡ granted
    → Granted n per_day t e (turn (some (suc n)) per_day t e).0
unfolding turn take_slot
turn-granted n per_day t e h = ground arith

pub turn-Kept :
    (n : ℕ) (per_day : Option ℕ) (t : Moment) (e : Entry)
    → (turn (some (suc n)) per_day t e).1 ≢ granted
    → Kept t e (turn (some (suc n)) per_day t e).0
unfolding turn take_slot
turn-Kept n per_day t e h = ground arith

pub Verdict-cases : (v : Verdict) → (v ≡ granted) ⊎ (v ≢ granted)
Verdict-cases granted = inl refl
Verdict-cases (refused reason) = inr (λ e. ground arith)
Verdict-cases (wait pause) = inr (λ e. ground arith)

pub noted_not : (t : Moment) (v : Verdict) (gs : List Moment) → v ≢ granted → noted t v gs ≡ gs
noted_not t granted gs h = absurd (h refl)
noted_not t (refused reason) gs h = refl
noted_not t (wait pause) gs h = refl

-- The lookups of the minute that ends at a time.
abbrev pub in_minute : ℕ → List Moment → ℕ
in_minute end gs = length (keep (λ g. leb g.now end && ltb end (g.now + minute)) gs)

-- The lookups of a day.
abbrev pub on_day : ℕ → List Moment → ℕ
on_day day gs = length (keep (λ g. g.today == day) gs)

abbrev times : List Moment → List ℕ
times gs = map (λ g. g.now) gs

in_minute-recent :
    (now end : ℕ) (gs : List Moment) → now ≤ end → in_minute end gs ≤ recent now (times gs)
unfolding keep
in_minute-recent now end [] h = omega arith
in_minute-recent now end (g ∷ gs) h = ground (arith, in_minute-recent now end gs h)

module _ (n : ℕ) (per_day : Option ℕ) where
  agree-step :
      (t b : Moment) (e : Entry) (gs : List Moment)
      → t.now ≤ b.now
      → recent b.now e.calls ≡ recent b.now (times gs)
      → recent b.now (turn (some (suc n)) per_day t e).0.calls
        ≡ recent b.now (times (noted t (turn (some (suc n)) per_day t e).1 gs))
  agree-step t b e gs h k = elim (Verdict-cases (turn (some (suc n)) per_day t e).1) [
    | inl yes_granted ↦
        let g = turn-granted n per_day t e yes_granted in
        rw (yes_granted, g.called, recent-append b.now t.now (drop_old t.now e.calls))
          (unfold keep in ground (arith, recent-drop_old t.now b.now e.calls h, k))
    | inr no_granted ↦
        let s = turn-Kept n per_day t e no_granted in
        rw (noted_not t (turn (some (suc n)) per_day t e).1 gs no_granted) (elim s.calls [
          | inl same ↦ rw same k
          | inr dropped ↦ rw (dropped, recent-drop_old t.now b.now e.calls h) k
        ])
  ]

  -- As far as the last minute goes, the kept calls are the granted lookups.
  play-agree :
      (events : List Event) (b : Moment)
      → InOrder events
      → All (NotAfter b) events
      → recent b.now (play (some (suc n)) per_day events).0.calls
        ≡ recent b.now (times (play (some (suc n)) per_day events).1)
  unfolding play
  play-agree [] b o h = refl
  play-agree (turned t ∷ past) b o h =
      agree-step t b (play (some (suc n)) per_day past).0 (play (some (suc n)) per_day past).1
        ((h.0).0) (play-agree past b (o.1) (h.1))
  play-agree (cooled now seconds reason ∷ past) b o h =
      unfold cool_down in play-agree past b o (h.1)

  minute-step :
      (t : Moment) (e : Entry) (gs : List Moment) (end : ℕ)
      → recent t.now e.calls ≡ recent t.now (times gs)
      → in_minute end gs ≤ suc n
      → in_minute end (noted t (turn (some (suc n)) per_day t e).1 gs) ≤ suc n
  minute-step t e gs end agreed h = elim (Verdict-cases (turn (some (suc n)) per_day t e).1) [
    | inl yes_granted ↦
        let g = turn-granted n per_day t e yes_granted in
        let young = length-keep (λ (c : ℕ). ltb t.now (c + minute)) (drop_old t.now e.calls) in
        let same = recent-drop_old t.now t.now e.calls (omega arith) in
        rw yes_granted (
          unfold keep in
          ground (arith, g.room, young, same, agreed, h, in_minute-recent t.now end gs))
    | inr no_granted ↦ rw (noted_not t (turn (some (suc n)) per_day t e).1 gs no_granted) h
  ]

-- Over every order of turns and cooldowns, by any threads, while the monotonic clock does not go
-- back: in no minute are more lookups granted than the limit of the provider for a minute. A
-- limit of 0 is none, so the limit is written as the successor of `n`.
pub play-minute :
    (n : ℕ) (per_day : Option ℕ) (events : List Event) (end : ℕ)
    → InOrder events
    → in_minute end (play (some (suc n)) per_day events).1 ≤ suc n
unfolding play
play-minute n per_day [] end o = unfold keep in omega arith
play-minute n per_day (turned t ∷ past) end o =
    minute-step n per_day t (play (some (suc n)) per_day past).0
      (play (some (suc n)) per_day past).1 end (play-agree n per_day past t (o.1) (o.0))
      (play-minute n per_day past end (o.1))
play-minute n per_day (cooled now seconds reason ∷ past) end o = play-minute n per_day past end o
