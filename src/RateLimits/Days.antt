-- ===== src/RateLimits/Days.antt =====
-- The daily budgets that `acquire` of rate_limits.py keeps, and what a cooldown does.
use domain_lens.Prelude.{
  ℕ, suc, ◌+◌, ◌*◌, ◌≤◌, ◌<◌, ◌≡◌, refl, inl, inr, false, Option, some, List, [], ◌∷◌, arith, keep,
  All, String, max,
}
use domain_lens.RateLimits.{
  Entry, Moment, Verdict, told, granted, refused, wait, is_reached, count_on, turn, blocked,
  cool_down, second, note_response, retry_seconds,
}
use domain_lens.RateLimits.Window.{
  Event, turned, cooled, NotAfter, InOrder, noted, play, turn-granted, turn-Kept, Verdict-cases,
  noted_not, on_day,
}

-- The lookups were granted on days that are not after a day.
abbrev Until : ℕ → List Moment → Type 0
Until day gs = All (λ g. g.today ≤ day) gs

on_day-later : (day last : ℕ) (gs : List Moment) → last < day → Until last gs → on_day day gs ≡ 0
unfolding keep
on_day-later day last [] h u = refl
on_day-later day last (g ∷ gs) h u = ground (arith, on_day-later day last gs h (u.1), u.0)

module _ (n : ℕ) (per_day : Option ℕ) where
  Until-step :
      (t : Moment) (v : Verdict) (day : ℕ) (gs : List Moment)
      → t.today ≤ day
      → Until day gs
      → Until day (noted t v gs)
  Until-step t granted day gs h u = (h, u)
  Until-step t (refused reason) day gs h u = u
  Until-step t (wait pause) day gs h u = u

  play-Until :
      (events : List Event) (b : Moment)
      → All (NotAfter b) events
      → Until b.today (play (some (suc n)) per_day events).1
  unfolding play
  play-Until [] b h = tt
  play-Until (turned t ∷ past) b h =
      Until-step t _ b.today (play (some (suc n)) per_day past).1 ((h.0).1)
        (play-Until past b (h.1))
  play-Until (cooled now seconds reason ∷ past) b h = play-Until past b (h.1)

  count-step :
      (t b : Moment) (e : Entry) (gs : List Moment)
      → t.today ≤ b.today
      → Until t.today gs
      → count_on t.today e.day ≡ on_day t.today gs
      → count_on b.today e.day ≡ on_day b.today gs
      → count_on b.today (turn (some (suc n)) per_day t e).0.day
        ≡ on_day b.today (noted t (turn (some (suc n)) per_day t e).1 gs)
  count-step t b e gs h u now_same same = elim (Verdict-cases (turn (some (suc n)) per_day t e).1) [
    | inl yes_granted ↦
        let g = turn-granted n per_day t e yes_granted in
        rw (yes_granted, g.counted)
          (unfold keep in
            ground (
              arith,
              now_same,
              same,
              h,
              λ (p : t.today < b.today). on_day-later b.today t.today gs p u,
            ))
    | inr no_granted ↦
        let s = turn-Kept n per_day t e no_granted in
        rw (noted_not t (turn (some (suc n)) per_day t e).1 gs no_granted, s.day) same
  ]

  -- The count of a day is the number of its lookups.
  play-count :
      (events : List Event) (b : Moment)
      → InOrder events
      → All (NotAfter b) events
      → count_on b.today (play (some (suc n)) per_day events).0.day
        ≡ on_day b.today (play (some (suc n)) per_day events).1
  unfolding play
  play-count [] b o h = unfold keep in refl
  play-count (turned t ∷ past) b o h =
      count-step t b (play (some (suc n)) per_day past).0 (play (some (suc n)) per_day past).1
        ((h.0).1) (play-Until past t (o.0)) (play-count past t (o.1) (o.0))
        (play-count past b (o.1) (h.1))
  play-count (cooled now seconds reason ∷ past) b o h =
      unfold cool_down in play-count past b o (h.1)

day-step :
    (n m : ℕ) (t : Moment) (e : Entry) (gs : List Moment) (day : ℕ)
    → count_on t.today e.day ≡ on_day t.today gs
    → on_day day gs ≤ suc m
    → on_day day (noted t (turn (some (suc n)) (some (suc m)) t e).1 gs) ≤ suc m
day-step n m t e gs day same h = elim (Verdict-cases (turn (some (suc n)) (some (suc m)) t e).1) [
  | inl yes_granted ↦
      let g = turn-granted n (some (suc m)) t e yes_granted in
      let allowed : is_reached (some (suc m)) (count_on t.today e.day) ≡ false = g.allowed in
      rw yes_granted (unfold keep in ground (arith, allowed, same, h))
  | inr no_granted ↦ rw (noted_not t (turn (some (suc n)) (some (suc m)) t e).1 gs no_granted) h
]

-- Over every order of turns and cooldowns, by any threads, while neither the clock nor the calendar
-- goes back: on no day are more lookups granted than the provider's limit for a day. The limits are
-- written as successors, since 0 is no limit.
pub play-day :
    (n m : ℕ) (events : List Event) (day : ℕ)
    → InOrder events
    → on_day day (play (some (suc n)) (some (suc m)) events).1 ≤ suc m
unfolding play
play-day n m [] day o = unfold keep in omega arith
play-day n m (turned t ∷ past) day o =
    day-step n m t (play (some (suc n)) (some (suc m)) past).0
      (play (some (suc n)) (some (suc m)) past).1 day
      (play-count n (some (suc m)) past t (o.1) (o.0)) (play-day n m past day (o.1))
play-day n m (cooled now seconds reason ∷ past) day o = play-day n m past day o

-- After an answer with status 429 no turn before the time that the answer names, at most a day
-- ahead and at least a second, makes a lookup: it is refused with the reason and changes nothing.
pub note_response-turn :
    (per_minute per_day : Option ℕ) (now : ℕ) (header : Option ℕ) (reason : String) (t : Moment)
    (e : Entry)
    → t.now < now + max 1 (retry_seconds header) * second
    → turn per_minute per_day t (note_response now 429 header reason e).0
      ≡ ((note_response now 429 header reason e).0, refused (told reason))
unfolding turn note_response cool_down blocked
note_response-turn per_minute per_day now header reason t e h = ground arith
