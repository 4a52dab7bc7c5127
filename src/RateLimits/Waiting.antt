-- ===== src/RateLimits/Waiting.antt =====
-- That `acquire` of rate_limits.py comes to an end, and within which time.
use domain_lens.Prelude.{
  ℕ, zero, suc, ◌+◌, ◌*◌, ◌≤◌, ◌<◌, ◌≡◌, refl, ◌≢◌, inl, inr, true, Option, none, some, List, [],
  ◌∷◌, arith, leb, length, Bool-cases, ◌⊎◌, String,
}
use domain_lens.RateLimits.{
  after_turn, Config, Entry, Moment, Verdict, Reason, granted, refused, wait, minute, margin,
  drop_old, has_room, pause_for, take_slot, turn, acquire_from, acquire, enough, limits, budget_of,
}

drop_old-young :
    (now : ℕ) (calls : List ℕ)
    → (drop_old now calls ≡ []) ⊎ (margin < pause_for now (drop_old now calls))
unfolding drop_old
drop_old-young now [] = inl refl
drop_old-young now (c ∷ cs) = elim (Bool-cases (leb (c + minute) now)) [
  | inl e ↦ rw e (drop_old-young now cs)
  | inr e ↦ rw e (inr (ground arith))
]

take_slot-wait :
    (per_minute : Option ℕ) (t : Moment) (calls : List ℕ) (e : Entry) (pause : ℕ)
    → (take_slot per_minute t (drop_old t.now calls) e).1 ≡ wait pause
    → margin < pause
unfolding take_slot
take_slot-wait none t calls e pause h = ground arith
take_slot-wait (some zero) t calls e pause h = ground arith
take_slot-wait (some (suc n)) t calls e pause h = elim (drop_old-young t.now calls) [
  | inl none_left ↦
      let room : has_room (some (suc n)) (length (drop_old t.now calls)) ≡ true =
        rw none_left (ground arith) in
      ground (arith, room)
  | inr young ↦ ground (arith, young)
]

turn-wait :
    (per_minute per_day : Option ℕ) (t : Moment) (e : Entry) (pause : ℕ)
    → (turn per_minute per_day t e).1 ≡ wait pause
    → margin < pause
unfolding turn
turn-wait per_minute per_day t e pause h =
    ground (arith, take_slot-wait per_minute t e.calls e pause)

after_turn-ends :
    (budget waited : ℕ) (again : ℕ → Entry → Option (Entry × Option Reason)) (r : Entry × Verdict)
    → ((pause : ℕ) → r.1 ≡ wait pause → margin < pause)
    → ((waited' : ℕ) (e : Entry)
        → waited + margin < waited'
        → waited' ≤ budget
        → again waited' e ≢ none)
    → after_turn budget waited again r ≢ none
after_turn-ends budget waited again (e, granted) h k = ground arith
after_turn-ends budget waited again (e, refused reason) h k = ground arith
after_turn-ends budget waited again (e, wait pause) h k =
    ground (arith, h pause refl, k (waited + pause) e)

-- With a margin left for each turn that is allowed, the loop ends.
acquire_from-ends :
    (per_minute per_day : Option ℕ) (budget : ℕ) (others : ℕ → Entry → Entry) (clock : ℕ → Moment)
    (fuel k waited : ℕ) (e : Entry)
    → budget < waited + fuel * margin
    → 0 < fuel
    → acquire_from per_minute per_day budget others clock fuel k waited e ≢ none
unfolding acquire_from
acquire_from-ends per_minute per_day budget others clock zero k waited e h p = absurd (omega arith)
acquire_from-ends per_minute per_day budget others clock (suc fuel) k waited e h p =
    after_turn-ends budget waited _ (turn per_minute per_day (clock k) e)
      (turn-wait per_minute per_day (clock k) e)
      (λ waited' e' longer within.
        acquire_from-ends per_minute per_day budget others clock fuel (suc k) waited' (others k e')
          (omega arith) (omega arith))

answered {ℓ} : {A : Type ℓ} (o : Option A) → o ≢ none → (a : A) × (o ≡ some a)
answered none h = absurd (h refl)
answered (some a) h = (a, refl)

-- `acquire` always comes back with an answer, for every provider and setting, whatever the clock
-- says and whatever the other threads do to the counts while it sleeps: it takes at most one turn
-- more than there are twentieths of a second in the time it may wait.
pub acquire-answers :
    (cfg : Config) (provider : String) (given : Option ℕ) (others : ℕ → Entry → Entry)
    (clock : ℕ → Moment) (e : Entry)
    → (answer : Entry × Option Reason) × (acquire cfg provider given others clock e ≡ some answer)
unfolding acquire
acquire-answers cfg provider given others clock e = answered _ (
    acquire_from-ends (limits cfg provider).0 (limits cfg provider).1 (budget_of cfg given) others
      clock (enough (budget_of cfg given)) 0 0 e (omega arith) (omega arith))
