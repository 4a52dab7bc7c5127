-- ===== src/RiskAcceptance/Cache.antt =====
-- The cache of active acceptances in risk_acceptance.py, and what the calls of `_all_active` return.
use domain_lens.Prelude.{
  ℕ, ◌≡◌, refl, ◌≢◌, ◌⊎◌, inl, inr, Bool, true, false, ◌&&◌, none, some, List, [], ◌∷◌, ◌++◌, arith,
  ◌==◌, All, All-keep, keep, Bool-cases, sym,
}
use domain_lens.Prelude.Sorting.{sort-All}
use domain_lens.RiskAcceptance.Terms.{create-Accepted}
use domain_lens.RiskAcceptance.{
  Acceptance, World, Proposal, ok, create, revoke, revoke_rows, query, fill, is_active, all_active,
  invalidate, find_id, latest_first,
}

-- What the program does with the table and the cache, one call after another.
pub data Step : World → World → Type 0 where
  created :
      (today now : ℕ) (p : Proposal) (w w' : World) (id : ℕ)
      → create today now p w ≡ ok (w', id)
      → Step w w'
  revoked : (now id : ℕ) (w : World) → Step w (revoke now id w).0
  read : (readable : Bool) (today : ℕ) (w : World) → Step w (all_active readable today w).0

-- The worlds that calls one after another lead to from an empty cache.
pub data Reach : World → Type 0 where
  start : (w : World) → w.cache_key ≡ none → Reach w
  next : (w w' : World) → Reach w → Step w w' → Reach w'

-- A cached day has the rows that the query finds for it.
abbrev pub IsCoherent : World → Type 0
IsCoherent w = (day : ℕ) → w.cache_key ≡ some day → w.cache_rows ≡ query day w.rows

create-emptied :
    (today now : ℕ) (p : Proposal) (w w' : World) (id : ℕ)
    → create today now p w ≡ ok (w', id)
    → w'.cache_key ≡ none
unfolding create invalidate
create-emptied today now p w w' id h = ground arith

empty-IsCoherent : (w : World) → w.cache_key ≡ none → IsCoherent w
empty-IsCoherent w e day h = cc

pub all_active-IsCoherent :
    (readable : Bool) (today : ℕ) (w : World)
    → IsCoherent w
    → IsCoherent (all_active readable today w).0
unfolding all_active fill
all_active-IsCoherent readable today w h day e = let whole = h day in ground arith

Step-IsCoherent : {w w' : World} → Step w w' → IsCoherent w → IsCoherent w'
Step-IsCoherent (created today now p w w' id done) h =
    empty-IsCoherent w' (create-emptied today now p w w' id done)
Step-IsCoherent (revoked now id w) h =
    empty-IsCoherent (revoke now id w).0 (unfold revoke invalidate in refl)
Step-IsCoherent (read readable today w) h = all_active-IsCoherent readable today w h

pub Reach-IsCoherent : {w : World} → Reach w → IsCoherent w
Reach-IsCoherent (start w e) = empty-IsCoherent w e
Reach-IsCoherent (next w w' before step) = Step-IsCoherent step (Reach-IsCoherent before)

all_active-answer :
    (readable : Bool) (today : ℕ) (w : World)
    → IsCoherent w
    → ((all_active readable today w).1 ≡ query today w.rows)
      ⊎ ((readable ≡ false) × ((all_active readable today w).1 ≡ []))
unfolding all_active fill
all_active-answer readable today w h = let whole = h today in ground arith

-- When the calls run one after another, `_all_active` returns the rows that the query finds in the
-- table now, whatever the cache holds; only where the table cannot be read it may return none.
pub all_active-current :
    (readable : Bool) (today : ℕ) (w : World)
    → Reach w
    → ((all_active readable today w).1 ≡ query today w.rows)
      ⊎ ((readable ≡ false) × ((all_active readable today w).1 ≡ []))
all_active-current readable today w reached =
    all_active-answer readable today w (Reach-IsCoherent reached)

keep-holds {ℓ} : {A : Type ℓ} (p : A → Bool) (xs : List A) → All (λ x. p x ≡ true) (keep p xs)
unfolding keep
keep-holds p [] = tt
keep-holds p (x ∷ xs) = elim (Bool-cases (p x)) [
  | inl e ↦ rw e (e, keep-holds p xs)
  | inr e ↦ rw e (keep-holds p xs)
]

pub query-active :
    (today : ℕ) (rows : List Acceptance)
    → All (λ row. is_active today row ≡ true) (query today rows)
unfolding query
query-active today rows =
    sort-All latest_first _ (keep (is_active today) rows) (keep-holds (is_active today) rows)

pub all_active-active :
    (readable : Bool) (today : ℕ) (w : World)
    → IsCoherent w
    → All (λ row. is_active today row ≡ true) (all_active readable today w).1
all_active-active readable today w h = elim (all_active-answer readable today w h) [
  | inl e ↦ rw e (query-active today w.rows)
  | inr e ↦ rw (e.1) tt
]

revoke_rows-inactive :
    (now today id : ℕ) (rows : List Acceptance)
    → All (λ row. (row.id == id && is_active today row) ≡ false) (revoke_rows now id rows).0
unfolding revoke_rows is_active
revoke_rows-inactive now today id [] = tt
revoke_rows-inactive now today id (row ∷ rest) =
    ground (arith, revoke_rows-inactive now today id rest)

keep-without :
    (today id : ℕ) (rows : List Acceptance)
    → All (λ row. (row.id == id && is_active today row) ≡ false) rows
    → All (λ row. row.id ≢ id) (keep (is_active today) rows)
unfolding keep
keep-without today id [] h = tt
keep-without today id (row ∷ rest) h = ground (arith, keep-without today id rest (h.1))

-- Once an acceptance is revoked, `_all_active` no longer returns it: on no day, and whatever the
-- cache held before.
pub revoke-all_active :
    (readable : Bool) (now today id : ℕ) (w : World)
    → All (λ row. row.id ≢ id) (all_active readable today (revoke now id w).0).1
revoke-all_active false now today id w = unfold all_active revoke invalidate in tt
revoke-all_active true now today id w =
    unfold all_active revoke invalidate query in
    sort-All latest_first _ (keep (is_active today) (revoke_rows now id w.rows).0) (
      keep-without today id (revoke_rows now id w.rows).0
        (revoke_rows-inactive now today id w.rows))

unused : (id : ℕ) (rows : List Acceptance) → find_id id rows ≡ none → All (λ row. row.id ≢ id) rows
unfolding find_id
unused id [] h = tt
unused id (row ∷ rest) h = ground (arith, unused id rest)

find-added : (row : Acceptance) (rows : List Acceptance) → find_id row.id (rows ++ row ∷ []) ≢ none
unfolding find_id
find-added row [] = ground arith
find-added row (other ∷ rest) = ground (arith, find-added row rest)

-- Two calls that overlap: a reader that read the table before an acceptance was made, and fills the
-- cache after it, makes later calls of that day return the rows without the new acceptance, while
-- the table has it.
pub late-fill :
    (readable : Bool) (today now id : ℕ) (p : Proposal) (w w' : World)
    → create today now p w ≡ ok (w', id)
    → find_id w.next_id w.rows ≡ none
    → ((all_active readable today (fill today (query today w.rows) w')).1 ≡ query today w.rows)
      × All (λ row. row.id ≢ id) (query today w.rows)
      × (find_id id w'.rows ≢ none)
unfolding all_active fill query
late-fill readable today now id p w w' done fresh =
    let made = create-Accepted today now p w w' id done in
    (
      ground arith,
      sort-All latest_first _ (keep (is_active today) w.rows)
          (All-keep _ (is_active today) w.rows (unused id w.rows (rw (made.named).1 fresh))),
      rw (sym (made.named).0, made.added) (find-added made.row w.rows),
    )
