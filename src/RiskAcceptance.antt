-- ===== src/RiskAcceptance.antt =====
-- risk_acceptance.py: accepted risks, the cache of the active ones, and the marks on findings. A
-- day is a number, and the ISO texts of days sort as the numbers; `expires_on` is what
-- `date.fromisoformat` makes of the given text, none where it raises. There is one database file.
pub mod Terms
pub mod Cache
pub mod Marks
mod Tests
use domain_lens.Prelude.{
  ℕ, suc, ◌+◌, Bool, true, false, not, ◌&&◌, ◌||◌, Option, none, some, List, [], ◌∷◌, ◌++◌, map,
  ltb, leb, ◌==◌, Text, codes, text_eq, strip, lower, starts_with, if◌then◌else◌, keep,
}
use domain_lens.Prelude.Sorting.{sort}

abbrev pub max_days : ℕ
max_days = 366

-- A row of `finding_exceptions`.
pub record Acceptance : Type 0 where
  pub id : ℕ
  pub domain : Text
  pub finding_key : Text
  pub title : Text
  pub severity : Option Text
  pub reason : Text
  pub owner : Text
  pub created_by : Option Text
  pub created_at : ℕ
  pub expires_on : ℕ
  pub revoked_at : Option ℕ
  pub owner_contact_id : Option ℕ

-- The table and `_active_cache`.
pub record World : Type 0 where
  pub rows : List Acceptance
  pub next_id : ℕ
  pub cache_key : Option ℕ
  pub cache_rows : List Acceptance

pub data Refusal : Type 0 where
  no_reason no_date past too_far no_owner : Refusal

pub data Outcome (A : Type 0) : Type 0 where
  ok : A → Outcome A
  refused : Refusal → Outcome A

infixl 5 ◌>>=◌
abbrev pub ◌>>=◌ : {A B : Type 0} → Outcome A → (A → Outcome B) → Outcome B
refused problem >>= f = refused problem
ok a >>= f = f a

abbrev pub or_empty : Option Text → Text
or_empty none = []
or_empty (some s) = s

abbrev pub given : Refusal → Text → Outcome Text
given problem [] = refused problem
given problem (c ∷ s) = ok (c ∷ s)

unfoldable pub in_term : ℕ → Option ℕ → Outcome ℕ
in_term today none = refused no_date
in_term today (some expiry) =
    if ltb expiry today
    then refused past
    else if ltb (today + max_days) expiry
    then refused too_far
    else ok expiry

pub check_terms : ℕ → Option Text → Option ℕ → Outcome (Text × ℕ)
unfolding in_term strip
check_terms today reason expires_on = do
  why ← given no_reason (strip (or_empty reason))
  expiry ← in_term today expires_on
  ok (why, expiry)

-- The keyword arguments of `create`.
pub record Proposal : Type 0 where
  pub domain : Text
  pub finding_key : Text
  pub title : Text
  pub severity : Option Text
  pub reason : Option Text
  pub owner : Option Text
  pub expires_on : Option ℕ
  pub created_by : Option Text
  pub owner_contact_id : Option ℕ

-- `strip().lower()`.
unfoldable pub clean : Text → Text
unfolding strip lower
clean s = lower (strip s)

-- `int(owner_contact_id) if owner_contact_id else None`.
abbrev pub contact_of : Option ℕ → Option ℕ
contact_of none = none
contact_of (some n) = if n == 0 then none else some n

abbrev pub accepted_row : ℕ → ℕ → Proposal → Text → Text → ℕ → Acceptance
accepted_row now id p why who expiry = record {
  id = id;
  domain = clean p.domain;
  finding_key = p.finding_key;
  title = p.title;
  severity = p.severity;
  reason = why;
  owner = who;
  created_by = p.created_by;
  created_at = now;
  expires_on = expiry;
  revoked_at = none;
  owner_contact_id = contact_of p.owner_contact_id;
}

unfoldable pub invalidate : World → World
invalidate w = record w { cache_key = none }

unfoldable pub insert : Acceptance → World → World
insert row w = record w { rows = w.rows ++ row ∷ []; next_id = w.next_id + 1 }

-- `create`, on the day `today` at the time `now`.
pub create : ℕ → ℕ → Proposal → World → Outcome (World × ℕ)
unfolding check_terms invalidate insert
create today now p w = do
  terms ← check_terms today p.reason p.expires_on
  who ← given no_owner (strip (or_empty p.owner))
  ok (invalidate (insert (accepted_row now w.next_id p terms.0 who terms.1) w), w.next_id)

abbrev pub is_none {ℓ} : {A : Type ℓ} → Option A → Bool
is_none none = true
is_none (some _) = false

unfoldable pub revoke_rows : ℕ → ℕ → List Acceptance → List Acceptance × ℕ
revoke_rows now id [] = ([], 0)
revoke_rows now id (row ∷ rest) =
    let (rest', count) = revoke_rows now id rest in
    if row.id == id && is_none row.revoked_at
    then ((record row { revoked_at = some now }) ∷ rest', suc count)
    else (row ∷ rest', count)

pub revoke : ℕ → ℕ → World → World × Bool
unfolding revoke_rows invalidate
revoke now id w =
    let (rows, count) = revoke_rows now id w.rows in
    (invalidate (record w { rows = rows }), ltb 0 count)

-- `_row`: whether a row counts on a day. The query of the active ones has the same condition.
unfoldable pub is_active : ℕ → Acceptance → Bool
is_active today row = is_none row.revoked_at && leb today row.expires_on

unfoldable pub find_id : ℕ → List Acceptance → Option Acceptance
find_id id [] = none
find_id id (row ∷ rest) = if row.id == id then some row else find_id id rest

pub get : ℕ → ℕ → World → Option (Acceptance × Bool)
unfolding find_id is_active
get today id w = elim (find_id id w.rows) [
  | none ↦ none
  | some row ↦ some (row, is_active today row)
]

abbrev pub soonest_first : Acceptance → Acceptance → Bool
soonest_first a b = leb a.expires_on b.expires_on

abbrev pub latest_first : Acceptance → Acceptance → Bool
latest_first a b = leb b.expires_on a.expires_on

abbrev pub of_domain : Option Text → Acceptance → Bool
of_domain none row = true
of_domain (some []) row = true
of_domain (some (c ∷ s)) row = text_eq row.domain (clean (c ∷ s))

pub list_all : ℕ → Option Text → World → List (Acceptance × Bool)
unfolding is_active keep sort clean
list_all today domain w =
    map (λ row. (row, is_active today row)) (sort soonest_first (keep (of_domain domain) w.rows))

-- The SELECT of `_all_active`.
unfoldable pub query : ℕ → List Acceptance → List Acceptance
unfolding is_active keep sort
query today rows = sort latest_first (keep (is_active today) rows)

-- The last assignments of `_all_active`: rows that were read for a day go into the cache.
unfoldable pub fill : ℕ → List Acceptance → World → World
fill today rows w = record w { cache_key = some today; cache_rows = rows }

abbrev pub is_cached : ℕ → Option ℕ → Bool
is_cached today none = false
is_cached today (some key) = key == today

-- `_all_active`; `readable` is false where the query raises.
pub all_active : Bool → ℕ → World → World × List Acceptance
unfolding query fill
all_active readable today w =
    if is_cached today w.cache_key
    then (w, w.cache_rows)
    else if not readable
    then (w, [])
    else (fill today (query today w.rows) w, query today w.rows)

unfoldable pub lookup : Text → List (Text × Acceptance) → Option Acceptance
unfolding text_eq
lookup key [] = none
lookup key ((k, row) ∷ rest) = if text_eq k key then some row else lookup key rest

-- `out.setdefault(key, row)`.
unfoldable pub set_default : Text → Acceptance → List (Text × Acceptance) → List (Text × Acceptance)
unfolding lookup
set_default key row out = elim (lookup key out) [ none ↦ out ++ (key, row) ∷ [] | some _ ↦ out ]

-- The loop of `_active_for`, over one domain.
unfoldable pub collect :
    Text → List Acceptance → List (Text × Acceptance) → List (Text × Acceptance)
unfolding set_default
collect domain [] out = out
collect domain (row ∷ rest) out =
    collect domain rest
      (if text_eq row.domain domain then set_default row.finding_key row out else out)

-- `_active_for` of one domain that is cleaned; `present` says whether the database file is there.
unfoldable pub active_in : Bool → Bool → ℕ → Text → World → World × List (Text × Acceptance)
unfolding all_active collect
active_in present readable today [] w = (w, [])
active_in false readable today (c ∷ s) w = (w, [])
active_in true readable today (c ∷ s) w =
    let (w', rows) = all_active readable today w in (w', collect (c ∷ s) rows [])

-- `_active_for([domain])`.
unfoldable pub active_for : Bool → Bool → ℕ → Text → World → World × List (Text × Acceptance)
unfolding active_in clean
active_for present readable today domain w = active_in present readable today (clean domain) w

-- A finding, with what `apply` reads and writes of it.
pub record Finding : Type 0 where
  pub title : Text
  pub category : Option Text
  pub finding_key : Option Text
  pub accepted : Option Acceptance

-- `_apex_level`.
unfoldable pub apex_level : Finding → Bool
unfolding text_eq lower starts_with
apex_level f =
    (text_eq (lower (or_empty f.category)) (codes "email")
      || text_eq (lower (or_empty f.category)) (codes "dns")
      || text_eq (lower (or_empty f.category)) (codes "whois"))
    || starts_with (or_empty f.finding_key) (codes "email:")

abbrev pub or_inherited : Bool → Option Acceptance → Option Acceptance → Option Acceptance
or_inherited apex (some row) inherited = some row
or_inherited true none inherited = inherited
or_inherited false none inherited = none

abbrev pub accept : Finding → Option Acceptance → Finding
accept f none = f
accept f (some row) = record f { accepted = some row }

-- The body of the loop of `apply`.
unfoldable pub mark :
    (Finding → Text) → List (Text × Acceptance) → List (Text × Acceptance) → Finding → Finding
unfolding lookup apex_level
mark key_of own inherited f =
    let key = key_of f in
    let keyed = record f { finding_key = some key } in
    accept keyed (or_inherited (apex_level keyed) (lookup key own) (lookup key inherited))

-- Whether the apex counts: it is given, and is not the scanned domain.
unfoldable pub has_apex : Text → Text → Bool
unfolding text_eq
has_apex domain [] = false
has_apex domain (c ∷ s) = not (text_eq (c ∷ s) domain)

-- The acceptances of the apex, where it counts.
unfoldable pub zone_for : Bool → Bool → Bool → ℕ → Text → World → World × List (Text × Acceptance)
unfolding active_for
zone_for false present readable today apex w = (w, [])
zone_for true present readable today apex w = active_for present readable today apex w

pub apply :
    Bool → Bool → ℕ → (Finding → Text) → Text → Text → List Finding → World → World × List Finding
unfolding active_for has_apex zone_for mark
apply present readable today key_of domain apex findings w =
    let (w', own) = active_for present readable today (clean domain) w in
    let (w'', inherited) =
      zone_for (has_apex (clean domain) (clean apex)) present readable today (clean apex) w' in
    (w'', map (mark key_of own inherited) findings)
