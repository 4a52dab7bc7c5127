-- ===== src/Ownership.antt =====
-- domain_ownership.py: the table `verified_domains`, less its column `id`, and what is done to it.
-- A time is in microseconds, and an age of at most no days is 0. The network is a parameter: what
-- TXT records and addresses a name has, which addresses are global, and what a fetch from an address
-- gives. The texts of errors are cases of `Trouble`.
pub mod Zones
pub mod Covered
pub mod Proofs
pub mod Views
mod Tests
use domain_lens.Prelude.{
  ℕ, zero, suc, ◌+◌, ◌-◌, ◌*◌, Bool, true, false, not, ◌&&◌, ◌||◌, Option, none, some, List, [],
  ◌∷◌, ◌++◌, map, ltb, leb, ◌==◌, length, keep, Text, codes, text_eq, strip, lower, is_space,
  if◌then◌else◌,
}
use domain_lens.Prelude.Sorting.{sort}

pub data Status : Type 0 where
  pending verified : Status

pub data Method : Type 0 where
  dns http admin : Method

pub data Trouble : Type 0 where
  lookup_failed : Text → Trouble
  no_record not_public : Trouble
  fetch_failed : Text → Trouble
  without_token : ℕ → Trouble

pub record Entry : Type 0 where
  pub domain : Text
  pub token : Text
  pub status : Status
  pub method : Option Method
  pub note : Option Text
  pub requested_by : Option Text
  pub verified_by : Option Text
  pub created_at : ℕ
  pub verified_at : Option ℕ
  pub last_checked_at : Option ℕ
  pub last_error : List Trouble

-- `rstrip(".")`.
unfoldable pub rstrip_dots : Text → Text
rstrip_dots [] = []
rstrip_dots (c ∷ s) =
    let rest = rstrip_dots s in
    elim rest [ [] ↦ (if c == b'.' then [] else c ∷ []) | d ∷ r ↦ c ∷ d ∷ r ]

unfoldable pub normalize : Text → Text
unfolding rstrip_dots strip lower
normalize domain = rstrip_dots (lower (strip domain))

abbrev pub is_verified_status : Status → Bool
is_verified_status pending = false
is_verified_status verified = true

abbrev pub is_admin : Option Method → Bool
is_admin none = false
is_admin (some dns) = false
is_admin (some http) = false
is_admin (some admin) = true

abbrev pub day : ℕ
day = 86400000000

abbrev pub is_past : ℕ → ℕ → Option ℕ → Bool
is_past max_age now none = false
is_past zero now (some at) = false
is_past (suc n) now (some at) = ltb (suc n * day) (now - at)

-- `_is_expired`, with the age that the settings allow, in days.
unfoldable pub _is_expired : ℕ → ℕ → Entry → Bool
_is_expired max_age now row =
    if not (is_verified_status row.status) || is_admin row.method
    then false
    else is_past max_age now row.verified_at

abbrev pub is_of : Text → Entry → Bool
is_of domain row = text_eq row.domain domain

unfoldable pub find : Text → List Entry → Option Entry
unfolding text_eq
find domain [] = none
find domain (row ∷ rest) = if is_of domain row then some row else find domain rest

-- `get`, of the row.
unfoldable pub get : Text → List Entry → Option Entry
unfolding find normalize
get domain rows = find (normalize domain) rows

-- The order of texts by their code points.
unfoldable pub text_leb : Text → Text → Bool
text_leb [] t = true
text_leb (c ∷ s) [] = false
text_leb (c ∷ s) (d ∷ t) = ltb c d || (c == d && text_leb s t)

abbrev pub by_domain : Entry → Entry → Bool
by_domain a b = text_leb a.domain b.domain

pub list_domains : List Entry → List Entry
unfolding sort text_leb
list_domains rows = sort by_domain rows

abbrev pub new_entry : Text → Text → Option Text → ℕ → Entry
new_entry token domain requested_by now = record {
  domain = domain;
  token = token;
  status = pending;
  method = none;
  note = none;
  requested_by = requested_by;
  verified_by = none;
  created_at = now;
  verified_at = none;
  last_checked_at = none;
  last_error = [];
}

abbrev pub or_new : Entry → List Entry → Option Entry → List Entry × Entry
or_new entry rows (some existing) = (rows, existing)
or_new entry rows none = (rows ++ entry ∷ [], entry)

-- `request_verification`, with a fresh token, and the row it gives back.
unfoldable pub request_verification :
    Text → Text → Option Text → ℕ → List Entry → List Entry × Entry
unfolding find normalize
request_verification token domain requested_by now rows =
    or_new (new_entry token (normalize domain) requested_by now) rows (find (normalize domain) rows)

-- What the resolver says of the TXT records of a name.
pub data Lookup : Type 0 where
  answers : List Text → Lookup
  no_answer : Lookup
  failed : Text → Lookup

pub data Fetched : Type 0 where
  response : ℕ → Text → Fetched
  broken : Text → Fetched

pub record Net : Type 0 where
  pub resolve : Text → Lookup
  pub addresses : Text → Option (List Text)
  pub is_global : Text → Bool
  pub fetch : Text → Text → Fetched

abbrev pub _txt_values : Lookup → List Text × Option Trouble
_txt_values (answers values) = (map strip values, none)
_txt_values no_answer = ([], none)
_txt_values (failed kind) = ([], some (lookup_failed kind))

unfoldable pub is_in : Text → List Text → Bool
unfolding text_eq
is_in s [] = false
is_in s (t ∷ rest) = text_eq t s || is_in s rest

abbrev pub challenge_name : Text → Text
challenge_name domain = codes "_domainlens-challenge." ++ domain

abbrev pub txt_value : Text → Text
txt_value token = codes "domainlens-verification=" ++ token

abbrev pub or_trouble : Option Trouble → Trouble → Trouble
or_trouble none default = default
or_trouble (some trouble) default = trouble

-- The outcome of a probe: nothing where the domain is proved.
unfoldable pub _check_dns : Net → Text → Text → Option Trouble
unfolding is_in strip
_check_dns net domain token =
    let found = _txt_values (net.resolve (challenge_name domain)) in
    if is_in (txt_value token) (found.0) then none else some (or_trouble (found.1) no_record)

unfoldable pub all_global : Net → List Text → Bool
all_global net [] = true
all_global net (a ∷ rest) = net.is_global a && all_global net rest

-- The first of some texts in their order.
unfoldable pub least : Text → List Text → Text
unfolding text_leb
least a [] = a
least a (b ∷ rest) = if text_leb a b then least a rest else least b rest

-- `s.split()`, with the part before it.
abbrev pub part_of : Text → List Text
part_of [] = []
part_of (c ∷ s) = (c ∷ s) ∷ []

unfoldable pub words : Text → Text → List Text
unfolding is_space
words part [] = part_of part
words part (c ∷ s) =
    let fresh = words [] s in
    let longer = words (part ++ c ∷ []) s in if is_space c then part_of part ++ fresh else longer

-- `_public_addresses(host)[0]`, where the list has one.
abbrev pub public_address : Net → Text → Option Text
public_address net host = elim (net.addresses host) [
  | none ↦ none
  | some as_given ↦ elim as_given [
    | [] ↦ none
    | a ∷ rest ↦ if all_global net (a ∷ rest) then some (least a rest) else none
  ]
]

abbrev pub has_token : Text → Fetched → Option Trouble
has_token token (broken kind) = some (fetch_failed kind)
has_token token (response status body) =
    if status == 200 && is_in token (words [] body) then none else some (without_token status)

unfoldable pub _check_http : Net → Text → Text → Option Trouble
unfolding all_global least words is_in
_check_http net domain token = elim (public_address net domain) [
  | none ↦ some not_public
  | some address ↦ has_token token (net.fetch domain address)
]

-- What the probes of `check` find: DNS first, then HTTPS.
pub data Outcome : Type 0 where
  proved : Method → Outcome
  unproved : List Trouble → Outcome

abbrev pub after_dns : Option Trouble → Option Trouble → Outcome
after_dns none found = proved dns
after_dns (some e) none = proved http
after_dns (some e) (some e') = unproved (e ∷ e' ∷ [])

unfoldable pub probed : Net → Text → Text → Outcome
unfolding _check_dns _check_http
probed net domain token = after_dns (_check_dns net domain token) (_check_http net domain token)

-- The UPDATE of `check`.
abbrev pub checked : Outcome → Option Text → ℕ → Entry → Entry
checked (proved method) checked_by now row = record row {
  status = verified;
  method = some method;
  verified_by = checked_by;
  verified_at = some now;
  last_checked_at = some now;
  last_error = [];
  note = none;
}
checked (unproved troubles) checked_by now row = record row {
  last_checked_at = some now;
  last_error = troubles;
}

unfoldable pub update_rows : Text → (Entry → Entry) → List Entry → List Entry
unfolding text_eq
update_rows domain f [] = []
update_rows domain f (row ∷ rest) =
    let rest' = update_rows domain f rest in if is_of domain row then f row ∷ rest' else row ∷ rest'

unfoldable pub check : Net → Text → Text → Option Text → ℕ → List Entry → List Entry
unfolding request_verification probed update_rows
check net token domain checked_by now rows =
    let asked = request_verification token domain checked_by now rows in
    let entry = asked.1 in
    update_rows entry.domain (checked (probed net entry.domain entry.token) checked_by now)
      (asked.0)

abbrev pub attested : Text → Text → ℕ → Entry → Entry
attested admin_email note now row = record row {
  status = verified;
  method = some admin;
  verified_by = some admin_email;
  verified_at = some now;
  note = some note;
  last_error = [];
}

abbrev pub attest_with : Text → Text → Text → Text → ℕ → List Entry → Option (List Entry)
attest_with [] token domain admin_email now rows = none
attest_with (c ∷ note) token domain admin_email now rows =
    let asked = request_verification token domain (some admin_email) now rows in
    some (update_rows asked.1.domain (attested admin_email (c ∷ note) now) (asked.0))

-- `attest`; none where the note is blank, which raises an error.
unfoldable pub attest : Text → Text → Text → Text → ℕ → List Entry → Option (List Entry)
unfolding request_verification update_rows strip
attest note token domain admin_email now rows =
    attest_with (strip note) token domain admin_email now rows

unfoldable pub revoke : Text → List Entry → List Entry × Bool
unfolding keep normalize text_eq
revoke domain rows =
    let left = keep (λ row. not (is_of (normalize domain) row)) rows in
    (left, not (length left == length rows))

-- `s.split(".")`, and `".".join`.
unfoldable pub split_dots : Text → List Text
split_dots [] = [] ∷ []
split_dots (c ∷ s) =
    let rest = split_dots s in
    if c == b'.'
    then [] ∷ rest
    else elim rest [ [] ↦ (c ∷ []) ∷ [] | part ∷ parts ↦ (c ∷ part) ∷ parts ]

unfoldable pub join_dots : List Text → Text
join_dots [] = []
join_dots (part ∷ parts) =
    let rest = join_dots parts in elim parts [ [] ↦ part | next ∷ more ↦ part ++ b'.' ∷ rest ]

-- The joins of the tails with at least two labels.
unfoldable pub joined_tails : List Text → List Text
unfolding join_dots
joined_tails [] = []
joined_tails (part ∷ parts) =
    let rest = joined_tails parts in
    elim parts [ [] ↦ [] | next ∷ more ↦ join_dots (part ∷ next ∷ more) ∷ rest ]

unfoldable pub _candidates : Text → List Text
unfolding normalize split_dots joined_tails
_candidates domain = joined_tails (split_dots (normalize domain))

abbrev pub longer_first : Entry → Entry → Bool
longer_first a b = leb (length b.domain) (length a.domain)

unfoldable pub first_current : ℕ → ℕ → List Entry → Option Entry
unfolding _is_expired
first_current max_age now [] = none
first_current max_age now (row ∷ rest) =
    if _is_expired max_age now row then first_current max_age now rest else some row

abbrev pub is_candidate : Text → Entry → Bool
is_candidate domain row = is_verified_status row.status && is_in row.domain (_candidates domain)

unfoldable pub verification_for : ℕ → ℕ → Text → List Entry → Option Entry
unfolding keep sort first_current _candidates is_in
verification_for max_age now domain rows =
    first_current max_age now (sort longer_first (keep (is_candidate domain) rows))

abbrev pub is_some : Option Entry → Bool
is_some none = false
is_some (some row) = true

unfoldable pub is_verified : ℕ → ℕ → Text → List Entry → Bool
unfolding verification_for
is_verified max_age now domain rows = is_some (verification_for max_age now domain rows)
