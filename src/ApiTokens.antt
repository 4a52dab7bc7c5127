-- ===== src/ApiTokens.antt =====
-- api_tokens.py: personal API tokens. `digest` is SHA-256 on the token's text, `secret` the text of
-- `secrets.token_urlsafe(32)`, and `users` the accounts that `db.get_user` reads. Times are in
-- microseconds; their ISO texts sort as the numbers do. An operation reads the clock once.
pub mod Issue
pub mod Access
mod Tests
use domain_lens.Prelude.{
  ℕ, suc, ◌+◌, ◌*◌, ◌<◌, Bool, true, false, not, ◌&&◌, ◌||◌, Option, none, some, List, [], ◌∷◌,
  ◌++◌, map, ltb, leb, ◌==◌, Text, String, codes, text_eq, strip, prefix, starts_with,
  if◌then◌else◌, keep, length,
}
use domain_lens.Prelude.Int.{ℤ, pos, negsuc, leb_int, pos_part}
use domain_lens.Roles
use mathlib.Core.List.{reverse}

abbrev pub token_prefix : Text
token_prefix = codes "dlk_"

abbrev pub max_days : ℕ
max_days = 365

abbrev pub minute : ℕ
minute = 60 * 1000000

abbrev pub day : ℕ
day = 86400 * 1000000

pub record User : Type 0 where
  pub id : ℕ
  pub enabled : Bool
  pub email : Option String
  pub name : Option String
  pub role : Option Text

-- A row of `api_tokens`.
pub record Token : Type 0 where
  pub id : ℕ
  pub user_id : ℕ
  pub name : Text
  pub display_prefix : Text
  pub token_hash : Text
  pub role : Text
  pub created_at : ℕ
  pub expires_at : ℕ
  pub last_used_at : Option ℕ
  pub last_used_ip : Option String
  pub revoked_at : Option ℕ

pub record Db : Type 0 where
  pub tokens : List Token
  pub next_id : ℕ
  pub users : ℕ → Option User

-- What `_public` shows of a token.
pub record TokenView : Type 0 where
  pub id : ℕ
  pub user_id : ℕ
  pub name : Text
  pub display_prefix : Text
  pub role : Text
  pub created_at : ℕ
  pub expires_at : ℕ
  pub last_used_at : Option ℕ
  pub last_used_ip : Option String
  pub revoked_at : Option ℕ
  pub active : Bool

abbrev pub is_set {ℓ} : {A : Type ℓ} → Option A → Bool
is_set none = false
is_set (some _) = true

unfoldable pub public : ℕ → Token → TokenView
public now row = record {
  id = row.id;
  user_id = row.user_id;
  name = row.name;
  display_prefix = row.display_prefix;
  role = row.role;
  created_at = row.created_at;
  expires_at = row.expires_at;
  last_used_at = row.last_used_at;
  last_used_ip = row.last_used_ip;
  revoked_at = row.revoked_at;
  active = not (is_set row.revoked_at) && ltb now row.expires_at;
}

-- The ways in which `create` raises: four of its own, and the two constraints of the table, that
-- the account exists and that the hash is new.
pub data Refusal : Type 0 where
  no_name not_a_number days_out_of_range too_many_rights no_account duplicate_hash : Refusal

pub data Outcome (A : Type 0) : Type 0 where
  ok : A → Outcome A
  refused : Refusal → Outcome A

-- `SELECT * FROM api_tokens WHERE token_hash = ?`, and the same by id.
unfoldable pub find_hash : Text → List Token → Option Token
unfolding text_eq
find_hash h [] = none
find_hash h (row ∷ rest) = if text_eq row.token_hash h then some row else find_hash h rest

unfoldable pub find_id : ℕ → List Token → Option Token
find_id i [] = none
find_id i (row ∷ rest) = if row.id == i then some row else find_id i rest

-- A value or `None`, as text.
abbrev pub text_or_empty : Option Text → Text
text_or_empty none = []
text_or_empty (some s) = s

unfoldable pub get : ℕ → ℕ → Db → Option TokenView
unfolding find_id public
get now token_id db = elim (find_id token_id db.tokens) [
  | none ↦ none
  | some row ↦ some (public now row)
]

-- The row that `create` inserts.
abbrev pub issued : (Text → Text) → Text → ℕ → ℕ → ℕ → Text → Text → ℕ → Token
issued digest secret now id user_id name role days =
    let raw = token_prefix ++ secret in
    record {
      id = id;
      user_id = user_id;
      name = name;
      display_prefix = prefix 10 raw;
      token_hash = digest raw;
      role = role;
      created_at = now;
      expires_at = now + days * day;
      last_used_at = none;
      last_used_ip = none;
      revoked_at = none;
    }

-- The INSERT: it fails on an unknown account and on a hash that is there.
unfoldable pub insert : Token → Db → Outcome Db
unfolding find_hash
insert row db =
    if not (is_set (db.users row.user_id))
    then refused no_account
    else if is_set (find_hash row.token_hash db.tokens)
    then refused duplicate_hash
    else ok (record db { tokens = db.tokens ++ row ∷ []; next_id = db.next_id + 1 })

-- The name that a token gets: `(name or "").strip()[:80]`.
unfoldable pub short_name : Option Text → Text
unfolding prefix strip
short_name name = prefix 80 (strip (text_or_empty name))

-- The checks of `create` behind the name, on a number of days; `days` is none where `int(days)`
-- raises.
unfoldable pub checked_days : Option ℤ → Outcome ℕ
checked_days none = refused not_a_number
checked_days (some (negsuc n)) = refused days_out_of_range
checked_days (some (pos n)) = if leb 1 n && leb n max_days then ok n else refused days_out_of_range

-- The role that a token is issued with, or the refusal to give more rights than the owner has.
unfoldable pub wanted_role : Option Text → Option Text → Outcome Text
wanted_role owner_role role =
    let owner = Roles.normalize owner_role Roles.user in
    let wanted = Roles.normalize role owner in
    if Roles.at_least owner wanted then ok wanted else refused too_many_rights

infixl 5 ◌>>=◌
abbrev pub ◌>>=◌ : {A B : Type 0} → Outcome A → (A → Outcome B) → Outcome B
ok a >>= f = f a
refused r >>= f = refused r

abbrev pub named : Text → Outcome Text
named [] = refused no_name
named (c ∷ s) = ok (c ∷ s)

-- `create`: the new state with the token's text and its public record.
pub create :
    (Text → Text)
    → Text
    → ℕ
    → User
    → Option Text
    → Option Text
    → Option ℤ
    → Db
    → Outcome (Db × Text × Option TokenView)
unfolding short_name checked_days wanted_role insert get
create digest secret now owner name role days db = do
  label ← named (short_name name)
  period ← checked_days days
  wanted ← wanted_role owner.role role
  db' ← insert (issued digest secret now db.next_id owner.id label wanted period) db
  ok (db', token_prefix ++ secret, get now db.next_id db')

unfoldable pub list_for_user : ℕ → ℕ → Db → List TokenView
list_for_user now user_id db =
    map (public now) (reverse (keep (λ row. row.user_id == user_id) db.tokens))

-- Every token, the newest first, with the address of its owner's account.
unfoldable pub list_all : ℕ → Db → List (TokenView × Option String)
list_all now db =
    map
      (λ row.
        (public now row, elim (db.users row.user_id) [ none ↦ none | some owner ↦ owner.email ]))
      (reverse db.tokens)

-- The rows that a revocation changes: not revoked, and of the user where one is given.
unfoldable pub revocable : ℕ → Option ℕ → Token → Bool
revocable token_id none row = row.id == token_id && not (is_set row.revoked_at)
revocable token_id (some user_id) row =
    (row.id == token_id && not (is_set row.revoked_at)) && row.user_id == user_id

unfoldable pub revoke_rows : ℕ → ℕ → Option ℕ → List Token → List Token × ℕ
unfolding revocable
revoke_rows now token_id user_id [] = ([], 0)
revoke_rows now token_id user_id (row ∷ rest) =
    let (rest', count) = revoke_rows now token_id user_id rest in
    if revocable token_id user_id row
    then ((record row { revoked_at = some now }) ∷ rest', suc count)
    else (row ∷ rest', count)

-- `UPDATE ... SET revoked_at`, and whether its row count is above zero.
pub revoke : ℕ → ℕ → Option ℕ → Db → Db × Bool
unfolding revoke_rows
revoke now token_id user_id db =
    let (rows, count) = revoke_rows now token_id user_id db.tokens in
    (record db { tokens = rows }, ltb 0 count)

-- The acting user that a token gives.
pub record Acting : Type 0 where
  pub id : ℕ
  pub email : Option String
  pub name : Option String
  pub role : Text
  pub token_id : ℕ
  pub token_name : Text

abbrev pub acting : User → Token → Acting
acting owner row = record {
  id = owner.id;
  email = owner.email;
  name = owner.name;
  role =
      Roles.lower_of (Roles.normalize (some row.role) Roles.user)
        (Roles.normalize owner.role Roles.user);
  token_id = row.id;
  token_name = row.name;
}

-- Whether `last_used_at` is to be written: never used, or not within the last minute.
unfoldable pub is_touch_due : ℕ → Option ℕ → Bool
is_touch_due now none = true
is_touch_due now (some last) = ltb (last + minute) now

unfoldable pub touch_rows : ℕ → Option String → ℕ → List Token → List Token
touch_rows now ip token_id [] = []
touch_rows now ip token_id (row ∷ rest) =
    let rest' = touch_rows now ip token_id rest in
    if row.id == token_id
    then (record row { last_used_at = some now; last_used_ip = ip }) ∷ rest'
    else row ∷ rest'

unfoldable pub touch : ℕ → Option String → Token → Db → Db
unfolding is_touch_due touch_rows
touch now ip row db =
    if is_touch_due now row.last_used_at
    then record db { tokens = touch_rows now ip row.id db.tokens }
    else db

-- The account behind a row, if it may act.
unfoldable pub owner_of : Token → Db → Option User
owner_of row db = elim (db.users row.user_id) [
  | none ↦ none
  | some owner ↦ if owner.enabled then some owner else none
]

-- `authenticate` from the row that has the presented token's hash.
unfoldable pub admit : ℕ → Option String → Token → Db → Db × Option Acting
unfolding owner_of touch
admit now ip row db =
    if is_set row.revoked_at || leb row.expires_at now then (db, none) else elim (owner_of row db) [
      | none ↦ (db, none)
      | some owner ↦ (touch now ip row db, some (acting owner row))
    ]

pub authenticate : (Text → Text) → ℕ → Option Text → Option String → Db → Db × Option Acting
unfolding find_hash admit starts_with
authenticate digest now none ip db = (db, none)
authenticate digest now (some raw) ip db =
    if not (starts_with raw token_prefix)
    then (db, none)
    else elim (find_hash (digest raw) db.tokens) [
      | none ↦ (db, none)
      | some row ↦ admit now ip row db
    ]
