-- ===== src/ApiTokens/Access.antt =====
-- Who gets in with a token of api_tokens.py, and for how long.
use domain_lens.Prelude.{
  ℕ, ◌+◌, ◌*◌, ◌≤◌, ◌<◌, ◌≡◌, refl, sym, ◌∙◌, ap, ◌≢◌, inl, inr, true, false, Option, none, some,
  List, [], ◌∷◌, ◌++◌, arith, Text, text_eq, text_eq_iff, starts_with, String, map, Bool-cases,
  Option-cases, All, min, subst,
}
use mathlib.Core.Option
use domain_lens.Prelude.Int.{pos}
use domain_lens.Roles
use domain_lens.ApiTokens.{
  User, Token, Db, TokenView, Acting, ok, acting, find_hash, is_set, create, token_prefix, day,
  minute, revocable, revoke_rows, revoke, is_touch_due, touch_rows, touch, owner_of, admit,
  authenticate,
}
use domain_lens.ApiTokens.Issue.{create-Issued}

-- What holds of the token and the account when a presented text is let in.
pub record Admitted (digest : Text → Text) (now : ℕ) (raw : Text) (db : Db) (u : Acting)
    : Type 0 where
  pub row : Token
  pub owner : User
  pub presented : find_hash (digest raw) db.tokens ≡ some row
  pub marked : starts_with raw token_prefix ≡ true
  pub unrevoked : row.revoked_at ≡ none
  pub unexpired : now < row.expires_at
  pub account : db.users row.user_id ≡ some owner
  pub enabled : owner.enabled ≡ true
  pub same_id : u.id ≡ owner.id
  pub within_token :
      Roles.height (Roles.rank u.role)
      ≤ Roles.height (Roles.rank (Roles.normalize (some row.role) Roles.user))
  pub within_owner :
      Roles.height (Roles.rank u.role)
      ≤ Roles.height (Roles.rank (Roles.normalize owner.role Roles.user))

owner_of-some :
    (row : Token) (db : Db) (owner : User)
    → owner_of row db ≡ some owner
    → (db.users row.user_id ≡ some owner) × (owner.enabled ≡ true)
unfolding owner_of
owner_of-some row db owner h = ground arith

owner_of-known :
    (row : Token) (db : Db) (owner : User)
    → db.users row.user_id ≡ some owner
    → owner.enabled ≡ true
    → owner_of row db ≡ some owner
unfolding owner_of
owner_of-known row db owner h on = ground arith

admit-some :
    (now : ℕ) (ip : Option String) (row : Token) (db : Db) (u : Acting)
    → (admit now ip row db).1 ≡ some u
    → (owner : User) × (row.revoked_at ≡ none)
      × (now < row.expires_at)
      × (owner_of row db ≡ some owner)
      × (u ≡ acting owner row)
unfolding admit
admit-some now ip row db u h = ground arith

admit-none :
    (now : ℕ) (ip : Option String) (row : Token) (db : Db)
    → is_set row.revoked_at ≡ true
    → (admit now ip row db).1 ≡ none
unfolding admit
admit-none now ip row db h = ground arith

admit_lets_in :
    (now : ℕ) (ip : Option String) (row : Token) (db : Db) (owner : User)
    → row.revoked_at ≡ none
    → now < row.expires_at
    → owner_of row db ≡ some owner
    → (admit now ip row db).1 ≡ some (acting owner row)
unfolding admit
admit_lets_in now ip row db owner h t o = ground arith

module _ (digest : Text → Text) (now : ℕ) (raw : Text) (ip : Option String) (db : Db) where
  authenticate-of_row :
      (row : Token)
      → starts_with raw token_prefix ≡ true
      → find_hash (digest raw) db.tokens ≡ some row
      → authenticate digest now (some raw) ip db ≡ admit now ip row db
  unfolding authenticate
  authenticate-of_row row marked found = rw (marked, found)

  -- Whoever is let in presents the text of a token that is neither revoked nor expired, of an
  -- account that is enabled now, acts as that account, and has a role that is above neither the
  -- token's role nor the account's present one.
  pub authenticate-Admitted :
      (u : Acting)
      → (authenticate digest now (some raw) ip db).1 ≡ some u
      → Admitted digest now raw db u
  unfolding authenticate
  authenticate-Admitted u h = elim (Bool-cases (starts_with raw token_prefix)) [
    | inl marked ↦ elim (Option-cases (find_hash (digest raw) db.tokens)) [
      | inl unknown ↦ ground arith
      | inr (row, found) ↦
          let let_in : (admit now ip row db).1 ≡ some u = rw (marked, found) at h in
          let (owner, unrevoked, unexpired, owned, same) = admit-some now ip row db u let_in in
          let (account, enabled) = owner_of-some row db owner owned in
          let role_height =
            Roles.height-lower_of (Roles.normalize (some row.role) Roles.user)
              (Roles.normalize owner.role Roles.user) in
          rw same (record {
            row = row;
            owner = owner;
            presented = found;
            marked = marked;
            unrevoked = unrevoked;
            unexpired = unexpired;
            account = account;
            enabled = enabled;
            same_id = refl;
            within_token = omega arith;
            within_owner = omega arith;
          })
    ]
    | inr other ↦ ground arith
  ]

-- A token without the record of its last use.
abbrev pub unused : Token → Token
unused row = record row { last_used_at = none; last_used_ip = none }

unused-some :
    (row : Token) (found : Option Token)
    → Option.map unused found ≡ some (unused row)
    → (left : Token) × (found ≡ some left) × (unused left ≡ unused row)
unused-some row none h = cc
unused-some row (some left) h = (left, refl, cc)

find_hash-append :
    (h : Text) (rows : List Token) (row : Token)
    → find_hash h rows ≡ none
    → text_eq row.token_hash h ≡ true
    → find_hash h (rows ++ row ∷ []) ≡ some row
unfolding find_hash
find_hash-append h [] row absent same = rw same
find_hash-append h (r ∷ rest) row absent same = ground (arith, find_hash-append h rest row)

-- A token lets its owner in from its creation until its days are over, whatever else the database
-- then holds, as long as the account is there and enabled, and the row of the token is as it was
-- made, but for the record of its last use: the one let in acts as the account, and the rank of its
-- role is the lesser of those of the role that the token was issued with and the role that the
-- account then has.
pub create-authenticate :
    (digest : Text → Text) (secret : Text) (now later : ℕ) (owner account : User)
    (name role : Option Text) (n : ℕ) (ip : Option String) (db db' then : Db) (raw : Text)
    (shown : Option TokenView)
    → create digest secret now owner name role (some (pos n)) db ≡ ok (db', raw, shown)
    → Option.map unused (find_hash (digest raw) then.tokens)
      ≡ Option.map unused (find_hash (digest raw) db'.tokens)
    → then.users owner.id ≡ some account
    → account.enabled ≡ true
    → later < now + n * day
    → (row : Token) × (u : Acting) × (db'.tokens ≡ db.tokens ++ row ∷ [])
      × ((authenticate digest later (some raw) ip then).1 ≡ some u)
      × (u.id ≡ account.id)
      × (Roles.height (Roles.rank u.role)
          ≡ min
              (Roles.height (Roles.rank (Roles.normalize (some row.role) Roles.user)))
              (Roles.height (Roles.rank (Roles.normalize account.role Roles.user))))
create-authenticate digest secret now later owner account name role n ip db db' then raw shown h
      kept known on t =
    let i = create-Issued digest secret now owner name role (some (pos n)) db db' raw shown h in
    let row = i.row in
    let same : text_eq row.token_hash (digest raw) ≡ true = (text_eq_iff _ _).1 i.hashed in
    let absent : find_hash (digest raw) db.tokens ≡ none =
      ap (λ x. find_hash x db.tokens) (sym i.hashed) ∙ i.new_hash in
    let found : find_hash (digest raw) db'.tokens ≡ some row =
      ap (find_hash (digest raw)) i.added
      ∙ find_hash-append (digest raw) db.tokens row absent same in
    let (left, there, alike) =
      unused-some row (find_hash (digest raw) then.tokens) (kept ∙ ap (Option.map unused) found) in
    let known_row : then.users left.user_id ≡ some account =
      ap then.users (ap (λ r. r.user_id) alike ∙ i.owned) ∙ known in
    let owned : owner_of left then ≡ some account = owner_of-known left then account known_row on in
    let term : n ≡ i.period = ground (arith, i.chosen) in
    let soon : later < row.expires_at = rw i.expiry (rw (← term) t) in
    let soon' : later < left.expires_at =
      subst (λ e. later < e) (sym (ap (λ r. r.expires_at) alike)) soon in
    let same_role : left.role ≡ row.role = ap (λ r. r.role) alike in
    (
      row,
      acting account left,
      i.added,
      ap (λ (p : Db × Option Acting). p.1)
            (authenticate-of_row digest later raw ip then left i.marked there)
          ∙ admit_lets_in later ip left then account (ap (λ r. r.revoked_at) alike ∙ i.unrevoked)
              soon' owned,
      refl,
      subst
          (λ r.
            Roles.height (Roles.rank (acting account left).role)
            ≡ min (Roles.height (Roles.rank (Roles.normalize (some r) Roles.user)))
                (Roles.height (Roles.rank (Roles.normalize account.role Roles.user))))
          same_role
          (Roles.height-lower_of (Roles.normalize (some left.role) Roles.user)
            (Roles.normalize account.role Roles.user)),
    )

-- The row that a hash finds after its token was revoked.
find_hash-revoke :
    (now : ℕ) (h : Text) (rows : List Token) (row : Token)
    → find_hash h rows ≡ some row
    → (row' : Token) × (find_hash h (revoke_rows now row.id none rows).0 ≡ some row')
      × (is_set row'.revoked_at ≡ true)
unfolding find_hash revoke_rows
find_hash-revoke now h [] row found = ground arith
find_hash-revoke now h (r ∷ rest) row found = elim (Bool-cases (text_eq r.token_hash h)) [
  | inl same ↦ elim (Bool-cases (revocable row.id none r)) [
    | inl due ↦ (record r { revoked_at = some now }, rw (due, same), refl)
    | inr gone ↦ (r, rw (gone, same), unfold revocable in ground arith)
  ]
  | inr other ↦
      let rest_found : find_hash h rest ≡ some row = rw other at found in
      let (row', e, revoked) = find_hash-revoke now h rest row rest_found in
      elim (Bool-cases (revocable row.id none r)) [
        | inl due ↦ (row', rw (due, other) e, revoked)
        | inr gone ↦ (row', rw (gone, other) e, revoked)
      ]
]

-- From the moment a token is revoked nobody is let in with its text, whatever the time.
pub revoke-authenticate :
    (digest : Text → Text) (now later : ℕ) (raw : Text) (ip : Option String) (db : Db) (row : Token)
    → find_hash (digest raw) db.tokens ≡ some row
    → (authenticate digest later (some raw) ip (revoke now row.id none db).0).1 ≡ none
unfolding revoke
revoke-authenticate digest now later raw ip db row found =
    let (row', e, revoked) = find_hash-revoke now (digest raw) db.tokens row found in
    elim (Bool-cases (starts_with raw token_prefix)) [
      | inl marked ↦
          ap (λ (p : Db × Option Acting). p.1)
            (authenticate-of_row digest later raw ip (revoke now row.id none db).0 row' marked e)
          ∙ admit-none later ip row' (revoke now row.id none db).0 revoked
      | inr other ↦ unfold authenticate in rw other
    ]

-- Revoking a token in the name of a user who owns no token of that id changes nothing, and says so.
pub revoke-other :
    (now token_id user_id : ℕ) (db : Db)
    → All (λ row. (row.id ≡ token_id) → (row.user_id ≢ user_id)) db.tokens
    → revoke now token_id (some user_id) db ≡ (db, false)
unfolding revoke
revoke-other now token_id user_id db h = rw (unchanged db.tokens h)
  where
    unchanged :
        (rows : List Token)
        → All (λ row. (row.id ≡ token_id) → (row.user_id ≢ user_id)) rows
        → revoke_rows now token_id (some user_id) rows ≡ (rows, 0)
    unchanged [] h = unfold revoke_rows in refl
    unchanged (row ∷ rest) h =
        unfold revoke_rows revocable in ground (arith, unchanged rest (h.1), h.0)

map-unused-touch_rows :
    (now : ℕ) (ip : Option String) (token_id : ℕ) (rows : List Token)
    → map unused (touch_rows now ip token_id rows) ≡ map unused rows
unfolding touch_rows
map-unused-touch_rows now ip token_id [] = refl
map-unused-touch_rows now ip token_id (row ∷ rest) =
    ground (arith, map-unused-touch_rows now ip token_id rest)

-- Presenting a text, whatever comes of it, changes no token but for the record of its last use.
pub authenticate-unused :
    (digest : Text → Text) (now : ℕ) (raw : Option Text) (ip : Option String) (db : Db)
    → map unused ((authenticate digest now raw ip db).0).tokens ≡ map unused db.tokens
unfolding authenticate admit touch
authenticate-unused digest now none ip db = refl
authenticate-unused digest now (some raw) ip db =
    elim (Option-cases (find_hash (digest raw) db.tokens)) [
      | inl unknown ↦ ground arith
      | inr (row, found) ↦ ground (arith, map-unused-touch_rows now ip row.id db.tokens)
    ]

-- Presenting the text of a token that was used within the last minute writes nothing.
pub authenticate_within_minute :
    (digest : Text → Text) (now last : ℕ) (raw : Text) (ip : Option String) (db : Db) (row : Token)
    → find_hash (digest raw) db.tokens ≡ some row
    → row.last_used_at ≡ some last
    → now ≤ last + minute
    → (authenticate digest now (some raw) ip db).0 ≡ db
unfolding authenticate admit touch is_touch_due
authenticate_within_minute digest now last raw ip db row found used soon = ground arith
