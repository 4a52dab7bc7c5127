-- ===== src/Users.antt =====
-- db.py: the table `users` and what is done to it. A digest and a stored JSON text are texts. The
-- texts `scim_profile` and `prefs` are the JSON that is stored.
pub mod Rows
pub mod Pages
mod Tests
use domain_lens.Prelude.{
  ℕ, zero, suc, ◌+◌, ◌-◌, Bool, true, false, not, ◌&&◌, ◌||◌, Option, none, some, List, [], ◌∷◌,
  ◌++◌, ltb, leb, ◌==◌, length, keep, Text, codes, text_eq, strip, lower, String, str_eq,
  if◌then◌else◌, min, max,
}
use domain_lens.Prelude.Sorting.{sort}

-- A row. `profile` holds the columns of `PROFILE_FIELDS` but the last.
pub record User : Type 0 where
  pub id : ℕ
  pub email : Text
  pub name : Option Text
  pub password_hash : Option Text
  pub role : Text
  pub enabled : Bool
  pub mfa_enabled : Bool
  pub mfa_secret : Option Text
  pub mfa_backup_codes : List Text
  pub password_changed_at : Option ℕ
  pub failed_logins : ℕ
  pub locked_until : Option ℕ
  pub last_login_at : Option ℕ
  pub provider : Text
  pub external_id : Option Text
  pub user_name : Option Text
  pub prefs : Text
  pub sessions_valid_after : Option ℕ
  pub profile : String → Option Text
  pub scim_profile : Text
  pub created_at : ℕ
  pub updated_at : ℕ

pub record Users : Type 0 where
  pub rows : List User
  pub next_id : ℕ

-- `strip().lower()`.
unfoldable pub clean : Text → Text
unfolding strip lower
clean s = lower (strip s)

-- `(value or "").strip() or None`.
abbrev pub or_none : Text → Option Text
or_none [] = none
or_none (c ∷ s) = some (c ∷ s)

abbrev pub or_empty : Option Text → Text
or_empty none = []
or_empty (some s) = s

unfoldable pub stripped : Option Text → Option Text
unfolding strip
stripped value = or_none (strip (or_empty value))

-- One keyword argument of `update_user`; `other` is a key that it does not allow.
pub data Change : Type 0 where
  set_email set_role set_provider set_prefs set_scim_profile : Text → Change
  set_name set_password_hash set_mfa_secret set_external_id set_user_name : Option Text → Change
  set_enabled set_mfa_enabled : Bool → Change
  set_backup_codes : List Text → Change
  set_password_changed_at set_locked_until set_last_login_at set_sessions_valid_after :
      Option ℕ → Change
  set_failed_logins : ℕ → Change
  set_profile : String → Option Text → Change
  other : String → Change

abbrev pub is_allowed : Change → Bool
is_allowed (other _) = false
is_allowed _ = true

abbrev pub set_at : String → Option Text → (String → Option Text) → String → Option Text
set_at key value profile k = if str_eq k key then value else profile k

-- One assignment of the UPDATE, with the value as it is written.
unfoldable pub assign : Change → User → User
unfolding clean stripped
assign (set_email v) u = record u { email = clean v }
assign (set_role v) u = record u { role = v }
assign (set_provider v) u = record u { provider = clean v }
assign (set_prefs v) u = record u { prefs = v }
assign (set_scim_profile v) u = record u { scim_profile = v }
assign (set_name v) u = record u { name = v }
assign (set_password_hash v) u = record u { password_hash = v }
assign (set_mfa_secret v) u = record u { mfa_secret = v }
assign (set_external_id v) u = record u { external_id = stripped v }
assign (set_user_name v) u = record u { user_name = v }
assign (set_enabled v) u = record u { enabled = v }
assign (set_mfa_enabled v) u = record u { mfa_enabled = v }
assign (set_backup_codes v) u = record u { mfa_backup_codes = v }
assign (set_password_changed_at v) u = record u { password_changed_at = v }
assign (set_locked_until v) u = record u { locked_until = v }
assign (set_last_login_at v) u = record u { last_login_at = v }
assign (set_sessions_valid_after v) u = record u { sessions_valid_after = v }
assign (set_failed_logins v) u = record u { failed_logins = v }
assign (set_profile key v) u = record u { profile = set_at key (stripped v) u.profile }
assign (other _) u = u

unfoldable pub assign_all : List Change → User → User
unfolding assign
assign_all [] u = u
assign_all (c ∷ cs) u = assign_all cs (assign c u)

unfoldable pub update_rows : ℕ → (User → User) → List User → List User
update_rows id f [] = []
update_rows id f (u ∷ rest) =
    let rest' = update_rows id f rest in if u.id == id then f u ∷ rest' else u ∷ rest'

unfoldable pub find_by : (User → Bool) → List User → Option User
find_by p [] = none
find_by p (u ∷ rest) = if p u then some u else find_by p rest

unfoldable pub get_user : ℕ → Users → Option User
unfolding find_by
get_user id t = find_by (λ u. u.id == id) t.rows

abbrev pub has_email : Text → User → Bool
has_email email u = text_eq u.email email

unfoldable pub get_user_by_email : Text → Users → Option User
unfolding find_by clean text_eq
get_user_by_email email t = find_by (has_email (clean email)) t.rows

abbrev pub has_text : Text → Option Text → Bool
has_text s none = false
has_text s (some t) = text_eq t s

unfoldable pub get_user_by_external_id : Option Text → Users → Option User
unfolding find_by stripped text_eq
get_user_by_external_id external_id t = elim (stripped external_id) [
  | none ↦ none
  | some key ↦ find_by (λ u. has_text key u.external_id) t.rows
]

abbrev pub has_lower : Text → Option Text → Bool
has_lower s none = false
has_lower s (some t) = text_eq (lower t) (lower s)

unfoldable pub get_user_by_user_name : Option Text → Users → Option User
unfolding find_by stripped text_eq lower
get_user_by_user_name user_name t = elim (stripped user_name) [
  | none ↦ none
  | some key ↦ find_by (λ u. has_lower key u.user_name) t.rows
]

-- Whether the column `email` stays unique.
unfoldable pub distinct_emails : List User → Bool
unfolding find_by text_eq
distinct_emails [] = true
distinct_emails (u ∷ rest) = elim (find_by (has_email u.email) rest) [
  | none ↦ distinct_emails rest
  | some _ ↦ false
]

abbrev pub changed_at : ℕ → List Change → User → User
changed_at now changes u = record (assign_all changes u) { updated_at = now }

-- The rows after the UPDATE; with no allowed key nothing is written.
unfoldable pub written : ℕ → ℕ → List Change → List User → List User
unfolding assign_all update_rows
written now id [] rows = rows
written now id (c ∷ cs) rows = update_rows id (changed_at now (c ∷ cs)) rows

abbrev pub is_email : Change → Bool
is_email (set_email _) = true
is_email _ = false

abbrev pub writes_email : List Change → Bool
writes_email [] = false
writes_email (c ∷ cs) = is_email c || writes_email cs

-- `update_user`; none where the database refuses an address that is taken, which it checks when an
-- address is written.
unfoldable pub update_user : ℕ → ℕ → List Change → Users → Option (Users × Option User)
unfolding written get_user keep distinct_emails
update_user now id changes t =
    let t' : Users = record t { rows = written now id (keep is_allowed changes) t.rows } in
    if writes_email changes && not (distinct_emails t'.rows)
    then none
    else some (t', get_user id t')

-- The keyword arguments of `create_user`; `scim_profile` is its JSON.
pub record NewUser : Type 0 where
  pub email : Text
  pub password_hash : Option Text
  pub name : Option Text
  pub role : Text
  pub enabled : Bool
  pub provider : Option Text
  pub external_id : Option Text
  pub user_name : Option Text
  pub profile : String → Option Text
  pub scim_profile : Text

-- `s.split("@")[0]`.
unfoldable pub local_part : Text → Text
local_part [] = []
local_part (c ∷ s) = let rest = local_part s in if c == 64 then [] else c ∷ rest

-- `value or default`, for a text.
abbrev pub or_text : Option Text → Text → Text
or_text none default = default
or_text (some []) default = default
or_text (some (c ∷ s)) default = c ∷ s

abbrev pub new_user : ℕ → ℕ → NewUser → User
new_user now id args = record {
  id = id;
  email = clean args.email;
  name = some (or_text args.name (local_part (clean args.email)));
  password_hash = args.password_hash;
  role = args.role;
  enabled = args.enabled;
  mfa_enabled = false;
  mfa_secret = none;
  mfa_backup_codes = [];
  password_changed_at = elim args.password_hash [
    | none ↦ none
    | some h ↦ (elim h [ [] ↦ none | c ∷ s ↦ some now ])
  ];
  failed_logins = 0;
  locked_until = none;
  last_login_at = none;
  provider = or_text (some (clean (or_text args.provider (codes "local")))) (codes "local");
  external_id = stripped args.external_id;
  user_name = some (strip (or_text args.user_name (clean args.email)));
  prefs = codes "{}";
  sessions_valid_after = none;
  profile = λ key. stripped (args.profile key);
  scim_profile = args.scim_profile;
  created_at = now;
  updated_at = now;
}

-- `create_user`; none where the address is taken.
pub create_user : ℕ → NewUser → Users → Option (Users × ℕ)
unfolding clean stripped strip local_part distinct_emails
create_user now args t =
    let rows = t.rows ++ new_user now t.next_id args ∷ [] in
    if distinct_emails rows
    then some (record t { rows = rows; next_id = t.next_id + 1 }, t.next_id)
    else none

pub delete_user : ℕ → Users → Users × Bool
unfolding keep
delete_user id t =
    let rows = keep (λ u. not (u.id == id)) t.rows in
    (record t { rows = rows }, not (length rows == length t.rows))

pub count_users : Users → ℕ
count_users t = length t.rows

abbrev pub older_first : User → User → Bool
older_first a b = leb a.created_at b.created_at

pub list_users : Users → List User
unfolding sort
list_users t = sort older_first t.rows

-- LIMIT and OFFSET.
unfoldable pub take : ℕ → List User → List User
take zero us = []
take (suc n) [] = []
take (suc n) (u ∷ us) = u ∷ take n us

unfoldable pub drop : ℕ → List User → List User
drop zero us = us
drop (suc n) [] = []
drop (suc n) (u ∷ us) = drop n us

abbrev pub by_id : User → User → Bool
by_id a b = leb a.id b.id

-- The WHERE of `find_users_for_scim`; an empty filter is none.
abbrev pub fits : Option Text → Option Text → User → Bool
fits user_name external_id u =
    elim user_name [
      | none ↦ true
      | some s ↦ elim s [ [] ↦ true | c ∷ r ↦ has_lower (strip (c ∷ r)) u.user_name ]
    ]
    && elim external_id [
      | none ↦ true
      | some s ↦ elim s [ [] ↦ true | c ∷ r ↦ has_text (strip (c ∷ r)) u.external_id ]
    ]

-- `max(1, int(start_index or 1))`, and `max(1, min(200, int(count or 100)))`.
abbrev pub start_of : Option ℕ → ℕ
start_of none = 1
start_of (some n) = max 1 n

abbrev pub count_of : Option ℕ → ℕ
count_of none = 100
count_of (some zero) = 100
count_of (some (suc n)) = min 200 (suc n)

pub record Page : Type 0 where
  pub total : ℕ
  pub start_index : ℕ
  pub items : List User

pub find_users_for_scim : Option Text → Option Text → Option ℕ → Option ℕ → Users → Page
unfolding keep sort take drop strip lower text_eq
find_users_for_scim user_name external_id start_index count t =
    let found = sort by_id (keep (fits user_name external_id) t.rows) in
    record {
      total = length found;
      start_index = start_of start_index;
      items = take (count_of count) (drop (start_of start_index - 1) found);
    }
