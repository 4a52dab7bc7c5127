-- ===== src/Sessions.antt =====
-- The browser sessions of auth.py, and the handlers of app.py for signing in and out and for the
-- second factor. A session is its cookie; `seen` is the caller that a request has looked up before.
-- A time is in microseconds. What a handler records in the audit log is a list of events.
pub mod Signing
pub mod Guesses
pub mod Revoking
pub mod Tests
use domain_lens.Prelude.{
  ℕ, zero, suc, ◌+◌, ◌-◌, ◌*◌, Bool, true, false, not, ◌&&◌, ◌||◌, Option, none, some, List, [],
  ◌∷◌, ltb, leb, ◌==◌, Text, codes, text_eq, strip, starts_with, if◌then◌else◌,
}
use domain_lens.Roles
use domain_lens.Roles.{normalize}
use domain_lens.Users.{
  User, Users, get_user, set_last_login_at, set_sessions_valid_after, set_mfa_enabled,
  set_mfa_secret, set_backup_codes, or_empty, clean,
}
use domain_lens.Login.{
  Fault, Crypto, Config, Attempt, accepted, rejected, Refusal, attempt_local_login, is_locked,
  verify_totp, verify_password, consume_backup_code, register_mfa_failure, clear_login_failures,
  save, second,
}

-- The id in a session: a number, as of a row, or another text, or no id at all.
pub data Identity : Type 0 where
  number : ℕ → Identity
  given : Text → Identity
  missing : Identity

-- `session["user"]`.
pub record Signed : Type 0 where
  pub id : Identity
  pub email : Option Text
  pub name : Option Text
  pub provider : Option Text
  pub role : Text
  pub mfa_enabled : Bool
  pub db_user : Bool
  pub issued_at : Option ℕ

pub record Session : Type 0 where
  pub user : Option Signed
  pub mfa_pending : Option ℕ
  pub oauth_next : Option Text
  pub setup_secret : Option Text
  pub replace_verified_at : Option ℕ
  pub backup_codes_once : Option (List Text)

abbrev pub cleared : Session
cleared = record {
  user = none;
  mfa_pending = none;
  oauth_next = none;
  setup_secret = none;
  replace_verified_at = none;
  backup_codes_once = none;
}

-- A request: the cookie, and the caller if it was looked up.
pub record Web : Type 0 where
  pub session : Session
  pub seen : Option (Option Signed)

-- A request with a cookie, at its start.
abbrev pub begin : Session → Web
begin session = record { session = session; seen = none }

abbrev pub is_local : Signed → Bool
is_local user = elim user.provider [ none ↦ false | some p ↦ text_eq p (codes "local") ]

unfoldable pub _is_db_backed : Signed → Bool
_is_db_backed user = user.db_user || is_local user

-- What the request's reads of the account come to: `int` of an id that is a text, and whether the
-- database answers or raises.
pub record Reads : Type 0 where
  pub int_of : Text → Option ℕ
  pub answers : Bool

-- `int` of an id.
abbrev pub row_id : (Text → Option ℕ) → Identity → Option ℕ
row_id int_of (number n) = some n
row_id int_of (given s) = int_of s
row_id int_of missing = none

abbrev pub issued_before : Option ℕ → Option ℕ → Bool
issued_before issued none = false
issued_before none (some cutoff) = true
issued_before (some n) (some cutoff) = ltb n cutoff

abbrev pub without_user : Session → Session
without_user session = record session { user = none }

abbrev pub with_role : Text → Signed → Session → Session × Option Signed
with_role role user session =
    if text_eq user.role role
    then (session, some user)
    else (let user' : Signed = record user { role = role } in
        (record session { user = some user' }, some user'))

-- `_refresh_from_db`, on the row that was read.
abbrev pub refreshed : Option User → Signed → Session → Session × Option Signed
refreshed none user session = (without_user session, none)
refreshed (some u) user session =
    if not u.enabled || issued_before user.issued_at u.sessions_valid_after
    then (without_user session, none)
    else with_role (normalize (some u.role) Roles.user) user session

unfoldable pub _refresh_from_db : Reads → Signed → Users → Session → Session × Option Signed
unfolding _is_db_backed get_user normalize
_refresh_from_db reads user t session =
    if not (_is_db_backed user) then (session, some user) else elim (row_id reads.int_of user.id) [
      | none ↦ (session, some user)
      | some id ↦
          if not reads.answers then (session, some user) else refreshed (get_user id t) user session
    ]

abbrev pub looked_up : Session × Option Signed → Web × Option Signed
looked_up (session, user) = (record { session = session; seen = some user }, user)

-- `current_user` of a request; `token_user` is the owner of its API token.
unfoldable pub current_user : Reads → Option Signed → Users → Web → Web × Option Signed
unfolding _refresh_from_db
current_user reads token_user t web = elim web.seen [
  | some user ↦ (web, user)
  | none ↦ elim token_user [
    | some user ↦ (record web { seen = some (some user) }, some user)
    | none ↦ elim web.session.user [
      | none ↦ looked_up (web.session, none)
      | some user ↦ looked_up (_refresh_from_db reads user t web.session)
    ]
  ]
]

-- `str` of the id in the session is `str` of a number; `str_of` is that of a number.
abbrev pub is_row : (ℕ → Text) → ℕ → Signed → Bool
is_row str_of id user = elim user.id [
  | number n ↦ n == id
  | given s ↦ text_eq s (str_of id)
  | missing ↦ false
]

abbrev pub stamped : ℕ → Signed → Signed
stamped stamp user = record user { issued_at = some stamp }

abbrev pub restamp : (ℕ → Text) → ℕ → ℕ → Option Signed → Option Signed
restamp str_of id stamp none = none
restamp str_of id stamp (some user) =
    if is_row str_of id user then some (stamped stamp user) else some user

unfoldable pub revoke_other_sessions : (ℕ → Text) → ℕ → ℕ → Users → Web → Users × Web
unfolding save
revoke_other_sessions str_of stamp id t web = (
  save stamp id (set_sessions_valid_after (some stamp) ∷ []) t,
  begin (record web.session { user = restamp str_of id stamp web.session.user }),
)

unfoldable pub revoke_all_sessions : ℕ → ℕ → Users → Users
unfolding save
revoke_all_sessions stamp id t = save stamp id (set_sessions_valid_after (some stamp) ∷ []) t

-- `a or b`, for texts.
abbrev pub or_else : Option Text → Option Text → Option Text
or_else none b = b
or_else (some []) b = b
or_else (some (c ∷ s)) b = some (c ∷ s)

-- The session that `login_local_user_record` begins with `login_user`.
unfoldable pub session_of : ℕ → User → Session
unfolding normalize
session_of now u = record cleared {
  user = some record {
    id = number u.id;
    email = some u.email;
    name = or_else (or_else u.name (some u.email)) (some u.email);
    provider = some (codes "local");
    role = normalize (some (normalize (some u.role) Roles.user)) Roles.user;
    mfa_enabled = u.mfa_enabled;
    db_user = false;
    issued_at = some now;
  };
}

unfoldable pub login_local_user_record : ℕ → User → Users → Users × Web
unfolding session_of save
login_local_user_record now u t =
    (save now u.id (set_last_login_at (some now) ∷ []) t, begin (session_of now u))

-- `logout_user`.
abbrev pub logged_out : Web
logged_out = begin cleared

abbrev pub set_mfa_pending : ℕ → Web → Web
set_mfa_pending id web = record web { session = record cleared { mfa_pending = some id } }

-- What the libraries compute, for a handler.
pub record Tools : Type 0 where
  pub crypto : Crypto
  pub hmac : Text → ℕ → List ℕ
  pub digest : Text → Text

pub data Reason : Type 0 where
  refused : Refusal → Reason
  mfa_session_expired account_locked : Reason

pub data Note : Type 0 where
  mfa_needed mfa_off mfa_already_on mfa_not_on mfa_is_required wrong_password wrong_code
        prove_first :
      Note
  mfa_scan mfa_replace_scan mfa_cancelled mfa_replaced mfa_enabled mfa_disabled : Note
  wrong_current mismatch password_updated : Note
  weak : List Fault → Note

pub data Page : Type 0 where
  login_page : Option Reason → Text → Page
  mfa_page : Bool → Text → Page
  account_page : Note → Page
  url : Text → Page

pub data Event : Type 0 where
  login_failed : Refusal → Event
  login_done : Bool → Event
  mfa_failed : Bool → Event
  logout_done : Event
  password_changed replace_started replaced enabled_mfa disabled_mfa : Identity → Event

pub record Reply : Type 0 where
  pub web : Web
  pub table : Users
  pub events : List Event
  pub page : Page

abbrev pub home : Text
home = b'/' ∷ []

-- The target of a redirect: what the form or else the query gives, if it starts with a slash.
unfoldable pub next_url : Option Text → Option Text → Text
unfolding starts_with
next_url form args =
    let wanted = or_empty (or_else (or_else form args) (some home)) in
    if starts_with wanted home then wanted else home

abbrev pub after_login : Config → User → Text → Page
after_login cfg u next =
    if cfg.mfa_required && cfg.mfa_available && not u.mfa_enabled
    then account_page mfa_needed
    else url next

abbrev pub signed_in : ℕ → Bool → User → Users → Page → Reply
signed_in now mfa u t page =
    let done = login_local_user_record now u t in
    record { web = done.1; table = done.0; events = login_done mfa ∷ []; page = page }

abbrev pub after_attempt : Config → ℕ → Text → Web → Users × Attempt → Reply
after_attempt cfg now next web (t, rejected why) = record {
  web = web;
  table = t;
  events = login_failed why ∷ [];
  page = login_page (some (refused why)) next;
}
after_attempt cfg now next web (t, accepted u true) = record {
  web = record web { session = record cleared { mfa_pending = some u.id; oauth_next = some next } };
  table = t;
  events = [];
  page = mfa_page false next;
}
after_attempt cfg now next web (t, accepted u false) =
    signed_in now false u t (after_login cfg u next)

unfoldable pub auth_local_login : Tools → Config → ℕ → Text → Text → Text → Web → Users → Reply
unfolding attempt_local_login login_local_user_record
auth_local_login tools cfg now next email password web t =
    after_attempt cfg now next web (attempt_local_login tools.crypto cfg now email password t)

abbrev pub shown_out : Users → Reason → Reply
shown_out t reason = record {
  web = logged_out;
  table = t;
  events = [];
  page = login_page (some reason) home;
}

abbrev pub secret_of : User → Text
secret_of u = or_empty u.mfa_secret

-- The two factors that `auth_mfa_verify` tries in turn, and the table after them.
unfoldable pub second_factor : Tools → ℕ → User → Text → Users → Users × Bool
unfolding verify_totp consume_backup_code
second_factor tools now u code t =
    if verify_totp tools.hmac now (secret_of u) code
    then (t, true)
    else consume_backup_code tools.digest now u code t

abbrev pub after_failure : Text → Web → Users × Bool → Reply
after_failure next web (t, true) = record {
  web = logged_out;
  table = t;
  events = mfa_failed true ∷ [];
  page = login_page (some account_locked) home;
}
after_failure next web (t, false) = record {
  web = web;
  table = t;
  events = mfa_failed false ∷ [];
  page = mfa_page true next;
}

abbrev pub after_factor : Config → ℕ → Text → User → Web → Users × Bool → Reply
after_factor cfg now next u web (t, true) =
    signed_in now true u (clear_login_failures now u.id t) (url next)
after_factor cfg now next u web (t, false) =
    after_failure next web (register_mfa_failure cfg now u t)

abbrev pub verify_as : Tools → Config → ℕ → Text → Text → Web → Users → Option User → Reply
verify_as tools cfg now next code web t none = shown_out t mfa_session_expired
verify_as tools cfg now next code web t (some u) =
    if not u.enabled
    then shown_out t mfa_session_expired
    else if is_locked now u
    then shown_out t account_locked
    else after_factor cfg now next u web (second_factor tools now u code t)

unfoldable pub auth_mfa_verify : Tools → Config → ℕ → Text → Text → Web → Users → Reply
unfolding strip get_user second_factor register_mfa_failure clear_login_failures
    login_local_user_record
auth_mfa_verify tools cfg now next code web t = elim web.session.mfa_pending [
  | none ↦ record {
    web = web;
    table = t;
    events = [];
    page = login_page (some mfa_session_expired) home;
  }
  | some zero ↦ record {
    web = web;
    table = t;
    events = [];
    page = login_page (some mfa_session_expired) home;
  }
  | some (suc n) ↦ verify_as tools cfg now next (strip code) web t (get_user (suc n) t)
]
