-- ===== src/Account.antt =====
-- The account page of app.py: the handlers that change the own password, and that set up, replace and
-- turn off the own second factor. The salt, the new secret and the new backup codes that they
-- draw are arguments. A request with an API token does not come here, since tokens are for /api/ only.
-- The id of a local session is a number.
pub mod Callers
pub mod Proving
pub mod Steps
pub mod Replacing
mod Tests
use domain_lens.Prelude.{
  ℕ, zero, suc, ◌+◌, ◌-◌, ◌*◌, Bool, true, false, not, ◌&&◌, ◌||◌, Option, none, some, List, [],
  ◌∷◌, map, ltb, Text, text_eq, strip, lower, if◌then◌else◌,
}
use domain_lens.Users.{
  User, Users, get_user, set_password_hash, set_password_changed_at, set_mfa_enabled,
  set_mfa_secret, set_backup_codes, or_empty,
}
use domain_lens.Login.{
  Config, Policy, Fault, hash_password, verify_password, validate_password, verify_totp, save,
  second,
}
use domain_lens.Sessions.{
  Reads, Identity, number, given, missing, Signed, Session, Web, begin, is_local, row_id,
  current_user, revoke_other_sessions, Tools, Note, wrong_current, mismatch, password_updated, weak,
  mfa_off, mfa_already_on, mfa_not_on, mfa_is_required, wrong_password, wrong_code, prove_first,
  mfa_scan, mfa_replace_scan, mfa_cancelled, mfa_replaced, mfa_enabled, mfa_disabled, Page,
  login_page, account_page, Event, password_changed, replace_started, replaced, enabled_mfa,
  disabled_mfa, Reply, home, secret_of, second_factor,
}

-- What a handler is given besides its form: the library, the settings, the time, and the reads of the
-- account when the caller is looked up, at the start and after a change.
pub record Given : Type 0 where
  pub tools : Tools
  pub cfg : Config
  pub policy : Policy
  pub now : ℕ
  pub reads : Reads
  pub reads_again : Reads
  pub str_of : ℕ → Text

abbrev pub reply : Web → Users → Page → Reply
reply web t page = record { web = web; table = t; events = []; page = page }

abbrev pub row_of : Identity → Users → Option User
row_of (number n) t = get_user n t
row_of (Identity.given s) t = none
row_of missing t = none

-- The caller that may go on: one that is signed in locally.
abbrev pub local_caller : Option Signed → Option Signed
local_caller none = none
local_caller (some user) = if is_local user then some user else none

abbrev pub caller : Given → Users → Web → Web × Option Signed
caller g t web = let looked = current_user g.reads none t web in (looked.0, local_caller (looked.1))

abbrev pub with_secret : Option Text → Web → Web
with_secret secret web = record web { session = record web.session { setup_secret = secret } }

abbrev pub with_proof : Option Text → Option ℕ → Web → Web
with_proof secret at web = record web {
  session = record web.session { setup_secret = secret; replace_verified_at = at };
}

abbrev pub is_on : Option User → Bool
is_on none = false
is_on (some u) = u.mfa_enabled

abbrev pub knows : Given → Text → Option User → Bool
knows g password none = false
knows g password (some u) = verify_password g.tools.crypto password (or_empty u.password_hash)

abbrev pub with_faults : Given → List ℕ → Text → Web → Users → Signed → User → List Fault → Reply
with_faults g salt password web t user u (f ∷ fs) = reply web t (account_page (weak (f ∷ fs)))
with_faults g salt password web t user u [] = record {
  web = web;
  table =
      save g.now u.id
        (set_password_hash (some (hash_password g.tools.crypto salt password))
          ∷ set_password_changed_at (some g.now)
          ∷ [])
        t;
  events = password_changed user.id ∷ [];
  page = account_page password_updated;
}

abbrev pub change_as :
    Given → List ℕ → Text → Text → Text → Web → Users → Signed → Option User → Reply
change_as g salt current password confirm web t user none = reply web t (account_page wrong_current)
change_as g salt current password confirm web t user (some u) =
    if not (knows g current (some u))
    then reply web t (account_page wrong_current)
    else if not (text_eq password confirm)
    then reply web t (account_page mismatch)
    else with_faults g salt password web t user u (validate_password g.policy password u.email)

abbrev pub for_caller : Web × Option Signed → Users → (Web → Signed → Reply) → Reply
for_caller (web, none) t handle = reply web t (login_page none home)
for_caller (web, some user) t handle = handle web user

unfoldable pub account_change_password : Given → List ℕ → Text → Text → Text → Web → Users → Reply
unfolding current_user get_user save hash_password verify_password validate_password text_eq
account_change_password g salt current password confirm web t =
    for_caller (caller g t web) t
      (λ web user. change_as g salt current password confirm web t user (row_of user.id t))

abbrev pub start_as : Given → Text → Web → Users → Signed → Reply
start_as g secret web t user =
    if not g.cfg.mfa_available
    then reply web t (account_page mfa_off)
    else if is_on (row_of user.id t)
    then reply web t (account_page mfa_already_on)
    else reply (with_secret (some secret) web) t (account_page mfa_scan)

unfoldable pub account_mfa_start : Given → Text → Web → Users → Reply
unfolding current_user get_user
account_mfa_start g secret web t =
    for_caller (caller g t web) t (λ web user. start_as g secret web t user)

abbrev pub replace_with : Given → Text → Web → Signed → Users × Bool → Reply
replace_with g secret web user (t, false) = reply web t (account_page wrong_code)
replace_with g secret web user (t, true) = record {
  web = with_proof (some secret) (some g.now) web;
  table = t;
  events = replace_started user.id ∷ [];
  page = account_page mfa_replace_scan;
}

abbrev pub replace_as : Given → Text → Text → Text → Web → Users → Signed → Option User → Reply
replace_as g secret password code web t user none = reply web t (account_page mfa_not_on)
replace_as g secret password code web t user (some u) =
    if not u.mfa_enabled
    then reply web t (account_page mfa_not_on)
    else if not (knows g password (some u))
    then reply web t (account_page wrong_password)
    else replace_with g secret web user (second_factor g.tools g.now u (strip code) t)

unfoldable pub account_mfa_replace : Given → Text → Text → Text → Web → Users → Reply
unfolding current_user get_user second_factor verify_password strip
account_mfa_replace g secret password code web t =
    for_caller (caller g t web) t
      (λ web user. replace_as g secret password code web t user (row_of user.id t))

unfoldable pub account_mfa_cancel : Web → Users → Reply
account_mfa_cancel web t = reply (with_proof none none web) t (account_page mfa_cancelled)

-- How long the proof counts.
abbrev pub _mfa_replace_window : ℕ
_mfa_replace_window = 600 * second

abbrev pub or_zero : Option ℕ → ℕ
or_zero none = 0
or_zero (some n) = n

-- `{}` with the flag.
abbrev pub only_flag : Bool → Signed
only_flag flag = record {
  id = missing;
  email = none;
  name = none;
  provider = none;
  role = [];
  mfa_enabled = flag;
  db_user = false;
  issued_at = none;
}

-- The flag in the session of the caller who is looked up again, or of `{}`.
abbrev pub with_flag : Bool → Web × Option Signed → Web
with_flag flag (web, none) = record web {
  session = record web.session { user = some (only_flag flag) };
}
with_flag flag (web, some user) = record web {
  session = record web.session { user = some (record user { mfa_enabled = flag }) };
}

abbrev pub ended : Given → Bool → ℕ → Users → Web → Users × Web
ended g true id t web = revoke_other_sessions g.str_of g.now id t web
ended g false id t web = (t, web)

abbrev pub once : List Text → Web → Web
once backup web = record web { session = record web.session { backup_codes_once = some backup } }

abbrev pub confirmed_table : Given → List Text → Text → ℕ → Users → Users
confirmed_table g backup secret id t =
    let digests = map (λ c. g.tools.digest (lower c)) backup in
    save g.now id
      (set_mfa_enabled true ∷ set_mfa_secret (some secret) ∷ set_backup_codes digests ∷ []) t

-- The end of `account_mfa_confirm`, with the backup codes that were drawn.
abbrev pub confirmed : Given → List Text → Bool → Text → ℕ → Web → Users → Reply
confirmed g backup replacing secret id web t =
    let t1 = confirmed_table g backup secret id t in
    let left = ended g replacing id t1 (with_proof none none web) in
    record {
      web = with_flag true (current_user g.reads_again none (left.0) (once backup (left.1)));
      table = left.0;
      events = (if replacing then replaced (number id) else enabled_mfa (number id)) ∷ [];
      page = account_page (if replacing then mfa_replaced else mfa_enabled);
    }

abbrev pub confirm_with : Given → List Text → Text → Web → Users → Bool → ℕ → Reply
confirm_with g backup code web t replacing id =
    let secret = or_empty web.session.setup_secret in
    if replacing && ltb _mfa_replace_window (g.now - or_zero web.session.replace_verified_at)
    then reply (with_proof none none web) t (account_page prove_first)
    else if not (verify_totp g.tools.hmac g.now secret (strip code))
    then reply web t (account_page wrong_code)
    else confirmed g backup replacing secret id web t

abbrev pub confirm_as : Given → List Text → Text → Web → Users → Identity → Reply
confirm_as g backup code web t (number id) =
    confirm_with g backup code web t (is_on (get_user id t)) id
confirm_as g backup code web t (Identity.given s) = reply web t (account_page wrong_code)
confirm_as g backup code web t missing = reply web t (account_page wrong_code)

unfoldable pub account_mfa_confirm : Given → List Text → Text → Web → Users → Reply
unfolding current_user get_user verify_totp save revoke_other_sessions strip lower
account_mfa_confirm g backup code web t =
    for_caller (caller g t web) t (λ web user. confirm_as g backup code web t user.id)

abbrev pub turned_off : Given → Web → ℕ → Users × Bool → Reply
turned_off g web id (t, false) = reply web t (account_page wrong_code)
turned_off g web id (t, true) =
    let t' =
      save g.now id (set_mfa_enabled false ∷ set_mfa_secret none ∷ set_backup_codes [] ∷ []) t in
    record {
      web = with_flag false (current_user g.reads_again none t' web);
      table = t';
      events = disabled_mfa (number id) ∷ [];
      page = account_page mfa_disabled;
    }

abbrev pub disable_as : Given → Text → Text → Web → Users → Option User → Reply
disable_as g password code web t none = reply web t (account_page wrong_password)
disable_as g password code web t (some u) =
    if not (knows g password (some u))
    then reply web t (account_page wrong_password)
    else turned_off g web u.id
        (if u.mfa_enabled then second_factor g.tools g.now u (strip code) t else (t, true))

unfoldable pub account_mfa_disable : Given → Text → Text → Web → Users → Reply
unfolding current_user get_user second_factor verify_password save strip
account_mfa_disable g password code web t = for_caller (caller g t web) t (λ web user.
    if g.cfg.mfa_required
    then reply web t (account_page mfa_is_required)
    else disable_as g password code web t (row_of user.id t))
