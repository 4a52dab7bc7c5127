-- ===== src/Account/Proving.antt =====
-- The requests of a browser to the account page of app.py, and the proof that replaces an authenticator.
use domain_lens.Prelude.{
  ℕ, ◌≡◌, refl, sym, ◌∙◌, subst, inr, ◌⊎◌, true, Option, none, some, List, [], ◌∷◌, arith, Text,
  strip,
}
use domain_lens.Users.{User, Users}
use domain_lens.Sessions.{Identity, Signed, Session, Web, begin, current_user, Reply, second_factor}
use domain_lens.Account.{
  Given, row_of, local_caller, caller, knows, for_caller, account_mfa_start, account_mfa_replace,
  account_mfa_cancel, account_mfa_confirm, account_mfa_disable, account_change_password,
}
use domain_lens.Account.Callers.{Kept, Kept-current_user}

pub data Request : Type 0 where
  password_change : Given → List ℕ → Text → Text → Text → Request
  start replacement_cancelled : Given → Text → Request
  replace : Given → Text → Text → Text → Request
  confirm : Given → List Text → Text → Request
  disable : Given → Text → Text → Request

pub record Moment : Type 0 where
  pub session : Session
  pub table : Users
  pub request : Request

unfoldable pub answer : Moment → Reply
unfolding account_mfa_start account_mfa_replace account_mfa_cancel account_mfa_confirm
    account_mfa_disable account_change_password
answer m = elim m.request [
  | password_change g salt current password again ↦
      account_change_password g salt current password again (begin m.session) m.table
  | start g secret ↦ account_mfa_start g secret (begin m.session) m.table
  | replacement_cancelled g secret ↦ account_mfa_cancel (begin m.session) m.table
  | replace g secret password code ↦
      account_mfa_replace g secret password code (begin m.session) m.table
  | confirm g backup code ↦ account_mfa_confirm g backup code (begin m.session) m.table
  | disable g password code ↦ account_mfa_disable g password code (begin m.session) m.table
]

-- A browser on the account page, with what it asked for, latest first. In between it may sign in and
-- out, which leaves no time of a replacement in the session, and the accounts may change.
pub data Run : List Moment → Session → Users → Type 0 where
  enter : (s : Session) (t : Users) → s.replace_verified_at ≡ none → Run [] s t
  enter_again :
      (h : List Moment) (s s' : Session) (t : Users)
      → Run h s t
      → s'.replace_verified_at ≡ none
      → Run h s' t
  elsewhere : (h : List Moment) (s : Session) (t t' : Users) → Run h s t → Run h s t'
  asked :
      (h : List Moment) (s : Session) (t : Users) (r : Request)
      → Run h s t
      → Run
          (record { session = s; table = t; request = r } ∷ h)
          ((answer record { session = s; table = t; request = r }).web.session)
          ((answer record { session = s; table = t; request = r }).table)

-- The request gives the password of the account and a code from its authenticator or a backup code.
pub record IsProof (id : Identity) (at : ℕ) (m : Moment) : Type 0 where
  pub g : Given
  pub secret : Text
  pub password : Text
  pub code : Text
  pub user : User
  pub is_replace : m.request ≡ replace g secret password code
  pub at_time : g.now ≡ at
  pub found : row_of id m.table ≡ some user
  pub knows_password : knows g password (some user) ≡ true
  pub factor : (second_factor g.tools g.now user (strip code) m.table).1 ≡ true

abbrev pub Happened : (Moment → Type 0) → List Moment → Type 0
Happened P [] = ⊥
Happened P (m ∷ h) = P m ⊎ Happened P h

-- A session that holds a time of a replacement has proved itself then, for its account.
abbrev pub Holds : List Moment → Session → Type 0
Holds h s =
    (at : ℕ) (me : Signed)
    → s.replace_verified_at ≡ some at
    → s.user ≡ some me
    → Happened (IsProof me.id at) h

pub Holds-none : (h : List Moment) (s : Session) → s.replace_verified_at ≡ none → Holds h s
Holds-none h s off at me e here = absurd (let both = sym off ∙ e in cc)

pub Holds-Kept :
    (h : List Moment) (s : Session) (found : Option Signed) (web : Web)
    → Kept s found web
    → Holds h s
    → Holds h web.session
Holds-Kept h s found web kept inv at me e here =
    let (user, is, same) = kept.own me here in
    let (me', here', same') = kept.id user is in
    subst (λ i. Happened (IsProof i at) h) (same' ∙ sym same) (inv at me' (sym kept.at ∙ e) here')

pub local_caller-found :
    (found : Option Signed) (user : Signed) → local_caller found ≡ some user → found ≡ some user
local_caller-found none user e = absurd (ground (arith, e))
local_caller-found (some u) user e = ground (arith, e)

for_caller-cases :
    (P : Session → Type 0) (c : Web × Option Signed) (t : Users) (handle : Web → Signed → Reply)
    → P (c.0).session
    → ((user : Signed) → c.1 ≡ some user → P (handle (c.0) user).web.session)
    → P (for_caller c t handle).web.session
for_caller-cases P (web, none) t handle out go = out
for_caller-cases P (web, some user) t handle out go = go user refl

-- A handler for a local caller, by what it does with the session of the caller.
pub Holds-through :
    (m : Moment) (h : List Moment) (g : Given) (s : Session) (t : Users)
    (handle : Web → Signed → Reply)
    → ((web : Web) (user : Signed)
        → Kept s (some user) web
        → Holds (m ∷ h) s
        → Holds (m ∷ h) web.session
        → Holds (m ∷ h) (handle web user).web.session)
    → Holds h s
    → Holds (m ∷ h) (for_caller (caller g t (begin s)) t handle).web.session
Holds-through m h g s t handle keeps inv =
    let found = (current_user g.reads none t (begin s)).1 in
    let web = (current_user g.reads none t (begin s)).0 in
    let kept = Kept-current_user g.reads t s in
    let first : Holds (m ∷ h) s = λ at me e here. inr (inv at me e here) in
    let base = Holds-Kept (m ∷ h) s found web kept first in
    for_caller-cases (Holds (m ∷ h)) (caller g t (begin s)) t handle base (λ user e.
      keeps web user (subst (λ f. Kept s f web) (local_caller-found found user e) kept) first base)
