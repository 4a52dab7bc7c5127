-- ===== src/Sessions/Signing.antt =====
-- Who is signed in by the handlers of app.py: what a browser has shown before its session has a user.
use domain_lens.Prelude.{
  ℕ, zero, suc, ◌≡◌, refl, sym, ap, ◌∙◌, ◌&&◌, inl, inr, ◌⊎◌, Bool, true, false, Option, none, some,
  List, [], ◌∷◌, arith, Text, strip, ◌==◌, Bool-cases, Option-cases, subst,
}
use domain_lens.Users.{User, Users, get_user, find_by}
use domain_lens.Login.{
  Config, Attempt, accepted, rejected, attempt_local_login, is_locked, register_mfa_failure, reread,
  verify_totp, contains, clean_code, consume_backup_code,
}
use domain_lens.Login.Lockout.{Known, attempt_local_login-Known}
use domain_lens.Login.Codes.{consumed}
use domain_lens.Sessions.{
  Signed, Session, cleared, begin, number, Tools, auth_local_login, auth_mfa_verify, second_factor,
  after_attempt, session_of, login_local_user_record, verify_as, after_factor, after_failure,
  logged_out, secret_of,
}

-- What one browser asks for.
pub data Request : Type 0 where
  login : ℕ → Text → Text → Text → Request
  verify : ℕ → Text → Text → Request
  logout : Request

-- A request as it came: the cookie, and the accounts at that time.
pub record Moment : Type 0 where
  pub session : Session
  pub table : Users
  pub request : Request

get_user-id : (id : ℕ) (t : Users) (u : User) → get_user id t ≡ some u → u.id ≡ id
unfolding get_user find_by
get_user-id id t u e = go t.rows e
  where
    go : (rows : List User) → find_by (λ v. v.id == id) rows ≡ some u → u.id ≡ id
    go [] e = cc
    go (v ∷ rest) e = ground (arith, go rest)

reread-id :
    (found : Option User) (account : User)
    → ((u : User) → found ≡ some u → u.id ≡ account.id)
    → (reread found account).id ≡ account.id
reread-id none account h = refl
reread-id (some u) account h = h u refl

module _ (tools : Tools) (cfg : Config) where
  unfoldable pub answer : Moment → Session × Users
  unfolding auth_local_login auth_mfa_verify
  answer m = elim m.request [
    | login now next email password ↦
        let reply = auth_local_login tools cfg now next email password (begin m.session) m.table in
        (reply.web.session, reply.table)
    | verify now next code ↦
        let reply = auth_mfa_verify tools cfg now next code (begin m.session) m.table in
        (reply.web.session, reply.table)
    | logout ↦ (logged_out.session, m.table)
  ]

  -- The requests of a browser that starts without a cookie, latest first, while the accounts
  -- may change by themselves in between.
  pub data Run : List Moment → Session → Users → Type 0 where
    start : (t : Users) → Run [] cleared t
    elsewhere : (h : List Moment) (s : Session) (t t' : Users) → Run h s t → Run h s t'
    asked :
        (h : List Moment) (s : Session) (t : Users) (r : Request)
        → Run h s t
        → Run
            (record { session = s; table = t; request = r } ∷ h)
            ((answer record { session = s; table = t; request = r }).0)
            ((answer record { session = s; table = t; request = r }).1)

  abbrev pub Happened : (Moment → Type 0) → List Moment → Type 0
  Happened P [] = ⊥
  Happened P (m ∷ h) = P m ⊎ Happened P h

  -- The request is a sign-in with the password of the account of the id, by its address: the account
  -- is enabled and not locked, and its stored hash verifies the password. The Boolean says that a
  -- second factor is wanted: one is offered, and the account has it on.
  pub record PasswordShown (id : ℕ) (mfa : Bool) (m : Moment) : Type 0 where
    pub now : ℕ
    pub next : Text
    pub email : Text
    pub password : Text
    pub after : Users
    pub account : User
    pub user : User
    pub is_login : m.request ≡ login now next email password
    pub known : Known tools.crypto cfg now email password m.table account
    pub of_id : account.id ≡ id
    pub taken :
        attempt_local_login tools.crypto cfg now email password m.table ≡ (after, accepted user mfa)
    pub same_id : user.id ≡ id
    pub wants : mfa ≡ (cfg.mfa_available && user.mfa_enabled)

  -- The request gives a second factor of the account of the id, which is enabled and not locked: a
  -- one-time code of its secret, or a backup code whose digest it has.
  pub record FactorShown (id : ℕ) (m : Moment) : Type 0 where
    pub now : ℕ
    pub next : Text
    pub code : Text
    pub user : User
    pub is_verify : m.request ≡ verify now next code
    pub found : get_user id m.table ≡ some user
    pub enabled : user.enabled ≡ true
    pub unlocked : is_locked now user ≡ false
    pub factor :
        (verify_totp tools.hmac now (secret_of user) (strip code) ≡ true)
        ⊎ (contains (tools.digest (clean_code (strip code))) user.mfa_backup_codes ≡ true)

  -- A second factor, given after a sign-in that wanted one.
  abbrev pub FactorAfter : ℕ → List Moment → Type 0
  FactorAfter id [] = ⊥
  FactorAfter id (m ∷ h) =
      (FactorShown id m × Happened (PasswordShown id true) h) ⊎ FactorAfter id h

  abbrev pub IsShown : List Moment → ℕ → Type 0
  IsShown h id = Happened (PasswordShown id false) h ⊎ FactorAfter id h

  -- What a session may hold, after what happened.
  record Holds (h : List Moment) (s : Session) : Type 0 where
    signed : (u : Signed) → s.user ≡ some u → (id : ℕ) × (u.id ≡ number id) × IsShown h id
    pending : (id : ℕ) → s.mfa_pending ≡ some id → Happened (PasswordShown id true) h

  Holds-later : (m : Moment) (h : List Moment) (s : Session) → Holds h s → Holds (m ∷ h) s
  Holds-later m h s inv = record {
    signed = λ u e.
        let was = inv.signed u e in
        (was.0, was.1, elim (was.2) [ inl p ↦ inl (inr p) | inr f ↦ inr (inr f) ]);
    pending = λ id e. inr (inv.pending id e);
  }

  Holds-cleared : (h : List Moment) → Holds h cleared
  Holds-cleared h = record { signed = λ u e. cc; pending = λ id e. cc }

  -- The session of an account that is signed in with what it showed.
  Holds-session_of :
      (h : List Moment) (now : ℕ) (u : User) → IsShown h u.id → Holds h (session_of now u)
  unfolding session_of
  Holds-session_of h now u shown = record {
    signed = λ v e. (u.id, cc, shown);
    pending = λ id e. cc;
  }

  accepted-PasswordShown :
      (s : Session) (t t' : Users) (now : ℕ) (next email password : Text) (u : User) (mfa : Bool)
      → attempt_local_login tools.crypto cfg now email password t ≡ (t', accepted u mfa)
      → PasswordShown u.id mfa
          (record { session = s; table = t; request = login now next email password })
  accepted-PasswordShown s t t' now next email password u mfa e =
      let (account, known, fresh, wants) =
        attempt_local_login-Known tools.crypto cfg now email password t t' u mfa e in
      let same : u.id ≡ account.id =
        ap (λ v. v.id) fresh
        ∙ reread-id (get_user account.id t') account (get_user-id account.id t') in
      record {
        now = now;
        next = next;
        email = email;
        password = password;
        after = t';
        account = account;
        user = u;
        is_login = refl;
        known = known;
        of_id = sym same;
        taken = e;
        same_id = refl;
        wants = wants;
      }

  factor-accepted :
      (now : ℕ) (u : User) (code : Text) (t t' : Users)
      → second_factor tools now u code t ≡ (t', true)
      → (verify_totp tools.hmac now (secret_of u) code ≡ true)
        ⊎ (contains (tools.digest (clean_code code)) u.mfa_backup_codes ≡ true)
  unfolding second_factor
  factor-accepted now u code t t' e =
      elim (Bool-cases (verify_totp tools.hmac now (secret_of u) code)) [
        | inl right ↦ inl right
        | inr wrong ↦
            let used : consume_backup_code tools.digest now u code t ≡ (t', true) =
              ground (arith, e, wrong) in
            inr ((consumed tools.digest now u code t t' used).0)
      ]

  Holds-login :
      (h : List Moment) (s : Session) (t : Users) (now : ℕ) (next email password : Text)
      (a : Users × Attempt)
      → attempt_local_login tools.crypto cfg now email password t ≡ a
      → Holds h s
      → Holds
          (record { session = s; table = t; request = login now next email password } ∷ h)
          ((after_attempt cfg now next (begin s) a).web.session)
  unfolding login_local_user_record
  Holds-login h s t now next email password (t', rejected why) e inv = Holds-later _ h s inv
  Holds-login h s t now next email password (t', accepted u true) e inv = record {
    signed = λ v e. cc;
    pending = λ id e'.
        let same : u.id ≡ id = cc in
        inl (
          subst
            (λ i.
              PasswordShown i true
                (record { session = s; table = t; request = login now next email password }))
            same (accepted-PasswordShown s t t' now next email password u true e));
  }
  Holds-login h s t now next email password (t', accepted u false) e inv =
      Holds-session_of _ now u
        (inl (inl (accepted-PasswordShown s t t' now next email password u false e)))

  Holds-failure :
      (m : Moment) (h : List Moment) (s : Session) (next : Text) (r : Users × Bool)
      → Holds h s
      → Holds (m ∷ h) ((after_failure next (begin s) r).web.session)
  Holds-failure m h s next (t, true) inv = Holds-cleared (m ∷ h)
  Holds-failure m h s next (t, false) inv = Holds-later m h s inv

  -- What `verify_as` leaves the session as, by the outcome of the second factor.
  Holds-factor :
      (h : List Moment) (s : Session) (t : Users) (now id : ℕ) (next code : Text) (u : User)
      (f : Users × Bool)
      → get_user id t ≡ some u
      → u.id ≡ id
      → u.enabled ≡ true
      → is_locked now u ≡ false
      → second_factor tools now u (strip code) t ≡ f
      → Happened (PasswordShown id true) h
      → Holds h s
      → Holds
          (record { session = s; table = t; request = verify now next code } ∷ h)
          ((after_factor cfg now next u (begin s) f).web.session)
  unfolding login_local_user_record
  Holds-factor h s t now id next code u (t', true) found same on free e shown inv =
      Holds-session_of _ now u (
        subst
          (λ i. IsShown (record { session = s; table = t; request = verify now next code } ∷ h) i)
          (sym same)
          (inr (
            inl (
              record {
                now = now;
                next = next;
                code = code;
                user = u;
                is_verify = refl;
                found = found;
                enabled = on;
                unlocked = free;
                factor = factor-accepted now u (strip code) t t' e;
              },
              shown,
            ))))
  Holds-factor h s t now id next code u (t', false) found same on free e shown inv =
      Holds-failure _ h s next (register_mfa_failure cfg now u t') inv

  Holds-as :
      (h : List Moment) (s : Session) (t : Users) (now id : ℕ) (next code : Text)
      (found : Option User)
      → get_user id t ≡ found
      → Happened (PasswordShown id true) h
      → Holds h s
      → Holds
          (record { session = s; table = t; request = verify now next code } ∷ h)
          ((verify_as tools cfg now next (strip code) (begin s) t found).web.session)
  Holds-as h s t now id next code none e shown inv = Holds-cleared _
  Holds-as h s t now id next code (some u) e shown inv = elim (Bool-cases u.enabled) [
    | inl on ↦ elim (Bool-cases (is_locked now u)) [
      | inl held ↦ simp (on, held) (Holds-cleared _)
      | inr free ↦
          simp (on, free)
            (Holds-factor h s t now id next code u (second_factor tools now u (strip code) t) e
              (get_user-id id t u e) on free refl shown inv)
    ]
    | inr off ↦ simp off (Holds-cleared _)
  ]

  Holds-verify :
      (h : List Moment) (s : Session) (t : Users) (now : ℕ) (next code : Text)
      → Holds h s
      → Holds
          (record { session = s; table = t; request = verify now next code } ∷ h)
          ((auth_mfa_verify tools cfg now next code (begin s) t).web.session)
  unfolding auth_mfa_verify
  Holds-verify h s t now next code inv = elim (Option-cases s.mfa_pending) [
    | inl off ↦ simp off (Holds-later _ h s inv)
    | inr (zero, on) ↦ simp on (Holds-later _ h s inv)
    | inr (suc n, on) ↦ simp on (
        Holds-as h s t now (suc n) next code (get_user (suc n) t) refl (inv.pending (suc n) on) inv)
  ]

  Holds-run : (h : List Moment) (s : Session) (t : Users) → Run h s t → Holds h s
  unfolding answer auth_local_login
  Holds-run h s t (start t') = Holds-cleared []
  Holds-run h' s' t' (elsewhere h s t t'' r) = Holds-run h s t r
  Holds-run h' s' t' (asked h s t (login now next email password) r) =
      Holds-login h s t now next email password
        (attempt_local_login tools.crypto cfg now email password t) refl (Holds-run h s t r)
  Holds-run h' s' t' (asked h s t (verify now next code) r) =
      Holds-verify h s t now next code (Holds-run h s t r)
  Holds-run h' s' t' (asked h s t logout r) = Holds-cleared _

  -- Whatever a browser that comes without a session asks for, signing in and out, and however the
  -- accounts change meanwhile: when its session has a user, then it has given the password of that
  -- account in a sign-in when no second factor was wanted, or it has given the password when one was
  -- wanted and after that a one-time code or a backup code of the account. At each of these steps the
  -- account was enabled and not locked.
  pub signed_in-IsShown :
      (h : List Moment) (s : Session) (t : Users) (u : Signed)
      → Run h s t
      → s.user ≡ some u
      → (id : ℕ) × (u.id ≡ number id) × IsShown h id
  signed_in-IsShown h s t u r e = (Holds-run h s t r).signed u e
