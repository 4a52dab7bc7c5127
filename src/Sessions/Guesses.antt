-- ===== src/Sessions/Guesses.antt =====
-- The second factor of app.py and auth.py, guessed by one who has the password.
use domain_lens.Prelude.{
  ℕ, suc, ◌+◌, ◌<◌, ◌≡◌, refl, sym, ◌∙◌, ap, true, false, none, some, List, [], ◌∷◌, arith, length,
  leb, Text, strip, All, subst,
}
use domain_lens.Users.{User, Users, get_user, clean, or_empty, assign_all, set_failed_logins}
use domain_lens.Login.{
  Config, accepted, attempt_local_login, attempt_as, is_locked, is_empty, verify_password,
  verify_totp, contains, clean_code, register_mfa_failure, clear_login_failures, save,
}
use domain_lens.Login.Lockout.{
  Here, Here-counted, Here-locked, Open, attempt-found, failed_once, locked_now,
}
use domain_lens.Login.Codes.{unconsumed}
use domain_lens.Sessions.{
  Session, cleared, begin, Tools, mfa_page, auth_local_login, auth_mfa_verify, second_factor,
  after_attempt, after_failure, secret_of,
}

-- Codes, each with its time, one after the other.
abbrev pub posted : Tools → Config → Text → List (ℕ × Text) → Session → Users → Session × Users
posted tools cfg next [] s t = (s, t)
posted tools cfg next ((now, code) ∷ rest) s t =
    let reply = auth_mfa_verify tools cfg now next code (begin s) t in
    posted tools cfg next rest reply.web.session reply.table

-- Rounds of a sign-in and codes, each sign-in with its time.
abbrev pub guessed :
    Tools
    → Config
    → Text
    → Text
    → Text
    → List (ℕ × List (ℕ × Text))
    → Session
    → Users
    → Session × Users
guessed tools cfg next email password [] s t = (s, t)
guessed tools cfg next email password ((now, codes) ∷ rest) s t =
    let reply = auth_local_login tools cfg now next email password (begin s) t in
    let after = posted tools cfg next codes reply.web.session reply.table in
    guessed tools cfg next email password rest (after.0) (after.1)

-- A code that is neither the one-time code of its moment nor a backup code.
pub record Missed (tools : Tools) (secret : Text) (stored : List Text) (now : ℕ) (code : Text)
    : Type 0 where
  pub totp : verify_totp tools.hmac now secret (strip code) ≡ false
  pub backup : contains (tools.digest (clean_code (strip code))) stored ≡ false

-- The account as the guesses leave it: open, with its password and a second factor.
pub record Guarded (tools : Tools) (email password : Text) (k : ℕ) (secret : Text)
    (stored : List Text) (t : Users) (user : User) : Type 0 where
  pub here : Here email t user
  pub able : Open user
  pub mfa : user.mfa_enabled ≡ true
  pub knows : verify_password tools.crypto password (or_empty user.password_hash) ≡ true
  pub id : user.id ≡ suc k
  pub with_secret : secret_of user ≡ secret
  pub with_codes : user.mfa_backup_codes ≡ stored

-- The codes of a list miss the second factor.
abbrev pub AllMissed : Tools → Text → List Text → List (ℕ × Text) → Type 0
AllMissed tools secret stored codes =
    All (λ guess. Missed tools secret stored (guess.0) (guess.1)) codes

-- A sign-in and the codes after it, fewer than lock an account.
abbrev pub IsRound : Tools → Config → Text → List Text → ℕ × List (ℕ × Text) → Type 0
IsRound tools cfg secret stored round =
    (length (round.1) < cfg.max_failed_attempts) × AllMissed tools secret stored (round.1)

module _ (tools : Tools) (cfg : Config) (next email password : Text) (k : ℕ) (secret : Text)
    (stored : List Text) where
  Guarded-counted :
      (t : Users) (user : User) (now n : ℕ)
      → Guarded tools email password k secret stored t user
      → Guarded tools email password k secret stored
          (save now user.id (set_failed_logins n ∷ []) t)
          (failed_once now n user)
  unfolding assign_all
  Guarded-counted t user now n g = record {
    here = Here-counted email t user now n g.here;
    able = record {
      enabled = g.able.enabled;
      has_hash = g.able.has_hash;
      unlocked = g.able.unlocked;
    };
    mfa = g.mfa;
    knows = g.knows;
    id = g.id;
    with_secret = g.with_secret;
    with_codes = g.with_codes;
  }

  Guarded-cleared :
      (t : Users) (user : User) (now : ℕ)
      → Guarded tools email password k secret stored t user
      → Guarded tools email password k secret stored
          (clear_login_failures now user.id t)
          (locked_now now none user)
  unfolding assign_all clear_login_failures
  Guarded-cleared t user now g = record {
    here = Here-locked email t user now none g.here;
    able = record { enabled = g.able.enabled; has_hash = g.able.has_hash; unlocked = refl };
    mfa = g.mfa;
    knows = g.knows;
    id = g.id;
    with_secret = g.with_secret;
    with_codes = g.with_codes;
  }

  attempt-right :
      (now : ℕ) (t : Users) (user : User)
      → cfg.enabled ≡ true
      → cfg.mfa_available ≡ true
      → is_empty (clean email) ≡ false
      → is_empty password ≡ false
      → Guarded tools email password k secret stored t user
      → attempt_local_login tools.crypto cfg now email password t
        ≡ (clear_login_failures now user.id t, accepted (locked_now now none user) true)
  unfolding attempt_as assign_all
  attempt-right now t user on mfa named given g =
      let free : is_locked now user ≡ false = rw (g.able.unlocked) refl in
      let back : get_user user.id (clear_login_failures now user.id t)
          ≡ some (locked_now now none user) =
        (Guarded-cleared t user now g).here.by_id in
      attempt-found tools.crypto cfg now email password t user on named given g.able.enabled
        g.here.by_email
      ∙ simp (free, g.able.has_hash, g.knows, mfa, back, g.mfa) refl

  login-Guarded :
      (now : ℕ) (s : Session) (t : Users) (user : User)
      → cfg.enabled ≡ true
      → cfg.mfa_available ≡ true
      → is_empty (clean email) ≡ false
      → is_empty password ≡ false
      → Guarded tools email password k secret stored t user
      → auth_local_login tools cfg now next email password (begin s) t
        ≡ after_attempt cfg now next
            (begin s)
            (clear_login_failures now user.id t, accepted (locked_now now none user) true)
  unfolding auth_local_login
  login-Guarded now s t user on mfa named given g =
      rw (attempt-right now t user on mfa named given g) refl

  verify-Missed :
      (now : ℕ) (code : Text) (s : Session) (t : Users) (user : User)
      → s.mfa_pending ≡ some (suc k)
      → Guarded tools email password k secret stored t user
      → Missed tools secret stored now code
      → user.failed_logins + 1 < cfg.max_failed_attempts
      → auth_mfa_verify tools cfg now next code (begin s) t
        ≡ after_failure next
            (begin s)
            (save now user.id (set_failed_logins (user.failed_logins + 1) ∷ []) t, false)
  unfolding auth_mfa_verify second_factor register_mfa_failure
  verify-Missed now code s t user pending g missed few =
      let free : is_locked now user ≡ false = rw (g.able.unlocked) refl in
      let found : get_user (suc k) t ≡ some user =
        subst (λ i. get_user i t ≡ some user) g.id g.here.by_id in
      let totp : verify_totp tools.hmac now (secret_of user) (strip code) ≡ false =
        subst (λ x. verify_totp tools.hmac now x (strip code) ≡ false) (sym g.with_secret)
          missed.totp in
      let unused = unconsumed tools.digest now user (strip code) t (
        subst (λ x. contains (tools.digest (clean_code (strip code))) x ≡ false) (sym g.with_codes)
          missed.backup) in
      let more : leb cfg.max_failed_attempts (user.failed_logins + 1) ≡ false =
        ground (arith, few) in
      simp (pending, found, g.able.enabled, free, totp, unused, more) refl

  Guarded-posted :
      (codes : List (ℕ × Text)) (s : Session) (t : Users) (user : User)
      → s.mfa_pending ≡ some (suc k)
      → user.failed_logins + length codes < cfg.max_failed_attempts
      → AllMissed tools secret stored codes
      → Guarded tools email password k secret stored t user
      → (left : User) × Guarded tools email password k secret stored
          ((posted tools cfg next codes s t).1)
          left
  unfolding assign_all
  Guarded-posted [] s t user pending few missed g = (user, g)
  Guarded-posted ((now, code) ∷ rest) s t user pending few missed g =
      let n = user.failed_logins + 1 in
      let reply = verify-Missed now code s t user pending g (missed.0) (omega (arith, few)) in
      rw (posted, reply)
        (Guarded-posted rest s (save now user.id (set_failed_logins n ∷ []) t)
          (failed_once now n user) pending (omega (arith, few)) (missed.1)
          (Guarded-counted t user now n g))

  Guarded-guessed :
      (rounds : List (ℕ × List (ℕ × Text))) (s : Session) (t : Users) (user : User)
      → cfg.enabled ≡ true
      → cfg.mfa_available ≡ true
      → is_empty (clean email) ≡ false
      → is_empty password ≡ false
      → All (IsRound tools cfg secret stored) rounds
      → Guarded tools email password k secret stored t user
      → (left : User) × Guarded tools email password k secret stored
          ((guessed tools cfg next email password rounds s t).1)
          left
  unfolding assign_all
  Guarded-guessed [] s t user on mfa named given all g = (user, g)
  Guarded-guessed ((now, codes) ∷ rest) s t user on mfa named given all g =
      let t1 = clear_login_failures now user.id t in
      let s1 : Session = record cleared { mfa_pending = some user.id; oauth_next = some next } in
      let reply = login-Guarded now s t user on mfa named given g in
      let round =
        Guarded-posted codes s1 t1 (locked_now now none user) (ap some g.id)
          (omega (arith, all.0.0)) (all.0.1) (Guarded-cleared t user now g) in
      let after = posted tools cfg next codes s1 t1 in
      rw (guessed, reply)
        (Guarded-guessed rest (after.0) (after.1) (round.0) on mfa named given (all.1) (round.1))

  -- With local sign-in and second factors on, for an account that is enabled, not locked and has a
  -- second factor: who has the password may guess at the second factor as often as it likes. In
  -- rounds of a sign-in and wrong codes, fewer each time than lock an account, the account is not
  -- locked at the end, however many the rounds, and the next sign-in with the password is answered
  -- with the page that asks for a code.
  pub guessed-unlocked :
      (rounds : List (ℕ × List (ℕ × Text))) (now : ℕ) (s : Session) (t : Users) (user : User)
      → cfg.enabled ≡ true
      → cfg.mfa_available ≡ true
      → is_empty (clean email) ≡ false
      → is_empty password ≡ false
      → All (IsRound tools cfg secret stored) rounds
      → Guarded tools email password k secret stored t user
      → ((left : User) × (get_user (suc k) ((guessed tools cfg next email password rounds s t).1)
            ≡ some left)
          × (left.locked_until ≡ none))
        × ((auth_local_login tools cfg now next email password
              (begin ((guessed tools cfg next email password rounds s t).0))
              ((guessed tools cfg next email password rounds s t).1)).page
            ≡ mfa_page false next)
  guessed-unlocked rounds now s t user on mfa named given all g =
      let after = guessed tools cfg next email password rounds s t in
      let (left, kept) = Guarded-guessed rounds s t user on mfa named given all g in
      (
        (
          left,
          subst (λ i. get_user i (after.1) ≡ some left) kept.id kept.here.by_id,
          kept.able.unlocked,
        ),
        rw (login-Guarded now (after.0) (after.1) left on mfa named given kept) refl,
      )
