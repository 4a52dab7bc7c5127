-- ===== src/Login/Lockout.antt =====
-- The lockout of local accounts in auth.py: who is let in, and when an account is locked.
use domain_lens.Prelude.{
  ℕ, ◌+◌, ◌*◌, ◌<◌, ◌≡◌, refl, ◌∙◌, inl, inr, Bool, true, false, ◌&&◌, Option, none, some, List, [],
  ◌∷◌, arith, ◌==◌, length, keep, Text, Option-cases, All,
}
use domain_lens.Users.{
  User, Users, set_failed_logins, set_locked_until, clean, has_email, get_user, get_user_by_email,
  changed_at, assign_all, or_empty,
}
use domain_lens.Login.{
  Crypto, Config, accepted, rejected, invalid, locked, verify_password, is_locked, minute,
  failure_changes, save, clear_login_failures, reread, attempt_as, attempt_local_login, is_empty,
}
use domain_lens.Login.Saved.{find_by-save}

-- What an accepted attempt says of the account.
pub record Known (crypto : Crypto) (cfg : Config) (now : ℕ) (email password : Text) (t : Users)
    (user : User) : Type 0 where
  pub found : get_user_by_email (clean email) t ≡ some user
  pub enabled : user.enabled ≡ true
  pub unlocked : is_locked now user ≡ false
  pub verified : verify_password crypto password (or_empty user.password_hash) ≡ true
  pub asked : cfg.enabled ≡ true

attempt_as-accepted :
    (crypto : Crypto) (cfg : Config) (now : ℕ) (password : Text) (user fresh : User) (mfa : Bool)
    (t t' : Users)
    → attempt_as crypto cfg now password user t ≡ (t', accepted fresh mfa)
    → (is_locked now user ≡ false)
      × (verify_password crypto password (or_empty user.password_hash) ≡ true)
      × (t' ≡ clear_login_failures now user.id t)
      × (fresh ≡ reread (get_user user.id t') user)
      × (mfa ≡ (cfg.mfa_available && fresh.mfa_enabled))
unfolding attempt_as
attempt_as-accepted crypto cfg now password user fresh mfa t t' h = ground arith

-- Who is let in by password: the account of the address, which is enabled and not locked, with a
-- password that its stored hash verifies, while local sign-in is on. A second factor is wanted if the
-- settings offer one and the account, as it then is, has it on.
pub attempt_local_login-Known :
    (crypto : Crypto) (cfg : Config) (now : ℕ) (email password : Text) (t t' : Users) (fresh : User)
    (mfa : Bool)
    → attempt_local_login crypto cfg now email password t ≡ (t', accepted fresh mfa)
    → (user : User) × Known crypto cfg now email password t user
      × (fresh ≡ reread (get_user user.id t') user)
      × (mfa ≡ (cfg.mfa_available && fresh.mfa_enabled))
unfolding attempt_local_login
attempt_local_login-Known crypto cfg now email password t t' fresh mfa h =
    elim (Option-cases (get_user_by_email (clean email) t)) [
      | inl none_found ↦ absurd (ground (arith, h, none_found))
      | inr (user, found) ↦
          let on : cfg.enabled ≡ true = ground (arith, h, found) in
          let able : user.enabled ≡ true = ground (arith, h, found) in
          let inner : attempt_as crypto cfg now password user t ≡ (t', accepted fresh mfa) =
            ground (arith, h, found) in
          let said = attempt_as-accepted crypto cfg now password user fresh mfa t t' inner in
          (
            user,
            record {
              found = found;
              enabled = able;
              unlocked = said.0;
              verified = said.1;
              asked = on;
            },
            said.3,
            said.4,
          )
    ]

-- The account of an address, which is also the one of its id.
pub record Here (email : Text) (t : Users) (user : User) : Type 0 where
  pub by_email : get_user_by_email (clean email) t ≡ some user
  pub by_id : get_user user.id t ≡ some user

abbrev pub failed_once : ℕ → ℕ → User → User
failed_once now n user = changed_at now (set_failed_logins n ∷ []) user

abbrev pub locked_now : ℕ → Option ℕ → User → User
locked_now now until user = changed_at now (set_failed_logins 0 ∷ set_locked_until until ∷ []) user

pub Here-counted :
    (email : Text) (t : Users) (user : User) (now n : ℕ)
    → Here email t user
    → Here email (save now user.id (set_failed_logins n ∷ []) t) (failed_once now n user)
unfolding get_user_by_email get_user assign_all
Here-counted email t user now n h = record {
  by_email =
      find_by-save (has_email (clean (clean email))) now user (set_failed_logins n) [] t
        (unfold keep in refl) refl (λ u. refl) h.by_email;
  by_id =
      find_by-save (λ u. u.id == user.id) now user (set_failed_logins n) [] t (unfold keep in refl)
        refl (λ u. refl) h.by_id;
}

pub Here-locked :
    (email : Text) (t : Users) (user : User) (now : ℕ) (until : Option ℕ)
    → Here email t user
    → Here email
        (save now user.id (set_failed_logins 0 ∷ set_locked_until until ∷ []) t)
        (locked_now now until user)
unfolding get_user_by_email get_user assign_all
Here-locked email t user now until h = record {
  by_email =
      find_by-save (has_email (clean (clean email))) now user (set_failed_logins 0)
        (set_locked_until until ∷ []) t (unfold keep in refl) refl (λ u. refl) h.by_email;
  by_id =
      find_by-save (λ u. u.id == user.id) now user (set_failed_logins 0)
        (set_locked_until until ∷ []) t (unfold keep in refl) refl (λ u. refl) h.by_id;
}

-- An account that can try: it is enabled, has a password and was not locked.
pub record Open (user : User) : Type 0 where
  pub enabled : user.enabled ≡ true
  pub has_hash : is_empty (or_empty user.password_hash) ≡ false
  pub unlocked : user.locked_until ≡ none

pub attempt-found :
    (crypto : Crypto) (cfg : Config) (now : ℕ) (email password : Text) (t : Users) (user : User)
    → cfg.enabled ≡ true
    → is_empty (clean email) ≡ false
    → is_empty password ≡ false
    → user.enabled ≡ true
    → get_user_by_email (clean email) t ≡ some user
    → attempt_local_login crypto cfg now email password t
      ≡ attempt_as crypto cfg now password user t
unfolding attempt_local_login
attempt-found crypto cfg now email password t user on named given able found =
    simp (on, named, given, found, able) refl

-- A wrong password for a stored hash: not empty, and not verified.
pub record Wrong (crypto : Crypto) (hash password : Text) : Type 0 where
  pub given : is_empty password ≡ false
  pub differs : verify_password crypto password hash ≡ false

attempt-Wrong :
    (crypto : Crypto) (cfg : Config) (now : ℕ) (email password : Text) (t : Users) (user : User)
    → cfg.enabled ≡ true
    → is_empty (clean email) ≡ false
    → Here email t user
    → Open user
    → Wrong crypto (or_empty user.password_hash) password
    → attempt_local_login crypto cfg now email password t
      ≡ (save now user.id (failure_changes cfg now user) t, rejected invalid)
unfolding attempt_as
attempt-Wrong crypto cfg now email password t user on named here able wrong =
    let free : is_locked now user ≡ false = rw able.unlocked refl in
    attempt-found crypto cfg now email password t user on named wrong.given able.enabled
      here.by_email
    ∙ simp (free, able.has_hash, wrong.differs) refl

-- The table after wrong passwords, each with its time, one after the other.
abbrev pub tried : Crypto → Config → Text → List (ℕ × Text) → Users → Users
tried crypto cfg email [] t = t
tried crypto cfg email ((now, password) ∷ rest) t =
    tried crypto cfg email rest ((attempt_local_login crypto cfg now email password t).0)

pub failure-counts :
    (cfg : Config) (now : ℕ) (user : User)
    → user.failed_logins + 1 < cfg.max_failed_attempts
    → failure_changes cfg now user ≡ set_failed_logins (user.failed_logins + 1) ∷ []
failure-counts cfg now user h = ground arith

failure-locks :
    (cfg : Config) (now : ℕ) (user : User)
    → user.failed_logins + 1 ≡ cfg.max_failed_attempts
    → failure_changes cfg now user
      ≡ set_failed_logins 0 ∷ set_locked_until (some (now + cfg.lockout_minutes * minute)) ∷ []
failure-locks cfg now user h = ground arith

-- The last of the failures that are allowed locks the account.
locked_out :
    (crypto : Crypto) (cfg : Config) (now later : ℕ) (email password other : Text) (t : Users)
    (user : User)
    → cfg.enabled ≡ true
    → is_empty (clean email) ≡ false
    → Here email t user
    → Open user
    → user.failed_logins + 1 ≡ cfg.max_failed_attempts
    → Wrong crypto (or_empty user.password_hash) password
    → is_empty other ≡ false
    → later < now + cfg.lockout_minutes * minute
    → attempt_local_login crypto cfg later email other
        ((attempt_local_login crypto cfg now email password t).0)
      ≡ ((attempt_local_login crypto cfg now email password t).0, rejected locked)
unfolding attempt_as assign_all
locked_out crypto cfg now later email password other t user on named here able count wrong given
      soon =
    let until = some (now + cfg.lockout_minutes * minute) in
    let after = attempt-Wrong crypto cfg now email password t user on named here able wrong in
    let here' = Here-locked email t user now until here in
    let held : is_locked later (locked_now now until user) ≡ true = ground arith in
    rw (after, failure-locks cfg now user count)
      (attempt-found crypto cfg later email other
          (save now user.id (set_failed_logins 0 ∷ set_locked_until until ∷ []) t)
          (locked_now now until user) on named given able.enabled here'.by_email
        ∙ rw held refl)

-- With local sign-in on, for an account that is enabled, has a password and was not locked: wrong
-- passwords that bring its failures to the number that is allowed lock it. From then until the
-- lockout is over, each attempt at it with a password that is not empty is refused as locked, the
-- right password too, and changes nothing.
pub lockout :
    (crypto : Crypto) (cfg : Config) (now later : ℕ) (email password other : Text)
    (tries : List (ℕ × Text)) (t : Users) (user : User)
    → cfg.enabled ≡ true
    → is_empty (clean email) ≡ false
    → Here email t user
    → Open user
    → user.failed_logins + length tries + 1 ≡ cfg.max_failed_attempts
    → All (λ try. Wrong crypto (or_empty user.password_hash) (try.1)) tries
    → Wrong crypto (or_empty user.password_hash) password
    → is_empty other ≡ false
    → later < now + cfg.lockout_minutes * minute
    → attempt_local_login crypto cfg later email other
        ((attempt_local_login crypto cfg now email password (tried crypto cfg email tries t)).0)
      ≡ (
        (attempt_local_login crypto cfg now email password (tried crypto cfg email tries t)).0,
        rejected locked,
      )
unfolding assign_all
lockout crypto cfg now later email password other [] t user on named here able count wrongs wrong
      given soon =
    locked_out crypto cfg now later email password other t user on named here able
      (omega (arith, count)) wrong given soon
lockout crypto cfg now later email password other ((at, try) ∷ rest) t user on named here able count
      wrongs wrong given soon =
    let n = user.failed_logins + 1 in
    let after = attempt-Wrong crypto cfg at email try t user on named here able (wrongs.0) in
    let few : failure_changes cfg at user ≡ set_failed_logins n ∷ [] =
      failure-counts cfg at user (omega (arith, count)) in
    rw (after, few)
      (lockout crypto cfg now later email password other rest
        (save at user.id (set_failed_logins n ∷ []) t) (failed_once at n user) on named
        (Here-counted email t user at n here)
        record { enabled = able.enabled; has_hash = able.has_hash; unlocked = able.unlocked }
        (omega (arith, count)) (wrongs.1) wrong given soon)
