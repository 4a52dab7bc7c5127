-- ===== src/Login/Codes.antt =====
-- The second factor of auth.py: one-time codes and backup codes.
use domain_lens.Prelude.{
  ℕ, suc, ◌+◌, ◌-◌, ◌/◌, ◌%◌, ◌≤◌, ◌≡◌, refl, inl, inr, ◌⊎◌, true, false, some, List, [], ◌∷◌,
  arith, length, keep, Text, text_eq, text_eq_self, text_eq_iff, if◌then◌else◌,
}
use domain_lens.Users.{User, Users, get_user, set_backup_codes, changed_at, assign_all}
use domain_lens.Login.{
  in_window, is_digit, is_empty, six_digits, truncate, totp_at, counter_of, last_six, verify_totp,
  save, contains, remove, clean_code, consume_backup_code,
}
use domain_lens.Login.Saved.{get-save_own}

digit-is_digit : (d : ℕ) → is_digit (d % 10 + b'0') ≡ true
digit-is_digit d = ground arith

keep-six_digits : (n : ℕ) → keep is_digit (six_digits n) ≡ six_digits n
unfolding six_digits keep
keep-six_digits n =
    rw
      (
        digit-is_digit (n / 100000),
        digit-is_digit (n / 10000),
        digit-is_digit (n / 1000),
        digit-is_digit (n / 100),
        digit-is_digit (n / 10),
        digit-is_digit n,
      )
      refl

last_six-six_digits : (n : ℕ) → last_six (six_digits n) ≡ six_digits n
unfolding six_digits last_six
last_six-six_digits n = refl

keep-totp_at :
    (hmac : Text → ℕ → List ℕ) (secret : Text) (n : ℕ)
    → keep is_digit (totp_at hmac secret n) ≡ totp_at hmac secret n
unfolding totp_at
keep-totp_at hmac secret n = keep-six_digits (truncate (hmac secret n) % 1000000)

last_six-totp_at :
    (hmac : Text → ℕ → List ℕ) (secret : Text) (n : ℕ)
    → last_six (totp_at hmac secret n) ≡ totp_at hmac secret n
unfolding totp_at
last_six-totp_at hmac secret n = last_six-six_digits (truncate (hmac secret n) % 1000000)

length-totp_at :
    (hmac : Text → ℕ → List ℕ) (secret : Text) (n : ℕ)
    → (length (totp_at hmac secret n) ≡ 6) × (is_empty (totp_at hmac secret n) ≡ false)
unfolding totp_at six_digits
length-totp_at hmac secret n = (refl, refl)

in_window-near :
    (hmac : Text → ℕ → List ℕ) (secret : Text) (made step : ℕ)
    → made ≤ step + 1
    → step ≤ made + 1
    → in_window hmac secret step (totp_at hmac secret made) ≡ true
in_window-near hmac secret made step h k = elim (near made step h k) [
  | inl e ↦ rw (e, text_eq_self (totp_at hmac secret (step - 1))) refl
  | inr (inl e) ↦ rw (e, text_eq_self (totp_at hmac secret step)) (ground arith)
  | inr (inr e) ↦ rw (e, text_eq_self (totp_at hmac secret (step + 1))) (ground arith)
]
  where
    near : (m s : ℕ) → m ≤ s + 1 → s ≤ m + 1 → (m ≡ s - 1) ⊎ (m ≡ s) ⊎ (m ≡ s + 1)
    near m s h k = omega arith

-- A one-time code is accepted in the half minute that it is made for, in the one before and in the
-- one after, whatever the secret, if there is one.
pub verify_totp-window :
    (hmac : Text → ℕ → List ℕ) (secret : Text) (made now : ℕ)
    → is_empty secret ≡ false
    → counter_of made ≤ counter_of now + 1
    → counter_of now ≤ counter_of made + 1
    → verify_totp hmac now secret (totp_at hmac secret (counter_of made)) ≡ true
unfolding verify_totp
verify_totp-window hmac secret made now there h k =
    let code = totp_at hmac secret (counter_of made) in
    let size = length-totp_at hmac secret (counter_of made) in
    rw
      (
        there,
        size.1,
        keep-totp_at hmac secret (counter_of made),
        size.0,
        last_six-totp_at hmac secret (counter_of made),
      )
      (in_window-near hmac secret (counter_of made) (counter_of now) h k)

-- What is accepted as a one-time code ends in the code of the present half minute or of one beside it.
pub verify_totp-made :
    (hmac : Text → ℕ → List ℕ) (now : ℕ) (secret code : Text)
    → verify_totp hmac now secret code ≡ true
    → (totp_at hmac secret (counter_of now - 1) ≡ last_six (keep is_digit code))
      ⊎ (totp_at hmac secret (counter_of now) ≡ last_six (keep is_digit code))
      ⊎ (totp_at hmac secret (counter_of now + 1) ≡ last_six (keep is_digit code))
unfolding verify_totp
verify_totp-made hmac now secret code h =
    let target = last_six (keep is_digit code) in
    ground (
      arith,
      text_eq_iff (totp_at hmac secret (counter_of now - 1)) target,
      text_eq_iff (totp_at hmac secret (counter_of now)) target,
      text_eq_iff (totp_at hmac secret (counter_of now + 1)) target,
    )

-- How often a digest is stored.
abbrev pub uses : Text → List Text → ℕ
uses d [] = 0
uses d (s ∷ rest) = let more = uses d rest in if text_eq s d then suc more else more

uses-remove :
    (d : Text) (stored : List Text)
    → contains d stored ≡ true
    → uses d (remove d stored) + 1 ≡ uses d stored
unfolding contains remove
uses-remove d [] h = cc
uses-remove d (s ∷ rest) h = ground (arith, uses-remove d rest)

contains-uses : (d : Text) (stored : List Text) → uses d stored ≡ 0 → contains d stored ≡ false
unfolding contains
contains-uses d [] h = refl
contains-uses d (s ∷ rest) h = ground (arith, contains-uses d rest)

pub consumed :
    (digest : Text → Text) (now : ℕ) (user : User) (code : Text) (t t' : Users)
    → consume_backup_code digest now user code t ≡ (t', true)
    → (contains (digest (clean_code code)) user.mfa_backup_codes ≡ true)
      × (t'
          ≡ save now user.id
              (set_backup_codes (remove (digest (clean_code code)) user.mfa_backup_codes) ∷ [])
              t)
unfolding consume_backup_code
consumed digest now user code t t' done = ground arith

pub unconsumed :
    (digest : Text → Text) (now : ℕ) (user : User) (code : Text) (t : Users)
    → contains (digest (clean_code code)) user.mfa_backup_codes ≡ false
    → consume_backup_code digest now user code t ≡ (t, false)
unfolding consume_backup_code
unconsumed digest now user code t h = ground (arith, h)

-- A backup code that was accepted is used up: if its digest was stored once, the account then holds
-- it no more, and the same code, spelled with blanks or dashes as may be, is refused for the
-- account as it now is, in whatever table.
pub consume_backup_code-once :
    (digest : Text → Text) (now later : ℕ) (user : User) (code code' : Text) (t t' other : Users)
    → get_user user.id t ≡ some user
    → uses (digest (clean_code code)) user.mfa_backup_codes ≡ 1
    → clean_code code' ≡ clean_code code
    → consume_backup_code digest now user code t ≡ (t', true)
    → (left : User) × (get_user user.id t' ≡ some left)
      × (consume_backup_code digest later left code' other ≡ (other, false))
consume_backup_code-once digest now later user code code' t t' other here once same done =
    let d = digest (clean_code code) in
    let c = set_backup_codes (remove d user.mfa_backup_codes) in
    let was = consumed digest now user code t t' done in
    let left = uses-remove d user.mfa_backup_codes was.0 in
    let gone = contains-uses d (remove d user.mfa_backup_codes) (omega (arith, left, once)) in
    (
      changed_at now (c ∷ []) user,
      rw (was.1) (get-save_own now user c [] t here (unfold keep in refl) refl),
      unconsumed digest later (changed_at now (c ∷ []) user) code' other
          (unfold assign_all in rw same gone),
    )
