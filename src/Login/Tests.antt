-- ===== src/Login/Tests.antt =====
-- Runs of the sign-in of auth.py, and its theorems there.
use domain_lens.Prelude.{
  ℕ, ◌+◌, ◌-◌, ◌≡◌, refl, ap, true, false, none, some, List, [], ◌∷◌, ◌++◌, keep, arith, Text,
  codes, text_eq, ◌==◌, ◌*◌, All,
}
use domain_lens.Users.{clean, get_user_by_email, User, Users, new_user, get_user}
use domain_lens.Login.{
  Crypto, Config, local_config, hash_password, verify_password, totp_at, counter_of, verify_totp,
  second, consume_backup_code, rejected, locked, attempt_local_login,
}
use domain_lens.Login.Passwords.{verify_password-hash}
use domain_lens.Login.Codes.{verify_totp-window, consume_backup_code-once}
use domain_lens.Login.Lockout.{lockout, Here, Open, tried}

abbrev shift : List ℕ → List ℕ
shift [] = []
shift (b ∷ bs) = (b + 40) ∷ shift bs

abbrev shift_back : List ℕ → List ℕ
shift_back [] = []
shift_back (b ∷ bs) = (b - 40) ∷ shift_back bs

abbrev pub toy : Crypto
toy = record {
  pbkdf2 = λ password salt n. password ++ salt;
  b64encode = shift;
  b64decode = λ text. some (shift_back text);
  int_of = λ text. some 390000;
}

shift-back : (bytes : List ℕ) → shift_back (shift bytes) ≡ bytes
shift-back [] = refl
shift-back (b ∷ bs) = let here : b + 40 - 40 ≡ b = omega arith in rw (here, shift-back bs) refl

shift-plain : (bytes : List ℕ) → All (λ c. (c == b'$') ≡ false) (shift bytes)
shift-plain [] = tt
shift-plain (b ∷ bs) = (ground arith, shift-plain bs)

verify_password-hash_example :
    verify_password toy (codes "secret") (hash_password toy (1 ∷ 2 ∷ []) (codes "secret")) ≡ true
verify_password-hash_example =
    verify_password-hash toy (1 ∷ 2 ∷ []) (codes "secret") (λ bytes. ap some (shift-back bytes))
      shift-plain refl

abbrev pub hmac : Text → ℕ → List ℕ
hmac secret n = n ∷ 7 ∷ 9 ∷ 11 ∷ 0 ∷ []

verify_totp-window_example :
    verify_totp hmac
      (70 * second)
      (codes "JBSW")
      (totp_at hmac (codes "JBSW") (counter_of (35 * second)))
    ≡ true
verify_totp-window_example =
    verify_totp-window hmac (codes "JBSW") (35 * second) (70 * second) refl
      (unfold counter_of in omega arith) (unfold counter_of in omega arith)

totp_run : totp_at hmac (codes "JBSW") 2 ≡ codes "015499"
unfolding totp_at
totp_run = refl

abbrev pub kim : User
kim =
    record (new_user 10 1 record {
      email = codes "kim@example.org";
      password_hash = some (codes "pbkdf2_sha256$390000$YZ$[YZ");
      name = none;
      role = codes "user";
      enabled = true;
      provider = none;
      external_id = none;
      user_name = none;
      profile = λ key. none;
      scim_profile = codes "{}";
    }) {
      mfa_enabled = true;
      mfa_secret = some (codes "JBSW");
      mfa_backup_codes = codes "abcd" ∷ codes "efgh" ∷ [];
    }

abbrev pub table : Users
table = record { rows = kim ∷ []; next_id = 2 }

-- The password of the account is one character.
abbrev pub right : Text
right = 51 ∷ []

abbrev pub cfg : Config
cfg =
    record (local_config record {
      enabled = some true;
      require_login = none;
      mfa_required = none;
      mfa_enabled = none;
      max_failed_attempts = some 3;
      lockout_minutes = none;
      password_min_length = none;
      password_require_upper = none;
      password_require_lower = none;
      password_require_digit = none;
      password_require_special = none;
    }) { enabled = true }

pub right_run : verify_password toy right (codes "pbkdf2_sha256$390000$YZ$[YZ") ≡ true
unfolding verify_password
right_run = refl

pub here : Here (codes "Kim@example.org") table kim
unfolding get_user_by_email get_user
here = record { by_email = refl; by_id = refl }

pub kim-Open : Open kim
kim-Open = record { enabled = refl; has_hash = refl; unlocked = refl }

abbrev pub as_is : Text → Text
as_is s = s

consume_backup_code-once_example :
    (left : User) × (get_user 1 ((consume_backup_code as_is 20 kim (codes "ab-cd") table).0)
      ≡ some left)
    × (consume_backup_code as_is 30 left (codes "abcd") table ≡ (table, false))
consume_backup_code-once_example =
    consume_backup_code-once as_is 20 30 kim (codes "ab-cd") (codes "abcd") table
      ((consume_backup_code as_is 20 kim (codes "ab-cd") table).0) table (unfold get_user in refl)
      (unfold clean keep text_eq in refl) (unfold clean keep in refl)
      (unfold consume_backup_code in refl)

lockout_example :
    attempt_local_login toy cfg 90 (codes "Kim@example.org") right (
      (attempt_local_login toy cfg 60
        (codes "Kim@example.org")
        (codes "c")
        (tried toy cfg (codes "Kim@example.org") ((10, codes "a") ∷ (20, codes "b") ∷ []) table)).0)
    ≡ (
      (attempt_local_login toy cfg 60 (codes "Kim@example.org") (codes "c") (
          tried toy cfg
            (codes "Kim@example.org")
            ((10, codes "a") ∷ (20, codes "b") ∷ [])
            table)).0,
      rejected locked,
    )
lockout_example =
    lockout toy cfg 60 90 (codes "Kim@example.org") (codes "c") right
      ((10, codes "a") ∷ (20, codes "b") ∷ []) table kim refl (unfold clean in refl) here kim-Open
      refl
      (
        record { given = refl; differs = unfold verify_password in refl },
        (record { given = refl; differs = unfold verify_password in refl }, tt),
      )
      record { given = refl; differs = unfold verify_password in refl } refl (omega arith)
