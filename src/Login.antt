-- ===== src/Login.antt =====
-- auth.py: passwords, one-time codes, backup codes, and the lockout of local accounts. A time is in
-- microseconds. Digits are those of ASCII. What the libraries compute is a parameter: PBKDF2, Base64,
-- `int` of a text, HMAC-SHA-1 over a counter under a secret, and SHA-256.
pub mod Saved
pub mod Passwords
pub mod Codes
pub mod Lockout
pub mod Tests
use domain_lens.Prelude.{
  ℕ, zero, suc, ◌+◌, ◌-◌, ◌*◌, ◌/◌, ◌%◌, ◌^◌, Bool, true, false, not, ◌&&◌, ◌||◌, Option, none,
  some, List, [], ◌∷◌, ◌++◌, ltb, leb, ◌==◌, length, keep, map, Text, codes, text_eq, strip, lower,
  starts_with, if◌then◌else◌, max,
}
use domain_lens.Users.{
  User, Users, Change, set_failed_logins, set_locked_until, set_backup_codes, update_user, get_user,
  get_user_by_email, or_empty, clean, local_part,
}

-- The section `auth_local` of the settings; none where an entry is absent.
pub record Raw : Type 0 where
  pub enabled : Option Bool
  pub require_login : Option Bool
  pub mfa_required : Option Bool
  pub mfa_enabled : Option Bool
  pub max_failed_attempts : Option ℕ
  pub lockout_minutes : Option ℕ
  pub password_min_length : Option ℕ
  pub password_require_upper : Option Bool
  pub password_require_lower : Option Bool
  pub password_require_digit : Option Bool
  pub password_require_special : Option Bool

abbrev pub or_flag : Option Bool → Bool → Bool
or_flag none default = default
or_flag (some b) default = b

abbrev pub or_number : Option ℕ → ℕ → ℕ
or_number none default = default
or_number (some zero) default = default
or_number (some (suc n)) default = suc n

pub record Policy : Type 0 where
  pub min_length : ℕ
  pub require_upper : Bool
  pub require_lower : Bool
  pub require_digit : Bool
  pub require_special : Bool

abbrev pub password_policy : Raw → Policy
password_policy raw = record {
  min_length = max 8 (or_number raw.password_min_length 12);
  require_upper = or_flag raw.password_require_upper true;
  require_lower = or_flag raw.password_require_lower true;
  require_digit = or_flag raw.password_require_digit true;
  require_special = or_flag raw.password_require_special true;
}

pub record Config : Type 0 where
  pub enabled : Bool
  pub require_login : Bool
  pub mfa_required : Bool
  pub mfa_available : Bool
  pub max_failed_attempts : ℕ
  pub lockout_minutes : ℕ

abbrev pub local_config : Raw → Config
local_config raw = record {
  enabled = or_flag raw.enabled false;
  require_login = or_flag raw.require_login true;
  mfa_required = or_flag raw.mfa_required false;
  mfa_available = or_flag raw.mfa_enabled true;
  max_failed_attempts = max 3 (or_number raw.max_failed_attempts 5);
  lockout_minutes = max 1 (or_number raw.lockout_minutes 15);
}

-- `s.split("$", n)`.
unfoldable pub split : ℕ → Text → List Text
split n [] = [] ∷ []
split zero (c ∷ s) = (c ∷ s) ∷ []
split (suc n) (c ∷ s) =
    let later = split n s in
    let rest = split (suc n) s in
    if c == b'$'
    then [] ∷ later
    else elim rest [ [] ↦ (c ∷ []) ∷ [] | part ∷ parts ↦ (c ∷ part) ∷ parts ]

abbrev pub hash_prefix : Text
hash_prefix = codes "pbkdf2_sha256"

abbrev pub hash_iterations : ℕ
hash_iterations = 390000

-- `pbkdf2_hmac`, Base64 both ways, and `int` of a text.
pub record Crypto : Type 0 where
  pub pbkdf2 : Text → List ℕ → ℕ → List ℕ
  pub b64encode : List ℕ → Text
  pub b64decode : Text → Option (List ℕ)
  pub int_of : Text → Option ℕ

unfoldable pub hash_password : Crypto → List ℕ → Text → Text
hash_password crypto salt password =
    hash_prefix
    ++ (b'$'
        ∷ (codes "390000"
            ++ (b'$'
                ∷ (crypto.b64encode salt
                    ++ (b'$' ∷ crypto.b64encode (crypto.pbkdf2 password salt hash_iterations))))))

abbrev pub matches : Crypto → Text → Option (List ℕ) → Option (List ℕ) → Option ℕ → Bool
matches crypto password (some salt) (some expected) (some iterations) =
    text_eq (crypto.pbkdf2 password salt iterations) expected
matches crypto password none expected iterations = false
matches crypto password (some salt) none iterations = false
matches crypto password (some salt) (some expected) none = false

abbrev pub verify_parts : Crypto → Text → List Text → Bool
verify_parts crypto password (algo ∷ iterations ∷ salt ∷ hash ∷ []) =
    text_eq algo hash_prefix
    && matches crypto password (crypto.b64decode salt) (crypto.b64decode hash)
        (crypto.int_of iterations)
verify_parts crypto password _ = false

-- `verify_password`; false where a part does not parse.
unfoldable pub verify_password : Crypto → Text → Text → Bool
unfolding split text_eq
verify_password crypto password stored = verify_parts crypto password (split 3 stored)

abbrev pub is_upper : ℕ → Bool
is_upper c = leb b'A' c && leb c b'Z'

abbrev pub is_lower : ℕ → Bool
is_lower c = leb b'a' c && leb c b'z'

abbrev pub is_digit : ℕ → Bool
is_digit c = leb b'0' c && leb c b'9'

abbrev pub is_special : ℕ → Bool
is_special c = not (is_upper c || is_lower c || is_digit c)

unfoldable pub some_char : (ℕ → Bool) → Text → Bool
some_char p [] = false
some_char p (c ∷ s) = p c || some_char p s

unfoldable pub occurs : Text → Text → Bool
unfolding starts_with
occurs part [] = starts_with [] part
occurs part (c ∷ s) = starts_with (c ∷ s) part || occurs part s

pub data Fault : Type 0 where
  too_short no_upper no_lower no_digit no_special has_email : Fault

abbrev pub fault_if : Bool → Fault → List Fault
fault_if true fault = fault ∷ []
fault_if false fault = []

-- `validate_password`, on a password in ASCII.
unfoldable pub validate_password : Policy → Text → Text → List Fault
unfolding some_char occurs lower local_part
validate_password policy password email =
    let local = local_part (lower email) in
    fault_if (ltb (length password) policy.min_length) too_short
    ++ (fault_if (policy.require_upper && not (some_char is_upper password)) no_upper
        ++ (fault_if (policy.require_lower && not (some_char is_lower password)) no_lower
            ++ (fault_if (policy.require_digit && not (some_char is_digit password)) no_digit
                ++ (fault_if (policy.require_special && not (some_char is_special password))
                      no_special
                    ++ fault_if (leb 3 (length local) && occurs local (lower password))
                        has_email))))

abbrev pub second : ℕ
second = 1000000

abbrev pub byte_at : ℕ → List ℕ → ℕ
byte_at n [] = 0
byte_at zero (b ∷ bs) = b
byte_at (suc n) (b ∷ bs) = byte_at n bs

-- `digest[-1]`.
abbrev pub last_byte : List ℕ → ℕ
last_byte [] = 0
last_byte (b ∷ bs) = elim bs [ [] ↦ b | c ∷ cs ↦ last_byte bs ]

abbrev pub bit_mask : ℕ
bit_mask = 2147483648

-- The dynamic truncation of RFC 4226: four bytes from an offset, without the top bit.
unfoldable pub truncate : List ℕ → ℕ
truncate digest =
    let offset = last_byte digest % 16 in
    (byte_at offset digest * 16777216
      + byte_at (offset + 1) digest * 65536
      + byte_at (offset + 2) digest * 256
      + byte_at (offset + 3) digest)
    % bit_mask

-- `str(n).zfill(6)`, for a number below a million.
unfoldable pub six_digits : ℕ → Text
six_digits n =
    (n / 100000 % 10 + b'0')
    ∷ (n / 10000 % 10 + b'0')
    ∷ (n / 1000 % 10 + b'0')
    ∷ (n / 100 % 10 + b'0')
    ∷ (n / 10 % 10 + b'0')
    ∷ (n % 10 + b'0')
    ∷ []

-- `totp_at` of a counter of half minutes.
unfoldable pub totp_at : (Text → ℕ → List ℕ) → Text → ℕ → Text
unfolding truncate six_digits
totp_at hmac secret counter = six_digits (truncate (hmac secret counter) % 1000000)

unfoldable pub counter_of : ℕ → ℕ
counter_of now = now / (30 * second)

-- `s[-6:]`.
unfoldable pub last_six : Text → Text
last_six [] = []
last_six (c ∷ s) = let rest = last_six s in if leb (length (c ∷ s)) 6 then c ∷ s else rest

abbrev pub is_empty : Text → Bool
is_empty [] = true
is_empty (c ∷ s) = false

-- The window of `verify_totp`: one step each way.
abbrev pub in_window : (Text → ℕ → List ℕ) → Text → ℕ → Text → Bool
in_window hmac secret step target =
    text_eq (totp_at hmac secret (step - 1)) target
    || (text_eq (totp_at hmac secret step) target
        || text_eq (totp_at hmac secret (step + 1)) target)

unfoldable pub verify_totp : (Text → ℕ → List ℕ) → ℕ → Text → Text → Bool
unfolding keep last_six text_eq
verify_totp hmac now secret code =
    let digits = keep is_digit code in
    if is_empty secret || is_empty code
    then false
    else if ltb (length digits) 6
    then false
    else in_window hmac secret (counter_of now) (last_six digits)

-- `update_user` where it does not raise, as it does not without an address among the changes.
abbrev pub kept : Users → Option (Users × Option User) → Users
kept t none = t
kept t (some (t', read)) = t'

unfoldable pub save : ℕ → ℕ → List Change → Users → Users
unfolding update_user
save now id changes t = kept t (update_user now id changes t)

abbrev pub is_code_char : ℕ → Bool
is_code_char c = not (c == b'-' || c == b' ')

abbrev pub clean_code : Text → Text
clean_code code = keep is_code_char (clean code)

-- `digest in stored`, and `stored.remove(digest)`.
unfoldable pub contains : Text → List Text → Bool
unfolding text_eq
contains t [] = false
contains t (s ∷ rest) = text_eq s t || contains t rest

unfoldable pub remove : Text → List Text → List Text
unfolding text_eq
remove t [] = []
remove t (s ∷ rest) = let rest' = remove t rest in if text_eq s t then rest else s ∷ rest'

-- `consume_backup_code`; `digest` is the SHA-256 of a text.
unfoldable pub consume_backup_code : (Text → Text) → ℕ → User → Text → Users → Users × Bool
unfolding clean keep contains remove save
consume_backup_code digest now user code t =
    let cleaned = clean_code code in
    if is_empty cleaned
    then (t, false)
    else if not (contains (digest cleaned) user.mfa_backup_codes)
    then (t, false)
    else (
      save now user.id (set_backup_codes (remove (digest cleaned) user.mfa_backup_codes) ∷ []) t,
      true,
    )

abbrev pub is_locked : ℕ → User → Bool
is_locked now user = elim user.locked_until [ none ↦ false | some until ↦ ltb now until ]

abbrev pub minute : ℕ
minute = 60 * second

-- What a failed attempt writes: the count, or the lock.
abbrev pub failure_changes : Config → ℕ → User → List Change
failure_changes cfg now user =
    if leb cfg.max_failed_attempts (user.failed_logins + 1)
    then set_failed_logins 0 ∷ set_locked_until (some (now + cfg.lockout_minutes * minute)) ∷ []
    else set_failed_logins (user.failed_logins + 1) ∷ []

-- `register_mfa_failure`, and whether it locked the account.
unfoldable pub register_mfa_failure : Config → ℕ → User → Users → Users × Bool
unfolding save
register_mfa_failure cfg now user t = (
  save now user.id (failure_changes cfg now user) t,
  leb cfg.max_failed_attempts (user.failed_logins + 1),
)

unfoldable pub clear_login_failures : ℕ → ℕ → Users → Users
unfolding save
clear_login_failures now id t = save now id (set_failed_logins 0 ∷ set_locked_until none ∷ []) t

pub data Refusal : Type 0 where
  disabled missing invalid locked no_password : Refusal

pub data Attempt : Type 0 where
  accepted : User → Bool → Attempt
  rejected : Refusal → Attempt

-- The account after the UPDATE, as it is read again.
abbrev pub reread : Option User → User → User
reread none user = user
reread (some fresh) user = fresh

-- The part of `attempt_local_login` for an account that is found and enabled.
unfoldable pub attempt_as : Crypto → Config → ℕ → Text → User → Users → Users × Attempt
unfolding verify_password save clear_login_failures get_user
attempt_as crypto cfg now password user t =
    if is_locked now user
    then (t, rejected locked)
    else if is_empty (or_empty user.password_hash)
    then (t, rejected no_password)
    else if not (verify_password crypto password (or_empty user.password_hash))
    then (save now user.id (failure_changes cfg now user) t, rejected invalid)
    else let t' = clear_login_failures now user.id t in
      let fresh = reread (get_user user.id t') user in
      (t', accepted fresh (cfg.mfa_available && fresh.mfa_enabled))

-- `attempt_local_login`; the Boolean of an accepted attempt says that a second factor is wanted.
unfoldable pub attempt_local_login : Crypto → Config → ℕ → Text → Text → Users → Users × Attempt
unfolding attempt_as get_user_by_email clean
attempt_local_login crypto cfg now email password t =
    if not cfg.enabled
    then (t, rejected disabled)
    else if is_empty (clean email) || is_empty password
    then (t, rejected missing)
    else elim (get_user_by_email (clean email) t) [
      | none ↦ (t, rejected invalid)
      | some user ↦
          if user.enabled then attempt_as crypto cfg now password user t else (t, rejected invalid)
    ]
