-- ===== src/ApiTokens/Issue.antt =====
-- What `create` of api_tokens.py issues.
use domain_lens.Prelude.{
  ℕ, zero, suc, ◌+◌, ◌*◌, ◌≤◌, ◌<◌, ◌≡◌, refl, true, Option, none, some, [], ◌∷◌, ◌++◌, arith, Text,
  prefix, starts_with, length,
}
use domain_lens.Prelude.Int.{ℤ, pos, negsuc}
use domain_lens.Roles
use domain_lens.ApiTokens.{
  User, Token, Db, TokenView, Outcome, ok, refused, ◌>>=◌, named, short_name, checked_days,
  wanted_role, issued, insert, find_hash, is_set, create, token_prefix, max_days, day,
}

-- A chain of checks that succeeds: its first check did, and so did what follows with its value.
passed :
    {A B : Type 0} {check : A → Outcome B} {answer : B} (first : Outcome A)
    → (first >>= check) ≡ ok answer
    → (value : A) × (check value ≡ ok answer) × (first ≡ ok value)
passed (refused reason) done = cc
passed (ok value) done = (value, done, refl)

length-prefix : (n : ℕ) (s : Text) → length (prefix n s) ≤ n
unfolding prefix
length-prefix zero s = omega arith
length-prefix (suc n) [] = omega arith
length-prefix (suc n) (c ∷ s) = omega (arith, length-prefix n s)

named-ok : (s t : Text) → named s ≡ ok t → (s ≡ t) × (0 < length t)
named-ok [] t h = cc
named-ok (c ∷ s) t h = ground arith

short_name-length : (name : Option Text) → length (short_name name) ≤ 80
unfolding short_name
short_name-length name = length-prefix 80 _

checked_days-ok :
    (days : Option ℤ) (n : ℕ)
    → checked_days days ≡ ok n
    → (days ≡ some (pos n)) × (1 ≤ n) × (n ≤ max_days)
unfolding checked_days
checked_days-ok none n h = cc
checked_days-ok (some (negsuc k)) n h = cc
checked_days-ok (some (pos k)) n h = ground arith

-- The role that `create` gives is not above the owner's.
wanted_role-ok :
    (owner role : Option Text) (wanted : Text)
    → wanted_role owner role ≡ ok wanted
    → Roles.height (Roles.rank wanted)
      ≤ Roles.height (Roles.rank (Roles.normalize owner Roles.user))
unfolding wanted_role Roles.at_least
wanted_role-ok owner role wanted h = ground arith

insert-ok :
    (row : Token) (db db' : Db)
    → insert row db ≡ ok db'
    → (db'.tokens ≡ db.tokens ++ row ∷ [])
      × (db'.users ≡ db.users)
      × (find_hash row.token_hash db.tokens ≡ none)
      × (is_set (db.users row.user_id) ≡ true)
unfolding insert
insert-ok row db db' h = ground arith

-- What a successful call of `create` has done.
pub record Issued (digest : Text → Text) (now : ℕ) (owner : User) (days : Option ℤ) (db db' : Db)
    (raw : Text) : Type 0 where
  pub row : Token
  pub added : db'.tokens ≡ db.tokens ++ row ∷ []
  pub accounts : db'.users ≡ db.users
  pub hashed : row.token_hash ≡ digest raw
  pub new_hash : find_hash row.token_hash db.tokens ≡ none
  pub owned : row.user_id ≡ owner.id
  pub unrevoked : row.revoked_at ≡ none
  pub period : ℕ
  pub chosen : days ≡ some (pos period)
  pub least : 1 ≤ period
  pub most : period ≤ max_days
  pub expiry : row.expires_at ≡ now + period * day
  pub marked : starts_with raw token_prefix ≡ true
  pub scoped :
      Roles.height (Roles.rank row.role)
      ≤ Roles.height (Roles.rank (Roles.normalize owner.role Roles.user))
  pub has_name : 0 < length row.name
  pub name_fits : length row.name ≤ 80

-- A token that `create` issues is one new row, under the hash of the text that the caller gets. It
-- belongs to the owner, is not revoked, expires after the chosen number of days, which is 1 to 365, has a role that is
-- not above the owner's, and a name of 1 to 80 characters; the accounts stay as they are.
pub create-Issued :
    (digest : Text → Text) (secret : Text) (now : ℕ) (owner : User) (name role : Option Text)
    (days : Option ℤ) (db db' : Db) (raw : Text) (shown : Option TokenView)
    → create digest secret now owner name role days db ≡ ok (db', raw, shown)
    → Issued digest now owner days db db' raw
unfolding create starts_with
create-Issued digest secret now owner name role days db db' raw shown h =
    let (label, h₁, e₁) = passed (named (short_name name)) h in
    let (period, h₂, e₂) = passed (checked_days days) h₁ in
    let (wanted, h₃, e₃) = passed (wanted_role owner.role role) h₂ in
    let (db₁, h₄, e₄) =
      passed (insert (issued digest secret now db.next_id owner.id label wanted period) db) h₃ in
    let ins = insert-ok _ db db₁ e₄ in
    let nm = named-ok (short_name name) label e₁ in
    let dy = checked_days-ok days period e₂ in
    let marked_text : starts_with (token_prefix ++ secret) token_prefix ≡ true = refl in
    let marked_raw : starts_with raw token_prefix ≡ true = cc in
    let len : length label ≤ 80 = ground (arith, short_name-length name) in
    record {
      row = issued digest secret now db.next_id owner.id label wanted period;
      added = cc;
      accounts = cc;
      hashed = cc;
      new_hash = ins.2;
      owned = refl;
      unrevoked = refl;
      period = period;
      chosen = dy.0;
      least = dy.1;
      most = dy.2;
      expiry = refl;
      marked = marked_raw;
      scoped = wanted_role-ok owner.role role wanted e₃;
      has_name = nm.1;
      name_fits = len;
    }
