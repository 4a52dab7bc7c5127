-- ===== src/ApiTokens/Tests.antt =====
-- Runs of api_tokens.py on one account, and its theorems there. The digest of a text is the text.
use domain_lens.Prelude.{
  ◌≡◌, refl, min, true, none, some, [], ◌∷◌, ◌++◌, arith, Text, codes, ◌==◌, if◌then◌else◌,
}
use domain_lens.Prelude.Int.{pos}
use domain_lens.Roles
use domain_lens.ApiTokens.{
  User, Token, Db, ok, refused, too_many_rights, days_out_of_range, Acting, acting, create, issued,
  public, find_hash, revoke, token_prefix, authenticate,
}
use domain_lens.ApiTokens.Issue.{Issued, create-Issued}
use domain_lens.ApiTokens.Access.{
  Admitted, authenticate-Admitted, create-authenticate, revoke-authenticate,
}

abbrev identity : Text → Text
identity s = s

abbrev analyst : User
analyst = record {
  id = 7;
  enabled = true;
  email = some "a@example.com";
  name = none;
  role = some (codes "analyst");
}

abbrev start : Db
start = record { tokens = []; next_id = 1; users = λ i. if i == 7 then some analyst else none }

abbrev ci_token : Token
ci_token = issued identity (codes "s3") 1000 1 7 (codes "ci") Roles.viewer 30

abbrev ci_raw : Text
ci_raw = token_prefix ++ codes "s3"

abbrev issued_db : Db
issued_db = record { tokens = ci_token ∷ []; next_id = 2; users = start.users }

run_create :
    create identity
      (codes "s3")
      1000
      analyst
      (some (codes " ci "))
      (some Roles.viewer)
      (some (pos 30))
      start
    ≡ ok (issued_db, ci_raw, some (public 1000 ci_token))
unfolding create Roles.normalize Roles.at_least
run_create = refl

create_above_owner :
    create identity
      (codes "s3")
      1000
      analyst
      (some (codes "ci"))
      (some Roles.admin)
      (some (pos 30))
      start
    ≡ refused too_many_rights
unfolding create Roles.normalize Roles.at_least
create_above_owner = refl

create_too_long :
    create identity (codes "s3") 1000 analyst (some (codes "ci")) none (some (pos 366)) start
    ≡ refused days_out_of_range
unfolding create Roles.normalize Roles.at_least
create_too_long = refl

create-Issued_example : Issued identity 1000 analyst (some (pos 30)) start issued_db ci_raw
create-Issued_example =
    create-Issued identity (codes "s3") 1000 analyst (some (codes " ci ")) (some Roles.viewer)
      (some (pos 30)) start issued_db ci_raw (some (public 1000 ci_token)) run_create

-- The account has another role by now.
abbrev promoted : User
promoted = record analyst { role = some Roles.admin }

abbrev promoted_db : Db
promoted_db = record issued_db { users = λ id. some promoted }

create-authenticate_example :
    (row : Token) × (u : Acting) × (issued_db.tokens ≡ start.tokens ++ row ∷ [])
    × ((authenticate identity 5000 (some ci_raw) none promoted_db).1 ≡ some u)
    × (u.id ≡ promoted.id)
    × (Roles.height (Roles.rank u.role)
        ≡ min
            (Roles.height (Roles.rank (Roles.normalize (some row.role) Roles.user)))
            (Roles.height (Roles.rank (Roles.normalize promoted.role Roles.user))))
create-authenticate_example =
    create-authenticate identity (codes "s3") 1000 5000 analyst promoted (some (codes " ci "))
      (some Roles.viewer) 30 none start issued_db promoted_db ci_raw (some (public 1000 ci_token))
      run_create refl refl refl (omega arith)

found_ci : find_hash ci_raw issued_db.tokens ≡ some ci_token
unfolding find_hash
found_ci = refl

run_authenticate :
    (authenticate identity 5000 (some ci_raw) none issued_db).1 ≡ some (acting analyst ci_token)
unfolding authenticate
run_authenticate = refl

authenticate-Admitted_example : Admitted identity 5000 ci_raw issued_db (acting analyst ci_token)
authenticate-Admitted_example =
    authenticate-Admitted identity 5000 ci_raw none issued_db (acting analyst ci_token)
      run_authenticate

revoke-authenticate_example :
    (authenticate identity 9000 (some ci_raw) none (revoke 8000 1 none issued_db).0).1 ≡ none
revoke-authenticate_example =
    revoke-authenticate identity 8000 9000 ci_raw none issued_db ci_token found_ci

abbrev used_token : Token
used_token = record ci_token { last_used_at = some 5000 }

abbrev used_db : Db
used_db = record issued_db { tokens = used_token ∷ [] }

found_used : find_hash ci_raw used_db.tokens ≡ some used_token
unfolding find_hash
found_used = refl
