-- ===== src/Users/Tests.antt =====
-- Runs on a table of users of db.py, and its theorems there.
use domain_lens.Prelude.{
  ◌≡◌, refl, true, none, some, [], ◌∷◌, arith, codes, keep, String, strip, lower,
}
use mathlib.Core.List.{Perm}
use domain_lens.Users.{User, Users, NewUser, new_user, create_user, get_user_by_email, fits}
use domain_lens.Users.Rows.{get_user_by_email-create}
use domain_lens.Users.Pages.{walk, walk-all}

abbrev person : String → NewUser
person email = record {
  email = codes email;
  password_hash = none;
  name = none;
  role = codes "user";
  enabled = true;
  provider = none;
  external_id = none;
  user_name = none;
  profile = λ key. none;
  scim_profile = codes "{}";
}

abbrev kim : User
kim = new_user 10 1 (person "Kim@example.org")

abbrev lee : User
lee = new_user 20 2 (person "lee@example.org")

abbrev one : Users
one = record { rows = kim ∷ []; next_id = 2 }

abbrev two : Users
two = record { rows = kim ∷ lee ∷ []; next_id = 3 }

create_run : create_user 20 (person "lee@example.org") one ≡ some (two, 2)
unfolding create_user
create_run = refl

taken : create_user 20 (person " KIM@example.org") one ≡ none
unfolding create_user
taken = refl

get_user_by_email-create_example :
    (get_user_by_email (codes " LEE@Example.org ") two ≡ some lee) × (2 ≡ one.next_id)
get_user_by_email-create_example =
    get_user_by_email-create 20 2 (person "lee@example.org") (codes " LEE@Example.org ") one two
      create_run (unfold strip lower in refl)

walk-all_example : Perm (walk none none 1 two 2 1) (keep (fits none none) two.rows)
walk-all_example = walk-all none none 1 2 two (omega arith) (omega arith) (omega arith)
