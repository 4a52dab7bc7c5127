-- ===== src/RiskAcceptance/Tests.antt =====
-- Runs of risk_acceptance.py on a small table, and its theorems there.
use domain_lens.Prelude.{
  ◌≡◌, refl, subst, ◌≢◌, ◌⊎◌, true, false, none, some, List, [], ◌∷◌, All, Text, codes, map,
}
use domain_lens.RiskAcceptance.{
  Acceptance, World, Proposal, Finding, ok, create, query, fill, all_active, find_id, apply,
  accepted_row,
}
use domain_lens.RiskAcceptance.Terms.{Accepted, create-Accepted}
use domain_lens.RiskAcceptance.Cache.{
  Reach, start, next, read, created, all_active-current, late-fill,
}

abbrev empty : World
empty = record { rows = []; next_id = 1; cache_key = none; cache_rows = [] }

abbrev proposal : Proposal
proposal = record {
  domain = codes " Example.org ";
  finding_key = codes "email:dmarc";
  title = codes "DMARC";
  severity = none;
  reason = some (codes " legacy mail ");
  owner = some (codes "Kim");
  expires_on = some 120;
  created_by = none;
  owner_contact_id = some 0;
}

abbrev row : Acceptance
row = accepted_row 5 1 proposal (codes "legacy mail") (codes "Kim") 120

abbrev one : World
one = record { rows = row ∷ []; next_id = 2; cache_key = none; cache_rows = [] }

create_run : create 100 5 proposal empty ≡ ok (one, 1)
unfolding create
create_run = refl

create-Accepted_example : Accepted 100 proposal empty one 1
create-Accepted_example = create-Accepted 100 5 proposal empty one 1 create_run

abbrev filled : World
filled = record one { cache_key = some 100; cache_rows = row ∷ [] }

fill_run : (all_active true 100 one).0 ≡ filled
unfolding all_active
fill_run = refl

one-Reach : Reach one
one-Reach = next empty one (start empty refl) (created 100 5 proposal empty one 1 create_run)

filled-Reach : Reach filled
filled-Reach = subst Reach fill_run (next one _ one-Reach (read true 100 one))

all_active-current_example :
    ((all_active true 120 filled).1 ≡ query 120 filled.rows)
    ⊎ ((true ≡ false) × ((all_active true 120 filled).1 ≡ []))
all_active-current_example = all_active-current true 120 filled filled-Reach

late-fill_example :
    ((all_active true 100 (fill 100 (query 100 empty.rows) one)).1 ≡ query 100 empty.rows)
    × All (λ r. r.id ≢ 1) (query 100 empty.rows)
    × (find_id 1 one.rows ≢ none)
late-fill_example = late-fill true 100 5 1 proposal empty one create_run (unfold find_id in refl)

abbrev key_of : Finding → Text
key_of f = f.title

abbrev finding : Text → Finding
finding title = record {
  title = title;
  category = some (codes "Email");
  finding_key = none;
  accepted = none;
}

abbrev findings : List Finding
findings = finding (codes "email:dmarc") ∷ finding (codes "email:spf") ∷ []

-- The scan of a subdomain: the acceptance of its apex counts for the first finding only.
apply_run :
    map
      (λ f. f.accepted)
      (apply true true 110 key_of (codes "www.example.org") (codes "Example.org") findings filled).1
    ≡ some row ∷ none ∷ []
unfolding apply
apply_run = refl
