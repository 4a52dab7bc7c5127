-- ===== src/Ownership/Tests.antt =====
-- Runs of domain_ownership.py, and its theorems there.
use domain_lens.Prelude.{◌≡◌, refl, ◌↔◌, true, false, none, some, List, [], ◌∷◌, codes}
use domain_lens.Ownership.{
  Entry, verified, dns, Net, answers, response, find, is_verified, _candidates,
}
use domain_lens.Ownership.Zones.{Stands}
use domain_lens.Ownership.Covered.{is_verified_iff}
use domain_lens.Ownership.Views.{Op, request, recheck, revocation, step, effect, find-step}
use domain_lens.Ownership.Proofs.{after}

-- A network in which each name has the record of one token.
abbrev net : Net
net = record {
  resolve = λ name. answers (codes "domainlens-verification=t1" ∷ []);
  addresses = λ name. none;
  is_global = λ address. false;
  fetch = λ name address. response 404 [];
}

abbrev calls : List Op
calls =
    recheck net (codes "t2") (codes "Example.org.") none 20
    ∷ request (codes "t1") (codes "example.org") none 10
    ∷ []

candidates_run :
    _candidates (codes "a.Example.org.") ≡ codes "a.example.org" ∷ codes "example.org" ∷ []
unfolding _candidates
candidates_run = refl

verified_run : is_verified 365 30 (codes "a.example.org") (after calls) ≡ true
unfolding is_verified step
verified_run = refl

foreign_run : is_verified 365 30 (codes "anexample.org") (after calls) ≡ false
unfolding is_verified step
foreign_run = refl

is_verified_iff_example :
    (is_verified 365 30 (codes "a.example.org") (after calls) ≡ true)
    ↔ ((row : Entry) × Stands 365 30 (codes "a.example.org") (after calls) row)
is_verified_iff_example = is_verified_iff 365 30 (codes "a.example.org") (after calls)

find-step_example :
    find (codes "example.org") (step (revocation (codes "EXAMPLE.org")) (after calls))
    ≡ effect (revocation (codes "EXAMPLE.org")) (λ e. find e (after calls)) (codes "example.org")
find-step_example = find-step (revocation (codes "EXAMPLE.org")) (after calls) (codes "example.org")

abbrev proved_row : Entry
proved_row = record {
  domain = codes "example.org";
  token = codes "t1";
  status = verified;
  method = some dns;
  note = none;
  requested_by = none;
  verified_by = none;
  created_at = 10;
  verified_at = some 20;
  last_checked_at = some 20;
  last_error = [];
}
