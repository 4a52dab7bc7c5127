-- ===== src/RiskAcceptance/Terms.antt =====
-- What `create` of risk_acceptance.py accepts.
use domain_lens.Prelude.{
  ℕ, suc, ◌+◌, ◌≤◌, ◌<◌, ◌≡◌, refl, Option, none, some, [], ◌∷◌, ◌++◌, arith, length, Text, strip,
}
use domain_lens.RiskAcceptance.{
  Acceptance, World, Proposal, Outcome, ok, create, invalidate, insert, accepted_row, clean,
  refused, ◌>>=◌, given, check_terms, in_term, Refusal, or_empty, no_owner, no_reason, max_days,
}

given-ok : (problem : Refusal) (s t : Text) → given problem s ≡ ok t → (s ≡ t) × (0 < length t)
given-ok problem [] t h = cc
given-ok problem (c ∷ s) t h = ground arith

in_term-ok :
    (today n : ℕ) (expires_on : Option ℕ)
    → in_term today expires_on ≡ ok n
    → (expires_on ≡ some n) × (today ≤ n) × (n ≤ today + max_days)
unfolding in_term
in_term-ok today n none h = cc
in_term-ok today n (some expiry) h = ground arith

-- A chain that succeeds: what its first part gave, and how the rest went on.
first-ok :
    {A B : Type 0} (first : Outcome A) (rest : A → Outcome B) (b : B)
    → (first >>= rest) ≡ ok b
    → (a : A) × (first ≡ ok a) × (rest a ≡ ok b)
first-ok (refused problem) rest b h = cc
first-ok (ok a) rest b h = (a, refl, h)

-- What a successful call of `create` has done.
pub record Accepted (today : ℕ) (p : Proposal) (w w' : World) (id : ℕ) : Type 0 where
  pub row : Acceptance
  pub added : w'.rows ≡ w.rows ++ row ∷ []
  pub named : (row.id ≡ id) × (id ≡ w.next_id) × (w'.next_id ≡ suc id)
  pub placed : (row.domain ≡ clean p.domain) × (row.finding_key ≡ p.finding_key)
  pub explained : (row.reason ≡ strip (or_empty p.reason)) × (0 < length row.reason)
  pub owned : (row.owner ≡ strip (or_empty p.owner)) × (0 < length row.owner)
  pub limited :
      (p.expires_on ≡ some row.expires_on)
      × (today ≤ row.expires_on)
      × (row.expires_on ≤ today + max_days)
  pub unrevoked : row.revoked_at ≡ none
  pub emptied : w'.cache_key ≡ none

-- An acceptance that `create` makes is one new row, on the cleaned domain, with a reason and an
-- owner that are not blank, that ends on the given day, which is today or at most 366 days ahead.
-- It is not revoked, and the cache of active rows is dropped.
pub create-Accepted :
    (today now : ℕ) (p : Proposal) (w w' : World) (id : ℕ)
    → create today now p w ≡ ok (w', id)
    → Accepted today p w w' id
unfolding create check_terms invalidate insert
create-Accepted today now p w w' id done =
    let (terms, e₁, h₁) = first-ok (check_terms today p.reason p.expires_on) _ (w', id) done in
    let (why, e₂, h₂) = first-ok (given no_reason (strip (or_empty p.reason))) _ terms e₁ in
    let (expiry, e₃, h₃) = first-ok (in_term today p.expires_on) _ terms h₂ in
    let (who, e₄, h₄) = first-ok (given no_owner (strip (or_empty p.owner))) _ (w', id) h₁ in
    let reason = given-ok no_reason (strip (or_empty p.reason)) why e₂ in
    let owner = given-ok no_owner (strip (or_empty p.owner)) who e₄ in
    let term = in_term-ok today expiry p.expires_on e₃ in
    let chosen : terms ≡ (why, expiry) = ground (arith, h₃) in
    record {
      row = accepted_row now w.next_id p terms.0 who terms.1;
      added = cc;
      named = ground (arith, h₄);
      placed = (refl, refl);
      explained = ground (arith, reason, chosen);
      owned = ground (arith, owner);
      limited = ground (arith, term, chosen);
      unrevoked = refl;
      emptied = cc;
    }
