-- ===== src/RiskAcceptance/Marks.antt =====
-- Which findings `apply` of risk_acceptance.py marks as accepted.
use domain_lens.Prelude.{ℕ, ◌≡◌, ◌⊎◌, true, none, some, Text}
use domain_lens.RiskAcceptance.{Acceptance, Finding, is_active, apex_level}

-- An acceptance that may stand under a key in what `_active_for` returns for a domain.
pub record Holds (today : ℕ) (domain : Text) (item : Text × Acceptance) : Type 0 where
  pub keyed : item.1.finding_key ≡ item.0
  pub here : item.1.domain ≡ domain
  pub active : is_active today item.1 ≡ true

-- Why a row may accept a finding of the scanned domain: it has the finding's key and is active, and
-- it is a row of the domain itself, or one of the apex while the finding describes the zone.
pub record Justifies (today : ℕ) (domain apex : Text) (f : Finding) (row : Acceptance)
    : Type 0 where
  pub keyed : f.finding_key ≡ some row.finding_key
  pub active : is_active today row ≡ true
  pub covers : (row.domain ≡ domain) ⊎ ((row.domain ≡ apex) × (apex_level f ≡ true))

abbrev pub IsJustified : ℕ → Text → Text → Finding → Type 0
IsJustified today domain apex f = elim f.accepted [
  | none ↦ Unit
  | some row ↦ Justifies today domain apex f row
]
