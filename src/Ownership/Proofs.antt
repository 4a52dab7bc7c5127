-- ===== src/Ownership/Proofs.antt =====
-- Why a row of the table of domain_ownership.py is verified.
use domain_lens.Prelude.{◌≡◌, ◌⊎◌, ◌≢◌, true, some, List, [], ◌∷◌, Text, strip}
use domain_lens.Ownership.{Entry, Method, admin, proved, normalize, is_verified_status, probed}
use domain_lens.Ownership.Views.{Op, request, recheck, attestation, revocation, step, View}

-- The table after some calls, the latest first.
abbrev pub after : List Op → List Entry
after [] = []
after (op ∷ earlier) = step op (after earlier)

-- What proves a row of a domain: a check whose probe found the token of the row, at the time that
-- the row has, or a person with a reason that is not blank.
abbrev pub Proves : Text → Entry → Op → Type 0
Proves d row (request token domain by now) = ⊥
Proves d row (recheck net token domain by now) =
    (method : Method) × (normalize domain ≡ d)
    × (probed net d row.token ≡ proved method)
    × (row.method ≡ some method)
    × (row.verified_at ≡ some now)
Proves d row (attestation note token domain email now) =
    (normalize domain ≡ d)
    × (strip note ≢ [])
    × (row.note ≡ some (strip note))
    × (row.method ≡ some admin)
    × (row.verified_by ≡ some email)
    × (row.verified_at ≡ some now)
Proves d row (revocation domain) = ⊥

abbrev pub Happened : (Op → Type 0) → List Op → Type 0
Happened P [] = ⊥
Happened P (op ∷ earlier) = P op ⊎ Happened P earlier

abbrev Holds : List Op → View → Type 0
Holds h v =
    (d : Text) (row : Entry)
    → v d ≡ some row
    → is_verified_status row.status ≡ true
    → Happened (Proves d row) h
