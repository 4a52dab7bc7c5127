-- ===== src/Ownership/Views.antt =====
-- The table of domain_ownership.py as a map from domains to rows, and its operations on the map.
use domain_lens.Prelude.{
  ℕ, ◌≡◌, refl, sym, ◌∙◌, ap, subst, inl, inr, not, Option, none, some, List, [], ◌∷◌, ◌++◌, arith,
  keep, Text, text_eq, text_eq_iff, strip, if◌then◌else◌, Bool-cases, Option-cases,
}
use mathlib.Core.Option
use domain_lens.Ownership.{
  Entry, Net, normalize, is_of, find, new_entry, request_verification, probed, Outcome, checked,
  update_rows, check, attested, attest, attest_with, revoke,
}

-- The calls that change the table.
pub data Op : Type 0 where
  request : Text → Text → Option Text → ℕ → Op
  recheck : Net → Text → Text → Option Text → ℕ → Op
  attestation : Text → Text → Text → Text → ℕ → Op
  revocation : Text → Op

abbrev pub or_kept : List Entry → Option (List Entry) → List Entry
or_kept rows none = rows
or_kept rows (some rows') = rows'

unfoldable pub step : Op → List Entry → List Entry
unfolding request_verification check attest revoke
step (request token domain by now) rows = (request_verification token domain by now rows).0
step (recheck net token domain by now) rows = check net token domain by now rows
step (attestation note token domain email now) rows =
    or_kept rows (attest note token domain email now rows)
step (revocation domain) rows = (revoke domain rows).0

-- The row of each domain.
abbrev pub View : Type 0
View = Text → Option Entry

abbrev pub the : Entry → Option Entry → Entry
the entry none = entry
the entry (some existing) = existing

abbrev pub with_entry : Entry → View → View
with_entry entry v d = if text_eq entry.domain d then some (the entry (v d)) else v d

abbrev pub changed : Text → (Entry → Entry) → View → View
changed domain f v d = if text_eq domain d then Option.map f (v d) else v d

abbrev pub without : Text → View → View
without domain v d = if text_eq domain d then none else v d

abbrev pub attested_view : Text → Entry → Text → ℕ → View → View
attested_view [] entry email now v = v
attested_view (c ∷ note) entry email now v =
    changed entry.domain (attested email (c ∷ note) now) (with_entry entry v)

-- What an operation does to the map.
abbrev pub effect : Op → View → View
effect (request token domain by now) v = with_entry (new_entry token (normalize domain) by now) v
effect (recheck net token domain by now) v =
    let entry = new_entry token (normalize domain) by now in
    let found = the entry (v entry.domain) in
    changed entry.domain (checked (probed net entry.domain found.token) by now) (with_entry entry v)
effect (attestation note token domain email now) v =
    attested_view (strip note) (new_entry token (normalize domain) (some email) now) email now v
effect (revocation domain) v = without (normalize domain) v

pub find-domain :
    (d : Text) (rows : List Entry) (row : Entry) → find d rows ≡ some row → row.domain ≡ d
unfolding find
find-domain d [] row h = absurd (ground (arith, h))
find-domain d (r ∷ rest) row h = elim (Bool-cases (is_of d r)) [
  | inl here ↦
      let same : r ≡ row = ground (arith, h, here) in
      ap (λ x. x.domain) (sym same) ∙ (text_eq_iff r.domain d).0 here
  | inr other ↦ find-domain d rest row (ground (arith, h, other))
]

pub find-update_rows :
    (d domain : Text) (f : Entry → Entry) (rows : List Entry)
    → ((r : Entry) → (f r).domain ≡ r.domain)
    → find d (update_rows domain f rows) ≡ changed domain f (λ e. find e rows) d
unfolding find update_rows
find-update_rows d domain f [] same = ground arith
find-update_rows d domain f (r ∷ rest) same = ground (
  arith,
  same r,
  find-update_rows d domain f rest same,
  text_eq_iff r.domain d,
  text_eq_iff r.domain domain,
  text_eq_iff domain d,
)

pub find-append :
    (d : Text) (rows : List Entry) (entry : Entry)
    → find entry.domain rows ≡ none
    → find d (rows ++ entry ∷ []) ≡ with_entry entry (λ e. find e rows) d
unfolding find
find-append d [] entry h = ground arith
find-append d (r ∷ rest) entry h = ground (
  arith,
  h,
  find-append d rest entry,
  text_eq_iff r.domain d,
  text_eq_iff r.domain entry.domain,
  text_eq_iff entry.domain d,
)

pub find-without :
    (d domain : Text) (rows : List Entry)
    → find d (keep (λ row. not (is_of domain row)) rows) ≡ without domain (λ e. find e rows) d
unfolding find keep
find-without d domain [] = ground arith
find-without d domain (r ∷ rest) = ground (
  arith,
  find-without d domain rest,
  text_eq_iff r.domain d,
  text_eq_iff r.domain domain,
  text_eq_iff domain d,
)

-- The entry that a call for a domain is about, and the rows with it.
pub request-entry :
    (token domain : Text) (by : Option Text) (now : ℕ) (rows : List Entry)
    → (request_verification token domain by now rows).1
      ≡ the (new_entry token (normalize domain) by now) (find (normalize domain) rows)
unfolding request_verification
request-entry token domain by now rows = elim (Option-cases (find (normalize domain) rows)) [
  | inl new ↦ rw new refl
  | inr (row, found) ↦ rw found refl
]

pub find-request :
    (d token domain : Text) (by : Option Text) (now : ℕ) (rows : List Entry)
    → find d ((request_verification token domain by now rows).0)
      ≡ with_entry (new_entry token (normalize domain) by now) (λ e. find e rows) d
unfolding request_verification
find-request d token domain by now rows =
    let entry = new_entry token (normalize domain) by now in
    elim (Option-cases (find (normalize domain) rows)) [
      | inl new ↦ rw new (find-append d rows entry new)
      | inr (row, found) ↦ rw found (elim (Bool-cases (text_eq (normalize domain) d)) [
        | inl here ↦
            let same : find d rows ≡ some row =
              subst (λ e. find e rows ≡ some row) ((text_eq_iff (normalize domain) d).0 here)
                found in
            rw (here, same) refl
        | inr other ↦ rw other refl
      ])
    ]

entry-domain :
    (entry : Entry) (rows : List Entry) → (the entry (find entry.domain rows)).domain ≡ entry.domain
entry-domain entry rows = elim (Option-cases (find entry.domain rows)) [
  | inl new ↦ rw new refl
  | inr (row, found) ↦ rw found (find-domain entry.domain rows row found)
]

domain-checked :
    (outcome : Outcome) (by : Option Text) (now : ℕ) (r : Entry)
    → (checked outcome by now r).domain ≡ r.domain
domain-checked (Outcome.proved m) by now r = refl
domain-checked (Outcome.unproved ts) by now r = refl

changed-same :
    (domain : Text) (f : Entry → Entry) (v w : View) (d : Text)
    → v d ≡ w d
    → changed domain f v d ≡ changed domain f w d
changed-same domain f v w d same = ap (λ x. if text_eq domain d then Option.map f x else x) same

pub check-rows :
    (net : Net) (token domain : Text) (by : Option Text) (now : ℕ) (rows : List Entry)
    → check net token domain by now rows
      ≡ update_rows
          (normalize domain)
          (checked
            (probed net
              (normalize domain)
              (the
                (new_entry token (normalize domain) by now)
                (find (normalize domain) rows)).token)
            by
            now)
          ((request_verification token domain by now rows).0)
unfolding check
check-rows net token domain by now rows =
    let entry = new_entry token (normalize domain) by now in
    let asked = (request_verification token domain by now rows).0 in
    let found = the entry (find (normalize domain) rows) in
    ap (λ e. update_rows e.domain (checked (probed net e.domain e.token) by now) asked)
      (request-entry token domain by now rows)
    ∙ ap (λ d. update_rows d (checked (probed net d found.token) by now) asked)
        (entry-domain entry rows)

pub attest-rows :
    (c : ℕ) (note token domain email : Text) (now : ℕ) (rows : List Entry)
    → attest_with (c ∷ note) token domain email now rows
      ≡ some (
          update_rows
            (normalize domain)
            (attested email (c ∷ note) now)
            ((request_verification token domain (some email) now rows).0))
attest-rows c note token domain email now rows =
    let entry = new_entry token (normalize domain) (some email) now in
    let asked = (request_verification token domain (some email) now rows).0 in
    ap (λ e. some (update_rows e.domain (attested email (c ∷ note) now) asked))
      (request-entry token domain (some email) now rows)
    ∙ ap (λ d. some (update_rows d (attested email (c ∷ note) now) asked)) (entry-domain entry rows)

find-attest_with :
    (d note token domain email : Text) (now : ℕ) (rows : List Entry)
    → find d (or_kept rows (attest_with note token domain email now rows))
      ≡ attested_view note
          (new_entry token (normalize domain) (some email) now)
          email
          now
          (λ e. find e rows)
          d
find-attest_with d [] token domain email now rows = refl
find-attest_with d (c ∷ note) token domain email now rows =
    let asked = (request_verification token domain (some email) now rows).0 in
    let entry = new_entry token (normalize domain) (some email) now in
    ap (λ r. find d (or_kept rows r)) (attest-rows c note token domain email now rows)
    ∙ find-update_rows d (normalize domain) (attested email (c ∷ note) now) asked (λ r. refl)
    ∙ changed-same (normalize domain) (attested email (c ∷ note) now) (λ e. find e asked)
        (with_entry entry (λ e. find e rows)) d (find-request d token domain (some email) now rows)

find-check :
    (net : Net) (d token domain : Text) (by : Option Text) (now : ℕ) (rows : List Entry)
    → find d (check net token domain by now rows)
      ≡ effect (recheck net token domain by now) (λ e. find e rows) d
find-check net d token domain by now rows =
    let asked = (request_verification token domain by now rows).0 in
    let entry = new_entry token (normalize domain) by now in
    let outcome = probed net (normalize domain) (the entry (find (normalize domain) rows)).token in
    ap (find d) (check-rows net token domain by now rows)
    ∙ find-update_rows d (normalize domain) (checked outcome by now) asked
        (domain-checked outcome by now)
    ∙ changed-same (normalize domain) (checked outcome by now) (λ e. find e asked)
        (with_entry entry (λ e. find e rows)) d (find-request d token domain by now rows)

-- The table is a map from domains to rows, and each call does to the map what is described for it:
-- after every operation each domain has the row that the effect on the map says.
pub find-step :
    (op : Op) (rows : List Entry) (d : Text)
    → find d (step op rows) ≡ effect op (λ e. find e rows) d
unfolding step
find-step (request token domain by now) rows d = find-request d token domain by now rows
find-step (recheck net token domain by now) rows d = find-check net d token domain by now rows
find-step (attestation note token domain email now) rows d =
    unfold attest in find-attest_with d (strip note) token domain email now rows
find-step (revocation domain) rows d = unfold revoke in find-without d (normalize domain) rows
