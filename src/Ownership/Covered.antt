-- ===== src/Ownership/Covered.antt =====
-- When domain_ownership.py takes a domain for verified.
use domain_lens.Prelude.{
  ℕ, ◌≡◌, refl, sym, ◌∙◌, ap, subst, inl, inr, ◌↔◌, true, none, List, [], ◌∷◌, ◌++◌, arith, keep,
  ◌==◌, Text, text_eq_self, Bool-cases, Option-cases,
}
use domain_lens.Prelude.Sorting.{sort}
use domain_lens.Ownership.{
  Entry, normalize, _is_expired, is_in, split_dots, join_dots, joined_tails, _candidates,
  longer_first, is_candidate, verification_for, is_verified,
}
use domain_lens.Ownership.Zones.{
  IsZone, HasDot, Stands, split-part, join-split, keep-Mem, first_current-none, sort-back,
  verification_for-Stands,
}

split-append :
    (front zone : Text) → split_dots (front ++ b'.' ∷ zone) ≡ split_dots front ++ split_dots zone
unfolding split_dots
split-append [] zone = refl
split-append (c ∷ front) zone =
    let later = split-part front in
    let step : split_dots (front ++ b'.' ∷ zone) ≡ later.0 ∷ (later.1 ++ split_dots zone) =
      split-append front zone ∙ ap (λ l. l ++ split_dots zone) (later.2) in
    elim (Bool-cases (c == b'.')) [
      | inl dot ↦ simp (dot, step, later.2) refl
      | inr other ↦ simp (other, step, later.2) refl
    ]

-- A name of two labels or more is split into as many.
split-dot :
    (zone : Text)
    → HasDot zone
    → (a : Text) × (b : Text) × (rest : List Text) × (split_dots zone ≡ a ∷ b ∷ rest)
split-dot zone (front, back, is) = go (split-part front) (split-part back)
  where
    go :
        (part : Text) × (parts : List Text) × (split_dots front ≡ part ∷ parts)
        → (part : Text) × (parts : List Text) × (split_dots back ≡ part ∷ parts)
        → (a : Text) × (b : Text) × (rest : List Text) × (split_dots zone ≡ a ∷ b ∷ rest)
    go (a, [], e) (b, bs, e') =
        (a, b, bs, ap split_dots is ∙ split-append front back ∙ simp (e, e') refl)
    go (a, a' ∷ as', e) (b, bs, e') =
        (a, a', as' ++ b ∷ bs, ap split_dots is ∙ split-append front back ∙ simp (e, e') refl)

is_in-later : (s t : Text) (rest : List Text) → is_in s rest ≡ true → is_in s (t ∷ rest) ≡ true
unfolding is_in
is_in-later s t rest h = ground (arith, h)

is_in-first : (s : Text) (rest : List Text) → is_in s (s ∷ rest) ≡ true
unfolding is_in
is_in-first s rest = rw (text_eq_self s) refl

-- The join of a tail of two labels or more is among the joined tails.
tail-is_in :
    (front : List Text) (a b : Text) (rest : List Text)
    → is_in (join_dots (a ∷ b ∷ rest)) (joined_tails (front ++ a ∷ b ∷ rest)) ≡ true
unfolding joined_tails
tail-is_in [] a b rest = is_in-first (join_dots (a ∷ b ∷ rest)) (joined_tails (b ∷ rest))
tail-is_in (x ∷ []) a b rest =
    is_in-later (join_dots (a ∷ b ∷ rest)) (join_dots (x ∷ a ∷ b ∷ rest))
      (joined_tails (a ∷ b ∷ rest))
      (is_in-first (join_dots (a ∷ b ∷ rest)) (joined_tails (b ∷ rest)))
tail-is_in (x ∷ y ∷ front) a b rest =
    is_in-later (join_dots (a ∷ b ∷ rest)) (join_dots (x ∷ y ∷ (front ++ a ∷ b ∷ rest)))
      (joined_tails (y ∷ (front ++ a ∷ b ∷ rest))) (tail-is_in (y ∷ front) a b rest)

labels-is_in :
    (name zone : Text) (labels : List Text)
    → split_dots name ≡ labels ++ split_dots zone
    → HasDot zone
    → is_in zone (joined_tails (split_dots name)) ≡ true
labels-is_in name zone labels e dot =
    let (a, b, rest, parts) = split-dot zone dot in
    let whole : join_dots (a ∷ b ∷ rest) ≡ zone = ap join_dots (sym parts) ∙ join-split zone in
    let named : labels ++ a ∷ b ∷ rest ≡ split_dots name =
      ap (λ l. labels ++ l) (sym parts) ∙ sym e in
    subst (λ z. is_in z (joined_tails (split_dots name)) ≡ true) whole
      (subst (λ l. is_in (join_dots (a ∷ b ∷ rest)) (joined_tails l) ≡ true) named
        (tail-is_in labels a b rest))

zone-is_in :
    (name zone : Text)
    → IsZone name zone
    → HasDot zone
    → is_in zone (joined_tails (split_dots name)) ≡ true
zone-is_in name zone (inl same) dot = labels-is_in name zone [] (ap split_dots same) dot
zone-is_in name zone (inr (front, is)) dot =
    labels-is_in name zone (split_dots front) (ap split_dots is ∙ split-append front zone) dot

standing-found :
    (max_age now : ℕ) (domain : Text) (rows : List Entry) (row : Entry)
    → Stands max_age now domain rows row
    → verification_for max_age now domain rows ≡ none
    → ⊥
unfolding verification_for _candidates
standing-found max_age now domain rows row stands gone =
    let kept = keep (is_candidate domain) rows in
    let old : Entry → Type 0 = λ r. _is_expired max_age now r ≡ true in
    let among : is_in row.domain (_candidates domain) ≡ true =
      zone-is_in (normalize domain) row.domain stands.zone stands.labels in
    let fits : is_candidate domain row ≡ true = ground (arith, stands.verified, among) in
    let all =
      sort-back old longer_first kept
        (first_current-none max_age now (sort longer_first kept) gone) in
    let expired = keep-Mem (is_candidate domain) old rows row stands.there fits all in
    ground (arith, expired, stands.current)

-- A domain is taken for verified exactly when a row stands for it: one of the table that is
-- verified and not expired, and whose name is the domain itself or one of two labels or more that
-- the domain lies in.
pub is_verified_iff :
    (max_age now : ℕ) (domain : Text) (rows : List Entry)
    → (is_verified max_age now domain rows ≡ true)
      ↔ ((row : Entry) × Stands max_age now domain rows row)
unfolding is_verified
is_verified_iff max_age now domain rows = (
  λ yes. elim (Option-cases (verification_for max_age now domain rows)) [
    | inl gone ↦ absurd (ground (arith, yes, gone))
    | inr (row, found) ↦ (row, verification_for-Stands max_age now domain rows row found)
  ],
  λ (row, stands). elim (Option-cases (verification_for max_age now domain rows)) [
    | inl gone ↦ absurd (standing-found max_age now domain rows row stands gone)
    | inr (r, found) ↦ ground (arith, found)
  ],
)
