-- ===== src/Ownership/Zones.antt =====
-- Which domains a row of the table of domain_ownership.py stands for.
use domain_lens.Prelude.{
  ℕ, ◌≡◌, refl, sym, ◌∙◌, ap, subst, ◌⊎◌, inl, inr, Bool, true, false, none, some, List, [], ◌∷◌,
  ◌++◌, arith, keep, All, All-map, ◌==◌, Text, text_eq, text_eq_iff, if◌then◌else◌, Bool-cases,
}
use domain_lens.Prelude.Sorting.{sort, insert_sorted, sort-All}
use mathlib.Core.List.{Memᴰ}
use domain_lens.Ownership.{
  Entry, normalize, is_verified_status, _is_expired, is_in, split_dots, join_dots, joined_tails,
  _candidates, longer_first, first_current, is_candidate, verification_for,
}

-- The texts that a name is, or ends with after a dot.
abbrev pub IsZone : Text → Text → Type 0
IsZone name zone = (name ≡ zone) ⊎ ((front : Text) × (name ≡ front ++ b'.' ∷ zone))

-- A name of at least two labels.
abbrev pub HasDot : Text → Type 0
HasDot zone = (a : Text) × (b : Text) × (zone ≡ a ++ b'.' ∷ b)

pub split-part : (s : Text) → (part : Text) × (parts : List Text) × (split_dots s ≡ part ∷ parts)
unfolding split_dots
split-part [] = ([], [], refl)
split-part (c ∷ s) = elim (Bool-cases (c == b'.')) [
  | inl dot ↦ ([], split_dots s, rw dot refl)
  | inr other ↦ let later = split-part s in (c ∷ later.0, later.1, rw (other, later.2) refl)
]

join-dot :
    (part : Text) (parts : List Text)
    → join_dots ([] ∷ part ∷ parts) ≡ b'.' ∷ join_dots (part ∷ parts)
unfolding join_dots
join-dot part parts = refl

join-char :
    (c : ℕ) (part : Text) (parts : List Text)
    → join_dots ((c ∷ part) ∷ parts) ≡ c ∷ join_dots (part ∷ parts)
unfolding join_dots
join-char c part [] = refl
join-char c part (next ∷ more) = refl

pub join-split : (s : Text) → join_dots (split_dots s) ≡ s
unfolding split_dots
join-split [] = unfold join_dots in refl
join-split (c ∷ s) =
    let later = split-part s in
    let whole : join_dots (later.0 ∷ later.1) ≡ s = ap join_dots (sym (later.2)) ∙ join-split s in
    elim (Bool-cases (c == b'.')) [
      | inl dot ↦
          let same : c ≡ b'.' = ground arith in
          simp (dot, later.2)
            (join-dot (later.0) (later.1) ∙ ap (λ r. b'.' ∷ r) whole ∙ ap (λ d. d ∷ s) (sym same))
      | inr other ↦ simp (other, later.2) (join-char c (later.0) (later.1) ∙ ap (λ r. c ∷ r) whole)
    ]

longer : (part rest zone : Text) → IsZone rest zone → IsZone (part ++ b'.' ∷ rest) zone
longer part rest zone (inl same) = inr (part, ap (λ r. part ++ b'.' ∷ r) same)
longer part rest zone (inr (front, is)) = inr (
  part ++ b'.' ∷ front,
  ap (λ r. part ++ b'.' ∷ r) is ∙ sym (append-assoc part (b'.' ∷ front) (b'.' ∷ zone)),
)
  where
    append-assoc : (a b c : Text) → (a ++ b) ++ c ≡ a ++ (b ++ c)
    append-assoc [] b c = refl
    append-assoc (x ∷ a) b c = ap (λ r. x ∷ r) (append-assoc a b c)

joined-zones :
    (parts : List Text) → All (λ d. IsZone (join_dots parts) d × HasDot d) (joined_tails parts)
unfolding join_dots joined_tails
joined-zones [] = tt
joined-zones (part ∷ []) = tt
joined-zones (part ∷ next ∷ more) = (
  (inl refl, (part, join_dots (next ∷ more), refl)),
  All-map (joined_tails (next ∷ more)) (λ d h. (longer part (join_dots (next ∷ more)) d (h.0), h.1))
      (joined-zones (next ∷ more)),
)

is_in-All : (P : Text → Type 0) (s : Text) (ts : List Text) → is_in s ts ≡ true → All P ts → P s
unfolding is_in
is_in-All P s [] h all = absurd (ground (arith, h))
is_in-All P s (t ∷ rest) h all = elim (Bool-cases (text_eq t s)) [
  | inl same ↦ subst P ((text_eq_iff t s).0 same) (all.0)
  | inr other ↦ is_in-All P s rest (ground (arith, h, other)) (all.1)
]

-- A name among the candidates of a domain is the domain or one that it lies in, of two labels or more.
candidate-IsZone :
    (domain d : Text) → is_in d (_candidates domain) ≡ true → IsZone (normalize domain) d × HasDot d
unfolding _candidates
candidate-IsZone domain d h =
    let all = joined-zones (split_dots (normalize domain)) in
    is_in-All (λ z. IsZone (normalize domain) z × HasDot z) d
      (joined_tails (split_dots (normalize domain))) h
      (subst
        (λ whole.
          All (λ z. IsZone whole z × HasDot z) (joined_tails (split_dots (normalize domain))))
        (join-split (normalize domain)) all)

first_current-All :
    (P : Entry → Type 0) (max_age now : ℕ) (rows : List Entry) (row : Entry)
    → first_current max_age now rows ≡ some row
    → All P rows
    → P row × (_is_expired max_age now row ≡ false)
unfolding first_current
first_current-All P max_age now [] row h all = absurd (ground (arith, h))
first_current-All P max_age now (r ∷ rest) row h all =
    elim (Bool-cases (_is_expired max_age now r)) [
      | inl old ↦ first_current-All P max_age now rest row (ground (arith, h, old)) (all.1)
      | inr fresh ↦
          let same : r ≡ row = ground (arith, h, fresh) in
          (subst P same (all.0), subst (λ x. _is_expired max_age now x ≡ false) same fresh)
    ]

pub first_current-none :
    (max_age now : ℕ) (rows : List Entry)
    → first_current max_age now rows ≡ none
    → All (λ r. _is_expired max_age now r ≡ true) rows
unfolding first_current
first_current-none max_age now [] h = tt
first_current-none max_age now (r ∷ rest) h = elim (Bool-cases (_is_expired max_age now r)) [
  | inl old ↦ (old, first_current-none max_age now rest (ground (arith, h, old)))
  | inr fresh ↦ absurd (ground (arith, h, fresh))
]

All-keep_kept :
    (p : Entry → Bool) (rows : List Entry) → All (λ r. (p r ≡ true) × Memᴰ r rows) (keep p rows)
unfolding keep
All-keep_kept p [] = tt
All-keep_kept p (r ∷ rest) =
    let later = All-map (keep p rest) (λ x h. (h.0, Memᴰ.tail (h.1))) (All-keep_kept p rest) in
    elim (Bool-cases (p r)) [
      | inl kept ↦ rw kept ((kept, Memᴰ.head refl), later)
      | inr left ↦ rw left later
    ]

pub keep-Mem :
    (p : Entry → Bool) (P : Entry → Type 0) (rows : List Entry) (row : Entry)
    → Memᴰ row rows
    → p row ≡ true
    → All P (keep p rows)
    → P row
unfolding keep
keep-Mem p P [] row there kept all = elim there [ ]
keep-Mem p P (r ∷ rest) row (Memᴰ.head same) kept all =
    let kept' : p r ≡ true = subst (λ x. p x ≡ true) same kept in
    let all' : All P (r ∷ keep p rest) =
      subst (λ b. All P (if b then r ∷ keep p rest else keep p rest)) kept' all in
    subst P (sym same) (all'.0)
keep-Mem p P (r ∷ rest) row (Memᴰ.tail there) kept all =
    keep-Mem p P rest row there kept (elim (Bool-cases (p r)) [
      | inl here ↦ (subst (λ b. All P (if b then r ∷ keep p rest else keep p rest)) here all).1
      | inr out ↦ subst (λ b. All P (if b then r ∷ keep p rest else keep p rest)) out all
    ])

insert_sorted-back :
    (P : Entry → Type 0) (leq : Entry → Entry → Bool) (a : Entry) (rows : List Entry)
    → All P (insert_sorted leq a rows)
    → P a × All P rows
unfolding insert_sorted
insert_sorted-back P leq a [] all = all
insert_sorted-back P leq a (r ∷ rest) all = elim (Bool-cases (leq a r)) [
  | inl first ↦
      subst (λ b. All P (if b then a ∷ r ∷ rest else r ∷ insert_sorted leq a rest)) first all
  | inr later ↦
      let split : All P (r ∷ insert_sorted leq a rest) =
        subst (λ b. All P (if b then a ∷ r ∷ rest else r ∷ insert_sorted leq a rest)) later all in
      let tail = insert_sorted-back P leq a rest (split.1) in (tail.0, (split.0, tail.1))
]

pub sort-back :
    (P : Entry → Type 0) (leq : Entry → Entry → Bool) (rows : List Entry)
    → All P (sort leq rows)
    → All P rows
unfolding sort
sort-back P leq [] all = tt
sort-back P leq (r ∷ rest) all =
    let split = insert_sorted-back P leq r (sort leq rest) all in
    (split.0, sort-back P leq rest (split.1))

-- A row that stands for a domain: it is verified and not expired, and it is for the domain itself or for a name of
-- two labels or more that the domain lies in.
pub record Stands (max_age now : ℕ) (domain : Text) (rows : List Entry) (row : Entry) : Type 0 where
  pub there : Memᴰ row rows
  pub verified : is_verified_status row.status ≡ true
  pub current : _is_expired max_age now row ≡ false
  pub zone : IsZone (normalize domain) row.domain
  pub labels : HasDot row.domain

-- The row that `verification_for` gives stands for the domain.
pub verification_for-Stands :
    (max_age now : ℕ) (domain : Text) (rows : List Entry) (row : Entry)
    → verification_for max_age now domain rows ≡ some row
    → Stands max_age now domain rows row
unfolding verification_for
verification_for-Stands max_age now domain rows row found =
    let kept = keep (is_candidate domain) rows in
    let P : Entry → Type 0 = λ r. (is_candidate domain r ≡ true) × Memᴰ r rows in
    let all = sort-All longer_first P kept (All-keep_kept (is_candidate domain) rows) in
    let said = first_current-All P max_age now (sort longer_first kept) row found all in
    let in_zone = candidate-IsZone domain row.domain (ground (arith, said.0.0)) in
    record {
      there = said.0.1;
      verified = ground (arith, said.0.0);
      current = said.1;
      zone = in_zone.0;
      labels = in_zone.1;
    }
