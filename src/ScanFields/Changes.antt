-- ===== src/ScanFields/Changes.antt =====
-- What the changes that `compare` of scan_diff.py lists say of the two scans.
use domain_lens.Prelude.{
  ap, ℕ, ◌≡◌, refl, inl, inr, Bool, true, false, Option, none, some, List, [], ◌∷◌, ◌++◌, map,
  arith, Text, text_eq, if◌then◌else◌, Bool-cases,
}
use domain_lens.ScanFields.{
  Value, flag, number, text, Section, Scan, Direction, better, worse, neutral, Mapping, no_mapping,
  good_when_true, bad_when_true, Field, by_size, place, size, ordered_direction, is_field,
  tls_grades, dmarc_policies, spf_order, flag_of, swing, mapped, ranked, or_ranked, direction,
  Change, value_eq, compare_values, compare_states, compare_field, compare_all, fields, compare,
}

abbrev pub opposite : Direction → Direction
opposite better = worse
opposite worse = better
opposite neutral = neutral

abbrev pub reversed : Change → Change
reversed c = record { field = c.field; before = c.after; after = c.before; way = opposite c.way }

abbrev opposite_if : Option Direction → Option Direction
opposite_if none = none
opposite_if (some d) = some (opposite d)

by_size-swap : (a b : Option ℕ) → by_size b a ≡ opposite (by_size a b)
by_size-swap none none = refl
by_size-swap none (some m) = refl
by_size-swap (some n) none = refl
by_size-swap (some n) (some m) = ground arith

swing-swap : (a b : Option Bool) → swing b a ≡ opposite_if (swing a b)
swing-swap none none = refl
swing-swap none (some true) = refl
swing-swap none (some false) = refl
swing-swap (some true) none = refl
swing-swap (some false) none = refl
swing-swap (some true) (some true) = refl
swing-swap (some true) (some false) = refl
swing-swap (some false) (some true) = refl
swing-swap (some false) (some false) = refl

mapped-swap : (m : Mapping) (a b : Option Value) → mapped m b a ≡ opposite_if (mapped m a b)
mapped-swap no_mapping a b = refl
mapped-swap good_when_true a b = swing-swap (flag_of a) (flag_of b)
mapped-swap bad_when_true a b = swing-swap (flag_of b) (flag_of a)

ordered-swap :
    (order : List Text) (a b : Option Value)
    → ordered_direction order b a ≡ opposite (ordered_direction order a b)
unfolding ordered_direction
ordered-swap order a b = by_size-swap (place order a) (place order b)

if-swap :
    (test : Bool) (a b c d : Direction)
    → a ≡ opposite c
    → b ≡ opposite d
    → (if test then a else b) ≡ opposite (if test then c else d)
if-swap true a b c d h k = h
if-swap false a b c d h k = k

ranked-swap : (f : Field) (a b : Option Value) → ranked f b a ≡ opposite (ranked f a b)
ranked-swap f a b = if-swap (is_field f "tls_deep" "grade") _ _ _ _ (ordered-swap tls_grades a b) (
    if-swap (is_field f "dmarc" "policy") _ _ _ _ (ordered-swap dmarc_policies a b) (
      if-swap (is_field f "spf" "all") _ _ _ _ (ordered-swap spf_order a b) (
        if-swap (is_field f "http_headers" "score") _ _ _ _ (by_size-swap (size a) (size b)) refl)))

or_ranked-swap :
    (m m' : Option Direction) (way way' : Direction)
    → m' ≡ opposite_if m
    → way' ≡ opposite way
    → or_ranked m' way' ≡ opposite (or_ranked m way)
or_ranked-swap none m' way way' h k = rw h k
or_ranked-swap (some d) m' way way' h k = rw h refl

direction-swap : (f : Field) (a b : Option Value) → direction f b a ≡ opposite (direction f a b)
unfolding direction
direction-swap f a b =
    or_ranked-swap (mapped f.mapping a b) (mapped f.mapping b a) (ranked f a b) (ranked f b a)
      (mapped-swap f.mapping a b) (ranked-swap f a b)

text_eq-swap : (s t : Text) → text_eq t s ≡ text_eq s t
unfolding text_eq
text_eq-swap [] [] = refl
text_eq-swap [] (d ∷ t) = refl
text_eq-swap (c ∷ s) [] = refl
text_eq-swap (c ∷ s) (d ∷ t) = ground (arith, text_eq-swap s t)

value_eq-swap : (a b : Option Value) → value_eq b a ≡ value_eq a b
unfolding value_eq
value_eq-swap none none = refl
value_eq-swap none (some (flag b)) = ground arith
value_eq-swap none (some (number m)) = refl
value_eq-swap none (some (text t)) = refl
value_eq-swap (some (flag b)) none = ground arith
value_eq-swap (some (number n)) none = refl
value_eq-swap (some (text s)) none = refl
value_eq-swap (some (flag true)) (some (flag true)) = refl
value_eq-swap (some (flag true)) (some (flag false)) = refl
value_eq-swap (some (flag false)) (some (flag true)) = refl
value_eq-swap (some (flag false)) (some (flag false)) = refl
value_eq-swap (some (flag b)) (some (number m)) = ground arith
value_eq-swap (some (flag b)) (some (text t)) = ground arith
value_eq-swap (some (number n)) (some (flag b)) = ground arith
value_eq-swap (some (number n)) (some (number m)) = ground arith
value_eq-swap (some (number n)) (some (text t)) = refl
value_eq-swap (some (text s)) (some (flag b)) = ground arith
value_eq-swap (some (text s)) (some (number m)) = refl
value_eq-swap (some (text s)) (some (text t)) = text_eq-swap s t

compare_values-swap :
    (f : Field) (a b : Option Value) → compare_values f b a ≡ map reversed (compare_values f a b)
compare_values-swap f a b = elim (Bool-cases (value_eq a b)) [
  | inl e ↦ rw (value_eq-swap a b, e) refl
  | inr e ↦ rw (value_eq-swap a b, e, direction-swap f a b) refl
]

compare_states-swap :
    (f : Field) (p q : Bool) (a b : Option Value)
    → (compare_states f q p b a).0 ≡ map reversed (compare_states f p q a b).0
compare_states-swap f true true a b = compare_values-swap f a b
compare_states-swap f true false a b = refl
compare_states-swap f false true a b = refl
compare_states-swap f false false a b = refl

compare_field-swap :
    (f : Field) (a b : Option Section)
    → (compare_field f b a).0 ≡ map reversed (compare_field f a b).0
unfolding compare_field
compare_field-swap f none none = refl
compare_field-swap f none (some b) = refl
compare_field-swap f (some a) none = refl
compare_field-swap f (some a) (some b) =
    compare_states-swap f a.is_measured b.is_measured (f.extract a) (f.extract b)

map-append : (xs ys : List Change) → map reversed (xs ++ ys) ≡ map reversed xs ++ map reversed ys
map-append [] ys = refl
map-append (x ∷ xs) ys = ap (λ l. reversed x ∷ l) (map-append xs ys)

compare_all-swap :
    (fs : List Field) (before after : Scan)
    → (compare_all fs after before).0 ≡ map reversed (compare_all fs before after).0
unfolding compare_all
compare_all-swap [] before after = refl
compare_all-swap (f ∷ rest) before after =
    rw
      (
        compare_field-swap f (before f.section) (after f.section),
        compare_all-swap rest before after,
        map-append (compare_field f (before f.section) (after f.section)).0
            (compare_all rest before after).0,
      )
      refl

-- Comparing two scans the other way round lists the same fields in the same order, each with its
-- two values swapped and its direction reversed: what got better got worse, and what is neutral
-- stays so.
pub compare-swap :
    (before after : Scan) → (compare after before).0 ≡ map reversed (compare before after).0
unfolding compare
compare-swap before after = compare_all-swap fields before after
