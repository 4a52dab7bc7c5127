-- ===== src/ScanFields/Sound.antt =====
-- When `compare` of scan_diff.py lists a change.
use domain_lens.Prelude.{
  ◌≡◌, refl, inl, inr, Bool, true, false, Option, none, some, List, [], ◌∷◌, All, All-append,
  Bool-cases,
}
use domain_lens.ScanFields.{
  Section, Scan, Field, Change, value_eq, compare_states, compare_field, compare_all, fields,
  compare,
}

-- What a listed change says: both scans measured the field, and its values, which differ, are what
-- the field reads of them.
pub record Sound (before after : Scan) (c : Change) : Type 0 where
  pub earlier : Section
  pub later : Section
  pub had : before ((c.field).section) ≡ some earlier
  pub has : after ((c.field).section) ≡ some later
  pub both : (earlier.is_measured ≡ true) × (later.is_measured ≡ true)
  pub read : (c.before ≡ (c.field).extract earlier) × (c.after ≡ (c.field).extract later)
  pub differs : value_eq c.before c.after ≡ false

compare_values-Sound :
    (before after : Scan) (f : Field) (old new : Section)
    → before f.section ≡ some old
    → after f.section ≡ some new
    → (p q : Bool) → old.is_measured ≡ p
    → new.is_measured ≡ q
    → All (Sound before after) (compare_states f p q (f.extract old) (f.extract new)).0
compare_values-Sound before after f old new h k true true p q =
    elim (Bool-cases (value_eq (f.extract old) (f.extract new))) [
      | inl e ↦ rw (e, All) tt
      | inr e ↦
          rw (e, All)
            (
              record {
                earlier = old;
                later = new;
                had = h;
                has = k;
                both = (p, q);
                read = (refl, refl);
                differs = e;
              },
              tt,
            )
    ]
compare_values-Sound before after f old new h k true false p q = tt
compare_values-Sound before after f old new h k false q' p q = tt

compare_field-Sound :
    (before after : Scan) (f : Field) (x y : Option Section)
    → before f.section ≡ x
    → after f.section ≡ y
    → All (Sound before after) (compare_field f x y).0
unfolding compare_field
compare_field-Sound before after f none none h k = tt
compare_field-Sound before after f none (some new) h k = tt
compare_field-Sound before after f (some old) none h k = tt
compare_field-Sound before after f (some old) (some new) h k =
    compare_values-Sound before after f old new h k old.is_measured new.is_measured refl refl

compare_all-Sound :
    (before after : Scan) (fs : List Field)
    → All (Sound before after) (compare_all fs before after).0
unfolding compare_all
compare_all-Sound before after [] = tt
compare_all-Sound before after (f ∷ rest) =
    All-append (Sound before after) (compare_all rest before after).0
      (compare_all-Sound before after rest) (compare_field f (before f.section) (after f.section)).0
      (compare_field-Sound before after f (before f.section) (after f.section) refl refl)

-- Every change that `compare` lists is of a section that both scans have and have measured. Its two
-- values are what the field reads of the earlier and of the later scan, and they differ.
pub compare-Sound : (before after : Scan) → All (Sound before after) (compare before after).0
unfolding compare
compare-Sound before after = compare_all-Sound before after fields
