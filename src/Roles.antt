-- ===== src/Roles.antt =====
-- roles.py: the roles, ordered by what they may do. A missing value is `none`; a role that is not
-- known has no rank, which stands for the rank -1.
use domain_lens.Prelude.{
  ℕ, suc, ◌≡◌, refl, ◌⊎◌, inl, inr, Bool, Option, none, some, [], arith, leb, min, Text, codes,
  text_eq, text_eq_iff, strip, lower, if◌then◌else◌,
}

abbrev pub viewer : Text
viewer = codes "viewer"

abbrev pub user : Text
user = codes "user"

abbrev pub admin : Text
admin = codes "admin"

-- `str(value or "").strip().lower()`.
pub clean : Option Text → Text
unfolding strip lower
clean none = []
clean (some value) = lower (strip value)

-- `_RANK.get(name)`.
pub rank_of : Text → Option ℕ
unfolding text_eq
rank_of name =
    if text_eq name viewer
    then some 0
    else if text_eq name user
    then some 1
    else if text_eq name admin
    then some 2
    else none

abbrev or_default : Option ℕ → Text → Text → Text
or_default none name default = default
or_default (some _) name default = name

-- "analyst" is the interface's word for "user".
unfoldable pub synonym : Text → Text
synonym name = if text_eq name (codes "analyst") then user else name

unfoldable pub normalize : Option Text → Text → Text
unfolding synonym rank_of clean
normalize value default = let name = synonym (clean value) in or_default (rank_of name) name default

unfoldable pub rank : Text → Option ℕ
unfolding rank_of clean
rank value = rank_of (clean (some value))

-- The order on ranks, with the unknown rank below all: the rank plus one.
abbrev pub height : Option ℕ → ℕ
height none = 0
height (some n) = suc n

unfoldable pub at_least : Text → Text → Bool
unfolding rank
at_least role minimum = leb (height (rank minimum)) (height (rank role))

unfoldable pub lower_of : Text → Text → Text
unfolding rank
lower_of a b = if leb (height (rank a)) (height (rank b)) then a else b

-- A name of the table.
abbrev pub IsKnown : Text → Type 0
IsKnown name = (name ≡ viewer) ⊎ (name ≡ user) ⊎ (name ≡ admin)

rank_of-IsKnown : (name : Text) (n : ℕ) → rank_of name ≡ some n → IsKnown name
unfolding rank_of
rank_of-IsKnown name n h =
    ground (arith, text_eq_iff name viewer, text_eq_iff name user, text_eq_iff name admin)

-- Whatever is given, the normal form of a role is one of the three role names if the default is.
pub normalize-IsKnown :
    (value : Option Text) (default : Text) → IsKnown default → IsKnown (normalize value default)
unfolding normalize
normalize-IsKnown value default h = go (rank_of (synonym (clean value))) refl
  where
    go :
        (r : Option ℕ)
        → rank_of (synonym (clean value)) ≡ r
        → IsKnown (or_default r (synonym (clean value)) default)
    go none e = h
    go (some n) e = rank_of-IsKnown (synonym (clean value)) n e

-- A role in its normal form is its own normal form, with any default.
pub normalize_idem : (name default : Text) → IsKnown name → normalize (some name) default ≡ name
unfolding normalize
normalize_idem name default (inl e) = rw e
normalize_idem name default (inr (inl e)) = rw e
normalize_idem name default (inr (inr e)) = rw e

-- The lower of two roles has the lesser rank of the two, so each of them covers it.
pub height-lower_of :
    (a b : Text) → height (rank (lower_of a b)) ≡ min (height (rank a)) (height (rank b))
unfolding lower_of
height-lower_of a b = ground arith

pub lower_of-cases : (a b : Text) → (lower_of a b ≡ a) ⊎ (lower_of a b ≡ b)
unfolding lower_of
lower_of-cases a b = ground arith

-- The three known roles have the ranks 0, 1 and 2.
pub rank_known : (rank viewer ≡ some 0) × (rank user ≡ some 1) × (rank admin ≡ some 2)
unfolding rank
rank_known = (refl, refl, refl)
