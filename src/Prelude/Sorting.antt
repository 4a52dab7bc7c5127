-- ===== src/Prelude/Sorting.antt =====
-- Sorting by a Boolean order, as `sorted` and ORDER BY do: stable, by insertion.
use Prim.Native.Nat.{suc}
use mathlib.Core.Path.{◌≡◌, refl, ap, ◌∙◌}
use mathlib.Core.Logic.{inl, inr}
use mathlib.Core.Bool.{Bool, true, false}
use mathlib.Core.List.{List, [], ◌∷◌, ◌++◌, Perm}
use mathlib.Core.List.Perm
use domain_lens.Prelude.Tests.{if◌then◌else◌, Bool-cases}
use domain_lens.Prelude.Lists.{All, length}

module _ {ℓ} {A : Type ℓ} (leq : A → A → Bool) where
  unfoldable pub insert_sorted : A → List A → List A
  insert_sorted a [] = a ∷ []
  insert_sorted a (x ∷ xs) =
      let rest = insert_sorted a xs in if leq a x then a ∷ x ∷ xs else x ∷ rest

  unfoldable pub sort : List A → List A
  unfolding insert_sorted
  sort [] = []
  sort (x ∷ xs) = insert_sorted x (sort xs)

  abbrev pub IsSorted : List A → Type 0
  IsSorted [] = Unit
  IsSorted (x ∷ xs) = All (λ y. leq x y ≡ true) xs × IsSorted xs

  insert_sorted-perm : (a : A) (xs : List A) → Perm (insert_sorted a xs) (a ∷ xs)
  unfolding insert_sorted
  insert_sorted-perm a [] = Perm.refl (a ∷ [])
  insert_sorted-perm a (x ∷ xs) = elim (Bool-cases (leq a x)) [
    | inl first ↦ rw first (Perm.refl (a ∷ x ∷ xs))
    | inr later ↦ rw later (Perm.trans (Perm.cons x (insert_sorted-perm a xs)) (Perm.swap a x xs))
  ]

  -- Sorting keeps the elements, each as often as it was there.
  pub sort-perm : (xs : List A) → Perm (sort xs) xs
  unfolding sort
  sort-perm [] = Perm.refl []
  sort-perm (x ∷ xs) = Perm.trans (insert_sorted-perm x (sort xs)) (Perm.cons x (sort-perm xs))

  length-insert_sorted : (a : A) (xs : List A) → length (insert_sorted a xs) ≡ suc (length xs)
  unfolding insert_sorted
  length-insert_sorted a [] = refl
  length-insert_sorted a (x ∷ xs) = elim (Bool-cases (leq a x)) [
    | inl first ↦ rw first refl
    | inr later ↦ rw later (ap suc (length-insert_sorted a xs))
  ]

  pub length-sort : (xs : List A) → length (sort xs) ≡ length xs
  unfolding sort
  length-sort [] = refl
  length-sort (x ∷ xs) = length-insert_sorted x (sort xs) ∙ ap suc (length-sort xs)

  insert_sorted-All {κ} :
      (P : A → Type κ) (a : A) (xs : List A) → P a → All P xs → All P (insert_sorted a xs)
  unfolding insert_sorted
  insert_sorted-All P a [] pa h = (pa, tt)
  insert_sorted-All P a (x ∷ xs) pa h = elim (Bool-cases (leq a x)) [
    | inl first ↦ rw first (pa, h)
    | inr later ↦ rw later (h.0, insert_sorted-All P a xs pa (h.1))
  ]

  pub sort-All {κ} : (P : A → Type κ) (xs : List A) → All P xs → All P (sort xs)
  unfolding sort
  sort-All P [] h = tt
  sort-All P (x ∷ xs) h = insert_sorted-All P x (sort xs) (h.0) (sort-All P xs (h.1))

module _ {ℓ} {A : Type ℓ} (leq : A → A → Bool)
    (total : (a b : A) → leq a b ≡ false → leq b a ≡ true)
    (trans : (a b c : A) → leq a b ≡ true → leq b c ≡ true → leq a c ≡ true) where
  below :
      (a x : A) (xs : List A)
      → leq a x ≡ true
      → All (λ y. leq x y ≡ true) xs
      → All (λ y. leq a y ≡ true) xs
  below a x [] h hs = tt
  below a x (y ∷ ys) h hs = (trans a x y h (hs.0), below a x ys h (hs.1))

  insert_sorted-IsSorted :
      (a : A) (xs : List A) → IsSorted leq xs → IsSorted leq (insert_sorted leq a xs)
  unfolding insert_sorted
  insert_sorted-IsSorted a [] h = (tt, tt)
  insert_sorted-IsSorted a (x ∷ xs) h = elim (Bool-cases (leq a x)) [
    | inl first ↦ rw first ((first, below a x xs first (h.0)), (h.0, h.1))
    | inr later ↦ rw later (
      insert_sorted-All leq (λ y. leq x y ≡ true) a xs (total a x later) (h.0),
      insert_sorted-IsSorted a xs (h.1),
    )
  ]

  pub sort-IsSorted : (xs : List A) → IsSorted leq (sort leq xs)
  unfolding sort
  sort-IsSorted [] = tt
  sort-IsSorted (x ∷ xs) = insert_sorted-IsSorted x (sort leq xs) (sort-IsSorted xs)

  -- What a cut of a sorted list keeps is not above what it leaves out.
  pub IsSorted-append :
      (xs ys : List A) → IsSorted leq (xs ++ ys) → All (λ x. All (λ y. leq x y ≡ true) ys) xs
  IsSorted-append [] ys h = tt
  IsSorted-append (x ∷ xs) ys h = (after xs ys (h.0), IsSorted-append xs ys (h.1))
    where
      after : (us vs : List A) → All (λ y. leq x y ≡ true) (us ++ vs) → All (λ y. leq x y ≡ true) vs
      after [] vs h = h
      after (u ∷ us) vs h = after us vs (h.1)
