-- ===== src/Prelude/Permuting.antt =====
-- Lists that are taken apart by a test, and the lengths of lists in another order.
use Prim.Native.Nat.{suc, ◌+◌}
use mathlib.Core.Path.{◌≡◌, refl, ap, ◌∙◌}
use mathlib.Core.Logic.{inl, inr, ∥∥₁_elim}
use mathlib.Core.Bool.{Bool, not}
use mathlib.Core.List.{List, [], ◌∷◌, ◌++◌, Perm, Permᴰ}
use mathlib.Core.List.Perm
use native.Mathlib.Nat.{ℕ_set}
use native.Mathlib.Omega.{arith}
use domain_lens.Prelude.Tests.{Bool-cases}
use domain_lens.Prelude.Lists.{length, keep}

length-Permᴰ {ℓ} : {A : Type ℓ} {xs ys : List A} → Permᴰ xs ys → length xs ≡ length ys
length-Permᴰ Permᴰ.nil = refl
length-Permᴰ (Permᴰ.cons e p) = ap suc (length-Permᴰ p)
length-Permᴰ (Permᴰ.swap e f) = refl
length-Permᴰ (Permᴰ.trans p q) = length-Permᴰ p ∙ length-Permᴰ q

pub length-Perm {ℓ} : {A : Type ℓ} {xs ys : List A} → Perm xs ys → length xs ≡ length ys
length-Perm p = ∥∥₁_elim p (ℕ_set _ _) length-Permᴰ

pub length-split {ℓ} :
    {A : Type ℓ} (p : A → Bool) (xs : List A)
    → length (keep p xs) + length (keep (λ x. not (p x)) xs) ≡ length xs
unfolding keep
length-split p [] = refl
length-split p (x ∷ xs) = ground (arith, length-split p xs)

perm_middle {ℓ} : {A : Type ℓ} (x : A) (xs ys : List A) → Perm (xs ++ (x ∷ ys)) (x ∷ (xs ++ ys))
perm_middle x [] ys = Perm.refl (x ∷ ys)
perm_middle x (y ∷ xs) ys =
    Perm.trans (Perm.cons y (perm_middle x xs ys)) (Perm.swap x y (xs ++ ys))

pub perm_split {ℓ} :
    {A : Type ℓ} (p : A → Bool) (xs : List A) → Perm (keep (λ x. not (p x)) xs ++ keep p xs) xs
unfolding keep
perm_split p [] = Perm.refl []
perm_split p (x ∷ xs) = elim (Bool-cases (p x)) [
  | inl yes_x ↦ simp yes_x (
      Perm.trans (perm_middle x (keep (λ x. not (p x)) xs) (keep p xs))
        (Perm.cons x (perm_split p xs)))
  | inr no_x ↦ simp no_x (Perm.cons x (perm_split p xs))
]

pub append-nil {ℓ} : {A : Type ℓ} (xs : List A) → xs ++ [] ≡ xs
append-nil [] = refl
append-nil (x ∷ xs) = ap (λ l. x ∷ l) (append-nil xs)
