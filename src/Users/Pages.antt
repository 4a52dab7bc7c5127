-- ===== src/Users/Pages.antt =====
-- That the pages of `find_users_for_scim` of db.py make up the whole list.
use domain_lens.Prelude.{
  ℕ, zero, suc, ◌+◌, ◌-◌, ◌*◌, ◌≤◌, ◌≡◌, refl, ap, Option, some, List, [], ◌∷◌, ◌++◌, arith, keep,
  length, length-keep, subst, sym, max, Text,
}
use mathlib.Core.List.{Perm}
use domain_lens.Prelude.Sorting.{sort, sort-perm, length-sort}
use domain_lens.Users.{User, Users, take, drop, by_id, fits, count_of, Page, find_users_for_scim}

take-drop : (n : ℕ) (us : List User) → take n us ++ drop n us ≡ us
unfolding take drop
take-drop zero us = refl
take-drop (suc n) [] = refl
take-drop (suc n) (u ∷ us) = ap (λ l. u ∷ l) (take-drop n us)

drop_none : (n : ℕ) → drop n [] ≡ []
unfolding drop
drop_none zero = refl
drop_none (suc n) = refl

take_none : (n : ℕ) → take n [] ≡ []
unfolding take
take_none zero = refl
take_none (suc n) = refl

take-drop_next : (c n : ℕ) (us : List User) → take c (drop n us) ++ drop (n + c) us ≡ drop n us
unfolding take drop
take-drop_next c zero us = let e : 0 + c ≡ c = omega arith in rw e (take-drop c us)
take-drop_next c (suc n) [] = rw (drop_none (suc n + c), take_none c) refl
take-drop_next c (suc n) (u ∷ us) =
    let e : suc n + c ≡ suc (n + c) = omega arith in rw e (take-drop_next c n us)

drop_all : (n : ℕ) (us : List User) → length us ≤ n → drop n us ≡ []
unfolding drop
drop_all zero [] h = refl
drop_all zero (u ∷ us) h = absurd (omega arith)
drop_all (suc n) [] h = refl
drop_all (suc n) (u ∷ us) h = drop_all n us (omega (arith, h))

count_lem : (count : ℕ) → 1 ≤ count → count ≤ 200 → count_of (some count) ≡ count
count_lem zero h k = absurd (omega arith)
count_lem (suc n) h k = omega arith

module _ (user_name external_id : Option Text) (count : ℕ) (t : Users) where
  page : ℕ → Page
  page start = find_users_for_scim user_name external_id (some start) (some count) t

  -- The accounts that a client gets which asks for so many pages, each from where the last one
  -- ended.
  pub walk : ℕ → ℕ → List User
  unfolding page
  walk zero start = []
  walk (suc pages) start = (page start).items ++ walk pages (start + count)

  abbrev found : List User
  found = sort by_id (keep (fits user_name external_id) t.rows)

  items-page : (n : ℕ) → 1 ≤ count → count ≤ 200 → (page (n + 1)).items ≡ take count (drop n found)
  unfolding page find_users_for_scim
  items-page n h k =
      let size : count_of (some count) ≡ count = count_lem count h k in
      let first : max 1 (n + 1) - 1 ≡ n = omega arith in rw (size, first) refl

  walk-found :
      (pages n : ℕ)
      → 1 ≤ count
      → count ≤ 200
      → length found ≤ n + pages * count
      → walk pages (n + 1) ≡ drop n found
  unfolding walk
  walk-found zero n h k e = let gone = drop_all n found (omega (arith, e)) in rw gone refl
  walk-found (suc pages) n h k e =
      let rest = walk-found pages (n + count) h k (omega (arith, e)) in
      let start : n + 1 + count ≡ n + count + 1 = omega arith in
      rw (items-page n h k, start, rest) (take-drop_next count n found)

-- A client of the list of accounts that asks for pages of a fixed size, at most 200, each from where
-- the last one ended, and asks for enough of them, gets every account that fits the filters, each
-- as often as it is in the table.
pub walk-all :
    (user_name external_id : Option Text) (count pages : ℕ) (t : Users)
    → 1 ≤ count
    → count ≤ 200
    → length t.rows ≤ pages * count
    → Perm (walk user_name external_id count t pages 1) (keep (fits user_name external_id) t.rows)
walk-all user_name external_id count pages t h k e =
    let fitting = keep (fits user_name external_id) t.rows in
    let sorted = sort-perm by_id fitting in
    let size : length (sort by_id fitting) ≡ length fitting = length-sort by_id fitting in
    let most = length-keep (fits user_name external_id) t.rows in
    let whole =
      walk-found user_name external_id count t pages 0 h k (omega (arith, size, most, e)) in
    subst (λ l. Perm l fitting) (sym whole) (unfold drop in sorted)
