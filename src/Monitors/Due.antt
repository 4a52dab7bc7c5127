-- ===== src/Monitors/Due.antt =====
-- Which monitors `list_monitors` of db.py hands out to be scanned, and in which order.
use domain_lens.Prelude.{
  ℕ, zero, suc, ◌≤◌, ◌≡◌, refl, ◌≢◌, true, false, none, some, List, [], ◌∷◌, ◌++◌, arith, All, keep,
  length, subst, sym, ap, Bool, leb, ◌&&◌, Option-cases, inl, inr,
}
use mathlib.Core.List.{Perm}
use domain_lens.Prelude.Sorting.{
  sort, sort-perm, sort-All, IsSorted, sort-IsSorted, IsSorted-append,
}
use domain_lens.Monitors.{Monitor, Table, selected, scan_order, take, list_monitors, is_due}

scan_order_total : (a b : Monitor) → scan_order a b ≡ false → scan_order b a ≡ true
unfolding scan_order
scan_order_total a b h = ground arith

scan_order_trans :
    (a b c : Monitor) → scan_order a b ≡ true → scan_order b c ≡ true → scan_order a c ≡ true
unfolding scan_order
scan_order_trans a b c h k = ground arith

drop : ℕ → List Monitor → List Monitor
drop zero ms = ms
drop (suc n) [] = []
drop (suc n) (m ∷ ms) = drop n ms

take-append-drop : (n : ℕ) (ms : List Monitor) → take n ms ++ drop n ms ≡ ms
unfolding take drop
take-append-drop zero ms = refl
take-append-drop (suc n) [] = refl
take-append-drop (suc n) (m ∷ ms) = ap (λ l. m ∷ l) (take-append-drop n ms)

length-take : (n : ℕ) (ms : List Monitor) → length (take n ms) ≤ n
unfolding take
length-take zero ms = omega arith
length-take (suc n) [] = omega arith
length-take (suc n) (m ∷ ms) = omega (arith, length-take n ms)

take_full : (n : ℕ) (ms : List Monitor) → drop n ms ≢ [] → length (take n ms) ≡ n
unfolding take drop
take_full zero ms h = refl
take_full (suc n) [] h = absurd (h refl)
take_full (suc n) (m ∷ ms) h = ap suc (take_full n ms h)

All-before {κ} : (P : Monitor → Type κ) (xs ys : List Monitor) → All P (xs ++ ys) → All P xs
All-before P [] ys h = tt
All-before P (x ∷ xs) ys h = (h.0, All-before P xs ys (h.1))

keep-selected :
    (now : ℕ) (rows : List Monitor)
    → All
        (λ m. (m.enabled ≡ true) × (is_due now m ≡ true))
        (keep (selected now (some true) true) rows)
unfolding keep selected
keep-selected now [] = tt
keep-selected now (m ∷ rest) = ground (arith, keep-selected now rest)

-- The time from which a monitor is due, 0 where it has none.
abbrev pub due_time : Monitor → ℕ
due_time m = elim m.next_scan_at [ none ↦ 0 | some t ↦ t ]

All-after {κ} : (P : Monitor → Type κ) (xs ys : List Monitor) → All P (xs ++ ys) → All P ys
All-after P [] ys h = h
All-after P (x ∷ xs) ys h = All-after P xs ys (h.1)

-- By the order of the call, of two due monitors the first was due no later.
scan_order-due_time :
    (now : ℕ) (a b : Monitor)
    → is_due now a ≡ true
    → is_due now b ≡ true
    → scan_order a b ≡ true
    → due_time a ≤ due_time b
unfolding scan_order
scan_order-due_time now a b h k o = ground arith

due_first_all :
    (now : ℕ) (m : Monitor) (left : List Monitor)
    → is_due now m ≡ true
    → All (λ l. (l.enabled ≡ true) × (is_due now l ≡ true)) left
    → All (λ l. scan_order m l ≡ true) left
    → All (λ l. due_time m ≤ due_time l) left
due_first_all now m [] h ds os = tt
due_first_all now m (l ∷ left) h ds os =
    (scan_order-due_time now m l h (ds.0.1) (os.0), due_first_all now m left h (ds.1) (os.1))

due_first :
    (now : ℕ) (chosen left : List Monitor)
    → All (λ l. (l.enabled ≡ true) × (is_due now l ≡ true)) chosen
    → All (λ l. (l.enabled ≡ true) × (is_due now l ≡ true)) left
    → All (λ m. All (λ l. scan_order m l ≡ true) left) chosen
    → All (λ m. All (λ l. due_time m ≤ due_time l) left) chosen
due_first now [] left cs ds os = tt
due_first now (m ∷ chosen) left cs ds os =
    (due_first_all now m left (cs.0.1) ds (os.0), due_first now chosen left (cs.1) ds (os.1))

-- A monitor is enabled and the time of its next scan has come.
abbrev pub IsWaiting : ℕ → Monitor → Type 0
IsWaiting now m = (m.enabled ≡ true) × (t : ℕ) × (m.next_scan_at ≡ some t) × (t ≤ now)

-- The test of it.
abbrev pub is_waiting : ℕ → Monitor → Bool
is_waiting now m = elim m.next_scan_at [ none ↦ false | some t ↦ leb t now && m.enabled ]

keep-is_waiting :
    (now : ℕ) (rows : List Monitor)
    → keep (selected now (some true) true) rows ≡ keep (is_waiting now) rows
unfolding keep selected
keep-is_waiting now [] = refl
keep-is_waiting now (m ∷ rest) = ground (arith, keep-is_waiting now rest)

due-IsWaiting : (now : ℕ) (m : Monitor) → m.enabled ≡ true → is_due now m ≡ true → IsWaiting now m
due-IsWaiting now m on due = elim (Option-cases m.next_scan_at) [
  | inl never ↦ absurd (ground (arith, due, never))
  | inr (t, at) ↦ (on, t, at, ground (arith, due, at))
]

all-IsWaiting :
    (now : ℕ) (ms : List Monitor)
    → All (λ m. (m.enabled ≡ true) × (is_due now m ≡ true)) ms
    → All (IsWaiting now) ms
all-IsWaiting now [] h = tt
all-IsWaiting now (m ∷ rest) h = (due-IsWaiting now m (h.0.0) (h.0.1), all-IsWaiting now rest (h.1))

-- What a call for the due monitors hands out and what it leaves for the next call.
pub record Handout (now limit : ℕ) (table : Table) (chosen : List Monitor) : Type 0 where
  pub left : List Monitor
  pub all_due : Perm (chosen ++ left) (keep (is_waiting now) table.rows)
  pub due : All (IsWaiting now) chosen
  pub longest_first : All (λ m. All (λ later. due_time m ≤ due_time later) left) chosen
  pub at_most : length chosen ≤ limit
  pub full : left ≢ [] → length chosen ≡ limit

-- The call for due monitors hands out enabled monitors whose time has come, at most as many as the
-- limit. What it leaves is the rest of those monitors, and only when the limit is reached; none of
-- the rest was due before one that is handed out.
pub list_monitors-Handout :
    (now limit : ℕ) (table : Table)
    → Handout now limit table (list_monitors now (some true) true limit table)
unfolding list_monitors
list_monitors-Handout now limit table =
    let found = keep (selected now (some true) true) table.rows in
    let sorted = sort scan_order found in
    let whole = take-append-drop limit sorted in
    let chosen = take limit sorted in
    let left = drop limit sorted in
    let due : All (λ m. (m.enabled ≡ true) × (is_due now m ≡ true)) (chosen ++ left) =
      subst (All _) (sym whole) (sort-All scan_order _ found (keep-selected now table.rows)) in
    record {
      left = left;
      all_due =
          subst (Perm (chosen ++ left)) (keep-is_waiting now table.rows)
            (subst (λ l. Perm l found) (sym whole) (sort-perm scan_order found));
      due = all-IsWaiting now chosen (All-before _ chosen left due);
      longest_first =
          due_first now chosen left (All-before _ chosen left due) (All-after _ chosen left due) (
            IsSorted-append scan_order scan_order_total scan_order_trans chosen left (
              subst (IsSorted scan_order) (sym whole)
                (sort-IsSorted scan_order scan_order_total scan_order_trans found)));
      at_most = length-take limit sorted;
      full = take_full limit sorted;
    }
