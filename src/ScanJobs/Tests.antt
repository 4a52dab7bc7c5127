-- ===== src/ScanJobs/Tests.antt =====
-- Runs of scan_jobs.py on a small registry, and its theorems there. A scan's result is a number,
-- its own scan id.
use domain_lens.Prelude.{
  ℕ, ◌*◌, ◌/◌, ◌≡◌, refl, keep, true, false, Option, none, some, [], ◌∷◌, All, str_eq, ◌&&◌,
}
use domain_lens.ScanJobs.{
  done, Jobs, View, is_running, is_stuck, is_stale, prune, find_from, find_active, find_active,
  public_view, lookup, amend, put, get, fresh, start, report, finish, count_running,
}
use domain_lens.ScanJobs.Invariant.{
  AllSound, Reach, here, next, started, reported, finished, Reach-AllSound,
}
use domain_lens.ScanJobs.Active.{is_live, find_active-clears}
use domain_lens.ScanJobs.Lifecycle.{finish-abandon}

abbrev percent_of : ℕ → ℕ → ℕ
percent_of n m = n * 100 / m

abbrev own_id : ℕ → Option ℕ
own_id n = some n

abbrev one_job : Jobs ℕ
one_job = ("a1", fresh 0 "a1" "example.com") ∷ []

abbrev now_stuck : ℕ
now_stuck = 601000000

abbrev found : View ℕ
found = public_view (fresh 0 "a1" "example.com") false

-- Opens what the tests run.
run : Unit {0}
unfolding start prune is_stale put report finish get lookup amend is_stuck public_view find_active
    find_from count_running keep
run = tt

report_percent : (report percent_of 3 4 "DNS" (fresh {R = ℕ} 0 "a1" "example.com")).percent ≡ 75
unfolding run
report_percent = refl

find_active_stuck : (find_active now_stuck "example.com" one_job).1 ≡ none
unfolding run
find_active_stuck = refl

find_active_live : (find_active 5 "example.com" one_job).1 ≡ some found
unfolding run
find_active_live = refl

count_running_one : count_running 5 one_job ≡ 1
unfolding run
count_running_one = refl

run_to_end : Reach percent_of own_id (
    amend "a1"
      (finish own_id 9 (some 4))
      (amend "a1" (report percent_of 3 4 "DNS") (start {R = ℕ} 0 "a1" "example.com" []).0))
run_to_end =
    next (next (next here (started 0 "a1" "example.com" [])) (reported "a1" 3 4 "DNS" _))
      (finished 9 "a1" (some 4) _)

Reach-AllSound_example : AllSound (
    amend "a1"
      (finish own_id 9 (some 4))
      (amend "a1" (report percent_of 3 4 "DNS") (start {R = ℕ} 0 "a1" "example.com" []).0))
Reach-AllSound_example = Reach-AllSound percent_of own_id _ run_to_end

find_active-clears_example :
    ((find_active now_stuck "example.com" one_job).1 ≡ none)
    × All
        (λ entry. (str_eq (entry.1).domain "example.com" && is_running (entry.1).status) ≡ false)
        (find_active now_stuck "example.com" one_job).0
find_active-clears_example =
    find_active-clears now_stuck "example.com" one_job (unfold is_live in refl, tt)

finish-abandon_example :
    (v : View ℕ) × ((get 700000000 "a1" true
        (amend "a1" (finish own_id 650000000 (some 4)) (get now_stuck "a1" false one_job).0)).1
      ≡ some v)
    × (v.status ≡ done)
    × (v.result ≡ some (some 4))
    × (v.problem ≡ some "Scan exceeded the maximum runtime and was abandoned")
finish-abandon_example =
    finish-abandon own_id now_stuck 650000000 700000000 "a1" 4 one_job (fresh 0 "a1" "example.com")
      (unfold lookup in refl) (unfold is_stuck in refl)
