-- ===== src/ScanJobs/Invariant.antt =====
-- The job invariant of scan_jobs.py, over every interleaving of requests and workers.
use domain_lens.Prelude.{
  ℕ, ◌≤◌, ◌≡◌, refl, ◌⊎◌, inl, inr, String, Bool, true, false, not, ◌&&◌, subst, sym, Option, none,
  some, [], ◌∷◌, arith, str_eq, eq_iff, Bool-cases, Option-cases, All, All-keep,
}
use domain_lens.ScanJobs.{
  done, Job, Jobs, is_running, is_done, is_stuck, is_stale, abandon, expire, prune, find_from,
  find_active, lookup, amend, put, get, fresh, start, report, finish, fail,
}

abbrev pub is_none {ℓ} : {A : Type ℓ} → Option A → Bool
is_none none = true
is_none (some _) = false

-- The registry's key is the job's id, a bar at 100 means a finished scan, and a job carries a
-- finishing time exactly when it is not running.
pub record IsSound {R : Type 0} (key : String) (job : Job R) : Type 0 where
  pub named : job.job_id ≡ key
  pub bar : (job.percent ≤ 99) ⊎ (job.percent ≡ 100) × (job.status ≡ done)
  pub closed : is_running job.status ≡ is_none job.finished_at

abbrev pub AllSound : {R : Type 0} → Jobs R → Type 0
AllSound jobs = All (λ entry. IsSound (entry.0) (entry.1)) jobs

module _ {R : Type 0} where
  fresh-IsSound : (now : ℕ) (key domain : String) → IsSound key (fresh {R = R} now key domain)
  fresh-IsSound now key domain = record { named = refl; bar = omega arith; closed = refl }

  abandon-IsSound :
      (now : ℕ) (key : String) (job : Job R)
      → IsSound key job
      → is_stuck now job ≡ true
      → IsSound key (abandon now job)
  unfolding is_stuck
  abandon-IsSound now key job h stuck = ground arith

  expire-IsSound :
      (now : ℕ) (key : String) (job : Job R) → IsSound key job → IsSound key (expire now job)
  expire-IsSound now key job h = elim (Bool-cases (is_stuck now job)) [
    | inl stuck ↦ rw stuck (abandon-IsSound now key job h stuck)
    | inr live ↦ rw live h
  ]

  report-IsSound :
      (round_percent : ℕ → ℕ → ℕ) (n m : ℕ) (name key : String) (job : Job R)
      → IsSound key job
      → IsSound key (report round_percent n m name job)
  unfolding report
  report-IsSound round_percent n m name key job h = ground arith

  finish-IsSound :
      (scan_id_of : R → Option ℕ) (now : ℕ) (result : Option R) (key : String) (job : Job R)
      → IsSound key job
      → IsSound key (finish scan_id_of now result job)
  unfolding finish
  finish-IsSound scan_id_of now result key job h = ground arith

  fail-IsSound :
      (now : ℕ) (message key : String) (job : Job R)
      → IsSound key job
      → is_done job.status ≡ false
      → IsSound key (fail now message job)
  unfolding fail
  fail-IsSound now message key job h unfinished = ground arith

  prune-AllSound : (now : ℕ) (jobs : Jobs R) → AllSound jobs → AllSound (prune now jobs)
  unfolding prune
  prune-AllSound now jobs h =
      All-keep (λ entry. IsSound (entry.0) (entry.1)) (λ entry. not (is_stale now (entry.1))) jobs h

  find_from-AllSound :
      (now : ℕ) (domain : String) (jobs : Jobs R)
      → AllSound jobs
      → AllSound (find_from now domain jobs).0
  unfolding find_from
  find_from-AllSound now domain [] h = tt
  find_from-AllSound now domain ((key, job) ∷ rest) h =
      elim (Bool-cases (str_eq job.domain domain && is_running job.status)) [
        | inl wanted ↦ elim (Bool-cases (is_stuck now job)) [
          | inl stuck ↦
              rw (wanted, stuck)
                (abandon-IsSound now key job (h.0) stuck, find_from-AllSound now domain rest (h.1))
          | inr live ↦ rw (wanted, live) h
        ]
        | inr other ↦ rw other (h.0, find_from-AllSound now domain rest (h.1))
      ]

  amend-AllSound :
      (key : String) (f : Job R → Job R) (jobs : Jobs R)
      → ((job : Job R) → lookup key jobs ≡ some job → IsSound key job → IsSound key (f job))
      → AllSound jobs
      → AllSound (amend key f jobs)
  unfolding amend lookup
  amend-AllSound key f [] step h = tt
  amend-AllSound key f ((k, job) ∷ rest) step h = elim (Bool-cases (str_eq k key)) [
    | inl same ↦ rw same (
      subst (λ s. IsSound s (f job)) (sym ((eq_iff k key).0 same))
          (step job (rw same) (subst (λ s. IsSound s job) ((eq_iff k key).0 same) (h.0))),
      h.1,
    )
    | inr other ↦ rw other (h.0, amend-AllSound key f rest (λ j e. step j (rw other e)) (h.1))
  ]

  put-AllSound :
      (key : String) (job : Job R) (jobs : Jobs R)
      → IsSound key job
      → AllSound jobs
      → AllSound (put key job jobs)
  unfolding put
  put-AllSound key job [] s h = (s, tt)
  put-AllSound key job ((k, old) ∷ rest) s h = elim (Bool-cases (str_eq k key)) [
    | inl same ↦ rw same (subst (λ t. IsSound t job) (sym ((eq_iff k key).0 same)) s, h.1)
    | inr other ↦ rw other (h.0, put-AllSound key job rest s (h.1))
  ]

  get-AllSound :
      (now : ℕ) (key : String) (include_result : Bool) (jobs : Jobs R)
      → AllSound jobs
      → AllSound (get now key include_result jobs).0
  unfolding get
  get-AllSound now key include_result jobs h = elim (Option-cases (lookup key jobs)) [
    | inl missing ↦ rw (missing, get) h
    | inr (job, found) ↦
        rw (found, get)
          (amend-AllSound key (expire now) jobs (λ j _ s. expire-IsSound now key j s) h)
  ]

-- One locked section: a request thread, a progress report, or the end of a worker. A worker ends
-- once, so an error is recorded only for a job whose result is not stored.
pub data Step {R : Type 0} (round_percent : ℕ → ℕ → ℕ) (scan_id_of : R → Option ℕ)
    : Jobs R → Jobs R → Type 0 where
  started :
      (now : ℕ) (key domain : String) (jobs : Jobs R)
      → Step round_percent scan_id_of jobs (start now key domain jobs).0
  asked :
      (now : ℕ) (domain : String) (jobs : Jobs R)
      → Step round_percent scan_id_of jobs (find_active now domain jobs).0
  polled :
      (now : ℕ) (key : String) (include_result : Bool) (jobs : Jobs R)
      → Step round_percent scan_id_of jobs (get now key include_result jobs).0
  reported :
      (key : String) (n m : ℕ) (name : String) (jobs : Jobs R)
      → Step round_percent scan_id_of jobs (amend key (report round_percent n m name) jobs)
  finished :
      (now : ℕ) (key : String) (result : Option R) (jobs : Jobs R)
      → Step round_percent scan_id_of jobs (amend key (finish scan_id_of now result) jobs)
  failed :
      (now : ℕ) (key message : String) (jobs : Jobs R)
      → ((job : Job R) → lookup key jobs ≡ some job → is_done job.status ≡ false)
      → Step round_percent scan_id_of jobs (amend key (fail now message) jobs)

-- The registries that a run reaches from the empty one.
pub data Reach {R : Type 0} (round_percent : ℕ → ℕ → ℕ) (scan_id_of : R → Option ℕ)
    : Jobs R → Type 0 where
  here : Reach round_percent scan_id_of []
  next :
      {jobs jobs' : Jobs R}
      → Reach round_percent scan_id_of jobs
      → Step round_percent scan_id_of jobs jobs'
      → Reach round_percent scan_id_of jobs'

module _ {R : Type 0} (round_percent : ℕ → ℕ → ℕ) (scan_id_of : R → Option ℕ) where
  Step-AllSound :
      {jobs jobs' : Jobs R}
      → Step round_percent scan_id_of jobs jobs'
      → AllSound jobs
      → AllSound jobs'
  unfolding start find_active
  Step-AllSound (started now key domain jobs) h =
      put-AllSound key (fresh now key domain) (prune now jobs) (fresh-IsSound now key domain)
        (prune-AllSound now jobs h)
  Step-AllSound (asked now domain jobs) h =
      find_from-AllSound now domain (prune now jobs) (prune-AllSound now jobs h)
  Step-AllSound (polled now key include_result jobs) h = get-AllSound now key include_result jobs h
  Step-AllSound (reported key n m name jobs) h =
      amend-AllSound key (report round_percent n m name) jobs
        (λ job _. report-IsSound round_percent n m name key job) h
  Step-AllSound (finished now key result jobs) h =
      amend-AllSound key (finish scan_id_of now result) jobs
        (λ job _. finish-IsSound scan_id_of now result key job) h
  Step-AllSound (failed now key message jobs open_job) h =
      amend-AllSound key (fail now message) jobs
        (λ job e s. fail-IsSound now message key job s (open_job job e)) h

  -- In every registry that requests and workers reach from the empty one, in any order of their
  -- locked sections, each job stands under its own id, its bar shows 100 only if the scan is done,
  -- and it has a finishing time exactly when it is not running. A worker ends once.
  pub Reach-AllSound : (jobs : Jobs R) → Reach round_percent scan_id_of jobs → AllSound jobs
  Reach-AllSound jobs here = tt
  Reach-AllSound jobs (next {jobs = before} reached step) =
      Step-AllSound step (Reach-AllSound before reached)
