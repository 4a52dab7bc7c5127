-- ===== src/ScanJobs/Active.antt =====
-- What `find_active` of scan_jobs.py answers, and what it leaves behind.
use domain_lens.Prelude.{
  ℕ, ◌-◌, ◌*◌, ◌≤◌, ◌≡◌, ◌↔◌, String, Bool, false, ◌&&◌, none, some, [], ◌∷◌, arith, leb, str_eq,
  eq_iff, All, keep,
}
use domain_lens.ScanJobs.{
  running, Job, Jobs, View, is_running, prune, find_from, find_active, second, max_runtime_seconds,
}

-- A job that runs for the domain, and for no longer than a job may.
unfoldable pub is_live : {R : Type 0} → ℕ → String → Job R → Bool
is_live now domain job =
    str_eq job.domain domain
    && (is_running job.status && leb (now - job.started_at) (max_runtime_seconds * second))

abbrev pub Idle : {R : Type 0} → ℕ → String → Jobs R → Type 0
Idle now domain jobs = All (λ entry. is_live now domain (entry.1) ≡ false) jobs

module _ {R : Type 0} (now : ℕ) (domain : String) where
  find_from-eq-none :
      (jobs : Jobs R) → ((find_from now domain jobs).1 ≡ none) ↔ Idle now domain jobs
  unfolding find_from is_live
  find_from-eq-none [] = (λ _. tt, λ _ i. none)
  find_from-eq-none ((key, job) ∷ rest) = ground (arith, find_from-eq-none rest)

  find_from-clears :
      (jobs : Jobs R)
      → (find_from now domain jobs).1 ≡ none
      → All
          (λ entry. (str_eq (entry.1).domain domain && is_running (entry.1).status) ≡ false)
          (find_from now domain jobs).0
  unfolding find_from
  find_from-clears [] h = tt
  find_from-clears ((key, job) ∷ rest) h = ground (arith, find_from-clears rest)

  find_from-some :
      (jobs : Jobs R) (v : View R)
      → (find_from now domain jobs).1 ≡ some v
      → (v.domain ≡ domain)
        × (v.status ≡ running)
        × (now - v.started_at ≤ max_runtime_seconds * second)
  unfolding find_from
  find_from-some [] v h = ground arith
  find_from-some ((key, job) ∷ rest) v h =
      ground (arith, find_from-some rest v, eq_iff job.domain domain)

  prune-Idle : (jobs : Jobs R) → Idle now domain (prune now jobs) ↔ Idle now domain jobs
  unfolding prune keep is_live
  prune-Idle [] = (λ h. h, λ h. h)
  prune-Idle ((key, job) ∷ rest) = ground (arith, prune-Idle rest)

  -- A request for the running job of a domain gets none exactly when every job of the registry,
  -- as it stood before the request, is of another domain, not running, or running for more than
  -- the maximum runtime.
  pub find_active-eq-none :
      (jobs : Jobs R) → ((find_active now domain jobs).1 ≡ none) ↔ Idle now domain jobs
  unfolding find_active
  find_active-eq-none jobs =
      let (a, b) = find_from-eq-none (prune now jobs) in
      let (c, d) = prune-Idle jobs in (λ h. c (a h), λ h. b (d h))

  -- A hung scan does not block a later one: where every job of the domain that is running has been
  -- for longer than the maximum runtime, a request for the running job of the domain gets none, and
  -- leaves no job of the domain running.
  pub find_active-clears :
      (jobs : Jobs R)
      → Idle now domain jobs
      → ((find_active now domain jobs).1 ≡ none)
        × All
            (λ entry. (str_eq (entry.1).domain domain && is_running (entry.1).status) ≡ false)
            (find_active now domain jobs).0
  unfolding find_active
  find_active-clears jobs idle =
      let found = (find_active-eq-none jobs).1 idle in
      (found, find_from-clears (prune now jobs) found)

  -- The job that a request for the running job of a domain gets is of that domain, it is running,
  -- and it has been for at most the maximum runtime.
  pub find_active-some :
      (jobs : Jobs R) (v : View R)
      → (find_active now domain jobs).1 ≡ some v
      → (v.domain ≡ domain)
        × (v.status ≡ running)
        × (now - v.started_at ≤ max_runtime_seconds * second)
  unfolding find_active
  find_active-some jobs = find_from-some (prune now jobs)
