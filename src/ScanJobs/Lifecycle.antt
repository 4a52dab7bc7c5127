-- ===== src/ScanJobs/Lifecycle.antt =====
-- One job of scan_jobs.py from its start to its end, as a client sees it by polling.
use domain_lens.Prelude.{
  ℕ, ◌-◌, ◌*◌, ◌≤◌, ◌≡◌, refl, ◌∙◌, ◌≢◌, String, Bool, true, false, Option, none, some, [], ◌∷◌,
  arith, str_eq, eq_iff, eq_refl, if◌then◌else◌, keep,
}
use domain_lens.ScanJobs.{
  done, Job, Jobs, View, is_stuck, is_stale, abandon, expire, prune, lookup, amend, put, get, start,
  fresh, finish, public_view, second, retention_seconds, max_runtime_seconds,
}

module _ {R : Type 0} where
  lookup-put :
      (key k : String) (job : Job R) (jobs : Jobs R)
      → lookup k (put key job jobs) ≡ (if str_eq key k then some job else lookup k jobs)
  unfolding lookup put
  lookup-put key k job [] = refl
  lookup-put key k job ((i, old) ∷ rest) =
      ground (arith, eq_iff key k, eq_iff i key, eq_iff i k, lookup-put key k job rest)

  lookup-amend :
      (key k : String) (f : Job R → Job R) (jobs : Jobs R) (job : Job R)
      → lookup k jobs ≡ some job
      → lookup k (amend key f jobs) ≡ some (if str_eq key k then f job else job)
  unfolding lookup amend
  lookup-amend key k f [] job h = ground arith
  lookup-amend key k f ((i, old) ∷ rest) job h =
      ground (arith, eq_iff key k, eq_iff i key, eq_iff i k, lookup-amend key k f rest job)

  lookup-prune :
      (now : ℕ) (k : String) (jobs : Jobs R) (job : Job R)
      → lookup k jobs ≡ some job
      → is_stale now job ≡ false
      → lookup k (prune now jobs) ≡ some job
  unfolding lookup prune keep
  lookup-prune now k [] job h fresh_enough = h
  lookup-prune now k ((i, old) ∷ rest) job h fresh_enough =
      ground (arith, eq_iff i k, lookup-prune now k rest job)

  -- What `get` answers for a job that the registry holds.
  get-of_lookup :
      (now : ℕ) (key : String) (include_result : Bool) (jobs : Jobs R) (job : Job R)
      → lookup key jobs ≡ some job
      → get now key include_result jobs
        ≡ (amend key (expire now) jobs, some (public_view (expire now job) include_result))
  unfolding get amend public_view
  get-of_lookup now key include_result jobs job found = rw (found, get)

  -- A client that polls a job within the maximum runtime after its start sees it running, with an
  -- empty bar, and the registry still holds it as it was registered.
  pub get-start :
      (now later : ℕ) (key domain : String) (include_result : Bool) (jobs : Jobs R)
      → later - now ≤ max_runtime_seconds * second
      → (get later key include_result (start now key domain jobs).0).1
        ≡ some (public_view (fresh now key domain) include_result)
  unfolding start is_stuck
  get-start now later key domain include_result jobs soon =
      let job = fresh {R = R} now key domain in
      let found : lookup key (put key job (prune now jobs)) ≡ some job =
        rw lookup-put (rw eq_refl) in
      let live : is_stuck later job ≡ false = ground arith in
      rw (get-of_lookup later key include_result _ job found) (rw live)

  -- When the worker of a registered job finishes at `now`, and other scans are started or asked for
  -- no later than the retention time after that, a client that asks for the result gets it: the job is
  -- done, its bar is full, and it carries the runner's result and scan id.
  pub get-finish :
      (scan_id_of : R → Option ℕ) (now other later : ℕ) (key new_key domain : String) (result : R)
      (jobs : Jobs R) (job : Job R)
      → lookup key jobs ≡ some job
      → new_key ≢ key
      → other - now ≤ retention_seconds * second
      → (get later key true
          (start other new_key domain (amend key (finish scan_id_of now (some result)) jobs)).0).1
        ≡ some (record (public_view job true) {
          status = done;
          percent = 100;
          current = none;
          finished_at = some now;
          result = some (some result);
          scan_id = scan_id_of result;
        })
  unfolding start is_stuck is_stale finish public_view
  get-finish scan_id_of now other later key new_key domain result jobs job found distinct soon =
      let ended = finish scan_id_of now (some result) job in
      let jobs' = amend key (finish scan_id_of now (some result)) jobs in
      let held : lookup key jobs' ≡ some ended =
        lookup-amend key key (finish scan_id_of now (some result)) jobs job found ∙ rw eq_refl in
      let kept : lookup key (prune other jobs') ≡ some ended =
        lookup-prune other key jobs' ended held (ground arith) in
      let still : lookup key (put new_key (fresh other new_key domain) (prune other jobs'))
          ≡ some ended =
        lookup-put new_key key (fresh other new_key domain) (prune other jobs')
        ∙ ground (arith, eq_iff new_key key) in
      rw (get-of_lookup later key true _ ended still)

  -- A job that was given up as stuck and whose worker finishes after all is reported as done with
  -- its result, and still carries the text that it was abandoned.
  pub finish-abandon :
      (scan_id_of : R → Option ℕ) (now end later : ℕ) (key : String) (result : R) (jobs : Jobs R)
      (job : Job R)
      → lookup key jobs ≡ some job
      → is_stuck now job ≡ true
      → (v : View R) × ((get later key true
            (amend key (finish scan_id_of end (some result)) (get now key false jobs).0)).1
          ≡ some v)
        × (v.status ≡ done)
        × (v.result ≡ some (some result))
        × (v.problem ≡ some "Scan exceeded the maximum runtime and was abandoned")
  unfolding is_stuck finish public_view
  finish-abandon scan_id_of now end later key result jobs job found stuck =
      let given_up : lookup key (get now key false jobs).0 ≡ some (abandon now job) =
        rw (get-of_lookup now key false jobs job found)
          (lookup-amend key key (expire now) jobs job found ∙ rw (eq_refl, stuck)) in
      let ended = finish scan_id_of end (some result) (abandon now job) in
      let held : lookup key
            (amend key (finish scan_id_of end (some result)) (get now key false jobs).0)
          ≡ some ended =
        lookup-amend key key (finish scan_id_of end (some result)) _ (abandon now job) given_up
        ∙ rw eq_refl in
      (public_view ended true, rw (get-of_lookup later key true _ ended held), refl, refl, refl)
