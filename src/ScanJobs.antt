-- ===== src/ScanJobs.antt =====
-- scan_jobs.py: the background scan jobs, their progress, and the registry `_jobs`.
-- Each operation runs under the module's lock, so it is one step on the registry; the clock is
-- read once in a step, in microseconds. The dict keeps insertion order, as a list of entries does.
-- `R` is the result dict of the application's runner and `scan_id_of` its "scan_id" entry;
-- `round_percent done total` is the float expression `round((done / total) * 100)`.
pub mod Invariant
pub mod Active
pub mod Lifecycle
mod Tests
use domain_lens.Prelude.{
  ℕ, ◌-◌, ◌*◌, min, String, Bool, true, false, not, ◌&&◌, Option, none, some, List, [], ◌∷◌, ltb,
  ◌==◌, str_eq, if◌then◌else◌, keep, length,
}

pub data Status : Type 0 where
  running done error : Status

abbrev pub is_running : Status → Bool
is_running running = true
is_running _ = false

abbrev pub is_done : Status → Bool
is_done done = true
is_done _ = false

-- The dict of one job.
pub record Job (R : Type 0) : Type 0 where
  pub job_id : String
  pub domain : String
  pub status : Status
  pub finished : ℕ
  pub total : ℕ
  pub percent : ℕ
  pub current : Option String
  pub started_at : ℕ
  pub finished_at : Option ℕ
  pub result : Option R
  pub problem : Option String
  pub scan_id : Option ℕ

-- What a client receives: `result` is the key that is there only on request.
pub record View (R : Type 0) : Type 0 where
  pub job_id : String
  pub domain : String
  pub status : Status
  pub finished : ℕ
  pub total : ℕ
  pub percent : ℕ
  pub current : Option String
  pub started_at : ℕ
  pub finished_at : Option ℕ
  pub problem : Option String
  pub scan_id : Option ℕ
  pub result : Option (Option R)

abbrev pub Jobs : Type 0 → Type 0
Jobs R = List (String × Job R)

-- Microseconds.
abbrev pub second : ℕ
second = 1000000

abbrev pub retention_seconds : ℕ
retention_seconds = 900

abbrev pub max_runtime_seconds : ℕ
max_runtime_seconds = 600

-- A missing stamp gives the age 0; a stamp in the future gives a negative age, which no test passes.
abbrev pub age : ℕ → Option ℕ → ℕ
age now none = 0
age now (some stamp) = now - stamp

module _ {R : Type 0} where
  unfoldable pub is_stale : ℕ → Job R → Bool
  is_stale now job =
      not (is_running job.status) && ltb (retention_seconds * second) (age now job.finished_at)

  unfoldable pub prune : ℕ → Jobs R → Jobs R
  unfolding is_stale
  prune now jobs = keep (λ entry. not (is_stale now (entry.1))) jobs

  unfoldable pub is_stuck : ℕ → Job R → Bool
  is_stuck now job =
      is_running job.status && ltb (max_runtime_seconds * second) (age now (some job.started_at))

  pub public_view : Job R → Bool → View R
  public_view job include_result = record {
    job_id = job.job_id;
    domain = job.domain;
    status = job.status;
    finished = job.finished;
    total = job.total;
    percent = job.percent;
    current = job.current;
    started_at = job.started_at;
    finished_at = job.finished_at;
    problem = job.problem;
    scan_id = job.scan_id;
    result = if include_result && is_done job.status then some job.result else none;
  }

  pub count_running : ℕ → Jobs R → ℕ
  unfolding is_stuck
  count_running now jobs =
      length (keep (λ entry. is_running (entry.1).status && not (is_stuck now (entry.1))) jobs)

  -- The three assignments by which `find_active` and `get` give up a stuck job.
  abbrev pub abandon : ℕ → Job R → Job R
  abandon now job = record job {
    status = error;
    finished_at = some now;
    problem = some "Scan exceeded the maximum runtime and was abandoned";
  }

  -- The loop of `find_active`: it stops at the first running job that is not stuck.
  pub find_from : ℕ → String → Jobs R → Jobs R × Option (View R)
  unfolding is_stuck public_view
  find_from now domain [] = ([], none)
  find_from now domain ((key, job) ∷ rest) =
      let (rest', found) = find_from now domain rest in
      if str_eq job.domain domain && is_running job.status
      then (if is_stuck now job
          then ((key, abandon now job) ∷ rest', found)
          else ((key, job) ∷ rest, some (public_view job false)))
      else ((key, job) ∷ rest', found)

  pub find_active : ℕ → String → Jobs R → Jobs R × Option (View R)
  unfolding find_from prune
  find_active now domain jobs = find_from now domain (prune now jobs)

  -- `_jobs.get(job_id)`.
  unfoldable pub lookup : String → Jobs R → Option (Job R)
  lookup key [] = none
  lookup key ((k, job) ∷ rest) = if str_eq k key then some job else lookup key rest

  -- A change of the job object that the registry holds under a key. The worker of a job that the
  -- registry has dropped writes to an object that nobody reads any more.
  unfoldable pub amend : String → (Job R → Job R) → Jobs R → Jobs R
  amend key f [] = []
  amend key f ((k, job) ∷ rest) =
      let rest' = amend key f rest in if str_eq k key then (k, f job) ∷ rest else (k, job) ∷ rest'

  -- `_jobs[job_id] = job`: a new key goes to the end.
  unfoldable pub put : String → Job R → Jobs R → Jobs R
  put key job [] = (key, job) ∷ []
  put key job ((k, old) ∷ rest) =
      let rest' = put key job rest in if str_eq k key then (k, job) ∷ rest else (k, old) ∷ rest'

  abbrev pub expire : ℕ → Job R → Job R
  expire now job = if is_stuck now job then abandon now job else job

  pub get : ℕ → String → Bool → Jobs R → Jobs R × Option (View R)
  unfolding lookup amend is_stuck public_view
  get now job_id include_result jobs = elim (lookup job_id jobs) [
    | none ↦ (jobs, none)
    | some job ↦
        (amend job_id (expire now) jobs, some (public_view (expire now job) include_result))
  ]

  abbrev pub fresh : ℕ → String → String → Job R
  fresh now job_id domain = record {
    job_id = job_id;
    domain = domain;
    status = running;
    finished = 0;
    total = 0;
    percent = 0;
    current = none;
    started_at = now;
    finished_at = none;
    result = none;
    problem = none;
    scan_id = none;
  }

  -- `start` up to the thread; `job_id` is the new uuid.
  pub start : ℕ → String → String → Jobs R → Jobs R × View R
  unfolding prune put public_view
  start now job_id domain jobs =
      let job = fresh now job_id domain in (put job_id job (prune now jobs), public_view job false)

  -- `progress_cb`, as the worker of `job_id` calls it.
  unfoldable pub report : (ℕ → ℕ → ℕ) → ℕ → ℕ → String → Job R → Job R
  report round_percent finished total name job = record job {
    finished = finished;
    total = total;
    percent = if total == 0 then 0 else min 99 (round_percent finished total);
    current = some name;
  }

  -- The runner returned.
  unfoldable pub finish : (R → Option ℕ) → ℕ → Option R → Job R → Job R
  finish scan_id_of now result job = record job {
    result = result;
    scan_id = elim result [ none ↦ none | some r ↦ scan_id_of r ];
    status = done;
    percent = 100;
    current = none;
    finished_at = some now;
  }

  -- The runner raised; `message` is `str(exc)[:300]`.
  unfoldable pub fail : ℕ → String → Job R → Job R
  fail now message job = record job {
    status = error;
    problem = some message;
    finished_at = some now;
  }
