-- ===== src/Scheduler.antt =====
-- scheduler.py: the pass over the due monitors, and what it records of each. The clock is read once
-- in a pass, in microseconds. `scan` is the application's `scan_monitor_fn`: it may change the
-- world, and it returns a scan, reports that DNS gave no answer, or raises (the text is
-- `safe_error_fn`'s). `completed` is the order in which the scans of a pool end, where the
-- concurrency is above 1; else they end in the order of the call. Scans of a pool change the world one
-- after the other. A call of `notify_fn` is an entry of `notices`.
pub mod Record
pub mod Pass
mod Tests
use domain_lens.Prelude.{
  ℕ, zero, suc, ◌+◌, ◌*◌, Bool, true, false, not, Option, none, some, List, [], ◌∷◌, ◌++◌, ltb, leb,
  ◌==◌, String, if◌then◌else◌, keep, length, map,
}
use domain_lens.Prelude.Int.{ℤ, pos}
use domain_lens.Monitors.{
  Sched, Metadata, Monitor, Table, Change, set_metadata, set_next_scan_at, update_monitor,
  get_monitor, list_monitors,
}
use domain_lens.Schedule.{Zone, minute, next_run}

pub record Settings : Type 0 where
  pub enabled : Bool
  pub max_monitors_per_run : ℕ
  pub concurrency : ℕ
  pub failure_backoff_minutes : ℕ
  pub max_consecutive_failures : ℕ
  pub dns_retry_minutes : ℕ
  pub dns_max_retries : ℕ
  pub digest_enabled : Bool
  pub digest_interval_hours : ℕ

-- `_state`, without the duration of the last run and the time the thread started.
pub record State : Type 0 where
  pub last_run_at : Option ℕ
  pub last_run_processed : ℕ
  pub last_run_errors : ℕ
  pub last_run_skipped_backoff : ℕ
  pub last_run_postponed_dns : ℕ
  pub last_error : Option ℕ
  pub total_runs : ℕ
  pub last_digest_at : Option ℕ
  pub dns_down_since : Option ℕ
  pub dns_error : Option String

pub data DnsState : Type 0 where
  resolver_down domain_down : DnsState

-- A row of `monitor_events`: a failed scan with its error, or name servers that were silent since a
-- time, for so many attempts.
pub data Kind : Type 0 where
  scan_failed : String → Kind
  dns_unanswered : ℕ → ℕ → Kind

pub record Event : Type 0 where
  pub id : ℕ
  pub monitor_id : ℕ
  pub kind : Kind
  pub created_at : ℕ

pub record World : Type 0 where
  pub table : Table
  pub events : List Event
  pub next_event : ℕ
  pub notices : List ℕ
  pub state : State

pub data Outcome : Type 0 where
  scanned : ℕ → String → Outcome
  dns_unavailable : DnsState → Option String → Outcome
  raised : String → Outcome

pub data Status : Type 0 where
  ok : ℕ → String → Status
  postponed : DnsState → Status
  error : String → Status

-- One entry of a pass's results.
pub record Item : Type 0 where
  pub monitor_id : ℕ
  pub target : String
  pub status : Status

abbrev pub is_error : Item → Bool
is_error item = elim item.status [ ok _ _ ↦ false | postponed _ ↦ false | error _ ↦ true ]

abbrev pub is_postponed : Item → Bool
is_postponed item = elim item.status [ ok _ _ ↦ false | postponed _ ↦ true | error _ ↦ false ]

abbrev pub sched_of : Monitor → Sched
sched_of m = (m.metadata).scheduler

abbrev pub with_sched : Monitor → Sched → Metadata
with_sched m sched = record (m.metadata) { scheduler = sched }

pub in_backoff : ℕ → Monitor → Bool
in_backoff now m = elim (sched_of m).backoff_until [ none ↦ false | some until ↦ ltb now until ]

unfoldable pub write : ℕ → ℕ → List Change → World → World
write now id changes world = record world { table = (update_monitor now id changes world.table).0 }

-- `create_monitor_event` and the call of `notify_fn` behind it.
unfoldable pub announce : ℕ → ℕ → Kind → World → World
announce now monitor_id kind world = record world {
  events =
      world.events
      ++ record { id = world.next_event; monitor_id = monitor_id; kind = kind; created_at = now }
        ∷ [];
  next_event = world.next_event + 1;
  notices = world.notices ++ world.next_event ∷ [];
}

abbrev pub cleared : Sched → Sched
cleared sched = record sched {
  consecutive_failures = 0;
  backoff_until = none;
  dns_retries = 0;
  dns_unanswered_since = none;
}

-- `_record_success`, on the metadata that the monitor had when the pass read it.
pub record_success : ℕ → Monitor → World → World
unfolding write
record_success now m world =
    write now m.id (set_metadata (with_sched m (cleared (sched_of m))) ∷ []) world

abbrev pub failed_sched : ℕ → Settings → String → Sched → Sched
failed_sched now settings message sched =
    let failures = sched.consecutive_failures + 1 in
    record sched {
      consecutive_failures = failures;
      last_error = some message;
      last_failed_at = some now;
      backoff_until =
          if leb settings.max_consecutive_failures failures
          then some (now + settings.failure_backoff_minutes * minute)
          else sched.backoff_until;
    }

pub record_failure : ℕ → Settings → String → Monitor → World → World
unfolding write
record_failure now settings message m world =
    write now m.id
      (set_metadata (with_sched m (failed_sched now settings message (sched_of m))) ∷ []) world

unfoldable pub note_dns_down : ℕ → Option String → World → World
note_dns_down now message world = record world {
  state = record (world.state) {
    dns_down_since = elim (world.state).dns_down_since [ none ↦ some now | some t ↦ some t ];
    dns_error = message;
  };
}

unfoldable pub note_dns_up : World → World
note_dns_up world = record world {
  state = record (world.state) { dns_down_since = none; dns_error = none };
}

abbrev pub since_or : ℕ → Option ℕ → ℕ
since_or now none = now
since_or now (some t) = t

abbrev pub or_monitor : Option Monitor → Monitor → Monitor
or_monitor none m = m
or_monitor (some fresh) m = fresh

-- `_postpone_for_dns` while attempts are left: try again in a while.
unfoldable pub try_again : ℕ → Settings → Monitor → World → World
unfolding write
try_again now settings m world =
    let sched = sched_of m in
    write now m.id
      (set_metadata (
          with_sched m (record sched {
            dns_retries = sched.dns_retries + 1;
            dns_unanswered_since = some (since_or now sched.dns_unanswered_since);
          }))
        ∷ set_next_scan_at (some (now + settings.dns_retry_minutes * minute))
        ∷ [])
      world

-- `_postpone_for_dns` at the last attempt: the event, and the next regular run.
unfoldable pub give_up : (String → Option Zone) → ℕ → Monitor → World → World
unfolding write announce
give_up zone_of now m world =
    let sched = sched_of m in
    let fresh = or_monitor (get_monitor m.id world.table) m in
    let following =
      next_run zone_of (some (pos fresh.schedule_minutes)) fresh.scan_time fresh.scan_tz now
        false in
    announce now m.id
      (dns_unanswered (since_or now sched.dns_unanswered_since) (sched.dns_retries + 1))
      (write now m.id
        (set_metadata (with_sched m (record sched { dns_retries = 0; dns_unanswered_since = none }))
          ∷ set_next_scan_at (some following)
          ∷ [])
        world)

-- `_postpone_for_dns`.
unfoldable pub postpone :
    (String → Option Zone)
    → ℕ
    → Settings
    → DnsState
    → Option String
    → Monitor
    → World
    → World × Status
unfolding note_dns_down
postpone zone_of now settings resolver_down message m world =
    (note_dns_down now message world, postponed resolver_down)
postpone zone_of now settings domain_down message m world = (
  if ltb ((sched_of m).dns_retries + 1) settings.dns_max_retries
      then try_again now settings m world
      else give_up zone_of now m world,
  postponed domain_down,
)

-- What `_run_one` does with the outcome of a scan.
unfoldable pub settle :
    (String → Option Zone) → ℕ → Settings → Monitor → World × Outcome → World × Status
unfolding record_success record_failure postpone announce
settle zone_of now settings m (world, scanned scan_id event) =
    (record_success now m world, ok scan_id event)
settle zone_of now settings m (world, dns_unavailable state message) =
    postpone zone_of now settings state message m world
settle zone_of now settings m (world, raised message) = (
  announce now m.id (scan_failed message) (record_failure now settings message m world),
  error message,
)

module _ (zone_of : String → Option Zone) (scan : Monitor → World → World × Outcome) where
  unfoldable pub run_one : ℕ → Settings → Monitor → World → World × Item
  unfolding settle
  run_one now settings m world =
      let (world', status) = settle zone_of now settings m (scan m world) in
      (world', record { monitor_id = m.id; target = m.target; status = status })

  unfoldable pub run_all : ℕ → Settings → List Monitor → World → World × List Item
  unfolding run_one
  run_all now settings [] world = (world, [])
  run_all now settings (m ∷ rest) world =
      let (world', item) = run_one now settings m world in
      let (world'', items) = run_all now settings rest world' in (world'', item ∷ items)

  -- The results that stand in for scans while the resolver is down.
  abbrev pub waiting : Monitor → Item
  waiting m = record { monitor_id = m.id; target = m.target; status = postponed resolver_down }

  -- `resolver_check_fn`, where there is one and something to run: the results there are already, and
  -- the monitors that are left to run.
  unfoldable pub ask_resolver :
      ℕ → Option (Bool × Option String) → List Monitor → World → World × List Item × List Monitor
  unfolding note_dns_up note_dns_down
  ask_resolver now check [] world = (world, [], [])
  ask_resolver now none (m ∷ rest) world = (world, [], m ∷ rest)
  ask_resolver now (some (true, message)) (m ∷ rest) world = (note_dns_up world, [], m ∷ rest)
  ask_resolver now (some (false, message)) (m ∷ rest) world =
      (note_dns_down now message world, map waiting (m ∷ rest), [])

  -- The order in which the scans end: one after the other, or as they complete in the pool.
  abbrev pub in_turn : (List Monitor → List Monitor) → Settings → List Monitor → List Monitor
  in_turn completed settings ms = if leb settings.concurrency 1 then ms else completed ms

  -- The resolver and the loops: what is left to run is run, behind the results there are.
  unfoldable pub attend :
      (List Monitor → List Monitor)
      → ℕ
      → Settings
      → Option (Bool × Option String)
      → List Monitor
      → World
      → World × List Item
  unfolding ask_resolver run_all
  attend completed now settings check runnable world =
      let (asked, results, left) = ask_resolver now check runnable world in
      let (world', items) = run_all now settings (in_turn completed settings left) asked in
      (world', results ++ items)

  pub record Report : Type 0 where
    pub processed : ℕ
    pub results : List Item
    pub running : Bool
    pub skipped_backoff : ℕ
    pub postponed_dns : ℕ

  abbrev pub batch_limit : Settings → Option ℕ → ℕ
  batch_limit settings none = settings.max_monitors_per_run
  batch_limit settings (some zero) = settings.max_monitors_per_run
  batch_limit settings (some (suc n)) = suc n

  -- `_update_state` at the end of a pass; the number stands for the text of `last_error`.
  unfoldable pub close_pass : ℕ → List Item → ℕ → World → World
  close_pass now results skipped world =
      let errors = length (keep is_error results) in
      record world {
        state = record (world.state) {
          last_run_at = some now;
          last_run_processed = length results;
          last_run_errors = errors;
          last_run_skipped_backoff = skipped;
          last_run_postponed_dns = length (keep is_postponed results);
          last_error = if errors == 0 then none else some errors;
          total_runs = (world.state).total_runs + 1;
        };
      }

  abbrev pub due_of : ℕ → Settings → Option ℕ → World → List Monitor
  due_of now settings limit world =
      list_monitors now (some true) true (batch_limit settings limit) world.table

  abbrev pub runnable_of : ℕ → List Monitor → List Monitor
  runnable_of now due = keep (λ m. not (in_backoff now m)) due

  -- `process_due_monitors`; `free` says whether the run lock could be taken.
  pub process_due_monitors :
      (List Monitor → List Monitor)
      → Bool
      → ℕ
      → Settings
      → Option ℕ
      → Option (Bool × Option String)
      → World
      → World × Report
  unfolding attend close_pass in_backoff
  process_due_monitors completed false now settings limit check world = (
    world,
    record { processed = 0; results = []; running = true; skipped_backoff = 0; postponed_dns = 0 },
  )
  process_due_monitors completed true now settings limit check world =
      let due = due_of now settings limit world in
      let runnable = runnable_of now due in
      let skipped = length (keep (in_backoff now) due) in
      let (world', results) = attend completed now settings check runnable world in
      (
        close_pass now results skipped world',
        record {
          processed = length results;
          results = results;
          running = false;
          skipped_backoff = skipped;
          postponed_dns = length (keep is_postponed results);
        },
      )

abbrev pub hour : ℕ
hour = 60 * minute

-- Whether `maybe_run_reporting_digest` composes a digest.
unfoldable pub digest_due : ℕ → Settings → State → Bool
digest_due now settings state =
    if not settings.digest_enabled then false else elim state.last_digest_at [
      | none ↦ true
      | some last ↦ leb (last + settings.digest_interval_hours * hour) now
    ]

-- The digest and the time it is noted with; its content is read from the reports.
pub maybe_run_reporting_digest : ℕ → Settings → State → State × Bool
unfolding digest_due
maybe_run_reporting_digest now settings state =
    if digest_due now settings state
    then (record state { last_digest_at = some now }, true)
    else (state, false)
