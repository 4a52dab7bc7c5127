-- ===== src/Scheduler/Tests.antt =====
-- Runs of scheduler.py on two monitors, and its theorems there.
use domain_lens.Prelude.{
  ◌≡◌, ◌≤◌, ◌<◌, ◌++◌, refl, true, false, Option, none, some, List, [], ◌∷◌, String, ◌==◌,
  if◌then◌else◌, map, All, keep,
}
use mathlib.Core.List.{Perm}
use mathlib.Core.List.Perm
use domain_lens.Monitors.{Monitor, NewMonitor, new_row, get_monitor, list_monitors}
use domain_lens.Monitors.Due.{Handout}
use domain_lens.Schedule.{Zone}
use domain_lens.Scheduler.{
  Settings, State, World, Outcome, scanned, raised, Item, domain_down, resolver_down, ok, error,
  postponed, postpone, Report, process_due_monitors,
}
use domain_lens.Scheduler.Pass.{backoff_end, process-ids, process_resolver_down}

abbrev args : NewMonitor
args = record {
  name = "site";
  domain = "example.com";
  target = "www.example.com";
  record_type = "A";
  record_value = none;
  source_type = "manual";
  source_label = none;
  provider = none;
  schedule_minutes = 60;
  checks = none;
  enabled = true;
  metadata = none;
}

abbrev one : Monitor
one = new_row 20 1 args

abbrev two : Monitor
two = new_row 10 2 args

abbrev idle : State
idle = record {
  last_run_at = none;
  last_run_processed = 0;
  last_run_errors = 0;
  last_run_skipped_backoff = 0;
  last_run_postponed_dns = 0;
  last_error = none;
  total_runs = 0;
  last_digest_at = none;
  dns_down_since = none;
  dns_error = none;
}

abbrev start : World
start = record {
  table = record { rows = one ∷ two ∷ []; next_id = 3 };
  events = [];
  next_event = 1;
  notices = [];
  state = idle;
}

abbrev settings : Settings
settings = record {
  enabled = true;
  max_monitors_per_run = 200;
  concurrency = 2;
  failure_backoff_minutes = 15;
  max_consecutive_failures = 1;
  dns_retry_minutes = 15;
  dns_max_retries = 2;
  digest_enabled = true;
  digest_interval_hours = 24;
}

abbrev no_zone : String → Option Zone
no_zone name = none

-- The first monitor's scan fails.
abbrev scan : Monitor → World → World × Outcome
scan m world = (world, if m.id == 1 then raised "timeout" else scanned 7 "unchanged")

abbrev in_order : List Monitor → List Monitor
in_order ms = ms

in_order-perm : (ms : List Monitor) → Perm (in_order ms) ms
in_order-perm ms = Perm.refl ms

pass_results :
    map
      (λ (i : Item). i.status)
      ((process_due_monitors no_zone scan in_order true 30 settings none none start).1).results
    ≡ ok 7 "unchanged" ∷ error "timeout" ∷ []
unfolding process_due_monitors list_monitors keep
pass_results = refl

found_one : get_monitor 1 start.table ≡ some one
unfolding get_monitor
found_one = refl

abbrev put_off : World
put_off = (postpone no_zone 30 settings domain_down none one start).0

abbrev strict : Settings
strict = record settings { dns_max_retries = 1 }

abbrev given_up : World
given_up = (postpone no_zone 30 strict domain_down none one start).0

process-ids_example :
    (chosen ran waits : List Monitor) × Handout 30 200 start.table chosen
    × Perm (ran ++ waits) chosen
    × All (λ m. backoff_end m ≤ 30) ran
    × All (λ m. 30 < backoff_end m) waits
    × Perm
        (map
          (λ (i : Item). i.monitor_id)
          ((process_due_monitors no_zone scan in_order true 30 settings none none start).1).results)
        (map (λ (m : Monitor). m.id) ran)
process-ids_example = process-ids no_zone scan in_order 30 settings none none start in_order-perm

abbrev after : World × Report no_zone scan
after = process_due_monitors no_zone scan in_order true 30 settings none none start

abbrev offline : World × Report no_zone scan
offline =
    process_due_monitors no_zone scan in_order true 30 settings none (some (false, none)) start

process_resolver_down_example :
    ((offline.0).table ≡ start.table)
    × ((offline.0).events ≡ [])
    × ((offline.0).notices ≡ [])
    × All (λ i. i.status ≡ postponed resolver_down) (offline.1).results
    × Perm
        (map
          (λ (i : Item). i.monitor_id)
          ((process_due_monitors no_zone scan in_order true 30 settings none none (offline.0)).1
            ).results)
        (map (λ (i : Item). i.monitor_id) (offline.1).results)
process_resolver_down_example =
    process_resolver_down no_zone scan in_order 30 settings none none none start in_order-perm
