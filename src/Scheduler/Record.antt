-- ===== src/Scheduler/Record.antt =====
-- What scheduler.py records of one monitor: success, failure, and DNS that does not answer.
use domain_lens.Prelude.{
  ℕ, ◌+◌, ◌*◌, ◌≡◌, refl, ◌∙◌, true, false, Option, none, some, List, [], ◌∷◌, ◌++◌, arith, ltb,
  leb, String, if◌then◌else◌, keep,
}
use domain_lens.Prelude.Int.{pos}
use domain_lens.Monitors.{
  Monitor, Change, is_allowed, assign_all, changed_at, get_monitor, set_metadata, set_next_scan_at,
}
use domain_lens.Monitors.Rows.{get-update_monitor}
use domain_lens.Schedule.{Zone, minute, next_run}
use domain_lens.Scheduler.{
  Settings, World, domain_down, sched_of, with_sched, in_backoff, write, cleared, failed_sched,
  record_success, record_failure, since_or, try_again, give_up, postpone, dns_unanswered,
}

get-write :
    (now id : ℕ) (changes : List Change) (c : Change) (cs : List Change) (world : World)
    (row : Monitor)
    → keep is_allowed changes ≡ c ∷ cs
    → get_monitor id world.table ≡ some row
    → get_monitor id (write now id changes world).table ≡ some (changed_at now (c ∷ cs) row)
unfolding write
get-write now id changes c cs world row allowed found =
    get-update_monitor now id id changes c cs world.table allowed ∙ ground arith

-- After a success the monitor's row counts no failures, is in no backoff at any time, and keeps the
-- time of its next scan; what it holds otherwise of the scheduler is as the pass read it.
pub record_success-clears :
    (now later : ℕ) (m row : Monitor) (world : World)
    → get_monitor m.id world.table ≡ some row
    → (row' : Monitor) × (get_monitor m.id (record_success now m world).table ≡ some row')
      × (in_backoff later row' ≡ false)
      × (sched_of row' ≡ cleared (sched_of m))
      × (row'.next_scan_at ≡ row.next_scan_at)
unfolding record_success in_backoff assign_all keep
record_success-clears now later m row world found =
    let change = set_metadata (with_sched m (cleared (sched_of m))) in
    (
      changed_at now (change ∷ []) row,
      get-write now m.id (change ∷ []) change [] world row refl found,
      refl,
      refl,
      refl,
    )

-- After a failure the monitor's row counts one more, and holds the error. If that makes as many as
-- the settings allow, it is in backoff until the backoff time has passed; before that its backoff
-- is what it was.
pub record_failure-backoff :
    (now later : ℕ) (settings : Settings) (message : String) (m row : Monitor) (world : World)
    → get_monitor m.id world.table ≡ some row
    → (row' : Monitor) × (get_monitor m.id (record_failure now settings message m world).table
        ≡ some row')
      × ((sched_of row').consecutive_failures ≡ (sched_of m).consecutive_failures + 1)
      × ((sched_of row').last_error ≡ some message)
      × (in_backoff later row' ≡ (
          if leb settings.max_consecutive_failures ((sched_of m).consecutive_failures + 1)
          then ltb later (now + settings.failure_backoff_minutes * minute)
          else in_backoff later m))
unfolding record_failure in_backoff assign_all keep
record_failure-backoff now later settings message m row world found =
    let change = set_metadata (with_sched m (failed_sched now settings message (sched_of m))) in
    (
      changed_at now (change ∷ []) row,
      get-write now m.id (change ∷ []) change [] world row refl found,
      refl,
      refl,
      ground arith,
    )

module _ (zone_of : String → Option Zone) (now : ℕ) (settings : Settings) (message : Option String)
    (m row : Monitor) (world : World) (found : get_monitor m.id world.table ≡ some row) where
  abbrev postponed_world : World
  postponed_world = (postpone zone_of now settings domain_down message m world).0

  postpone-lt :
      ltb ((sched_of m).dns_retries + 1) settings.dns_max_retries ≡ true
      → postponed_world ≡ try_again now settings m world
  unfolding postpone
  postpone-lt again = rw again

  postpone-ge :
      ltb ((sched_of m).dns_retries + 1) settings.dns_max_retries ≡ false
      → postponed_world ≡ give_up zone_of now m world
  unfolding postpone
  postpone-ge last = rw last

  -- The name servers of a monitor's domain are silent. While the attempts, this one counted, are
  -- fewer than the settings allow, the monitor is tried again after the retry time, with one attempt
  -- more counted, and no event is written and nobody told.
  pub postpone_again :
      ltb ((sched_of m).dns_retries + 1) settings.dns_max_retries ≡ true
      → (row' : Monitor) × (get_monitor m.id postponed_world.table ≡ some row')
        × (row'.next_scan_at ≡ some (now + settings.dns_retry_minutes * minute))
        × ((sched_of row').dns_retries ≡ (sched_of m).dns_retries + 1)
        × (postponed_world.events ≡ world.events)
        × (postponed_world.notices ≡ world.notices)
  unfolding try_again assign_all keep
  postpone_again again =
      let sched = record (sched_of m) {
        dns_retries = (sched_of m).dns_retries + 1;
        dns_unanswered_since = some (since_or now (sched_of m).dns_unanswered_since);
      } in
      let first = set_metadata (with_sched m sched) in
      let second = set_next_scan_at (some (now + settings.dns_retry_minutes * minute)) in
      let read =
        get-write now m.id (first ∷ second ∷ []) first (second ∷ []) world row refl found in
      rw (postpone-lt again)
        (changed_at now (first ∷ second ∷ []) row, read, refl, refl, refl, refl)

  -- The attempt that makes as many as the settings allow writes one event, with the time since when
  -- the name servers are silent and the number of attempts, and tells of it; it starts the count anew
  -- and leaves the monitor to its next regular run.
  pub postpone_give_up :
      ltb ((sched_of m).dns_retries + 1) settings.dns_max_retries ≡ false
      → (row' : Monitor) × (get_monitor m.id postponed_world.table ≡ some row')
        × (row'.next_scan_at
            ≡ some (
                next_run zone_of
                  (some (pos row.schedule_minutes))
                  row.scan_time
                  row.scan_tz
                  now
                  false))
        × ((sched_of row').dns_retries ≡ 0)
        × (postponed_world.events
            ≡ world.events
              ++ record {
                id = world.next_event;
                monitor_id = m.id;
                kind =
                    dns_unanswered
                      (since_or now (sched_of m).dns_unanswered_since)
                      ((sched_of m).dns_retries + 1);
                created_at = now;
              }
                ∷ [])
        × (postponed_world.notices ≡ world.notices ++ world.next_event ∷ [])
  unfolding give_up assign_all keep
  postpone_give_up last =
      let sched = record (sched_of m) { dns_retries = 0; dns_unanswered_since = none } in
      let first = set_metadata (with_sched m sched) in
      let second = set_next_scan_at (
        some (
          next_run zone_of (some (pos row.schedule_minutes)) row.scan_time row.scan_tz now
            false)) in
      let read =
        get-write now m.id (first ∷ second ∷ []) first (second ∷ []) world row refl found in
      rw (postpone-ge last, found)
        (changed_at now (first ∷ second ∷ []) row, read, refl, refl, refl, refl)
