-- ===== src/Scheduler/Pass.antt =====
-- A pass of `process_due_monitors` of scheduler.py over the due monitors, and the digest behind it.
use domain_lens.Prelude.{
  ℕ, suc, ◌+◌, ◌*◌, ◌<◌, ◌≤◌, inl, inr, leb, Bool-cases, ◌++◌, ◌≡◌, refl, ◌∙◌, ap, sym, subst, Bool,
  true, false, not, Option, none, some, List, [], ◌∷◌, arith, String, keep, length, map, All,
}
use mathlib.Core.List.{Perm}
use mathlib.Core.List.Perm
use domain_lens.Prelude.Permuting.{length-Perm, length-split, perm_split, append-nil}
use domain_lens.Monitors.{Monitor, list_monitors}
use domain_lens.Monitors.Due.{Handout, list_monitors-Handout}
use domain_lens.Schedule.{Zone}
use domain_lens.Scheduler.{
  Settings, State, World, Outcome, Item, resolver_down, postponed, is_error, in_backoff, run_one,
  run_all, waiting, attend, note_dns_down, note_dns_up, close_pass, Report, due_of, runnable_of,
  process_due_monitors, ask_resolver, in_turn, batch_limit, sched_of, hour,
  maybe_run_reporting_digest,
}

length-map : (xs : List Item) → length (map (λ (i : Item). i.monitor_id) xs) ≡ length xs
length-map [] = refl
length-map (x ∷ xs) = ap suc (length-map xs)

length-ids : (xs : List Monitor) → length (map (λ (m : Monitor). m.id) xs) ≡ length xs
length-ids [] = refl
length-ids (x ∷ xs) = ap suc (length-ids xs)

-- The time at which the backoff of a monitor ends, 0 where it has none.
abbrev pub backoff_end : Monitor → ℕ
backoff_end m = elim (sched_of m).backoff_until [ none ↦ 0 | some t ↦ t ]

backoff-waits :
    (now : ℕ) (ms : List Monitor) → All (λ m. now < backoff_end m) (keep (in_backoff now) ms)
unfolding keep in_backoff
backoff-waits now [] = tt
backoff-waits now (m ∷ rest) = ground (arith, backoff-waits now rest)

over-runs :
    (now : ℕ) (ms : List Monitor)
    → All (λ m. backoff_end m ≤ now) (keep (λ m. not (in_backoff now m)) ms)
unfolding keep in_backoff
over-runs now [] = tt
over-runs now (m ∷ rest) = ground (arith, over-runs now rest)

module _ (zone_of : String → Option Zone) (scan : Monitor → World → World × Outcome) where
  abbrev ids : List Item → List ℕ
  ids = map (λ i. i.monitor_id)

  abbrev monitor_ids : List Monitor → List ℕ
  monitor_ids = map (λ m. m.id)

  run_all-ids :
      (now : ℕ) (settings : Settings) (ms : List Monitor) (world : World)
      → ids (run_all zone_of scan now settings ms world).1 ≡ monitor_ids ms
  unfolding run_all run_one
  run_all-ids now settings [] world = refl
  run_all-ids now settings (m ∷ rest) world =
      ap (λ l. m.id ∷ l)
        (run_all-ids now settings rest (run_one zone_of scan now settings m world).0)

  waiting-ids : (ms : List Monitor) → ids (map (waiting zone_of scan) ms) ≡ monitor_ids ms
  waiting-ids [] = refl
  waiting-ids (m ∷ rest) = ap (λ l. m.id ∷ l) (waiting-ids rest)

  run_in_turn-ids :
      (completed : List Monitor → List Monitor) (now : ℕ) (settings : Settings) (ms : List Monitor)
      (world : World)
      → ((l : List Monitor) → Perm (completed l) l)
      → Perm
          (ids
            (run_all zone_of scan now settings
              (in_turn zone_of scan completed settings ms)
              world).1)
          (monitor_ids ms)
  run_in_turn-ids completed now settings ms world shuffled =
      let order = in_turn zone_of scan completed settings ms in
      let turned : Perm order ms = elim (Bool-cases (leb settings.concurrency 1)) [
        | inl alone ↦ simp alone (Perm.refl ms)
        | inr pooled ↦ simp pooled (shuffled ms)
      ] in
      subst (λ l. Perm l (monitor_ids ms)) (sym (run_all-ids now settings order world))
        (Perm.map (λ x. x.id) turned)

  in_turn-nil :
      (completed : List Monitor → List Monitor) (settings : Settings)
      → ((l : List Monitor) → Perm (completed l) l)
      → in_turn zone_of scan completed settings [] ≡ []
  in_turn-nil completed settings shuffled = elim (Bool-cases (leb settings.concurrency 1)) [
    | inl alone ↦ simp alone refl
    | inr pooled ↦ simp pooled (Perm.eq-nil (shuffled []))
  ]

  -- With nothing left to run the results are those that there were.
  attend-down :
      (completed : List Monitor → List Monitor) (now : ℕ) (settings : Settings)
      (message : Option String) (m : Monitor) (rest : List Monitor) (world : World)
      → ((l : List Monitor) → Perm (completed l) l)
      → attend zone_of scan completed now settings (some (false, message)) (m ∷ rest) world
        ≡ (note_dns_down now message world, map (waiting zone_of scan) (m ∷ rest))
  unfolding attend ask_resolver
  attend-down completed now settings message m rest world shuffled =
      rw
        (
          in_turn-nil completed settings shuffled,
          run_all,
          append-nil (map (waiting zone_of scan) rest),
        )
        refl

  attend-ids :
      (completed : List Monitor → List Monitor) (now : ℕ) (settings : Settings)
      (check : Option (Bool × Option String)) (ms : List Monitor) (world : World)
      → ((l : List Monitor) → Perm (completed l) l)
      → Perm (ids (attend zone_of scan completed now settings check ms world).1) (monitor_ids ms)
  unfolding attend ask_resolver
  attend-ids completed now settings check [] world shuffled =
      run_in_turn-ids completed now settings [] world shuffled
  attend-ids completed now settings none (m ∷ rest) world shuffled =
      run_in_turn-ids completed now settings (m ∷ rest) world shuffled
  attend-ids completed now settings (some (true, message)) (m ∷ rest) world shuffled =
      run_in_turn-ids completed now settings (m ∷ rest) (note_dns_up world) shuffled
  attend-ids completed now settings (some (false, message)) (m ∷ rest) world shuffled =
      let down = attend-down completed now settings message m rest world shuffled in
      subst (λ l. Perm l (monitor_ids (m ∷ rest)))
        (sym (ap (λ a. ids a.1) down ∙ waiting-ids (m ∷ rest))) (Perm.refl (monitor_ids (m ∷ rest)))

  -- The results of a pass are those of the monitors of the batch that are not in backoff.
  process_runnable-ids :
      (completed : List Monitor → List Monitor) (now : ℕ) (settings : Settings) (limit : Option ℕ)
      (check : Option (Bool × Option String)) (world : World)
      → ((l : List Monitor) → Perm (completed l) l)
      → Perm
          (ids
            ((process_due_monitors zone_of scan completed true now settings limit check world).1
              ).results)
          (monitor_ids
            (runnable_of zone_of scan now (due_of zone_of scan now settings limit world)))
  unfolding process_due_monitors
  process_runnable-ids completed now settings limit check world shuffled =
      attend-ids completed now settings check _ world shuffled

  -- A pass that gets the lock takes a batch of the due monitors, those due for longest, up to the
  -- limit of the call or else of the settings. It reports one result for each monitor of the batch
  -- whose backoff is over or that has none, and none for any other, in whatever order the scans end.
  pub process-ids :
      (completed : List Monitor → List Monitor) (now : ℕ) (settings : Settings) (limit : Option ℕ)
      (check : Option (Bool × Option String)) (world : World)
      → ((l : List Monitor) → Perm (completed l) l)
      → (chosen ran waits : List Monitor) × Handout now
          (batch_limit zone_of scan settings limit)
          world.table
          chosen
        × Perm (ran ++ waits) chosen
        × All (λ m. backoff_end m ≤ now) ran
        × All (λ m. now < backoff_end m) waits
        × Perm
            (ids
              ((process_due_monitors zone_of scan completed true now settings limit check world).1
                ).results)
            (monitor_ids ran)
  process-ids completed now settings limit check world shuffled =
      let due = due_of zone_of scan now settings limit world in
      (
        due,
        runnable_of zone_of scan now due,
        keep (in_backoff now) due,
        list_monitors-Handout now (batch_limit zone_of scan settings limit) world.table,
        perm_split (in_backoff now) due,
        over-runs now due,
        backoff-waits now due,
        process_runnable-ids completed now settings limit check world shuffled,
      )

  -- The counts of such a pass add up: every due monitor was processed or skipped for its backoff,
  -- and the state that the status page reads has the counts of the report.
  pub process-counts :
      (completed : List Monitor → List Monitor) (now : ℕ) (settings : Settings) (limit : Option ℕ)
      (check : Option (Bool × Option String)) (world : World)
      → ((l : List Monitor) → Perm (completed l) l)
      → let after : World × Report zone_of scan =
          process_due_monitors zone_of scan completed true now settings limit check world in
        ((after.1).processed + (after.1).skipped_backoff
          ≡ length (due_of zone_of scan now settings limit world))
        × (((after.0).state).last_run_processed ≡ (after.1).processed)
        × (((after.0).state).last_run_skipped_backoff ≡ (after.1).skipped_backoff)
        × (((after.0).state).last_run_postponed_dns ≡ (after.1).postponed_dns)
        × (((after.0).state).last_run_errors ≡ length (keep is_error (after.1).results))
  unfolding process_due_monitors close_pass
  process-counts completed now settings limit check world shuffled =
      let due = due_of zone_of scan now settings limit world in
      let runnable = runnable_of zone_of scan now due in
      let results = (attend zone_of scan completed now settings check runnable world).1 in
      let same = length-Perm (attend-ids completed now settings check runnable world shuffled) in
      let halves = length-split (in_backoff now) due in
      (omega (arith, same, halves, length-map results, length-ids runnable), refl, refl, refl, refl)

  All-waiting :
      (ms : List Monitor)
      → All (λ i. i.status ≡ postponed resolver_down) (map (waiting zone_of scan) ms)
  All-waiting [] = tt
  All-waiting (m ∷ rest) = (refl, All-waiting rest)

  process-untouched :
      (completed : List Monitor → List Monitor) (now : ℕ) (settings : Settings) (limit : Option ℕ)
      (message : Option String) (world : World)
      → ((l : List Monitor) → Perm (completed l) l)
      → let after : World × Report zone_of scan =
          process_due_monitors zone_of scan completed true now settings limit
            (some (false, message))
            world in
        ((after.0).table ≡ world.table)
        × ((after.0).events ≡ world.events)
        × ((after.0).notices ≡ world.notices)
        × All (λ i. i.status ≡ postponed resolver_down) (after.1).results
  unfolding process_due_monitors close_pass
  process-untouched completed now settings limit message world shuffled =
      untouched (runnable_of zone_of scan now (due_of zone_of scan now settings limit world))
    where
      untouched :
          (ms : List Monitor)
          → let after : World × List Item =
              attend zone_of scan completed now settings (some (false, message)) ms world in
            ((after.0).table ≡ world.table)
            × ((after.0).events ≡ world.events)
            × ((after.0).notices ≡ world.notices)
            × All (λ i. i.status ≡ postponed resolver_down) after.1
      untouched [] =
          unfold attend ask_resolver run_all in
          rw (in_turn-nil completed settings shuffled, run_all) (refl, refl, refl, tt)
      untouched (m ∷ rest) =
          let down = attend-down completed now settings message m rest world shuffled in
          unfold note_dns_down in
          (
            ap (λ a. (a.0).table) down,
            ap (λ a. (a.0).events) down,
            ap (λ a. (a.0).notices) down,
            subst (λ a. All (λ i. i.status ≡ postponed resolver_down) a.1) (sym down)
                (All-waiting (m ∷ rest)),
          )

  -- When the scanner's own DNS does not answer, a pass runs no scan: monitors, events and notices
  -- are as they were, and every result says postponed. Nothing is lost by it: a pass right behind it
  -- reports the same monitors, whatever its check of the DNS says.
  pub process_resolver_down :
      (completed : List Monitor → List Monitor) (now : ℕ) (settings : Settings) (limit : Option ℕ)
      (message : Option String) (check : Option (Bool × Option String)) (world : World)
      → ((l : List Monitor) → Perm (completed l) l)
      → let after : World × Report zone_of scan =
          process_due_monitors zone_of scan completed true now settings limit
            (some (false, message))
            world in
        ((after.0).table ≡ world.table)
        × ((after.0).events ≡ world.events)
        × ((after.0).notices ≡ world.notices)
        × All (λ i. i.status ≡ postponed resolver_down) (after.1).results
        × Perm
            (ids
              ((process_due_monitors zone_of scan completed true now settings limit check
                  (after.0)).1
                ).results)
            (ids (after.1).results)
  process_resolver_down completed now settings limit message check world shuffled =
      let down : Option (Bool × Option String) = some (false, message) in
      let after = process_due_monitors zone_of scan completed true now settings limit down world in
      let kept = process-untouched completed now settings limit message world shuffled in
      let first = process_runnable-ids completed now settings limit down world shuffled in
      let second = process_runnable-ids completed now settings limit check (after.0) shuffled in
      let same =
        ap
          (λ t. monitor_ids (
            runnable_of zone_of scan now
              (list_monitors now (some true) true (batch_limit zone_of scan settings limit) t)))
          kept.0 in
      (
        kept.0,
        kept.1,
        kept.2,
        kept.3,
        Perm.trans second
            (subst (λ l. Perm l (ids (after.1).results)) (sym same) (Perm.symm first)),
      )

-- After a digest no other is composed until the interval of the settings has passed.
pub digest-once :
    (now later : ℕ) (settings : Settings) (state : State)
    → (maybe_run_reporting_digest now settings state).1 ≡ true
    → later < now + settings.digest_interval_hours * hour
    → maybe_run_reporting_digest later settings (maybe_run_reporting_digest now settings state).0
      ≡ ((maybe_run_reporting_digest now settings state).0, false)
unfolding maybe_run_reporting_digest
digest-once now later settings state composed soon = ground arith
