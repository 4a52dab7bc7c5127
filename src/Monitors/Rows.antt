-- ===== src/Monitors/Rows.antt =====
-- What the writes of db.py do to the monitors that the reads give.
use domain_lens.Prelude.{
  ℕ, ◌+◌, ◌*◌, ◌<◌, ◌≡◌, refl, ◌∙◌, not, Option, none, some, List, [], ◌∷◌, ◌++◌, arith, All, keep,
  ◌==◌, if◌then◌else◌,
}
use mathlib.Core.Option
use domain_lens.Monitors.{
  Monitor, Table, Change, NewMonitor, assign, assign_all, is_allowed, changed_at, update_rows,
  find_monitor, get_monitor, update_monitor, create_monitor, delete_monitor, new_row,
  mark_monitor_scanned, or_else,
}

-- The UPDATE never writes the id.
id-assign : (c : Change) (m : Monitor) → (assign c m).id ≡ m.id
unfolding assign
id-assign (Change.set_name v) m = refl
id-assign _ m = refl

id-assign_all : (cs : List Change) (m : Monitor) → (assign_all cs m).id ≡ m.id
unfolding assign_all
id-assign_all [] m = refl
id-assign_all (c ∷ cs) m = id-assign_all cs (assign c m) ∙ id-assign c m

find_monitor-update_rows :
    (id i : ℕ) (f : Monitor → Monitor) (rows : List Monitor)
    → ((m : Monitor) → (f m).id ≡ m.id)
    → find_monitor i (update_rows id f rows)
      ≡ (if id == i then Option.map f (find_monitor i rows) else find_monitor i rows)
unfolding find_monitor update_rows
find_monitor-update_rows id i f [] same = ground arith
find_monitor-update_rows id i f (m ∷ rest) same =
    ground (arith, same m, find_monitor-update_rows id i f rest same)

-- The monitor of an id after an update: with an allowed key among the changes, the one of that id
-- has the allowed changes in their order and the time of the update; every other is as it was.
pub get-update_monitor :
    (now id i : ℕ) (changes : List Change) (c : Change) (cs : List Change) (table : Table)
    → keep is_allowed changes ≡ c ∷ cs
    → get_monitor i (update_monitor now id changes table).0 ≡ (
        if id == i
        then Option.map (changed_at now (c ∷ cs)) (get_monitor i table)
        else get_monitor i table)
unfolding update_monitor get_monitor
get-update_monitor now id i changes c cs table allowed =
    rw (allowed, update_monitor)
      (find_monitor-update_rows id i (changed_at now (c ∷ cs)) table.rows
        (λ m. id-assign_all (c ∷ cs) m))

find_monitor-append :
    (i : ℕ) (rows : List Monitor) (m : Monitor)
    → All (λ r. r.id < m.id) rows
    → find_monitor i (rows ++ m ∷ []) ≡ (if m.id == i then some m else find_monitor i rows)
unfolding find_monitor
find_monitor-append i [] m h = refl
find_monitor-append i (r ∷ rest) m h = ground (arith, find_monitor-append i rest m (h.1))

-- Where all ids are below the next one, a new monitor is read back under the id that its creation
-- gives, due at once if it is enabled, and the others are as they were.
pub get-create_monitor :
    (now i : ℕ) (args : NewMonitor) (table : Table)
    → All (λ r. r.id < table.next_id) table.rows
    → get_monitor i (create_monitor now args table).0 ≡ (
        if (create_monitor now args table).1 == i
        then some (new_row now table.next_id args)
        else get_monitor i table)
unfolding create_monitor get_monitor
get-create_monitor now i args table fresh =
    find_monitor-append i table.rows (new_row now table.next_id args) fresh

find_monitor-delete :
    (id i : ℕ) (rows : List Monitor)
    → find_monitor i (keep (λ m. not (m.id == id)) rows)
      ≡ (if id == i then none else find_monitor i rows)
unfolding find_monitor keep
find_monitor-delete id i [] = ground arith
find_monitor-delete id i (m ∷ rest) = ground (arith, find_monitor-delete id i rest)

-- After a delete the id has no monitor, and the others are as they were.
pub get-delete_monitor :
    (id i : ℕ) (table : Table)
    → get_monitor i (delete_monitor id table).0 ≡ (if id == i then none else get_monitor i table)
unfolding delete_monitor get_monitor
get-delete_monitor id i table = find_monitor-delete id i table.rows

-- A monitor that was marked as scanned has the scan, its time and the next time: the one that is
-- given, or else the interval away.
pub get-mark_monitor_scanned :
    (now id scan_id minutes : ℕ) (next : Option ℕ) (table : Table) (m : Monitor)
    → get_monitor id table ≡ some m
    → get_monitor id (mark_monitor_scanned now id scan_id minutes next table).0
      ≡ some (record m {
        last_scan_id = some scan_id;
        last_scan_at = some now;
        next_scan_at = some (or_else next (now + minutes * 60000000));
        updated_at = now;
      })
unfolding mark_monitor_scanned get_monitor
get-mark_monitor_scanned now id scan_id minutes next table m found =
    find_monitor-update_rows id id _ table.rows (λ r. refl) ∙ ground arith
