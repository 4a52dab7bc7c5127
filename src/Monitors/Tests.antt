-- ===== src/Monitors/Tests.antt =====
-- Runs of the monitor queries of db.py on three monitors, and their theorems there.
use domain_lens.Prelude.{◌≡◌, refl, Bool, true, false, none, some, [], ◌∷◌}
use domain_lens.Monitors.{Monitor, Table, NewMonitor, new_row, get_monitor, list_monitors}
use domain_lens.Monitors.Due.{Handout, list_monitors-Handout}

abbrev site : Bool → NewMonitor
site enabled = record {
  name = "site";
  domain = "example.com";
  target = "www.example.com";
  record_type = "A";
  record_value = none;
  source_type = "manual";
  source_label = none;
  provider = none;
  schedule_minutes = 60;
  checks = none;
  enabled = enabled;
  metadata = none;
}

abbrev late : Monitor
late = new_row 20 1 (site true)

abbrev early : Monitor
early = new_row 10 2 (site true)

abbrev idle : Monitor
idle = new_row 5 3 (site false)

abbrev table : Table
table = record { rows = late ∷ early ∷ idle ∷ []; next_id = 4 }

due_first : list_monitors 30 (some true) true 1 table ≡ early ∷ []
unfolding list_monitors
due_first = refl

due_none : list_monitors 9 (some true) true 5 table ≡ []
unfolding list_monitors
due_none = refl

list_monitors-Handout_example : Handout 30 1 table (list_monitors 30 (some true) true 1 table)
list_monitors-Handout_example = list_monitors-Handout 30 1 table

found_late : get_monitor 1 table ≡ some late
unfolding get_monitor
found_late = refl
