-- ===== src/Monitors.antt =====
-- The monitors of db.py: their rows, and the queries that read and write them. Times are
-- microseconds. A JSON column holds its value; of the metadata only the scheduler's part is read
-- by the modelled code, and `rest` stands for its other keys.
pub mod Due
pub mod Rows
mod Tests
use domain_lens.Prelude.{
  ℕ, zero, suc, ◌+◌, ◌*◌, Bool, true, false, not, ◌&&◌, ◌||◌, Option, none, some, List, [], ◌∷◌,
  ◌++◌, ltb, leb, ◌==◌, String, str_eq, Text, if◌then◌else◌, keep, length,
}
use domain_lens.Prelude.Sorting.{sort}

-- What the scheduler keeps in a monitor's metadata, under "scheduler".
pub record Sched : Type 0 where
  pub consecutive_failures : ℕ
  pub last_error : Option String
  pub last_failed_at : Option ℕ
  pub backoff_until : Option ℕ
  pub dns_retries : ℕ
  pub dns_unanswered_since : Option ℕ

pub record Metadata : Type 0 where
  pub scheduler : Sched
  pub rest : String

pub record Monitor : Type 0 where
  pub id : ℕ
  pub name : String
  pub domain : String
  pub target : String
  pub record_type : String
  pub record_value : Option String
  pub source_type : String
  pub source_label : Option String
  pub provider : Option String
  pub schedule_minutes : ℕ
  pub checks : List String
  pub enabled : Bool
  pub metadata : Metadata
  pub next_scan_at : Option ℕ
  pub last_scan_id : Option ℕ
  pub last_scan_at : Option ℕ
  pub last_state_hash : Option String
  pub scan_time : Option Text
  pub scan_tz : Option String
  pub created_at : ℕ
  pub updated_at : ℕ

pub record Table : Type 0 where
  pub rows : List Monitor
  pub next_id : ℕ

-- One keyword argument of `update_monitor`; `other` is a key that it does not allow.
pub data Change : Type 0 where
  set_name set_domain set_target set_record_type set_source_type : String → Change
  set_record_value set_source_label set_provider set_last_state_hash set_scan_tz :
      Option String → Change
  set_schedule_minutes : ℕ → Change
  set_checks : List String → Change
  set_enabled : Bool → Change
  set_metadata : Metadata → Change
  set_next_scan_at set_last_scan_id set_last_scan_at : Option ℕ → Change
  set_scan_time : Option Text → Change
  other : String → Change

abbrev pub is_allowed : Change → Bool
is_allowed (other _) = false
is_allowed _ = true

-- One assignment of the UPDATE.
unfoldable pub assign : Change → Monitor → Monitor
assign (set_name v) m = record m { name = v }
assign (set_domain v) m = record m { domain = v }
assign (set_target v) m = record m { target = v }
assign (set_record_type v) m = record m { record_type = v }
assign (set_source_type v) m = record m { source_type = v }
assign (set_record_value v) m = record m { record_value = v }
assign (set_source_label v) m = record m { source_label = v }
assign (set_provider v) m = record m { provider = v }
assign (set_last_state_hash v) m = record m { last_state_hash = v }
assign (set_scan_tz v) m = record m { scan_tz = v }
assign (set_schedule_minutes v) m = record m { schedule_minutes = v }
assign (set_checks v) m = record m { checks = v }
assign (set_enabled v) m = record m { enabled = v }
assign (set_metadata v) m = record m { metadata = v }
assign (set_next_scan_at v) m = record m { next_scan_at = v }
assign (set_last_scan_id v) m = record m { last_scan_id = v }
assign (set_last_scan_at v) m = record m { last_scan_at = v }
assign (set_scan_time v) m = record m { scan_time = v }
assign (other _) m = m

unfoldable pub assign_all : List Change → Monitor → Monitor
unfolding assign
assign_all [] m = m
assign_all (c ∷ cs) m = assign_all cs (assign c m)

-- The rows after the UPDATE of one id.
unfoldable pub update_rows : ℕ → (Monitor → Monitor) → List Monitor → List Monitor
update_rows id f [] = []
update_rows id f (m ∷ rest) =
    let rest' = update_rows id f rest in if m.id == id then f m ∷ rest' else m ∷ rest'

unfoldable pub find_monitor : ℕ → List Monitor → Option Monitor
find_monitor id [] = none
find_monitor id (m ∷ rest) = if m.id == id then some m else find_monitor id rest

unfoldable pub get_monitor : ℕ → Table → Option Monitor
unfolding find_monitor
get_monitor id table = find_monitor id table.rows

abbrev pub changed_at : ℕ → List Change → Monitor → Monitor
changed_at now changes m = record (assign_all changes m) { updated_at = now }

-- With no allowed key nothing is written; the monitor is read back in either case.
pub update_monitor : ℕ → ℕ → List Change → Table → Table × Option Monitor
unfolding assign_all update_rows get_monitor keep
update_monitor now id changes table =
    let written : Table = elim (keep is_allowed changes) [
      | [] ↦ table
      | c ∷ cs ↦ record table { rows = update_rows id (changed_at now (c ∷ cs)) table.rows }
    ] in
    (written, get_monitor id written)

pub delete_monitor : ℕ → Table → Table × Bool
unfolding keep
delete_monitor id table =
    let rows = keep (λ m. not (m.id == id)) table.rows in
    (record table { rows = rows }, not (length rows == length table.rows))

-- The keyword arguments of `create_monitor`.
pub record NewMonitor : Type 0 where
  pub name : String
  pub domain : String
  pub target : String
  pub record_type : String
  pub record_value : Option String
  pub source_type : String
  pub source_label : Option String
  pub provider : Option String
  pub schedule_minutes : ℕ
  pub checks : Option (List String)
  pub enabled : Bool
  pub metadata : Option Metadata

abbrev pub no_sched : Sched
no_sched = record {
  consecutive_failures = 0;
  last_error = none;
  last_failed_at = none;
  backoff_until = none;
  dns_retries = 0;
  dns_unanswered_since = none;
}

abbrev pub or_else {ℓ} : {A : Type ℓ} → Option A → A → A
or_else none d = d
or_else (some a) d = a

abbrev pub new_row : ℕ → ℕ → NewMonitor → Monitor
new_row now id args = record {
  id = id;
  name = args.name;
  domain = args.domain;
  target = args.target;
  record_type = args.record_type;
  record_value = args.record_value;
  source_type = args.source_type;
  source_label = args.source_label;
  provider = args.provider;
  schedule_minutes = args.schedule_minutes;
  checks = or_else args.checks ("all" ∷ []);
  enabled = args.enabled;
  metadata = or_else args.metadata (record { scheduler = no_sched; rest = "" });
  next_scan_at = if args.enabled then some now else none;
  last_scan_id = none;
  last_scan_at = none;
  last_state_hash = none;
  scan_time = none;
  scan_tz = none;
  created_at = now;
  updated_at = now;
}

pub create_monitor : ℕ → NewMonitor → Table → Table × ℕ
create_monitor now args table = (
  record { rows = table.rows ++ new_row now table.next_id args ∷ []; next_id = table.next_id + 1 },
  table.next_id,
)

-- `enabled = ?` when a value is given.
abbrev pub has_enabled : Option Bool → Monitor → Bool
has_enabled none m = true
has_enabled (some true) m = m.enabled
has_enabled (some false) m = not m.enabled

-- `next_scan_at IS NOT NULL AND next_scan_at <= now`.
abbrev pub is_due : ℕ → Monitor → Bool
is_due now m = elim m.next_scan_at [ none ↦ false | some t ↦ leb t now ]

unfoldable pub selected : ℕ → Option Bool → Bool → Monitor → Bool
selected now enabled due_only m = has_enabled enabled m && (not due_only || is_due now m)

-- A time as a number, with the missing one above all: the sort key `next_scan_at IS NULL`, then
-- `next_scan_at`.
abbrev pub when_first : Option ℕ → Option ℕ → Bool
when_first (some a) (some b) = ltb a b
when_first (some a) none = true
when_first none b = false

-- ORDER BY next_scan_at IS NULL, next_scan_at ASC, created_at DESC.
unfoldable pub scan_order : Monitor → Monitor → Bool
scan_order a b =
    when_first a.next_scan_at b.next_scan_at
    || (not (when_first b.next_scan_at a.next_scan_at) && leb b.created_at a.created_at)

-- LIMIT.
unfoldable pub take : ℕ → List Monitor → List Monitor
take zero ms = []
take (suc n) [] = []
take (suc n) (m ∷ ms) = m ∷ take n ms

unfoldable pub list_monitors : ℕ → Option Bool → Bool → ℕ → Table → List Monitor
unfolding selected scan_order take keep sort
list_monitors now enabled due_only limit table =
    take limit (sort scan_order (keep (selected now enabled due_only) table.rows))

-- The columns by which `upsert_monitor` finds a monitor.
unfoldable pub find_record : String → String → String → List Monitor → Option Monitor
find_record domain target record_type [] = none
find_record domain target record_type (m ∷ rest) =
    if str_eq m.domain domain && (str_eq m.target target && str_eq m.record_type record_type)
    then some m
    else find_record domain target record_type rest

-- `defaults` as they are given to `update_monitor`, and as they complete `create_monitor`.
pub upsert_monitor :
    ℕ → String → String → String → List Change → NewMonitor → Table → Table × Option Monitor
unfolding find_record update_monitor create_monitor get_monitor
upsert_monitor now domain target record_type changes args table =
    elim (find_record domain target record_type table.rows) [
      | some existing ↦ update_monitor now existing.id changes table
      | none ↦
          let (created, id) =
            create_monitor now
              (record args { domain = domain; target = target; record_type = record_type }) table in
          (created, get_monitor id created)
    ]

-- Without a time the next scan is `schedule_minutes` away.
pub mark_monitor_scanned : ℕ → ℕ → ℕ → ℕ → Option ℕ → Table → Table × Option Monitor
unfolding update_monitor
mark_monitor_scanned now id scan_id minutes next table =
    update_monitor now id
      (set_last_scan_id (some scan_id)
        ∷ set_last_scan_at (some now)
        ∷ set_next_scan_at (some (or_else next (now + minutes * 60000000)))
        ∷ [])
      table
