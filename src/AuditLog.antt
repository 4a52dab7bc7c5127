-- ===== src/AuditLog.antt =====
-- audit_log.py: the hash-chained record of who did what.
-- The table is a list of rows in the order of their ids, which AUTOINCREMENT gives out upwards. A
-- time is a number of microseconds, and its ISO text, which the code compares, sorts as the number.
-- `json.dumps`, SHA-256 and the ISO text of a time are the fields of a `Digest`.
pub mod Chain
pub mod Tampering
pub mod Retention
mod Tests
use domain_lens.Prelude.{
  ℕ, ◌+◌, ◌-◌, String, Bool, true, false, not, Option, none, some, List, [], ◌∷◌, ◌++◌, ltb, ◌==◌,
  str_eq, if◌then◌else◌, keep, length, ◌≡◌, ◌↔◌,
}

-- What the chain uses of the libraries: the text of a time, and the digest of a row's JSON.
pub record Digest : Type 1 where
  pub Hash : Type 0
  pub same : Hash → Hash → Bool
  pub same_iff : (a b : Hash) → (same a b ≡ true) ↔ (a ≡ b)
  pub genesis : Hash
  pub digest : Hash → List (Option String) → Hash
  pub isoformat : ℕ → String

pub record Actor : Type 0 where
  pub id : Option String
  pub email : Option String
  pub role : Option String

-- What `_request_context` reads from the web framework.
pub record Context : Type 0 where
  pub user : Option Actor
  pub method : String
  pub ip : Option String

-- The arguments of `record`; `details` is their JSON.
pub record Request : Type 0 where
  pub action : String
  pub target_type : Option String
  pub target_id : Option String
  pub outcome : String
  pub details : String
  pub actor : Option Actor
  pub auth_method : Option String

-- The columns that the hash covers.
pub record Entry : Type 0 where
  pub created_at : ℕ
  pub actor_id : Option String
  pub actor_email : Option String
  pub actor_role : Option String
  pub auth_method : String
  pub ip : Option String
  pub action : String
  pub target_type : Option String
  pub target_id : Option String
  pub outcome : String
  pub details : String

-- `a or b` for a text a: the empty text counts as absent.
abbrev pub or_text : Option String → String → String
or_text none b = b
or_text (some a) b = if str_eq a "" then b else a

abbrev pub or_actor : Option Actor → Option Actor → Option Actor
or_actor none user = user
or_actor (some actor) user = some actor

abbrev pub from_actor : (Actor → Option String) → Option Actor → Option String
from_actor field none = none
from_actor field (some actor) = field actor

-- The entry that `record` composes.
unfoldable pub entry_of : ℕ → Context → Request → Entry
entry_of now context request =
    let user = or_actor request.actor context.user in
    record {
      created_at = now;
      actor_id = from_actor (λ a. a.id) user;
      actor_email = from_actor (λ a. a.email) user;
      actor_role = from_actor (λ a. a.role) user;
      auth_method = or_text request.auth_method context.method;
      ip = context.ip;
      action = request.action;
      target_type = request.target_type;
      target_id = request.target_id;
      outcome = request.outcome;
      details = request.details;
    }

-- `details` is the JSON of the number of removed rows and the cutoff.
abbrev pub purge_request : String → Request
purge_request details = record {
  action = "audit.purge";
  target_type = none;
  target_id = none;
  outcome = "success";
  details = details;
  actor = none;
  auth_method = some "system";
}

module _ (d : Digest) where
  open d use {Hash, same, genesis, digest, isoformat}

  pub record Row : Type 0 where
    pub id : ℕ
    pub entry : Entry
    pub prev_hash : Hash
    pub row_hash : Hash

  pub record Log : Type 0 where
    pub rows : List Row
    pub next_id : ℕ

  -- The list that `_hash` turns into JSON, after the previous hash.
  unfoldable pub cells : Entry → List (Option String)
  cells e =
      some (isoformat e.created_at)
      ∷ e.actor_id
      ∷ e.actor_email
      ∷ e.actor_role
      ∷ some e.auth_method
      ∷ e.ip
      ∷ some e.action
      ∷ e.target_type
      ∷ e.target_id
      ∷ some e.outcome
      ∷ some e.details
      ∷ []

  unfoldable pub hash : Hash → Entry → Hash
  hash prev entry = digest prev (cells entry)

  -- The hash of the row with the highest id, or the genesis value in an empty table.
  unfoldable pub last_hash : Hash → List Row → Hash
  last_hash prev [] = prev
  last_hash prev (row ∷ rest) = last_hash row.row_hash rest

  -- `record`: `written` is false when the database refuses the write, which is logged and swallowed.
  pub append_entry : Bool → ℕ → Context → Request → Log → Log × Option ℕ
  unfolding hash last_hash entry_of
  append_entry false now context request log = (log, none)
  append_entry true now context request log =
      let prev = last_hash genesis log.rows in
      let entry = entry_of now context request in
      let row : Row = record {
        id = log.next_id;
        entry = entry;
        prev_hash = prev;
        row_hash = hash prev entry;
      } in
      (record { rows = log.rows ++ row ∷ []; next_id = log.next_id + 1 }, some log.next_id)

  pub record Report : Type 0 where
    pub intact : Bool
    pub checked : ℕ
    pub broken_at : Option ℕ
    pub reason : Option String

  -- `prev is not None and entry["prev_hash"] != prev`.
  unfoldable pub departs : Option Hash → Row → Bool
  departs none row = false
  departs (some prev) row = not (same row.prev_hash prev)

  -- The loop of `verify`.
  unfoldable pub walk : Option Hash → ℕ → List Row → Report
  unfolding departs
  walk prev checked [] = record {
    intact = true;
    checked = checked;
    broken_at = none;
    reason = none;
  }
  walk prev checked (row ∷ rest) =
      let onward = walk (some row.row_hash) (checked + 1) rest in
      if departs prev row
      then record {
        intact = false;
        checked = checked;
        broken_at = some row.id;
        reason = some "previous-hash mismatch (a row was removed or reordered)";
      }
      else if not (same (hash row.prev_hash row.entry) row.row_hash)
      then record {
        intact = false;
        checked = checked;
        broken_at = some row.id;
        reason = some "row content does not match its hash (the row was edited)";
      }
      else onward

  pub verify : List Row → Report
  unfolding walk
  verify rows = walk none 0 rows

  -- `DELETE ... WHERE created_at < cutoff`.
  unfoldable pub delete_before : ℕ → List Row → List Row
  delete_before cutoff rows = keep (λ row. not (ltb (row.entry).created_at cutoff)) rows

  -- `removed` counts what the DELETE took; the purge is an entry of its own if it took something.
  pub purge_older_than : Bool → ℕ → Context → (ℕ → ℕ → String) → ℕ → Log → Log × ℕ
  unfolding delete_before append_entry
  purge_older_than written now context details cutoff log =
      let rest = delete_before cutoff log.rows in
      let removed = length log.rows - length rest in
      let purged = record log { rows = rest } in
      if removed == 0 then (purged, removed) else (
        (append_entry written now context (purge_request (details removed cutoff)) purged).0,
        removed,
      )
