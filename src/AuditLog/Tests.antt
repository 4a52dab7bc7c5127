-- ===== src/AuditLog/Tests.antt =====
-- Runs of audit_log.py on a small log, and its theorems there. The digest of a row is the list of
-- the cells that lead up to it.
use domain_lens.Prelude.{
  ℕ, suc, zero, ◌≡◌, refl, ◌≢◌, inr, Bool, true, false, String, Option, none, List, [], ◌∷◌, arith,
  length, eq_iff, str_eq, ap,
}
use mathlib.Core.Bool.{decide, decide_iff}
use mathlib.Core.List.{List-discrete}
use mathlib.Core.Option
use domain_lens.AuditLog.{
  Digest, Row, Log, Entry, Context, Request, entry_of, hash, last_hash, verify, append_entry,
  purge_older_than,
}
use domain_lens.AuditLog.Chain.{Linked, verify-intact_iff}
use domain_lens.AuditLog.Tampering.{verify-truncate, verify-edit}
use domain_lens.AuditLog.Retention.{Reach, here, next, recorded, purged, Reach-verify}

String-discrete : Discrete String
String-discrete s t = from_test (str_eq s t) refl
  where
    from_test : (b : Bool) → str_eq s t ≡ b → Dec (s ≡ t)
    from_test true e = yes ((eq_iff s t).0 e)
    from_test false e = no (λ p. ground (arith, eq_iff s t))

abbrev Trail : Type 0
Trail = List (List (Option String))

Trail-discrete : Discrete Trail
Trail-discrete = List-discrete (List-discrete (Option.discrete String-discrete))

-- The text of a time: one character for each microsecond.
strokes : ℕ → String
strokes zero = String.[]
strokes (suc n) = String.◌∷◌ "x" (strokes n)

strokes_injective : (s t : ℕ) → strokes s ≡ strokes t → s ≡ t
unfolding strokes
strokes_injective zero zero h = refl
strokes_injective zero (suc t) h = cc
strokes_injective (suc s) zero h = cc
strokes_injective (suc s) (suc t) h = ap suc (strokes_injective s t (cc))

abbrev trail : Digest
trail = record {
  Hash = Trail;
  same = λ a b. decide (Trail-discrete a b);
  same_iff = λ a b. decide_iff (Trail-discrete a b);
  genesis = [];
  digest = λ prev cells. cells ∷ prev;
  isoformat = strokes;
}

trail_collision_free :
    (p q : Trail) (xs ys : List (Option String))
    → trail.digest p xs ≡ trail.digest q ys
    → (p ≡ q) × (xs ≡ ys)
trail_collision_free p q xs ys h = ground arith

abbrev outside : Context
outside = record { user = none; method = "system"; ip = none }

abbrev ask : String → Request
ask action = record {
  action = action;
  target_type = none;
  target_id = none;
  outcome = "success";
  details = "{}";
  actor = none;
  auth_method = none;
}

abbrev row_at : ℕ → ℕ → String → Trail → Row trail
row_at id now action prev = record {
  id = id;
  entry = entry_of now outside (ask action);
  prev_hash = prev;
  row_hash = hash trail prev (entry_of now outside (ask action));
}

abbrev first_row : Row trail
first_row = row_at 1 1 "login" []

abbrev second_row : Row trail
second_row = row_at 2 2 "scan" first_row.row_hash

abbrev third_row : Row trail
third_row = row_at 3 3 "logout" second_row.row_hash

abbrev three : List (Row trail)
three = first_row ∷ second_row ∷ third_row ∷ []

three-Linked : Linked trail none three
three-Linked = (tt, refl, (refl, refl, (refl, refl, tt)))

three_intact : (verify trail three).intact ≡ true
three_intact = (verify-intact_iff trail three).1 three-Linked

verify-truncate_example : (verify trail (first_row ∷ [])).intact ≡ true
verify-truncate_example =
    verify-truncate trail (first_row ∷ []) (second_row ∷ third_row ∷ []) three_intact

abbrev edited_row : Row trail
edited_row = row_at 2 2 "delete" first_row.row_hash

edited-ne : edited_row.entry ≢ second_row.entry
unfolding entry_of
edited-ne e = ground (arith, eq_iff "delete" "scan", ap (λ (x : Entry). x.action) e)

verify-edit_example : (verify trail (first_row ∷ edited_row ∷ third_row ∷ [])).intact ≡ false
verify-edit_example =
    verify-edit trail trail_collision_free strokes_injective (first_row ∷ []) (third_row ∷ [])
      second_row edited_row three_intact edited-ne (inr (λ e. cc))

first-ne : first_row.entry ≢ second_row.entry
unfolding entry_of
first-ne e = omega (arith, ap (λ (x : Entry). x.created_at) e)

abbrev empty : Log trail
empty = record { rows = []; next_id = 1 }

abbrev logged : Log trail
logged = (append_entry trail true 1 outside (ask "login") empty).0

logged_entry : logged.rows ≡ first_row ∷ []
unfolding append_entry last_hash
logged_entry = refl

abbrev purged_log : Log trail
purged_log = (purge_older_than trail true 9 outside (λ removed cutoff. "{}") 5 logged).0

purged_log-Reach : Reach trail purged_log
unfolding append_entry entry_of
purged_log-Reach =
    next (next here (recorded true 1 outside (ask "login") empty tt))
      (purged true 9 outside (λ removed cutoff. "{}") 5 logged (omega arith, tt))

Reach-verify_example :
    ((verify trail purged_log.rows).intact ≡ true)
    × ((verify trail purged_log.rows).checked ≡ length purged_log.rows)
Reach-verify_example = Reach-verify trail purged_log purged_log-Reach
