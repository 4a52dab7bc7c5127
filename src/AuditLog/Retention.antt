-- ===== src/AuditLog/Retention.antt =====
-- Logs that audit_log.py writes itself: entries appended and old entries purged, by a clock that
-- does not go back.
use domain_lens.Prelude.{
  ℕ, ◌+◌, ◌-◌, ◌≤◌, ◌<◌, ◌≡◌, refl, Bool, true, false, none, List, [], ◌∷◌, ◌++◌, String, arith,
  All, All-append, All-keep, keep, length, ltb, ◌==◌, inl, inr, Bool-cases,
}
use domain_lens.AuditLog.{
  Digest, Row, Log, Context, Request, verify, append_entry, delete_before, purge_older_than,
  purge_request,
}
use domain_lens.AuditLog.Chain.{
  Linked, Linked-weaken, verify-intact_iff, verify-checked, append_entry-Linked,
}

module _ (d : Digest) where
  abbrev pub Since : ℕ → List (Row d) → Type 0
  Since t rows = All (λ row. t ≤ (row.entry).created_at) rows

  abbrev pub Until : ℕ → List (Row d) → Type 0
  Until t rows = All (λ row. (row.entry).created_at ≤ t) rows

  -- The times do not fall, and the ids rise.
  abbrev pub Ascending : List (Row d) → Type 0
  Ascending [] = Unit
  Ascending (row ∷ rest) =
      Since (row.entry).created_at rest × All (λ later. row.id < later.id) rest × Ascending rest

  pub record IsSound (log : Log d) : Type 0 where
    pub linked : Linked d none log.rows
    pub ascending : Ascending log.rows
    pub numbered : All (λ row. row.id < log.next_id) log.rows

  delete_before-Since :
      (cutoff t : ℕ) (rows : List (Row d))
      → cutoff ≤ t
      → Since t rows
      → delete_before d cutoff rows ≡ rows
  unfolding delete_before keep
  delete_before-Since cutoff t [] h s = refl
  delete_before-Since cutoff t (row ∷ rest) h s =
      ground (arith, delete_before-Since cutoff t rest h)

  -- What a purge leaves of ascending rows is their end.
  delete_before-Linked :
      (cutoff : ℕ) (rows : List (Row d))
      → Ascending rows
      → Linked d none rows
      → Linked d none (delete_before d cutoff rows)
  unfolding delete_before keep
  delete_before-Linked cutoff [] a l = tt
  delete_before-Linked cutoff (row ∷ rest) a l =
      elim (Bool-cases (ltb (row.entry).created_at cutoff)) [
        | inl old ↦ rw old (delete_before-Linked cutoff rest (a.2) (Linked-weaken d _ rest (l.2)))
        | inr recent ↦
            let kept : delete_before d cutoff rest ≡ rest =
              delete_before-Since cutoff (row.entry).created_at rest (ground arith) (a.0) in
            rw (recent, kept) l
      ]

  delete_before-Ascending :
      (cutoff : ℕ) (rows : List (Row d)) → Ascending rows → Ascending (delete_before d cutoff rows)
  unfolding delete_before keep
  delete_before-Ascending cutoff [] a = tt
  delete_before-Ascending cutoff (row ∷ rest) a =
      elim (Bool-cases (ltb (row.entry).created_at cutoff)) [
        | inl old ↦ rw old (delete_before-Ascending cutoff rest (a.2))
        | inr recent ↦ rw recent (
          All-keep (λ later. (row.entry).created_at ≤ (later.entry).created_at) _ rest (a.0),
          All-keep (λ later. row.id < later.id) _ rest (a.1),
          delete_before-Ascending cutoff rest (a.2),
        )
      ]

  snoc-Ascending :
      (rows : List (Row d)) (row : Row d)
      → Until (row.entry).created_at rows
      → All (λ earlier. earlier.id < row.id) rows
      → Ascending rows
      → Ascending (rows ++ row ∷ [])
  snoc-Ascending [] row u n a = (tt, tt, tt)
  snoc-Ascending (r ∷ rest) row u n a = (
    All-append _ _ (u.0, tt) rest (a.0),
    All-append _ _ (n.0, tt) rest (a.1),
    snoc-Ascending rest row (u.1) (n.1) (a.2),
  )

  append_entry-IsSound :
      (written : Bool) (now : ℕ) (context : Context) (request : Request) (log : Log d)
      → Until now log.rows
      → IsSound log
      → IsSound (append_entry d written now context request log).0
  unfolding append_entry
  append_entry-IsSound false now context request log u s = s
  append_entry-IsSound true now context request log u s = record {
    linked = append_entry-Linked d true now context request log s.linked;
    ascending = snoc-Ascending log.rows _ u s.numbered s.ascending;
    numbered = All-append _ _ (omega arith, tt) log.rows (below log.rows s.numbered);
  }
    where
      below :
          (rows : List (Row d))
          → All (λ row. row.id < log.next_id) rows
          → All (λ row. row.id < log.next_id + 1) rows
      below [] h = tt
      below (row ∷ rest) h = (omega arith, below rest (h.1))

  purge_older_than-IsSound :
      (written : Bool) (now : ℕ) (context : Context) (details : ℕ → ℕ → String) (cutoff : ℕ)
      (log : Log d)
      → Until now log.rows
      → IsSound log
      → IsSound (purge_older_than d written now context details cutoff log).0
  unfolding purge_older_than
  purge_older_than-IsSound written now context details cutoff log u s =
      let rest = delete_before d cutoff log.rows in
      let removed = length log.rows - length rest in
      let purged : IsSound (record log { rows = rest }) = record {
        linked = delete_before-Linked cutoff log.rows s.ascending s.linked;
        ascending = delete_before-Ascending cutoff log.rows s.ascending;
        numbered = unfold delete_before in All-keep _ _ log.rows s.numbered;
      } in
      let kept : Until now rest = unfold delete_before in All-keep _ _ log.rows u in
      elim (Bool-cases (removed == 0)) [
        | inl nothing ↦ rw nothing purged
        | inr some_rows ↦ rw some_rows (
            append_entry-IsSound written now context (purge_request (details removed cutoff))
              (record log { rows = rest }) kept purged)
      ]

  -- One call of `record` or of `purge_older_than`, at a time that no entry is later than.
  pub data Step : Log d → Log d → Type 0 where
    recorded :
        (written : Bool) (now : ℕ) (context : Context) (request : Request) (log : Log d)
        → Until now log.rows
        → Step log (append_entry d written now context request log).0
    purged :
        (written : Bool) (now : ℕ) (context : Context) (details : ℕ → ℕ → String) (cutoff : ℕ)
        (log : Log d)
        → Until now log.rows
        → Step log (purge_older_than d written now context details cutoff log).0

  pub data Reach : Log d → Type 0 where
    here : Reach (record { rows = []; next_id = 1 })
    next : {log log' : Log d} → Reach log → Step log log' → Reach log'

  Reach-IsSound : (log : Log d) → Reach log → IsSound log
  Reach-IsSound log here = record { linked = tt; ascending = tt; numbered = tt }
  Reach-IsSound log (next {log = before} reached step) =
      step-IsSound step (Reach-IsSound before reached)
    where
      step-IsSound : {a b : Log d} → Step a b → IsSound a → IsSound b
      step-IsSound (recorded written now context request a u) s =
          append_entry-IsSound written now context request a u s
      step-IsSound (purged written now context details cutoff a u) s =
          purge_older_than-IsSound written now context details cutoff a u s

  -- Every log that the module's own calls reach from an empty table, appending entries and purging
  -- old ones at times that do not go back, with any of the writes refused, verifies: the report says
  -- intact and counts all the rows.
  pub Reach-verify :
      (log : Log d)
      → Reach log
      → ((verify d log.rows).intact ≡ true) × ((verify d log.rows).checked ≡ length log.rows)
  Reach-verify log reached =
      let intact = (verify-intact_iff d log.rows).1 (Reach-IsSound log reached).linked in
      (intact, verify-checked d log.rows intact)
