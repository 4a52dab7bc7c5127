-- ===== src/AuditLog/Chain.antt =====
-- When the log of audit_log.py verifies, and where a report says that it breaks.
use domain_lens.Prelude.{
  ℕ, ◌+◌, ◌≡◌, refl, ap, ◌↔◌, inl, inr, Bool, true, false, Option, none, some, List, [], ◌∷◌, ◌++◌,
  arith, length, Bool-cases,
}
use domain_lens.AuditLog.{
  Digest, Row, Log, Report, Context, Request, hash, last_hash, departs, walk, verify, append_entry,
}

module _ (d : Digest) where
  open d use {Hash, same, same_iff, genesis}

  abbrev pub Follows : Option Hash → Row d → Type 0
  Follows none row = Unit
  Follows (some prev) row = row.prev_hash ≡ prev

  -- Every row holds the hash of its content, and the previous hash is that of the row before it;
  -- the first row is the anchor when `prev` is none.
  abbrev pub Linked : Option Hash → List (Row d) → Type 0
  Linked prev [] = Unit
  Linked prev (row ∷ rest) =
      Follows prev row
      × (hash d row.prev_hash row.entry ≡ row.row_hash)
      × Linked (some row.row_hash) rest

  pub Linked-weaken :
      (prev : Option Hash) (rows : List (Row d)) → Linked prev rows → Linked none rows
  Linked-weaken prev [] l = tt
  Linked-weaken prev (row ∷ rest) l = (tt, l.1, l.2)

  departs_iff : (prev : Option Hash) (row : Row d) → (departs d prev row ≡ false) ↔ Follows prev row
  unfolding departs
  departs_iff none row = (λ _. tt, λ _. refl)
  departs_iff (some prev) row = ground (arith, same_iff row.prev_hash prev)

  -- A report on the rows behind `prev`, `checked` rows in.
  walk-intact :
      (prev : Option Hash) (checked : ℕ) (rows : List (Row d))
      → ((walk d prev checked rows).intact ≡ true) ↔ Linked prev rows
  unfolding walk
  walk-intact prev checked [] = (λ _. tt, λ _. refl)
  walk-intact prev checked (row ∷ rest) = ground (
    arith,
    departs_iff prev row,
    same_iff (hash d row.prev_hash row.entry) row.row_hash,
    walk-intact (some row.row_hash) (checked + 1) rest,
  )

  walk-checked :
      (prev : Option Hash) (checked : ℕ) (rows : List (Row d))
      → (walk d prev checked rows).intact ≡ true
      → (walk d prev checked rows).checked ≡ checked + length rows
  unfolding walk
  walk-checked prev checked [] h = omega arith
  walk-checked prev checked (row ∷ rest) h =
      ground (arith, walk-checked (some row.row_hash) (checked + 1) rest)

  -- Where a report stops: behind the rows `before`, at `row`.
  pub record Break (prev : Option Hash) (checked : ℕ) (rows : List (Row d)) (report : Report d)
      : Type 0 where
    pub before : List (Row d)
    pub row : Row d
    pub after : List (Row d)
    pub split : rows ≡ before ++ row ∷ after
    pub linked : Linked prev before
    pub broken : ¬ Linked prev (before ++ row ∷ [])
    pub place : report.broken_at ≡ some row.id
    pub count : report.checked ≡ checked + length before

  walk-Break :
      (prev : Option Hash) (checked : ℕ) (rows : List (Row d))
      → (walk d prev checked rows).intact ≡ false
      → Break prev checked rows (walk d prev checked rows)
  unfolding walk
  walk-Break prev checked [] h = ground arith
  walk-Break prev checked (row ∷ rest) h = elim (Bool-cases (departs d prev row)) [
    | inl departed ↦ rw departed (record {
      before = [];
      row = row;
      after = rest;
      split = refl;
      linked = tt;
      broken = λ l. ground (arith, departs_iff prev row);
      place = refl;
      count = omega arith;
    })
    | inr follows ↦ elim (Bool-cases (same (hash d row.prev_hash row.entry) row.row_hash)) [
      | inl fits ↦
          let b = walk-Break (some row.row_hash) (checked + 1) rest (ground arith) in
          rw (follows, fits)
            (record {
              before = row ∷ b.before;
              row = b.row;
              after = b.after;
              split = ap (λ l. row ∷ l) b.split;
              linked = ((departs_iff prev row).0 follows, (same_iff _ _).0 fits, b.linked);
              broken = λ l. b.broken (l.2);
              place = b.place;
              count = omega (arith, b.count);
            })
      | inr edited ↦
          rw (follows, edited)
            (record {
              before = [];
              row = row;
              after = rest;
              split = refl;
              linked = tt;
              broken = λ l. ground (arith, same_iff (hash d row.prev_hash row.entry) row.row_hash);
              place = refl;
              count = omega arith;
            })
    ]
  ]

  -- The log verifies exactly when every row holds the hash of its own content and names the hash of
  -- the row before it.
  pub verify-intact_iff : (rows : List (Row d)) → ((verify d rows).intact ≡ true) ↔ Linked none rows
  unfolding verify
  verify-intact_iff rows = walk-intact none 0 rows

  -- A log that does not verify splits at the row that the report names: the rows before it, which
  -- the report counts, verify by themselves, and with that row they do not.
  pub verify-Break :
      (rows : List (Row d)) → (verify d rows).intact ≡ false → Break none 0 rows (verify d rows)
  unfolding verify
  verify-Break rows h = walk-Break none 0 rows h

  pub verify-checked :
      (rows : List (Row d)) → (verify d rows).intact ≡ true → (verify d rows).checked ≡ length rows
  unfolding verify
  verify-checked rows h = omega (arith, walk-checked none 0 rows h)

  snoc-Linked-some :
      (prev : Hash) (rows : List (Row d)) (row : Row d)
      → row.prev_hash ≡ last_hash d prev rows
      → hash d row.prev_hash row.entry ≡ row.row_hash
      → Linked (some prev) rows
      → Linked (some prev) (rows ++ row ∷ [])
  unfolding last_hash
  snoc-Linked-some prev [] row e fits l = (e, fits, tt)
  snoc-Linked-some prev (r ∷ rest) row e fits l =
      (l.0, l.1, snoc-Linked-some r.row_hash rest row e fits (l.2))

  snoc-Linked :
      (rows : List (Row d)) (row : Row d)
      → row.prev_hash ≡ last_hash d genesis rows
      → hash d row.prev_hash row.entry ≡ row.row_hash
      → Linked none rows
      → Linked none (rows ++ row ∷ [])
  unfolding last_hash
  snoc-Linked [] row e fits l = (tt, fits, tt)
  snoc-Linked (r ∷ rest) row e fits l = (tt, l.1, snoc-Linked-some r.row_hash rest row e fits (l.2))

  pub append_entry-Linked :
      (written : Bool) (now : ℕ) (context : Context) (request : Request) (log : Log d)
      → Linked none log.rows
      → Linked none ((append_entry d written now context request log).0).rows
  unfolding append_entry
  append_entry-Linked false now context request log l = l
  append_entry-Linked true now context request log l = snoc-Linked log.rows _ refl refl l
