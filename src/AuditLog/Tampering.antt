-- ===== src/AuditLog/Tampering.antt =====
-- What `verify` of audit_log.py says of a log file that was changed by hand.
use domain_lens.Prelude.{
  ℕ, ◌≡◌, sym, ◌∙◌, ◌≢◌, ◌⊎◌, inl, inr, String, true, false, Option, none, some, List, [], ◌∷◌,
  ◌++◌, arith, Bool-cases,
}
use domain_lens.AuditLog.{Digest, Row, Entry, cells, hash, verify}
use domain_lens.AuditLog.Chain.{Linked, Linked-weaken, verify-intact_iff}

module _ (d : Digest) where
  open d use {Hash, digest, isoformat}

  -- A change of the rows that is not linked any more is reported.
  not-intact : (rows : List (Row d)) → ¬ Linked d none rows → (verify d rows).intact ≡ false
  not-intact rows broken = elim (Bool-cases (verify d rows).intact) [
    | inl intact ↦ absurd (broken ((verify-intact_iff d rows).0 intact))
    | inr reported ↦ reported
  ]

  Linked-before :
      (prev : Option Hash) (before after : List (Row d))
      → Linked d prev (before ++ after)
      → Linked d prev before
  Linked-before prev [] after l = tt
  Linked-before prev (row ∷ rest) after l =
      (l.0, l.1, Linked-before (some row.row_hash) rest after (l.2))

  Linked-after :
      (prev : Option Hash) (before after : List (Row d))
      → Linked d prev (before ++ after)
      → Linked d none after
  Linked-after prev [] after l = Linked-weaken d prev after l
  Linked-after prev (row ∷ rest) after l = Linked-after (some row.row_hash) rest after (l.2)

  -- Rows that were taken off the end leave a log that verifies.
  pub verify-truncate :
      (before after : List (Row d))
      → (verify d (before ++ after)).intact ≡ true
      → (verify d before).intact ≡ true
  verify-truncate before after h =
      (verify-intact_iff d before).1
        (Linked-before none before after ((verify-intact_iff d (before ++ after)).0 h))

-- The hash function has no collisions among the rows, and the text of a time determines it.
module _ (d : Digest)
    (collision_free : (p q : d.Hash) (xs ys : List (Option String))
      → d.digest p xs ≡ d.digest q ys
      → (p ≡ q) × (xs ≡ ys))
    (isoformat_injective : (s t : ℕ) → d.isoformat s ≡ d.isoformat t → s ≡ t) where
  cells_injective : (e f : Entry) → cells d e ≡ cells d f → e ≡ f
  unfolding cells
  cells_injective e f h = ground (arith, isoformat_injective e.created_at f.created_at)

  hash_injective : (p q : d.Hash) (e f : Entry) → hash d p e ≡ hash d q f → (p ≡ q) × (e ≡ f)
  unfolding hash
  hash_injective p q e f h =
      let (same_prev, same_cells) = collision_free p q (cells d e) (cells d f) h in
      (same_prev, cells_injective e f same_cells)

  -- In an intact log the content of a row was changed. If the row keeps its hash, or if a row
  -- follows it, the log does not verify any more, whatever hashes the changed row holds.
  pub verify-edit :
      (before after : List (Row d)) (row edited : Row d)
      → (verify d (before ++ row ∷ after)).intact ≡ true
      → edited.entry ≢ row.entry
      → (edited.row_hash ≡ row.row_hash) ⊎ (after ≢ [])
      → (verify d (before ++ edited ∷ after)).intact ≡ false
  verify-edit before after row edited intact changed kept = not-intact d _ λ l.
      let old = Linked-after d none before _ ((verify-intact_iff d _).0 intact) in
      let new = Linked-after d none before _ l in
      let same = hashes_agree after (old.2) (new.2) kept in
      changed (hash_injective _ _ _ _ (new.1 ∙ same ∙ sym (old.1))).1
    where
      hashes_agree :
          (rest : List (Row d))
          → Linked d (some row.row_hash) rest
          → Linked d (some edited.row_hash) rest
          → (edited.row_hash ≡ row.row_hash) ⊎ (rest ≢ [])
          → edited.row_hash ≡ row.row_hash
      hashes_agree rest old new (inl e) = e
      hashes_agree [] old new (inr some_row) = absurd (some_row (λ i. []))
      hashes_agree (next ∷ rest) old new (inr some_row) = sym (new.0) ∙ old.0

  -- A row that has a row before it, of other content, and a row behind it cannot be taken out of
  -- an intact log unseen.
  pub verify-remove :
      (before after : List (Row d)) (first removed next : Row d)
      → (verify d (before ++ (first ∷ removed ∷ next ∷ after))).intact ≡ true
      → first.entry ≢ removed.entry
      → (verify d (before ++ (first ∷ next ∷ after))).intact ≡ false
  verify-remove before after first removed next intact differ = not-intact d _ λ l.
      let old = Linked-after d none before _ ((verify-intact_iff d _).0 intact) in
      let new = Linked-after d none before _ l in
      differ (hash_injective _ _ _ _ (old.1 ∙ sym (new.2.0) ∙ (old.2.2.0) ∙ sym (old.2.1))).1
