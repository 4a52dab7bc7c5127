-- ===== src/ScanDiff/Stable.antt =====
-- What `compare_dimensions` of scan_diff.py shows of scans that agree, and of what was not measured.
use domain_lens.Prelude.{
  ap, ◌∙◌, ℕ, ◌≡◌, refl, ◌⊎◌, inl, inr, Bool, true, false, Option, none, some, List, [], ◌∷◌, ◌++◌,
  arith, All, All-append, keep, length, Text, text_eq_self, String,
}
use domain_lens.ScanDiff.{
  or_compared, Results, Row, Status, Value, Severities, unchanged, unmeasured, grade, number, flag,
  texts, counts, grade_status, grade_rank, ranks_status, worse_when_higher, worse_when_lower,
  worse_when_false, growth_status, texts_eq, severity_status, dimension_row, dimensions,
  severity_rows, tls_grade, header_score, blacklist_count, open_ports, dnssec_signed,
  https_redirect_ok, security_findings, missing_headers, email_auth_passing, threat_feed_hits,
  virustotal_detections, leaked_secrets, vulnerable_js, is_worse, is_better, is_changed,
  compare_dimensions, weight,
}

-- A row that shows no difference.
abbrev pub IsQuiet : Row → Type 0
IsQuiet row = (row.status ≡ unchanged) ⊎ (row.status ≡ unmeasured)

texts_eq_self : (ss : List Text) → texts_eq ss ss ≡ true
unfolding texts_eq
texts_eq_self [] = refl
texts_eq_self (s ∷ ss) = rw (text_eq_self s) (texts_eq_self ss)

ranks_same : (r : Option ℕ) → (ranks_status r r ≡ none) ⊎ (ranks_status r r ≡ some unchanged)
ranks_same none = inl refl
ranks_same (some n) = inr (ground arith)

grade_same : (g : Text) → grade_status g g ≡ unchanged
unfolding grade_status
grade_same g = elim (ranks_same (grade_rank g)) [
  | inl e ↦ ap (λ s. or_compared s g g) e ∙ rw (text_eq_self g) refl
  | inr e ↦ ap (λ s. or_compared s g g) e
]

higher_same : (n : ℕ) → worse_when_higher n n ≡ unchanged
unfolding worse_when_higher
higher_same n = ground arith

lower_same : (n : ℕ) → worse_when_lower n n ≡ unchanged
unfolding worse_when_lower
lower_same n = ground arith

false_same : (b : Bool) → worse_when_false b b ≡ unchanged
unfolding worse_when_false
false_same true = refl
false_same false = refl

growth_same : (ss : List Text) → growth_status ss ss ≡ unchanged
unfolding growth_status
growth_same ss = rw (texts_eq_self ss) refl

severity_same : (s : Severities) → severity_status s s ≡ unchanged
unfolding severity_status
severity_same s = higher_same (weight s)

module _ {A : Type 0} (key : String) (value : A → Value) (compare : A → A → Status) where
  same-IsQuiet :
      ((a : A) → compare a a ≡ unchanged)
      → (found : Option A) → IsQuiet (dimension_row key value compare found found)
  unfolding dimension_row
  same-IsQuiet h none = inr refl
  same-IsQuiet h (some a) = inl (h a)

dimensions-IsQuiet : (r : Results) → All IsQuiet (dimensions r r)
unfolding dimensions
dimensions-IsQuiet r = (
  same-IsQuiet "tls_grade" grade grade_status grade_same (tls_grade r),
  (
    same-IsQuiet "header_score" number worse_when_lower lower_same (header_score r),
    (
      same-IsQuiet "blacklist" number worse_when_higher higher_same (blacklist_count r),
      (
        same-IsQuiet "open_ports" texts growth_status growth_same (open_ports r),
        (
          same-IsQuiet "dnssec" flag worse_when_false false_same (dnssec_signed r),
          (
            same-IsQuiet "https_redirect" flag worse_when_false false_same (https_redirect_ok r),
            (
              same-IsQuiet "security_findings" number worse_when_higher higher_same
                  (security_findings r),
              (
                same-IsQuiet "missing_headers" texts growth_status growth_same (missing_headers r),
                (
                  same-IsQuiet "email_auth" number worse_when_lower lower_same
                      (email_auth_passing r),
                  (
                    same-IsQuiet "reputation" number worse_when_higher higher_same
                        (threat_feed_hits r),
                    (
                      same-IsQuiet "virustotal" number worse_when_higher higher_same
                          (virustotal_detections r),
                      (
                        same-IsQuiet "secrets" number worse_when_higher higher_same
                            (leaked_secrets r),
                        (
                          same-IsQuiet "vulnerable_js" number worse_when_higher higher_same
                              (vulnerable_js r),
                          tt,
                        ),
                      ),
                    ),
                  ),
                ),
              ),
            ),
          ),
        ),
      ),
    ),
  ),
)

severity_rows-IsQuiet : (s : Option Severities) → All IsQuiet (severity_rows s s)
severity_rows-IsQuiet none = tt
severity_rows-IsQuiet (some s) =
    (same-IsQuiet "recommendations" counts severity_status severity_same (some s), tt)

summary-quiet :
    (rows : List Row)
    → All IsQuiet rows
    → (length (keep is_worse rows) ≡ 0)
      × (length (keep is_better rows) ≡ 0)
      × (length (keep is_changed rows) ≡ 0)
unfolding keep
summary-quiet [] h = (refl, refl, refl)
summary-quiet (row ∷ rest) h =
    let more = summary-quiet rest (h.1) in elim (h.0) [ inl e ↦ rw e more | inr e ↦ rw e more ]

-- The comparison of a scan with itself shows no difference: every row is unchanged or not measured,
-- and the summary counts no row as worse, better or changed.
pub compare_dimensions-same :
    (r : Results) (severity : Option Severities)
    → All IsQuiet (compare_dimensions r r severity severity).0
      × ((compare_dimensions r r severity severity).1
          ≡ record { worse_rows = 0; better_rows = 0; changed_rows = 0 })
unfolding compare_dimensions
compare_dimensions-same r severity =
    let quiet =
      All-append IsQuiet (severity_rows severity severity) (severity_rows-IsQuiet severity)
        (dimensions r r) (dimensions-IsQuiet r) in
    let none_left = summary-quiet (dimensions r r ++ severity_rows severity severity) quiet in
    (quiet, rw (none_left.0, none_left.1, none_left.2) refl)
