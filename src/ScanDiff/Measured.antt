-- ===== src/ScanDiff/Measured.antt =====
-- When a row of `compare_dimensions` of scan_diff.py is called unmeasured.
use domain_lens.Prelude.{
  ℕ, ◌≡◌, refl, ◌≢◌, ◌⊎◌, ◌↔◌, inl, inr, Bool, true, false, Option, none, some, List, arith, All,
  All-append, Text, String,
}
use domain_lens.ScanDiff.{
  Results, Row, Status, Value, Severities, unmeasured, grade, number, flag, texts, counts,
  or_compared, grade_status, grade_rank, ranks_status, worse_when_higher, worse_when_lower,
  worse_when_false, growth_status, severity_status, dimension_row, dimensions, severity_rows,
  compare_dimensions, weight, tls_grade, header_score, blacklist_count, open_ports, dnssec_signed,
  https_redirect_ok, security_findings, missing_headers, email_auth_passing, threat_feed_hits,
  virustotal_detections, leaked_secrets, vulnerable_js,
}

-- A row is unmeasured exactly when one of its values is missing.
abbrev pub IsHonest : Row → Type 0
IsHonest row = (row.status ≡ unmeasured) ↔ ((row.old ≡ none) ⊎ (row.new ≡ none))

ranks_measured :
    (o n : Option ℕ) (old new : Text) → or_compared (ranks_status o n) old new ≢ unmeasured
ranks_measured none n old new = ground arith
ranks_measured (some o) none old new = ground arith
ranks_measured (some o) (some n) old new = ground arith

grade_measured : (old new : Text) → grade_status old new ≢ unmeasured
unfolding grade_status
grade_measured old new = ranks_measured (grade_rank old) (grade_rank new) old new

higher_measured : (old new : ℕ) → worse_when_higher old new ≢ unmeasured
unfolding worse_when_higher
higher_measured old new = ground arith

lower_measured : (old new : ℕ) → worse_when_lower old new ≢ unmeasured
unfolding worse_when_lower
lower_measured old new = ground arith

false_measured : (old new : Bool) → worse_when_false old new ≢ unmeasured
unfolding worse_when_false
false_measured true true = ground arith
false_measured true false = ground arith
false_measured false true = ground arith
false_measured false false = ground arith

growth_measured : (old new : List Text) → growth_status old new ≢ unmeasured
unfolding growth_status
growth_measured old new = ground arith

severity_measured : (old new : Severities) → severity_status old new ≢ unmeasured
unfolding severity_status
severity_measured old new = higher_measured (weight old) (weight new)

module _ {A : Type 0} (key : String) (value : A → Value) (compare : A → A → Status) where
  row-IsHonest :
      ((old new : A) → compare old new ≢ unmeasured)
      → (old new : Option A) → IsHonest (dimension_row key value compare old new)
  unfolding dimension_row
  row-IsHonest measured none new = ((λ e. inl refl), (λ e. refl))
  row-IsHonest measured (some a) none = ((λ e. inr refl), (λ e. refl))
  row-IsHonest measured (some a) (some b) = ((λ e. absurd (measured a b e)), (λ e. ground arith))

dimensions-IsHonest : (old new : Results) → All IsHonest (dimensions old new)
unfolding dimensions
dimensions-IsHonest old new = (
  row-IsHonest "tls_grade" grade grade_status grade_measured (tls_grade old) (tls_grade new),
  (
    row-IsHonest "header_score" number worse_when_lower lower_measured (header_score old)
        (header_score new),
    (
      row-IsHonest "blacklist" number worse_when_higher higher_measured (blacklist_count old)
          (blacklist_count new),
      (
        row-IsHonest "open_ports" texts growth_status growth_measured (open_ports old)
            (open_ports new),
        (
          row-IsHonest "dnssec" flag worse_when_false false_measured (dnssec_signed old)
              (dnssec_signed new),
          (
            row-IsHonest "https_redirect" flag worse_when_false false_measured
                (https_redirect_ok old) (https_redirect_ok new),
            (
              row-IsHonest "security_findings" number worse_when_higher higher_measured
                  (security_findings old) (security_findings new),
              (
                row-IsHonest "missing_headers" texts growth_status growth_measured
                    (missing_headers old) (missing_headers new),
                (
                  row-IsHonest "email_auth" number worse_when_lower lower_measured
                      (email_auth_passing old) (email_auth_passing new),
                  (
                    row-IsHonest "reputation" number worse_when_higher higher_measured
                        (threat_feed_hits old) (threat_feed_hits new),
                    (
                      row-IsHonest "virustotal" number worse_when_higher higher_measured
                          (virustotal_detections old) (virustotal_detections new),
                      (
                        row-IsHonest "secrets" number worse_when_higher higher_measured
                            (leaked_secrets old) (leaked_secrets new),
                        (
                          row-IsHonest "vulnerable_js" number worse_when_higher higher_measured
                              (vulnerable_js old) (vulnerable_js new),
                          tt,
                        ),
                      ),
                    ),
                  ),
                ),
              ),
            ),
          ),
        ),
      ),
    ),
  ),
)

severity_rows-IsHonest : (old new : Option Severities) → All IsHonest (severity_rows old new)
severity_rows-IsHonest none none = tt
severity_rows-IsHonest none (some new) =
    (row-IsHonest "recommendations" counts severity_status severity_measured none (some new), tt)
severity_rows-IsHonest (some old) new =
    (row-IsHonest "recommendations" counts severity_status severity_measured (some old) new, tt)

-- In a comparison of any two scans a row is called unmeasured exactly when one of the two scans has
-- no value for it: a value that is missing is never counted as worse, better or changed.
pub compare_dimensions-IsHonest :
    (old new : Results) (old_severity new_severity : Option Severities)
    → All IsHonest (compare_dimensions old new old_severity new_severity).0
unfolding compare_dimensions
compare_dimensions-IsHonest old new old_severity new_severity =
    All-append IsHonest (severity_rows old_severity new_severity)
      (severity_rows-IsHonest old_severity new_severity) (dimensions old new)
      (dimensions-IsHonest old new)
