-- ===== src/ScanDiff.antt =====
-- scan_diff.py, the dimensions of `compare_dimensions`: what is measured in a scan, and how two
-- scans differ in it. A section of the results is a record with the entries that are read of it;
-- none where the scan has not got it, or has an empty one. A list that is only counted is its
-- length.
pub mod Stable
pub mod Measured
mod Tests
use domain_lens.Prelude.{
  ℕ, zero, suc, ◌+◌, ◌*◌, Bool, true, false, not, ◌&&◌, ◌||◌, Option, none, some, List, [], ◌∷◌,
  ◌++◌, map, keep, length, ltb, leb, ◌==◌, Text, codes, text_eq, if◌then◌else◌, String,
}
use domain_lens.Prelude.Sorting.{sort}

pub record Tls : Type 0 where
  pub success : Bool
  pub grade : Option Text

pub record Headers : Type 0 where
  pub success : Bool
  pub score : Option ℕ
  pub headers_missing : List Text

pub record Blacklist : Type 0 where
  pub is_listed : Bool
  pub listed : ℕ

pub record Port : Type 0 where
  pub port : Text
  pub service : Text

-- `dnssec` and `https_redirect`, and the checks of mail; `state` is not "measured" where it is false.
pub record Check : Type 0 where
  pub is_measured : Bool
  pub pass : Option Bool

pub record Osint : Type 0 where
  pub success : Bool
  pub threat_hits : Option ℕ
  pub has_feeds_measured : Bool
  pub virustotal_measured : Bool
  pub virustotal_malicious : ℕ
  pub virustotal_suspicious : ℕ

pub record Counted : Type 0 where
  pub success : Bool
  pub entries : ℕ

pub record Scripts : Type 0 where
  pub success : Bool
  pub secrets_found : ℕ
  pub vulnerable_libraries : ℕ

-- The results of a scan; `ports` holds none where the list `open` is missing.
pub record Results : Type 0 where
  pub tls_deep : Option Tls
  pub http_headers : Option Headers
  pub blacklist : Option Blacklist
  pub ports : Option (Option (List Port))
  pub dnssec : Option Check
  pub https_redirect : Option Check
  pub security : Option Counted
  pub mail_checks : List (Option Check)
  pub osint : Option Osint
  pub js_scan : Option Scripts

-- Python's order of texts.
unfoldable pub text_leq : Text → Text → Bool
text_leq [] t = true
text_leq (c ∷ s) [] = false
text_leq (c ∷ s) (d ∷ t) = ltb c d || (c == d && text_leq s t)

abbrev pub and_then : {A B : Type 0} → Option A → (A → Option B) → Option B
and_then none f = none
and_then (some a) f = f a

abbrev pub only : {A : Type 0} → Bool → Option A → Option A
only false a = none
only true a = a

unfoldable pub tls_grade : Results → Option Text
tls_grade r = and_then r.tls_deep (λ tls. only tls.success tls.grade)

unfoldable pub header_score : Results → Option ℕ
header_score r = and_then r.http_headers (λ headers. only headers.success headers.score)

unfoldable pub blacklist_count : Results → Option ℕ
blacklist_count r = and_then r.blacklist (λ bl. some (if bl.is_listed then bl.listed else 0))

abbrev pub service_or : Text → Text
service_or [] = codes "?"
service_or (c ∷ s) = c ∷ s

abbrev pub shown_port : Port → Text
shown_port p = p.port ++ codes "/" ++ service_or p.service

unfoldable pub open_ports : Results → Option (List Text)
unfolding sort text_leq
open_ports r =
    and_then r.ports
      (λ ports. and_then ports (λ found. some (sort text_leq (map shown_port found))))

unfoldable pub dnssec_signed : Results → Option Bool
dnssec_signed r = and_then r.dnssec (λ check. only check.is_measured check.pass)

unfoldable pub https_redirect_ok : Results → Option Bool
https_redirect_ok r = and_then r.https_redirect (λ check. check.pass)

unfoldable pub security_findings : Results → Option ℕ
security_findings r = and_then r.security (λ sec. only sec.success (some sec.entries))

unfoldable pub missing_headers : Results → Option (List Text)
unfolding sort text_leq
missing_headers r =
    and_then r.http_headers
      (λ headers. only headers.success (some (sort text_leq headers.headers_missing)))

abbrev pub was_measured : Option Check → Bool
was_measured none = false
was_measured (some check) = check.is_measured

abbrev pub passes : Option Check → Bool
passes none = false
passes (some check) = elim check.pass [ none ↦ false | some b ↦ b ]

abbrev pub some_measured : List (Option Check) → Option ℕ
some_measured [] = none
some_measured (c ∷ cs) = some (length (keep passes (c ∷ cs)))

unfoldable pub email_auth_passing : Results → Option ℕ
unfolding keep
email_auth_passing r = some_measured (keep was_measured r.mail_checks)

abbrev pub hits_of : Option ℕ → Bool → Option ℕ
hits_of none true = none
hits_of none false = some 0
hits_of (some n) has_feeds = some n

unfoldable pub threat_feed_hits : Results → Option ℕ
threat_feed_hits r =
    and_then r.osint
      (λ osint. only osint.success (hits_of osint.threat_hits osint.has_feeds_measured))

unfoldable pub virustotal_detections : Results → Option ℕ
virustotal_detections r = and_then r.osint (λ osint.
    only (osint.success && osint.virustotal_measured)
      (some (osint.virustotal_malicious + osint.virustotal_suspicious)))

unfoldable pub leaked_secrets : Results → Option ℕ
leaked_secrets r = and_then r.js_scan (λ js. only js.success (some js.secrets_found))

unfoldable pub vulnerable_js : Results → Option ℕ
vulnerable_js r = and_then r.js_scan (λ js. only js.success (some js.vulnerable_libraries))

pub data Status : Type 0 where
  worse better changed unchanged unmeasured : Status

abbrev pub grade_rank : Text → Option ℕ
grade_rank g =
    if text_eq g (codes "A+")
    then some 7
    else if text_eq g (codes "A")
    then some 6
    else if text_eq g (codes "B")
    then some 5
    else if text_eq g (codes "C")
    then some 4
    else if text_eq g (codes "D")
    then some 3
    else if text_eq g (codes "E")
    then some 2
    else if text_eq g (codes "F")
    then some 1
    else if text_eq g (codes "T")
    then some 0
    else none

abbrev pub ranks_status : Option ℕ → Option ℕ → Option Status
ranks_status none n = none
ranks_status (some o) none = none
ranks_status (some o) (some n) =
    some (if ltb n o then worse else if ltb o n then better else unchanged)

unfoldable pub worse_when_higher : ℕ → ℕ → Status
worse_when_higher old new = if old == new then unchanged else if ltb old new then worse else better

unfoldable pub worse_when_lower : ℕ → ℕ → Status
worse_when_lower old new = if old == new then unchanged else if ltb new old then worse else better

unfoldable pub worse_when_false : Bool → Bool → Status
worse_when_false true true = unchanged
worse_when_false false false = unchanged
worse_when_false true false = worse
worse_when_false false true = better

unfoldable pub contains : List Text → Text → Bool
unfolding text_eq
contains [] t = false
contains (s ∷ rest) t = text_eq s t || contains rest t

unfoldable pub texts_eq : List Text → List Text → Bool
unfolding text_eq
texts_eq [] [] = true
texts_eq [] (t ∷ ts) = false
texts_eq (s ∷ ss) [] = false
texts_eq (s ∷ ss) (t ∷ ts) = text_eq s t && texts_eq ss ts

abbrev pub is_empty : {A : Type 0} → List A → Bool
is_empty [] = true
is_empty (a ∷ rest) = false

-- The elements of the first list that the second has not got: the difference of their sets.
abbrev pub less : List Text → List Text → List Text
less xs ys = keep (λ x. not (contains ys x)) xs

-- `_set_growth_worse`, and `_ports_status`, which does the same.
unfoldable pub growth_status : List Text → List Text → Status
unfolding texts_eq contains keep
growth_status old new =
    if texts_eq old new
    then unchanged
    else if not (is_empty (less new old))
    then worse
    else if not (is_empty (less old new))
    then better
    else changed

-- The counts of findings by severity; one of another severity weighs nothing.
pub record Severities : Type 0 where
  pub critical : ℕ
  pub high : ℕ
  pub medium : ℕ
  pub low : ℕ

abbrev pub weight : Severities → ℕ
weight s = 1000 * s.critical + 100 * s.high + 10 * s.medium + s.low

pub data Value : Type 0 where
  grade : Text → Value
  number : ℕ → Value
  flag : Bool → Value
  texts : List Text → Value
  counts : Severities → Value

-- A row of the comparison, without its label and its unit, which go with the key.
pub record Row : Type 0 where
  pub key : String
  pub old : Option Value
  pub new : Option Value
  pub status : Status

abbrev pub value_of : {A : Type 0} → (A → Value) → Option A → Option Value
value_of value none = none
value_of value (some a) = some (value a)

abbrev pub row_status : {A : Type 0} → (A → A → Status) → Option A → Option A → Status
row_status compare none new = unmeasured
row_status compare (some old) none = unmeasured
row_status compare (some old) (some new) = compare old new

-- `_dimension_row`.
unfoldable pub dimension_row :
    {A : Type 0} → String → (A → Value) → (A → A → Status) → Option A → Option A → Row
dimension_row key value compare old new = record {
  key = key;
  old = value_of value old;
  new = value_of value new;
  status = row_status compare old new;
}

abbrev pub or_compared : Option Status → Text → Text → Status
or_compared none old new = if text_eq old new then unchanged else changed
or_compared (some status) old new = status

-- `_grade_worse`; a grade that has no rank is only compared.
unfoldable pub grade_status : Text → Text → Status
unfolding text_eq
grade_status old new = or_compared (ranks_status (grade_rank old) (grade_rank new)) old new

unfoldable pub severity_status : Severities → Severities → Status
unfolding worse_when_higher
severity_status old new = worse_when_higher (weight old) (weight new)

unfoldable pub dimensions : Results → Results → List Row
unfolding dimension_row grade_status worse_when_higher worse_when_lower worse_when_false
    growth_status
dimensions old new =
    dimension_row "tls_grade" grade grade_status (tls_grade old) (tls_grade new)
    ∷ dimension_row "header_score" number worse_when_lower (header_score old) (header_score new)
    ∷ dimension_row "blacklist" number worse_when_higher (blacklist_count old) (blacklist_count new)
    ∷ dimension_row "open_ports" texts growth_status (open_ports old) (open_ports new)
    ∷ dimension_row "dnssec" flag worse_when_false (dnssec_signed old) (dnssec_signed new)
    ∷ dimension_row "https_redirect" flag worse_when_false (https_redirect_ok old)
        (https_redirect_ok new)
    ∷ dimension_row "security_findings" number worse_when_higher (security_findings old)
        (security_findings new)
    ∷ dimension_row "missing_headers" texts growth_status (missing_headers old)
        (missing_headers new)
    ∷ dimension_row "email_auth" number worse_when_lower (email_auth_passing old)
        (email_auth_passing new)
    ∷ dimension_row "reputation" number worse_when_higher (threat_feed_hits old)
        (threat_feed_hits new)
    ∷ dimension_row "virustotal" number worse_when_higher (virustotal_detections old)
        (virustotal_detections new)
    ∷ dimension_row "secrets" number worse_when_higher (leaked_secrets old) (leaked_secrets new)
    ∷ dimension_row "vulnerable_js" number worse_when_higher (vulnerable_js old) (vulnerable_js new)
    ∷ []

-- The row of the recommendations, where a count is given.
abbrev pub severity_rows : Option Severities → Option Severities → List Row
severity_rows none none = []
severity_rows none (some new) =
    dimension_row "recommendations" counts severity_status none (some new) ∷ []
severity_rows (some old) new =
    dimension_row "recommendations" counts severity_status (some old) new ∷ []

pub record Summary : Type 0 where
  pub worse_rows : ℕ
  pub better_rows : ℕ
  pub changed_rows : ℕ

abbrev pub is_worse : Row → Bool
is_worse row = elim row.status [ worse ↦ true | _ ↦ false ]

abbrev pub is_better : Row → Bool
is_better row = elim row.status [ better ↦ true | _ ↦ false ]

abbrev pub is_changed : Row → Bool
is_changed row = elim row.status [ changed ↦ true | _ ↦ false ]

abbrev pub summary_of : List Row → Summary
summary_of rows = record {
  worse_rows = length (keep is_worse rows);
  better_rows = length (keep is_better rows);
  changed_rows = length (keep is_changed rows);
}

pub compare_dimensions :
    Results → Results → Option Severities → Option Severities → List Row × Summary
unfolding dimensions severity_status dimension_row keep
compare_dimensions old new old_severity new_severity =
    let rows = dimensions old new ++ severity_rows old_severity new_severity in
    (rows, summary_of rows)
