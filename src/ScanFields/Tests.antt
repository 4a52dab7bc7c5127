-- ===== src/ScanFields/Tests.antt =====
-- Comparisons of the fields of two small scans by scan_diff.py, and its theorems there.
use domain_lens.Prelude.{
  ◌≡◌, refl, Bool, true, Option, none, some, [], ◌∷◌, map, codes, String, str_eq, if◌then◌else◌,
}
use domain_lens.ScanFields.{Value, flag, text, Section, Scan, better, worse, compare}
use domain_lens.ScanFields.Changes.{reversed, compare-swap}

abbrev section : Bool → (String → Option Value) → Section
section measured entries = record {
  is_measured = measured;
  entries = entries;
  issuer = λ key. none;
  protocols = [];
  headers_missing = [];
}

abbrev spf : String → Option Value → Option Value
spf key record_text =
    if str_eq key "found"
    then some (flag true)
    else if str_eq key "record"
    then record_text
    else none

abbrev scan : String → String → Scan
scan record_text policy name =
    if str_eq name "spf"
    then some (section true (λ key. spf key (some (text (codes record_text)))))
    else if str_eq name "dmarc"
    then some
        (section true (λ key. if str_eq key "policy" then some (text (codes policy)) else none))
    else none

abbrev before : Scan
before = scan "v=spf1 mx -ALL" "none"

abbrev after : Scan
after = scan "v=spf1 mx ~all" "reject"

ways : map (λ c. (c.field).key) (compare before after).0 ≡ "all" ∷ "policy" ∷ []
unfolding compare
ways = refl

directions : map (λ c. c.way) (compare before after).0 ≡ worse ∷ better ∷ []
unfolding compare
directions = refl

compare-swap_example : (compare after before).0 ≡ map reversed (compare before after).0
compare-swap_example = compare-swap before after
