-- ===== src/ScanFields.antt =====
-- scan_diff.py, `compare`: the fields in which two scans differ. A section of the results is a
-- record with what is read of it; a value is a Boolean, a number or a text.
pub mod Changes
pub mod Sound
mod Tests
use domain_lens.Prelude.{
  ℕ, zero, suc, ◌+◌, Bool, true, false, not, ◌&&◌, ◌||◌, Option, none, some, List, [], ◌∷◌, ◌++◌,
  map, keep, length, ltb, ◌==◌, Text, codes, text_eq, strip, lower, starts_with, if◌then◌else◌,
  String, str_eq,
}
use domain_lens.Prelude.Sorting.{sort}
use domain_lens.ScanDiff.{text_leq}

pub data Value : Type 0 where
  flag : Bool → Value
  number : ℕ → Value
  text : Text → Value

pub record Protocol : Type 0 where
  pub name : Text
  pub supported : Bool

-- A section: whether its `state` is "measured", and its entries; `issuer` is a dict in it.
pub record Section : Type 0 where
  pub is_measured : Bool
  pub entries : String → Option Value
  pub issuer : String → Option Value
  pub protocols : List Protocol
  pub headers_missing : List Text

abbrev pub Scan : Type 0
Scan = String → Option Section

pub data Direction : Type 0 where
  better worse neutral : Direction

-- The mapping of a field: none, or the direction in which its Boolean goes.
pub data Mapping : Type 0 where
  no_mapping good_when_true bad_when_true : Mapping

pub record Field : Type 0 where
  pub section : String
  pub key : String
  pub extract : Section → Option Value
  pub mapping : Mapping

unfoldable pub occurs : Text → Text → Bool
unfolding starts_with
occurs part [] = starts_with [] part
occurs part (c ∷ s) = starts_with (c ∷ s) part || occurs part s

abbrev pub text_of : Option Value → Text
text_of (some (text s)) = s
text_of (some (flag b)) = []
text_of (some (number n)) = []
text_of none = []

abbrev hard_fail : Text
hard_fail = codes "-all (hard fail)"

abbrev soft_fail : Text
soft_fail = codes "~all (soft fail)"

abbrev neutral_all : Text
neutral_all = codes "?all (neutral)"

abbrev pass_all : Text
pass_all = codes "+all (pass — accepts any sender)"

abbrev pub qualifier : Text → Option Value
qualifier s =
    if occurs (codes "-all") s
    then some (text hard_fail)
    else if occurs (codes "~all") s
    then some (text soft_fail)
    else if occurs (codes "?all") s
    then some (text neutral_all)
    else if occurs (codes "+all") s
    then some (text pass_all)
    else none

unfoldable pub spf_all : Option Value → Option Value
unfolding occurs strip lower
spf_all record_text = qualifier (lower (strip (text_of record_text)))

-- `", ".join(...) or None`.
abbrev pub joined : List Text → Text
joined [] = []
joined (s ∷ rest) = elim rest [ [] ↦ s | t ∷ more ↦ s ++ codes ", " ++ joined rest ]

abbrev pub or_none : Text → Option Value
or_none [] = none
or_none (c ∷ s) = some (text (c ∷ s))

abbrev pub or_value : Option Value → Option Value → Option Value
or_value (some (text (c ∷ s))) other = some (text (c ∷ s))
or_value (some (text [])) other = other
or_value (some (flag b)) other = if b then some (flag b) else other
or_value (some (number n)) other = if n == 0 then other else some (number n)
or_value none other = other

abbrev pub is_named : Protocol → Bool
is_named p = p.supported && elim p.name [ [] ↦ false | c ∷ s ↦ true ]

abbrev pub get : String → Section → Option Value
get key s = s.entries key

abbrev pub plain_field : String → String → Mapping → Field
plain_field section key mapping = record {
  section = section;
  key = key;
  extract = get key;
  mapping = mapping;
}

unfoldable pub fields : List Field
unfolding spf_all sort text_leq keep
fields =
    plain_field "spf" "found" good_when_true
    ∷ record {
      section = "spf";
      key = "all";
      extract = λ s. spf_all (get "record" s);
      mapping = no_mapping;
    }
    ∷ plain_field "spf" "strict" good_when_true
    ∷ plain_field "spf" "multiple_records" bad_when_true
    ∷ plain_field "dmarc" "found" good_when_true
    ∷ plain_field "dmarc" "policy" no_mapping
    ∷ plain_field "dkim" "found" good_when_true
    ∷ plain_field "mta_sts" "found" good_when_true
    ∷ plain_field "tlsrpt" "found" good_when_true
    ∷ plain_field "dnssec" "signed" good_when_true
    ∷ plain_field "ipv6" "has_ipv6" good_when_true
    ∷ plain_field "ipv6" "mail_pass" good_when_true
    ∷ plain_field "ssl" "not_after" no_mapping
    ∷ record {
      section = "ssl";
      key = "issuer";
      extract = λ s. or_value (s.issuer "organizationName") (s.issuer "commonName");
      mapping = no_mapping;
    }
    ∷ plain_field "ssl" "expired" bad_when_true
    ∷ plain_field "tls_deep" "grade" no_mapping
    ∷ record {
      section = "tls_deep";
      key = "protocols";
      extract =
          λ s. or_none (joined (sort text_leq (map (λ p. p.name) (keep is_named s.protocols))));
      mapping = no_mapping;
    }
    ∷ plain_field "http_headers" "score" no_mapping
    ∷ record {
      section = "http_headers";
      key = "headers_missing";
      extract = λ s. or_none (joined (sort text_leq s.headers_missing));
      mapping = no_mapping;
    }
    ∷ plain_field "http_headers" "status_code" no_mapping
    ∷ plain_field "https_redirect" "pass" good_when_true
    ∷ plain_field "blacklist" "is_listed" bad_when_true
    ∷ []

unfoldable pub index : List Text → Text → Option ℕ
unfolding text_eq
index [] t = none
index (s ∷ rest) t =
    let later = index rest t in
    if text_eq s t then some 0 else elim later [ none ↦ none | some n ↦ some (suc n) ]

abbrev pub by_size : Option ℕ → Option ℕ → Direction
by_size (some old) (some new) =
    if ltb old new then better else if ltb new old then worse else neutral
by_size (some old) none = neutral
by_size none new = neutral

abbrev pub place : List Text → Option Value → Option ℕ
place order (some (text s)) = index order s
place order (some (flag b)) = none
place order (some (number n)) = none
place order none = none

abbrev pub size : Option Value → Option ℕ
size (some (number n)) = some n
size (some (text s)) = none
size (some (flag b)) = none
size none = none

unfoldable pub ordered_direction : List Text → Option Value → Option Value → Direction
unfolding index
ordered_direction order before after = by_size (place order before) (place order after)

abbrev pub tls_grades : List Text
tls_grades = map codes ("T" ∷ "F" ∷ "E" ∷ "D" ∷ "C" ∷ "B" ∷ "A" ∷ "A+" ∷ [])

abbrev pub dmarc_policies : List Text
dmarc_policies = map codes ("none" ∷ "quarantine" ∷ "reject" ∷ [])

abbrev pub spf_order : List Text
spf_order = pass_all ∷ neutral_all ∷ soft_fail ∷ hard_fail ∷ []

abbrev pub flag_of : Option Value → Option Bool
flag_of (some (flag b)) = some b
flag_of (some (number n)) = none
flag_of (some (text s)) = none
flag_of none = none

abbrev pub swing : Option Bool → Option Bool → Option Direction
swing (some true) (some false) = some worse
swing (some false) (some true) = some better
swing (some true) (some true) = none
swing (some false) (some false) = none
swing (some b) none = none
swing none b = none

abbrev pub mapped : Mapping → Option Value → Option Value → Option Direction
mapped no_mapping before after = none
mapped good_when_true before after = swing (flag_of before) (flag_of after)
mapped bad_when_true before after = swing (flag_of after) (flag_of before)

abbrev pub is_field : Field → String → String → Bool
is_field f section key = str_eq f.section section && str_eq f.key key

-- The part of `_direction` for a field whose mapping says nothing.
abbrev pub ranked : Field → Option Value → Option Value → Direction
ranked f before after =
    if is_field f "tls_deep" "grade"
    then ordered_direction tls_grades before after
    else if is_field f "dmarc" "policy"
    then ordered_direction dmarc_policies before after
    else if is_field f "spf" "all"
    then ordered_direction spf_order before after
    else if is_field f "http_headers" "score"
    then by_size (size before) (size after)
    else neutral

abbrev pub or_ranked : Option Direction → Direction → Direction
or_ranked none way = way
or_ranked (some d) way = d

-- `_direction`.
unfoldable pub direction : Field → Option Value → Option Value → Direction
unfolding ordered_direction
direction f before after = or_ranked (mapped f.mapping before after) (ranked f before after)

pub record Change : Type 0 where
  pub field : Field
  pub before : Option Value
  pub after : Option Value
  pub way : Direction

-- A field that one of the scans has not measured: the earlier one, or else the later one.
pub record Gap : Type 0 where
  pub field : Field
  pub is_earlier : Bool

unfoldable pub value_eq : Option Value → Option Value → Bool
unfolding text_eq
value_eq none none = true
value_eq (some (flag true)) (some (flag true)) = true
value_eq (some (flag false)) (some (flag false)) = true
value_eq (some (number n)) (some (number m)) = n == m
value_eq (some (text s)) (some (text t)) = text_eq s t
value_eq a b = false

-- What a turn of the loop of `compare` adds for two values, and where a section may be unmeasured.
abbrev pub compare_values : Field → Option Value → Option Value → List Change
compare_values f old new =
    if value_eq old new
    then []
    else record { field = f; before = old; after = new; way = direction f old new } ∷ []

abbrev pub compare_states :
    Field → Bool → Bool → Option Value → Option Value → List Change × List Gap
compare_states f true true old new = (compare_values f old new, [])
compare_states f true false old new = ([], record { field = f; is_earlier = false } ∷ [])
compare_states f false measured old new = ([], record { field = f; is_earlier = true } ∷ [])

unfoldable pub compare_field : Field → Option Section → Option Section → List Change × List Gap
unfolding value_eq direction
compare_field f none none = ([], [])
compare_field f none (some new) = ([], record { field = f; is_earlier = true } ∷ [])
compare_field f (some old) none = ([], record { field = f; is_earlier = false } ∷ [])
compare_field f (some old) (some new) =
    compare_states f old.is_measured new.is_measured (f.extract old) (f.extract new)

unfoldable pub compare_all : List Field → Scan → Scan → List Change × List Gap
unfolding compare_field
compare_all [] before after = ([], [])
compare_all (f ∷ rest) before after =
    let (found, gaps) = compare_field f (before f.section) (after f.section) in
    let (more, more_gaps) = compare_all rest before after in (found ++ more, gaps ++ more_gaps)

abbrev pub is_better : Change → Bool
is_better c = elim c.way [ better ↦ true | worse ↦ false | neutral ↦ false ]

abbrev pub is_worse : Change → Bool
is_worse c = elim c.way [ better ↦ false | worse ↦ true | neutral ↦ false ]

abbrev pub is_neutral : Change → Bool
is_neutral c = elim c.way [ better ↦ false | worse ↦ false | neutral ↦ true ]

pub record Counts : Type 0 where
  pub total : ℕ
  pub better_changes : ℕ
  pub worse_changes : ℕ
  pub neutral_changes : ℕ

unfoldable pub summarise : List Change → Counts
unfolding keep
summarise changes = record {
  total = length changes;
  better_changes = length (keep is_better changes);
  worse_changes = length (keep is_worse changes);
  neutral_changes = length (keep is_neutral changes);
}

pub compare : Scan → Scan → List Change × List Gap × Counts
unfolding compare_all fields summarise
compare before after =
    let (changes, gaps) = compare_all fields before after in (changes, gaps, summarise changes)
