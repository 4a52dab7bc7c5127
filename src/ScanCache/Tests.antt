-- ===== src/ScanCache/Tests.antt =====
-- Runs of scan_cache.py on one answer, and its theorems there. The texts that json makes are stood
-- in for by one text for one answer.
use domain_lens.Prelude.{
  ℕ, ◌+◌, ◌*◌, ◌≡◌, refl, inl, true, false, Option, none, some, List, [], ◌∷◌, arith, Text, codes,
  String,
}
use domain_lens.ScanCache.{
  default_should_store, Payload, Dict, Row, Config, dict, hour, lookup, cached_call, round_seconds,
}
use domain_lens.ScanCache.Answers.{
  Fresh, Stamped, lookup-Fresh, cached_call-again, cached_call-failed,
}

abbrev cfg : Config
cfg = record { enabled = none; ttl = some (2 * hour); max_stale = none }

abbrev answer : Dict
answer = record { error = []; success = none; stamp = none; rest = "hits: 2" }

abbrev failure : Dict
failure = record { error = codes "timeout"; success = none; stamp = none; rest = "" }

abbrev dumps : Payload → String
dumps p = "{hits: 2}"

abbrev loads : String → Option Payload
loads text = some (dict answer)

abbrev kind : Text
kind = codes "crtsh"

abbrev site : Text
site = codes "example.org"

abbrev stored : List Row
stored =
    record {
      cache_key = codes "crtsh:example.org";
      kind = kind;
      domain = site;
      payload = "{hits: 2}";
      created_at = 1000;
    }
    ∷ []

first_call :
    cached_call dumps loads cfg true true 1000 kind site (dict answer) false none []
    ≡ (stored, dict answer, true)
unfolding cached_call
first_call = refl

abbrev late : ℕ
late = 1000 + hour

cached_call-again_example :
    (hit : Payload) × (cached_call dumps loads cfg true false late kind site
        (dict failure)
        false
        none
        stored
      ≡ (stored, hit, false))
    × Stamped 1000 late (dict answer) hit
cached_call-again_example =
    cached_call-again dumps loads cfg true false 1000 late kind site (dict answer) (dict answer)
      (dict failure) false none none [] stored refl refl (omega arith) (omega arith) (omega arith)
      (unfold default_should_store in refl) first_call

cached_call-failed_example :
    (cached_call dumps loads cfg true true 1000 kind site (dict failure) true none stored).0
    ≡ stored
cached_call-failed_example =
    cached_call-failed dumps loads cfg true true 1000 kind site failure true stored (inl (λ e. cc))

hit_late : lookup loads cfg true late kind site false stored ≡ some (dict answer, 1000)
unfolding lookup
hit_late = refl

no_hit_later : lookup loads cfg true (1001 + 2 * hour) kind site false stored ≡ none
unfolding lookup
no_hit_later = refl

lookup-Fresh_example :
    Fresh loads cfg late kind site stored (dict answer) 1000 × (false ≡ false) × (true ≡ true)
lookup-Fresh_example =
    lookup-Fresh loads cfg true false late 1000 kind site stored (dict answer) hit_late

half_to_even : (round_seconds 2500000 ≡ 2) × (round_seconds 3500000 ≡ 4)
unfolding round_seconds
half_to_even = (refl, refl)
