-- ===== src/ScanCache/Answers.antt =====
-- Which answers scan_cache.py uses again, and what becomes of the others.
use domain_lens.Prelude.{
  ℕ, ◌+◌, ◌-◌, ◌*◌, leb, ◌≤◌, ◌<◌, ◌≡◌, refl, ◌≢◌, ◌⊎◌, inl, inr, Bool, true, false, Option, none,
  some, List, [], ◌∷◌, arith, Text, text_eq, text_eq_self, String, Bool-cases, Option-cases,
}
use domain_lens.Prelude.Int.{pos}
use domain_lens.ScanCache.{
  Dict, Payload, Row, Config, is_enabled, ttl_of, max_stale_of, key_of, find_row, put_row, mark,
  default_should_store, wanted, external_cache_get, external_cache_put, decoded, within, lookup,
  lookup_stale, store, cached_call, dict, nothing, plain, round_seconds,
}

find-put_row :
    (new : Row) (rows : List Row)
    → (row : Row) × (find_row new.cache_key (put_row new rows) ≡ some row)
      × (row.payload ≡ new.payload)
      × (row.created_at ≡ new.created_at)
unfolding find_row put_row
find-put_row new [] = (new, ground (arith, text_eq_self new.cache_key), refl, refl)
find-put_row new (row ∷ rest) = elim (Bool-cases (text_eq row.cache_key new.cache_key)) [
  | inl e ↦ (
    record row { payload = new.payload; created_at = new.created_at },
    ground (arith, e),
    refl,
    refl,
  )
  | inr e ↦
      let found = find-put_row new rest in (found.0, ground (arith, e, found.1), found.2, found.3)
]

put-get :
    (dumps : Payload → String) (loads : String → Option Payload) (now : ℕ) (kind domain : Text)
    (answer : Payload) (rows : List Row)
    → loads (dumps answer) ≡ some answer
    → external_cache_get loads kind domain (external_cache_put dumps now kind domain answer rows)
      ≡ some (answer, now)
unfolding external_cache_get external_cache_put
put-get dumps loads now kind domain answer rows whole =
    let new : Row = record {
      cache_key = key_of kind domain;
      kind = kind;
      domain = domain;
      payload = dumps answer;
      created_at = now;
    } in
    let found = find-put_row new rows in rw (found.1, decoded, found.2, whole, found.3) refl

-- What a hit of `lookup` says of the cache.
pub record Fresh (loads : String → Option Payload) (cfg : Config) (now : ℕ) (kind domain : Text)
    (rows : List Row) (payload : Payload) (created : ℕ) : Type 0 where
  pub row : Row
  pub found : find_row (key_of kind domain) rows ≡ some row
  pub read : loads row.payload ≡ some payload
  pub stored : row.created_at ≡ created
  pub young : now ≤ created + ttl_of cfg
  pub allowed : is_enabled cfg ≡ true

decoded-some :
    (loads : String → Option Payload) (found : Option Row) (payload : Payload) (created : ℕ)
    → decoded loads found ≡ some (payload, created)
    → (row : Row) × (found ≡ some row)
      × (loads row.payload ≡ some payload)
      × (row.created_at ≡ created)
decoded-some loads none payload created h = cc
decoded-some loads (some row) payload created h = (row, refl, ground arith, ground arith)

within-some :
    (now limit : ℕ) (found : Option (Payload × ℕ)) (payload : Payload) (created : ℕ)
    → within now limit found ≡ some (payload, created)
    → (found ≡ some (payload, created)) × (now ≤ created + limit)
within-some now limit none payload created h = cc
within-some now limit (some (p, c)) payload created h = ground arith

lookup-some :
    (loads : String → Option Payload) (cfg : Config) (readable force : Bool) (now : ℕ)
    (kind domain : Text) (rows : List Row) (hit : Payload × ℕ)
    → lookup loads cfg readable now kind domain force rows ≡ some hit
    → (force ≡ false)
      × (readable ≡ true)
      × (is_enabled cfg ≡ true)
      × (within now (ttl_of cfg) (external_cache_get loads kind domain rows) ≡ some hit)
unfolding lookup
lookup-some loads cfg readable force now kind domain rows hit h = ground arith

-- `lookup` returns an answer only if it was not told to ask anew, the cache is on and readable,
-- and the answer is what the row of that kind and domain holds, stored at the time that is told and not
-- longer ago than the lifetime.
pub lookup-Fresh :
    (loads : String → Option Payload) (cfg : Config) (readable force : Bool) (now created : ℕ)
    (kind domain : Text) (rows : List Row) (payload : Payload)
    → lookup loads cfg readable now kind domain force rows ≡ some (payload, created)
    → Fresh loads cfg now kind domain rows payload created × (force ≡ false) × (readable ≡ true)
lookup-Fresh loads cfg readable force now created kind domain rows payload hit =
    let passed = lookup-some loads cfg readable force now kind domain rows (payload, created) hit in
    let got =
      within-some now (ttl_of cfg) (external_cache_get loads kind domain rows) payload created
        passed.3 in
    let (row, found, whole, stored) =
      decoded-some loads (find_row (key_of kind domain) rows) payload created
        (unfold external_cache_get in got.0) in
    (
      record {
        row = row;
        found = found;
        read = whole;
        stored = stored;
        young = got.1;
        allowed = passed.2;
      },
      passed.0,
      passed.1,
    )

young-within :
    (now limit : ℕ) (payload : Payload) (created : ℕ)
    → now ≤ created + limit
    → within now limit (some (payload, created)) ≡ some (payload, created)
young-within now limit payload created young = ground arith

lookup-found :
    (loads : String → Option Payload) (cfg : Config) (now created : ℕ) (kind domain : Text)
    (rows : List Row) (payload : Payload)
    → is_enabled cfg ≡ true
    → 0 < ttl_of cfg
    → now ≤ created + ttl_of cfg
    → external_cache_get loads kind domain rows ≡ some (payload, created)
    → lookup loads cfg true now kind domain false rows ≡ some (payload, created)
unfolding lookup
lookup-found loads cfg now created kind domain rows payload on lives young got =
    let kept = young-within now (ttl_of cfg) payload created young in ground (arith, got, kept)

-- What is left in the table by a call that asked the service and keeps its answer.
asked-stored :
    (dumps : Payload → String) (loads : String → Option Payload) (cfg : Config) (readable : Bool)
    (now : ℕ) (kind domain : Text) (answer : Payload) (force : Bool)
    (should_store : Option (Payload → Bool)) (rows rows' : List Row) (answer' : Payload)
    → is_enabled cfg ≡ true
    → wanted should_store answer ≡ true
    → cached_call dumps loads cfg readable true now kind domain answer force should_store rows
      ≡ (rows', answer', true)
    → rows' ≡ external_cache_put dumps now kind domain answer rows
unfolding cached_call store
asked-stored dumps loads cfg readable now kind domain answer force should_store rows rows' answer'
      on keeps asked =
    elim (Option-cases (lookup loads cfg readable now kind domain force rows)) [
      | inl e ↦ ground (arith, e, keeps, on)
      | inr (hit, e) ↦ ground (arith, e)
    ]

-- What a later call makes of a stored answer: a dict has the time it was stored, and its age in the
-- nearest whole second; anything else is as it was.
pub Stamped : ℕ → ℕ → Payload → Payload → Type 0
Stamped now later nothing hit = hit ≡ nothing
Stamped now later (plain text) hit = hit ≡ plain text
Stamped now later (dict d) hit =
    (n : ℕ) × (hit
      ≡ dict (record d { stamp = some (record { cache_age_seconds = pos n; cached_at = now }) }))
    × (n * 1000000 ≤ later - now + 500000)
    × (later - now ≤ n * 1000000 + 500000)

round_seconds-near :
    (t : ℕ) → (round_seconds t * 1000000 ≤ t + 500000) × (t ≤ round_seconds t * 1000000 + 500000)
unfolding round_seconds
round_seconds-near t = ground arith

mark-Stamped :
    (now later : ℕ) (answer : Payload)
    → now ≤ later
    → Stamped now later answer (mark later (answer, now))
unfolding Stamped mark
mark-Stamped now later nothing after = refl
mark-Stamped now later (plain text) after = refl
mark-Stamped now later (dict d) after =
    let near = round_seconds-near (later - now) in
    let on_time : leb now later ≡ true = ground arith in
    (round_seconds (later - now), rw on_time refl, near.0, near.1)

-- A call that asked the service and got an answer worth keeping is followed, within the lifetime,
-- by calls that do not ask: they return that answer, a dict with the time it was stored and its age
-- to the nearest second, and leave the table as it is. The cache is on, its lifetime is not 0, the
-- write and the read succeed, and json reads back what it wrote.
pub cached_call-again :
    (dumps : Payload → String) (loads : String → Option Payload) (cfg : Config)
    (readable writable : Bool) (now later : ℕ) (kind domain : Text) (answer answer' other : Payload)
    (force : Bool) (should_store should_store' : Option (Payload → Bool)) (rows rows' : List Row)
    → loads (dumps answer) ≡ some answer
    → is_enabled cfg ≡ true
    → 0 < ttl_of cfg
    → now ≤ later
    → later ≤ now + ttl_of cfg
    → wanted should_store answer ≡ true
    → cached_call dumps loads cfg readable true now kind domain answer force should_store rows
      ≡ (rows', answer', true)
    → (hit : Payload) × (cached_call dumps loads cfg true writable later kind domain other false
          should_store' rows'
        ≡ (rows', hit, false))
      × Stamped now later answer hit
unfolding cached_call
cached_call-again dumps loads cfg readable writable now later kind domain answer answer' other force
      should_store should_store' rows rows' whole on lives after young keeps asked =
    let stored =
      asked-stored dumps loads cfg readable now kind domain answer force should_store rows rows'
        answer' on keeps asked in
    let got : external_cache_get loads kind domain rows' ≡ some (answer, now) =
      rw stored (put-get dumps loads now kind domain answer rows whole) in
    (
      mark later (answer, now),
      rw (lookup-found loads cfg later now kind domain rows' answer on lives young got, cached_call)
          refl,
      mark-Stamped now later answer after,
    )

failed_unwanted :
    (d : Dict) → (d.error ≢ []) ⊎ (d.success ≡ some false) → default_should_store (dict d) ≡ false
unfolding default_should_store
failed_unwanted d failed = ground arith

-- A failed answer, one with an error or with a success that is false, is not kept: a call with the
-- default rule that gets it leaves the table as it is.
pub cached_call-failed :
    (dumps : Payload → String) (loads : String → Option Payload) (cfg : Config)
    (readable writable : Bool) (now : ℕ) (kind domain : Text) (d : Dict) (force : Bool)
    (rows : List Row)
    → (d.error ≢ []) ⊎ (d.success ≡ some false)
    → (cached_call dumps loads cfg readable writable now kind domain (dict d) force none rows).0
      ≡ rows
unfolding cached_call default_should_store
cached_call-failed dumps loads cfg readable writable now kind domain d force rows failed =
    elim (Option-cases (lookup loads cfg readable now kind domain force rows)) [
      | inl e ↦ rw (e, cached_call, failed_unwanted d failed) refl
      | inr (hit, e) ↦ rw (e, cached_call) refl
    ]

lookup-lives :
    (loads : String → Option Payload) (cfg : Config) (readable force : Bool) (now : ℕ)
    (kind domain : Text) (rows : List Row) (hit : Payload × ℕ)
    → lookup loads cfg readable now kind domain force rows ≡ some hit
    → 0 < ttl_of cfg
unfolding lookup
lookup-lives loads cfg readable force now kind domain rows hit h = ground arith

-- An answer that `lookup` returns is one that `lookup_stale` returns too, when answers may be shown
-- at least as long as they are fresh: an outage hides no answer that was fresh before.
pub lookup-lookup_stale :
    (loads : String → Option Payload) (cfg : Config) (readable force : Bool) (now : ℕ)
    (kind domain : Text) (rows : List Row) (hit : Payload × ℕ)
    → ttl_of cfg ≤ max_stale_of cfg
    → lookup loads cfg readable now kind domain force rows ≡ some hit
    → lookup_stale loads cfg readable now kind domain rows ≡ some hit
unfolding lookup_stale
lookup-lookup_stale loads cfg readable force now kind domain rows (payload, created) longer found =
    let passed =
      lookup-some loads cfg readable force now kind domain rows (payload, created) found in
    let got =
      within-some now (ttl_of cfg) (external_cache_get loads kind domain rows) payload created
        passed.3 in
    let lives =
      lookup-lives loads cfg readable force now kind domain rows (payload, created) found in
    let kept = young-within now (max_stale_of cfg) payload created (omega (arith, got.1, longer)) in
    ground (arith, passed.1, passed.2, got.0, lives, longer, kept)
