-- ===== src/ScanCache.antt =====
-- scan_cache.py, over the table `external_cache` of db.py: answers of outside services that are used
-- again. A time is in microseconds. An age is kept as the time that the answer was stored at; it is
-- the difference to now. A read or a write that raises is a false `readable` or `writable`.
pub mod Answers
mod Tests
use domain_lens.Prelude.{
  ℕ, zero, suc, ◌+◌, ◌-◌, ◌*◌, ◌/◌, ◌%◌, Bool, true, false, not, ◌||◌, ◌&&◌, Option, none, some,
  List, [], ◌∷◌, ◌++◌, ltb, leb, ◌==◌, Text, text_eq, String, if◌then◌else◌,
}
use domain_lens.Prelude.Int.{ℤ, pos, negsuc}

-- What `mark` puts on an answer: its age in seconds, and when it was stored.
pub record Stamp : Type 0 where
  pub cache_age_seconds : ℤ
  pub cached_at : ℕ

-- A dict, with the entries that are read here; `success` is none where it is not a Boolean.
pub record Dict : Type 0 where
  pub error : Text
  pub success : Option Bool
  pub stamp : Option Stamp
  pub rest : String

pub data Payload : Type 0 where
  nothing : Payload
  plain : String → Payload
  dict : Dict → Payload

pub record Row : Type 0 where
  pub cache_key : Text
  pub kind : Text
  pub domain : Text
  pub payload : String
  pub created_at : ℕ

-- The settings `external_cache`; a time is none where it is absent or no number, and 0 where it is
-- negative.
pub record Config : Type 0 where
  pub enabled : Option Bool
  pub ttl : Option ℕ
  pub max_stale : Option ℕ

abbrev pub hour : ℕ
hour = 3600000000

abbrev pub or_else {ℓ} : {A : Type ℓ} → Option A → A → A
or_else none a = a
or_else (some b) a = b

abbrev pub is_enabled : Config → Bool
is_enabled cfg = or_else cfg.enabled true

abbrev pub ttl_of : Config → ℕ
ttl_of cfg = or_else cfg.ttl (24 * hour)

abbrev pub max_stale_of : Config → ℕ
max_stale_of cfg = or_else cfg.max_stale (168 * hour)

-- `f"{kind}:{domain}"`.
unfoldable pub key_of : Text → Text → Text
key_of kind domain = kind ++ 58 ∷ domain

unfoldable pub find_row : Text → List Row → Option Row
unfolding text_eq
find_row key [] = none
find_row key (row ∷ rest) = if text_eq row.cache_key key then some row else find_row key rest

unfoldable pub put_row : Row → List Row → List Row
unfolding text_eq
put_row new [] = new ∷ []
put_row new (row ∷ rest) =
    let rest' = put_row new rest in
    if text_eq row.cache_key new.cache_key
    then (record row { payload = new.payload; created_at = new.created_at }) ∷ rest
    else row ∷ rest'

-- Half to even, as `round` of Python.
unfoldable pub round_seconds : ℕ → ℕ
round_seconds t =
    let whole = t / 1000000 in
    let left = t % 1000000 in
    if ltb left 500000 then whole else if left == 500000 && whole % 2 == 0 then whole else suc whole

abbrev pub negated : ℕ → ℤ
negated zero = pos 0
negated (suc n) = negsuc n

abbrev pub age_seconds : ℕ → ℕ → ℤ
age_seconds now created =
    if leb created now
    then pos (round_seconds (now - created))
    else negated (round_seconds (created - now))

-- `mark`, on an answer that was stored at a time.
unfoldable pub mark : ℕ → Payload × ℕ → Payload
unfolding round_seconds
mark now (nothing, created) = nothing
mark now (plain text, created) = plain text
mark now (dict d, created) = dict (record d {
  stamp = some (record { cache_age_seconds = age_seconds now created; cached_at = created });
})

unfoldable pub default_should_store : Payload → Bool
default_should_store nothing = false
default_should_store (plain text) = true
default_should_store (dict d) = elim d.error [ [] ↦ or_else d.success true | c ∷ s ↦ false ]

-- `should_store`, or the default of it.
abbrev pub wanted : Option (Payload → Bool) → Payload → Bool
wanted none result = default_should_store result
wanted (some should_store) result = should_store result

-- An answer that is not older than the limit.
abbrev pub within : ℕ → ℕ → Option (Payload × ℕ) → Option (Payload × ℕ)
within now limit none = none
within now limit (some (payload, created)) =
    if ltb (created + limit) now then none else some (payload, created)

-- `json.loads`, and what is read with it.
module _ (loads : String → Option Payload) where
  abbrev pub decoded : Option Row → Option (Payload × ℕ)
  decoded none = none
  decoded (some row) = elim (loads row.payload) [
    | none ↦ none
    | some payload ↦ some (payload, row.created_at)
  ]

  unfoldable pub external_cache_get : Text → Text → List Row → Option (Payload × ℕ)
  unfolding find_row key_of
  external_cache_get kind domain rows = decoded (find_row (key_of kind domain) rows)

  unfoldable pub lookup : Config → Bool → ℕ → Text → Text → Bool → List Row → Option (Payload × ℕ)
  unfolding external_cache_get
  lookup cfg readable now kind domain force rows =
      if force || not (is_enabled cfg)
      then none
      else if ttl_of cfg == 0
      then none
      else if not readable
      then none
      else within now (ttl_of cfg) (external_cache_get kind domain rows)

  unfoldable pub lookup_stale : Config → Bool → ℕ → Text → Text → List Row → Option (Payload × ℕ)
  unfolding external_cache_get
  lookup_stale cfg readable now kind domain rows =
      if not (is_enabled cfg)
      then none
      else if max_stale_of cfg == 0
      then none
      else if not readable
      then none
      else within now (max_stale_of cfg) (external_cache_get kind domain rows)

-- `json.dumps`, and what is written with it.
module _ (dumps : Payload → String) where
  unfoldable pub external_cache_put : ℕ → Text → Text → Payload → List Row → List Row
  unfolding put_row key_of
  external_cache_put now kind domain payload rows =
      put_row
        (record {
          cache_key = key_of kind domain;
          kind = kind;
          domain = domain;
          payload = dumps payload;
          created_at = now;
        })
        rows

  unfoldable pub store : Config → Bool → ℕ → Text → Text → Payload → List Row → List Row
  unfolding external_cache_put
  store cfg writable now kind domain payload rows =
      if is_enabled cfg && writable then external_cache_put now kind domain payload rows else rows

-- `cached_call`; `answer` is what `producer` returns, and the Boolean says whether it was asked.
pub cached_call :
    (Payload → String)
    → (String → Option Payload)
    → Config
    → Bool
    → Bool
    → ℕ
    → Text
    → Text
    → Payload
    → Bool
    → Option (Payload → Bool)
    → List Row
    → List Row × Payload × Bool
unfolding lookup mark store default_should_store
cached_call dumps loads cfg readable writable now kind domain answer force should_store rows =
    elim (lookup loads cfg readable now kind domain force rows) [
      | some hit ↦ (rows, mark now hit, false)
      | none ↦ (
        if wanted should_store answer
            then store dumps cfg writable now kind domain answer rows
            else rows,
        answer,
        true,
      )
    ]
