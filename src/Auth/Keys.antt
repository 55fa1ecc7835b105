-- ===== src/Auth/Keys.antt =====
-- The key cache of fmu-runner/auth.py: `_jwks_cache`, `_fetch_jwks`, `_cached_jwks_key_count` and
-- `jwks_health`. A time is a number of ticks of the clock, also of the configured seconds.
use lab_gateway.Prelude.{
  ℕ, ◌+◌, ◌-◌, Option, none, some, Bool, true, false, not, ◌&&◌, ◌||◌, List, leb, ltb, ◌==◌,
  if◌then◌else◌, length,
}
use lab_gateway.Prelude.Int.{ℤ, pos, negsuc, ltb_ℤ, leb_ℤ}

-- what stands under "keys" in a JSON object
pub data KeysField (K : Type 0) : Type 0 where
  absent : KeysField K
  key_list : List K → KeysField K
  -- a text or an object, which `len` takes
  sized : KeysField K
  -- null, a flag or a number, on which `len` raises
  unsized : KeysField K

-- a JSON value, as far as the cache looks at it
pub data Document (K : Type 0) : Type 0 where
  null : Document K
  object : KeysField K → Document K
  -- any other value, which has no `get`
  scalar : Document K

-- `_jwks_cache`
pub record Cache (K : Type 0) : Type 0 where
  pub data_ : Document K
  pub fetched_at : ℕ
  pub stale_since : ℕ

pub record Config : Type 0 where
  pub cache_ttl : ℤ
  pub stale_max : ℕ

-- the reads of the clock of one fetch
pub record Clock : Type 0 where
  pub asked : ℕ
  pub stored : ℕ
  pub failed : ℕ

pub data Status : Type 0 where
  down : Status
  degraded : Status
  up : Status

pub record Report : Type 0 where
  pub status : Status
  pub stale : Bool
  pub stale_since : Option ℤ
  pub age_seconds : Option ℕ
  pub cached_keys : ℕ

unfoldable pub init : {K : Type 0} → Cache K
init = record { data_ = null; fetched_at = 0; stale_since = 0 }

-- `a - b`, with its sign
abbrev pub minus : ℕ → ℕ → ℤ
minus a b = if leb b a then pos (a - b) else negsuc (b - a - 1)

-- `fetched_at + ttl`
abbrev pub plus : ℕ → ℤ → ℤ
plus a (pos n) = pos (a + n)
plus a (negsuc n) = minus a (n + 1)

module _ {K : Type 0} where
  abbrev pub is_null : Document K → Bool
  is_null null = true
  is_null _ = false

  -- whether `len(fetched_jwks.get("keys", []))` returns
  abbrev pub is_counted : Document K → Bool
  is_counted (object unsized) = false
  is_counted (object _) = true
  is_counted _ = false

  -- `_cached_jwks_key_count`
  unfoldable pub cached_jwks_key_count : Document K → ℕ
  cached_jwks_key_count (object (key_list keys)) = length keys
  cached_jwks_key_count _ = 0

  -- the cache with a fetched value
  abbrev pub renewed : Clock → Document K → Cache K
  renewed t d = record { data_ = d; fetched_at = t.stored; stale_since = 0 }

module _ {K : Type 0} (config : Config) where
  abbrev pub is_lendable : ℕ → Cache K → Bool
  is_lendable now c =
      not (is_null c.data_)
      && ltb 0 c.fetched_at
      && leb c.fetched_at now
      && ltb (now - c.fetched_at) config.stale_max

  -- the cached keys in place of those that were not fetched; `none` is the 503
  unfoldable pub fall_back : ℕ → Cache K → Cache K × Option (Document K)
  fall_back now c =
      if is_lendable now c
      then (
        record c { stale_since = if c.stale_since == 0 then now else c.stale_since },
        some c.data_,
      )
      else (c, none)

  -- the request: `none` where it raises, its status is an error or its body is no JSON
  unfoldable pub ask : Clock → Option (Document K) → Cache K → Cache K × Option (Document K)
  unfolding fall_back
  ask t none c = fall_back t.failed c
  ask t (some d) c =
      if is_counted d then (renewed t d, some d) else fall_back t.failed (renewed t d)

  abbrev pub is_fresh : ℕ → Cache K → Bool
  is_fresh now c = not (is_null c.data_) && ltb_ℤ (minus now c.fetched_at) config.cache_ttl

  -- `_fetch_jwks`
  unfoldable pub fetch_jwks :
      Bool → Clock → Option (Document K) → Cache K → Cache K × Option (Document K)
  unfolding ask
  fetch_jwks force t answer c =
      if not force && is_fresh t.asked c then (c, some c.data_) else ask t answer c

  -- `jwks_health`
  unfoldable pub jwks_health : ℕ → Cache K → Report
  unfolding cached_jwks_key_count
  jwks_health now c =
      let keys = cached_jwks_key_count c.data_ in
      let age = now - c.fetched_at in
      if keys == 0
      then record {
        status = down;
        stale = false;
        stale_since = none;
        age_seconds = none;
        cached_keys = 0;
      }
      else if c.fetched_at == 0 || leb config.stale_max age
      then record {
        status = down;
        stale = true;
        stale_since = some (pos (if c.stale_since == 0 then c.fetched_at else c.stale_since));
        age_seconds = if c.fetched_at == 0 then none else some age;
        cached_keys = keys;
      }
      else if not (c.stale_since == 0) || leb_ℤ config.cache_ttl (pos age)
      then record {
        status = degraded;
        stale = true;
        stale_since =
            some (
              if c.stale_since == 0 then plus c.fetched_at config.cache_ttl else pos c.stale_since);
        age_seconds = some age;
        cached_keys = keys;
      }
      else record {
        status = up;
        stale = false;
        stale_since = none;
        age_seconds = some age;
        cached_keys = keys;
      }
