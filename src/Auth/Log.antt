-- ===== src/Auth/Log.antt =====
-- The keys in use against a log of all that the issuer answered to requests.
use lab_gateway.Prelude.{
  ℕ, ◌-◌, ◌≤◌, ◌<◌, arith, ◌≡◌, refl, sym, ◌∙◌, false≢true, Option, none, some, Bool, true, false,
  not, ◌&&◌, List, [], ◌∷◌, ◌∈◌, ◌⊎◌, inl, inr, if◌then◌else◌, Bool-cases,
}
use lab_gateway.Prelude.Int.{ltb_ℤ}
use lab_gateway.Auth.Keys.{
  Document, Cache, Config, Clock, init, minus, is_null, is_counted, is_fresh, is_lendable, renewed,
  fall_back, ask, fetch_jwks,
}

-- a call of `_fetch_jwks`, and what it meets
pub record Call (K : Type 0) : Type 0 where
  pub force : Bool
  pub clock : Clock
  pub answer : Option (Document K)

-- the cache, and the values that requests were answered with, each with the time of its storing
pub record Logged (K : Type 0) : Type 0 where
  pub cache : Cache K
  pub log : List (ℕ × Document K)

-- whether keys stored at `s` are young enough for a call
abbrev pub IsRecent : Config → Clock → ℕ → Type 0
IsRecent config t s =
    (ltb_ℤ (minus t.asked s) config.cache_ttl ≡ true)
    ⊎ ((s ≡ t.stored) ⊎ ((s ≤ t.failed) × (t.failed - s < config.stale_max)))

module _ {K : Type 0} where
  abbrev pub IsLogged : Cache K → List (ℕ × Document K) → Type 0
  IsLogged c log = (is_null c.data_ ≡ true) ⊎ ((c.fetched_at, c.data_) ∈ log)

module _ {K : Type 0} (config : Config) where
  abbrev pub noted :
      Bool → Clock → Option (Document K) → List (ℕ × Document K) → List (ℕ × Document K)
  noted true t answer log = log
  noted false t none log = log
  noted false t (some d) log = (t.stored, d) ∷ log

  abbrev pub is_served : Call K → Cache K → Bool
  is_served k c = not k.force && is_fresh config k.clock.asked c

  -- a call and what it returns; a call that the cache serves adds nothing to the log
  unfoldable pub step : Call K → Logged K → Logged K × Option (Document K)
  unfolding fetch_jwks
  step k s =
      let got = fetch_jwks config k.force k.clock k.answer s.cache in
      (record { cache = got.0; log = noted (is_served k s.cache) k.clock k.answer s.log }, got.1)

  unfoldable pub run : List (Call K) → Logged K
  unfolding step init
  run [] = record { cache = init; log = [] }
  run (k ∷ earlier) = (step k (run earlier)).0

  -- what a call returned was logged, recently
  abbrev pub IsBacked : Clock → List (ℕ × Document K) → Option (Document K) → Type 0
  IsBacked t log none = Unit
  IsBacked t log (some d) = (s : ℕ) × ((s, d) ∈ log) × IsRecent config t s

  is_lendable-recent :
      (now : ℕ) (c : Cache K)
      → is_lendable config now c ≡ true
      → (is_null c.data_ ≡ false) × (c.fetched_at ≤ now) × (now - c.fetched_at < config.stale_max)
  is_lendable-recent now c e = ground arith

  logged_not_null :
      (c : Cache K) (log : List (ℕ × Document K))
      → is_null c.data_ ≡ false
      → IsLogged c log
      → (c.fetched_at, c.data_) ∈ log
  logged_not_null c log e (inl n) = absurd (false≢true (sym e ∙ n))
  logged_not_null c log e (inr m) = m

  abbrev BothBacked : Clock → List (ℕ × Document K) → Cache K × Option (Document K) → Type 0
  BothBacked t log r = IsLogged r.0 log × IsBacked t log r.1

  fall_back-IsBacked :
      (t : Clock) (c : Cache K) (log : List (ℕ × Document K))
      → IsLogged c log
      → BothBacked t log (fall_back config t.failed c)
  unfolding fall_back
  fall_back-IsBacked t c log h = elim (Bool-cases (is_lendable config t.failed c)) [
    | inl q ↦
        (let (there, le, lt) = is_lendable-recent t.failed c q in
          rw q (h, (c.fetched_at, logged_not_null c log there h, inr (inr (le, lt)))))
    | inr q ↦ rw q (h, tt)
  ]

  if-BothBacked :
      (t : Clock) (log : List (ℕ × Document K)) (b : Bool) (r r' : Cache K × Option (Document K))
      → BothBacked t log r
      → BothBacked t log r'
      → BothBacked t log (if b then r else r')
  if-BothBacked t log true r r' h h' = h
  if-BothBacked t log false r r' h h' = h'

  ask-IsBacked :
      (t : Clock) (answer : Option (Document K)) (c : Cache K) (log : List (ℕ × Document K))
      → IsLogged c log
      → BothBacked t (noted false t answer log) (ask config t answer c)
  unfolding ask
  ask-IsBacked t none c log h = fall_back-IsBacked t c log h
  ask-IsBacked t (some d) c log h =
      if-BothBacked t ((t.stored, d) ∷ log) (is_counted d) (renewed t d, some d)
        (fall_back config t.failed (renewed t d))
        (inr (inl refl), (t.stored, inl refl, inr (inl refl)))
        (fall_back-IsBacked t (renewed t d) ((t.stored, d) ∷ log) (inr (inl refl)))

  served_is_fresh :
      (k : Call K) (c : Cache K)
      → is_served k c ≡ true
      → (is_null c.data_ ≡ false)
        × (ltb_ℤ (minus k.clock.asked c.fetched_at) config.cache_ttl ≡ true)
  served_is_fresh k c e = ground arith

  step-IsBacked :
      (k : Call K) (s : Logged K)
      → IsLogged s.cache s.log
      → IsLogged (step k s).0.cache (step k s).0.log
        × IsBacked k.clock (step k s).0.log (step k s).1
  unfolding step fetch_jwks
  step-IsBacked k s h = elim (Bool-cases (is_served k s.cache)) [
    | inl q ↦
        (let (there, young) = served_is_fresh k s.cache q in
          rw (step, fetch_jwks, q)
            (h, (s.cache.fetched_at, logged_not_null s.cache s.log there h, inl young)))
    | inr q ↦ rw (step, fetch_jwks, q) (ask-IsBacked k.clock k.answer s.cache s.log h)
  ]

  run-IsLogged : (ks : List (Call K)) → IsLogged (run ks).cache (run ks).log
  unfolding run init
  run-IsLogged [] = inl refl
  run-IsLogged (k ∷ ks) = (step-IsBacked k (run ks) (run-IsLogged ks)).0

-- After any calls of `_fetch_jwks` from the empty cache, whatever the issuer answered, a JSON
-- value that one more call returns is in the log of what the issuer answered to a request, stored
-- by this call, or less than the lifetime of the cache before it asked, or less than the bound on
-- stale keys before it failed.
pub fetched-IsBacked :
    {K : Type 0} (config : Config) (earlier : List (Call K)) (k : Call K)
    → IsBacked config k.clock
        (step config k (run config earlier)).0.log
        (step config k (run config earlier)).1
fetched-IsBacked config earlier k =
    (step-IsBacked config k (run config earlier) (run-IsLogged config earlier)).1
