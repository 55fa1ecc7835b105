-- ===== src/Auth/Health.antt =====
-- What the health report promises about the next fetches.
use lab_gateway.Prelude.{
  ℕ, ◌-◌, ◌≤◌, ◌<◌, arith, ◌≡◌, refl, sym, false≢true, Option, none, some, Bool, true, false, not,
  ◌&&◌, ◌||◌, ◌∙◌, if◌then◌else◌, leb, ◌==◌, Bool-cases, inl, inr,
}
use lab_gateway.Prelude.Int.{ℤ, pos, negsuc, ltb_ℤ, leb_ℤ}
use lab_gateway.Auth.Keys.{
  Document, Cache, Config, Clock, Status, down, degraded, up, is_null, is_fresh, minus, null,
  object, scalar, fall_back, ask, fetch_jwks, jwks_health, cached_jwks_key_count,
}

-- a clock that stands still
abbrev pub at : ℕ → Clock
at now = record { asked = now; stored = now; failed = now }

module _ {K : Type 0} (config : Config) (now : ℕ) (c : Cache K) where
  -- what a status says of fetches at this instant
  abbrev pub Promise : Status → Type 0
  Promise down =
      (force : Bool)
      → (fetch_jwks config force (at now) none c).1
        ≡ (if not force && is_fresh config now c then some c.data_ else none)
  Promise degraded = (force : Bool) → (fetch_jwks config force (at now) none c).1 ≡ some c.data_
  Promise up =
      ((answer : Option (Document K))
        → fetch_jwks config false (at now) answer c ≡ (c, some c.data_))
      × ((force : Bool) → (fetch_jwks config force (at now) none c).1 ≡ some c.data_)

none_below : ¬ (0 < 0)
none_below = omega arith

or_right : (a b : Bool) → (a || b) ≡ false → b ≡ false
or_right true b e = absurd (false≢true (sym e))
or_right false b e = e

counted_is_there : {K : Type 0} (d : Document K) → 0 < cached_jwks_key_count d → is_null d ≡ false
unfolding cached_jwks_key_count
counted_is_there null h = absurd (none_below h)
counted_is_there (object f) h = refl
counted_is_there scalar h = refl

young :
    (ttl : ℤ) (fetched_at now : ℕ)
    → fetched_at ≤ now
    → leb_ℤ ttl (pos (now - fetched_at)) ≡ false
    → ltb_ℤ (minus now fetched_at) ttl ≡ true
young (pos n) fetched_at now le e = ground arith
young (negsuc n) fetched_at now le e = ground arith

module _ {K : Type 0} (config : Config) (now : ℕ) (c : Cache K) where
  fall_back-refused :
      (c.fetched_at == 0 || leb config.stale_max (now - c.fetched_at)) ≡ true
      → (fall_back config now c).1 ≡ none
  unfolding fall_back
  fall_back-refused e = ground arith

  fall_back-stale :
      (c.fetched_at == 0 || leb config.stale_max (now - c.fetched_at)) ≡ false
      → is_null c.data_ ≡ false
      → c.fetched_at ≤ now
      → (fall_back config now c).1 ≡ some c.data_
  unfolding fall_back
  fall_back-stale e n le = ground arith

  -- a fetch that the issuer does not answer
  unanswered :
      (force : Bool) (o : Option (Document K))
      → (fall_back config now c).1 ≡ o
      → (fetch_jwks config force (at now) none c).1
        ≡ (if not force && is_fresh config now c then some c.data_ else o)
  unfolding fetch_jwks ask
  unanswered force o e = elim (Bool-cases (not force && is_fresh config now c)) [
    | inl q ↦ rw q refl
    | inr q ↦ rw q e
  ]

  if-same : (b : Bool) (o : Option (Document K)) → (if b then o else o) ≡ o
  if-same true o = refl
  if-same false o = refl

  unanswered-stale :
      (fall_back config now c).1 ≡ some c.data_
      → (force : Bool) → (fetch_jwks config force (at now) none c).1 ≡ some c.data_
  unanswered-stale e force =
      unanswered force (some c.data_) e
      ∙ if-same (not force && is_fresh config now c) (some c.data_)

  fetch_jwks-fresh :
      (t : Clock) (answer : Option (Document K))
      → is_fresh config t.asked c ≡ true
      → fetch_jwks config false t answer c ≡ (c, some c.data_)
  unfolding fetch_jwks
  fetch_jwks-fresh t answer e = rw e refl

-- For a cache that counts keys and was not filled in the future: a fetch, forced or not, that
-- the issuer does not answer at that instant still returns the cached keys where jwks_health reports
-- UP or DEGRADED, and where it reports DOWN is a 503, unless it is not forced and the lifetime of the
-- keys lasts; and where UP is reported, a fetch that is not forced returns them without a request
-- and changes nothing, whatever the issuer would answer.
pub health-Promise :
    {K : Type 0} (config : Config) (now : ℕ) (c : Cache K)
    → 0 < cached_jwks_key_count c.data_
    → c.fetched_at ≤ now
    → Promise config now c (jwks_health config now c).status
unfolding jwks_health fetch_jwks ask
health-Promise config now c h le =
    let counted : (cached_jwks_key_count c.data_ == 0) ≡ false = ground arith in
    let there = counted_is_there c.data_ h in
    elim (Bool-cases (c.fetched_at == 0 || leb config.stale_max (now - c.fetched_at))) [
      | inl q ↦
          rw (jwks_health, counted, q)
            (λ force. unanswered config now c force none (fall_back-refused config now c q))
      | inr q ↦
          elim (Bool-cases
            (not (c.stale_since == 0) || leb_ℤ config.cache_ttl (pos (now - c.fetched_at)))) [
              | inl r ↦
                  rw (jwks_health, counted, q, r)
                    (unanswered-stale config now c (fall_back-stale config now c q there le))
              | inr r ↦
                  rw (jwks_health, counted, q, r)
                    (
                      (λ answer. fetch_jwks-fresh config now c (at now) answer (
                          rw there (
                            young config.cache_ttl c.fetched_at now le (
                              or_right (not (c.stale_since == 0))
                                (leb_ℤ config.cache_ttl (pos (now - c.fetched_at))) r)))),
                      unanswered-stale config now c (fall_back-stale config now c q there le),
                    )
            ]
    ]
