-- ===== src/RateLimit/Window.antt =====
-- No window of a minute ever holds more accepted requests than the limit.
use lab_gateway.Prelude.{
  ℕ, ◌+◌, ◌≤◌, ◌≡◌, refl, Text, text_eq, text_eq_iff, Bool, true, false, Bool-cases, inl, inr, sym,
  ap, ◌∙◌, List, [], ◌∷◌, ◌++◌, length, ◌&&◌, length-append, count_if, arith, ltb, leb,
  if◌then◌else◌,
}
use lab_gateway.RateLimit.{Hits, pop_old, hit, allow}

-- the times that still count at `now`
unfoldable pub recent : ℕ → ℕ → List ℕ → ℕ
recent window now = count_if (λ t. ltb now (t + window))

recent-le-length : (window now : ℕ) (ts : List ℕ) → recent window now ts ≤ length ts
unfolding recent
recent-le-length window now [] = omega arith
recent-le-length window now (t ∷ ts) = ground (arith, recent-le-length window now ts)

recent-append :
    (window now : ℕ) (ts us : List ℕ)
    → recent window now (ts ++ us) ≡ recent window now ts + recent window now us
unfolding recent
recent-append window now [] us = omega arith
recent-append window now (t ∷ ts) us = ground (arith, recent-append window now ts us)

-- what is dropped no longer counts, now or later
recent-pop_old :
    (window now later : ℕ) (ts : List ℕ)
    → now ≤ later
    → recent window later (pop_old window now ts) ≡ recent window later ts
unfolding recent pop_old
recent-pop_old window now later [] h = refl
recent-pop_old window now later (t ∷ ts) h = ground (arith, recent-pop_old window now later ts h)

-- one call after another for a list of keys and times: the dict of deques, and the times at which
-- `key` was accepted, newest first
unfoldable pub serve : ℕ → ℕ → Text → List (Text × ℕ) → Hits × List ℕ → Hits × List ℕ
serve window limit key [] s = s
serve window limit key ((k, now) ∷ calls) (hits, accepted) =
    let (verdict, hits') = allow window limit k now hits in
    serve window limit key calls
      (hits', (if verdict && text_eq k key then now ∷ accepted else accepted))

-- the times of the calls do not fall, and do not go below the first one
abbrev pub Rising : ℕ → List (Text × ℕ) → ℕ → Type 0
Rising start [] end = start ≤ end
Rising start ((_, now) ∷ calls) end = (start ≤ now) × Rising now calls end

record Tracks (window limit last : ℕ) (bucket accepted : List ℕ) : Type 0 where
  few : length bucket ≤ limit
  same : (now : ℕ) → last ≤ now → recent window now accepted ≡ recent window now bucket

length-pop_old-le : (window now : ℕ) (ts : List ℕ) → length (pop_old window now ts) ≤ length ts
unfolding pop_old
length-pop_old-le window now [] = omega arith
length-pop_old-le window now (t ∷ ts) = ground (arith, length-pop_old-le window now ts)

recent-one :
    (window now t : ℕ) → recent window now (t ∷ []) ≡ (if ltb now (t + window) then 1 else 0)
unfolding recent
recent-one window now t = ground arith

recent-cons :
    (window now t : ℕ) (ts : List ℕ)
    → recent window now (t ∷ ts) ≡ (if ltb now (t + window) then 1 else 0) + recent window now ts
unfolding recent
recent-cons window now t ts = ground arith

hit-Tracks :
    (window limit last now : ℕ) (bucket accepted : List ℕ)
    → last ≤ now
    → Tracks window limit last bucket accepted
    → Tracks window limit now
        (hit window limit now bucket).1
        (if (hit window limit now bucket).0 then now ∷ accepted else accepted)
unfolding hit
hit-Tracks window limit last now bucket accepted h k =
    elim (Bool-cases (leb limit (length (pop_old window now bucket)))) [
      | inl full ↦
          rw (full, hit)
            (record {
              few = omega (arith, length-pop_old-le window now bucket, k.few);
              same = kept;
            })
      | inr free ↦
          rw (free, hit)
            (record {
              few = ground (arith, length-append (pop_old window now bucket) (now ∷ []));
              same = λ later le. omega (
                arith,
                kept later le,
                recent-cons window later now accepted,
                recent-one window later now,
                recent-append window later (pop_old window now bucket) (now ∷ []),
              );
            })
    ]
  where
    kept :
        (later : ℕ)
        → now ≤ later
        → recent window later accepted ≡ recent window later (pop_old window now bucket)
    kept later le = k.same later (omega arith) ∙ sym (recent-pop_old window now later bucket le)

later-Tracks :
    (window limit last now : ℕ) (bucket accepted : List ℕ)
    → last ≤ now
    → Tracks window limit last bucket accepted
    → Tracks window limit now bucket accepted
later-Tracks window limit last now bucket accepted h k = record {
  few = k.few;
  same = λ later le. k.same later (omega arith);
}

and_true : (b : Bool) → (b && true) ≡ b
and_true true = refl
and_true false = refl

and_false : (b : Bool) → (b && false) ≡ false
and_false true = refl
and_false false = refl

allow-Tracks :
    (window limit last now : ℕ) (key k : Text) (hits : Hits) (accepted : List ℕ)
    → last ≤ now
    → Tracks window limit last (hits key) accepted
    → let (verdict, hits') = allow window limit k now hits in
      Tracks window limit now
        (hits' key)
        (if verdict && text_eq k key then now ∷ accepted else accepted)
unfolding allow
allow-Tracks window limit last now key k hits accepted h tr = elim (Bool-cases (leb limit 0)) [
  | inl shut ↦ rw (shut, allow) (later-Tracks window limit last now (hits key) accepted h tr)
  | inr works ↦
      rw (works, allow)
        (elim (Bool-cases (text_eq k key)) [
          | inl hit_key ↦
              let e = (text_eq_iff k key).0 hit_key in
              rw (hit_key, ap hits e, and_true (hit window limit now (hits key)).0)
                (hit-Tracks window limit last now (hits key) accepted h tr)
          | inr miss ↦
              rw (miss, and_false (hit window limit now (hits k)).0)
                (later-Tracks window limit last now (hits key) accepted h tr)
        ])
]

serve-Tracks :
    (window limit last end : ℕ) (key : Text) (calls : List (Text × ℕ)) (hits : Hits)
    (accepted : List ℕ)
    → Rising last calls end
    → Tracks window limit last (hits key) accepted
    → let (hits', accepted') = serve window limit key calls (hits, accepted) in
      Tracks window limit end (hits' key) accepted'
unfolding serve
serve-Tracks window limit last end key [] hits accepted r tr =
    later-Tracks window limit last end (hits key) accepted r tr
serve-Tracks window limit last end key ((k, now) ∷ calls) hits accepted (h, r) tr =
    let (verdict, hits') = allow window limit k now hits in
    serve-Tracks window limit now end key calls hits'
      (if verdict && text_eq k key then now ∷ accepted else accepted) r
      (allow-Tracks window limit last now key k hits accepted h tr)

-- From empty deques, after calls for any keys at times that do not fall: of the calls for one key
-- that were accepted, at most `limit` lie within the last window, at every time from the last call
-- on.
pub at_most_limit_per_window :
    (window limit end : ℕ) (key : Text) (calls : List (Text × ℕ))
    → Rising 0 calls end
    → recent window end (serve window limit key calls ((λ _. []), [])).1 ≤ limit
at_most_limit_per_window window limit end key calls r =
    let k =
      serve-Tracks window limit 0 end key calls (λ _. []) [] r
        (record { few = omega arith; same = λ now le. refl }) in
    omega (
      arith,
      k.few,
      k.same end (omega arith),
      recent-le-length window end ((serve window limit key calls ((λ _. []), [])).0 key),
    )
