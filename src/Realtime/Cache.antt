-- ===== src/Realtime/Cache.antt =====
-- The responses that a session keeps by request id, of fmu-runner/realtime_ws.py: `cache_response`
-- and `get_cached`. A dict is an association list with one entry for each key.
use lab_gateway.Prelude.{
  Bool-cases, any_of, sym, subst, inl, inr, text_eq_iff, text_eq_refl, false≢true, ℕ, zero, suc,
  ◌≤◌, ◌≡◌, Text, text_eq, Option, none, some, Bool, true, false, not, List, [], ◌∷◌, ◌++◌, keep,
  length, leb, length-append, arith, if◌then◌else◌, refl,
}

pub record Cache (R : Type 0) : Type 0 where
  pub entries : List (Text × R)
  pub order : List Text

one-le : (limit : ℕ) → 1 ≤ limit → leb 1 limit ≡ true
one-le limit l = ground (arith, l)

head-differ :
    (key k : Text) (ks : List Text) → any_of (text_eq key) (k ∷ ks) ≡ false → text_eq key k ≡ false
head-differ key k ks n = ground (arith, n)

rest-differ :
    (key k : Text) (ks : List Text)
    → any_of (text_eq key) (k ∷ ks) ≡ false
    → any_of (text_eq key) ks ≡ false
rest-differ key k ks n = ground (arith, n)

module _ {R : Type 0} where
  abbrev has_other_key : Text → Text × R → Bool
  has_other_key key (k, _) = not (text_eq key k)

  abbrev find : Text → List (Text × R) → Option R
  find key [] = none
  find key ((k, r) ∷ es) = let rest = find key es in if text_eq key k then some r else rest

  -- `get_cached`
  unfoldable pub get_cached : Text → Cache R → Option R
  get_cached key c = find key c.entries

  -- one round of the loop: the oldest id goes, with its entry
  abbrev pop_oldest : List Text → List (Text × R) → Cache R
  pop_oldest [] es = record { entries = es; order = [] }
  pop_oldest (k ∷ ks) es = record { entries = keep (has_other_key k) es; order = ks }

  -- the loop, for at most as many rounds as there are ids
  unfoldable pub trim : ℕ → ℕ → Cache R → Cache R
  trim limit zero c = c
  trim limit (suc fuel) c =
      let rest = trim limit fuel (pop_oldest c.order c.entries) in
      if leb (length c.order) limit then c else rest

  -- `cache_response`; `limit` is 256
  unfoldable pub cache_response : ℕ → Text → R → Cache R → Cache R
  unfolding trim
  cache_response limit key r c = trim limit (suc (length c.order)) (record {
    entries = (key, r) ∷ keep (has_other_key key) c.entries;
    order = c.order ++ (key ∷ []);
  })

  shorter :
      (ks : List Text) (es : List (Text × R)) (fuel : ℕ)
      → length ks ≤ suc fuel
      → length (pop_oldest ks es).order ≤ fuel
  shorter [] es fuel h = omega arith
  shorter (k ∷ ks) es fuel h = omega (arith, h)

  skip-find :
      (b : Bool) (v : R) (o : Option R) (r : R)
      → b ≡ false
      → (if b then some v else o) ≡ some r
      → o ≡ some r
  skip-find true v o r q h = absurd (false≢true (sym q))
  skip-find false v o r q h = h

  same-find :
      (b : Bool) (v : R) (o p : Option R) (r : R)
      → (o ≡ some r → p ≡ some r)
      → (if b then some v else o) ≡ some r
      → (if b then some v else p) ≡ some r
  same-find true v o p r f h = h
  same-find false v o p r f h = f h

  find-keep :
      (key k : Text) (r : R) (es : List (Text × R))
      → text_eq key k ≡ false
      → find key es ≡ some r
      → find key (keep (has_other_key k) es) ≡ some r
  find-keep key k r [] d h = h
  find-keep key k r ((j, v) ∷ es) d h = elim (Bool-cases (text_eq k j)) [
    | inl e ↦ rw e (
        find-keep key k r es d (
          skip-find (text_eq key j) v (find key es) r
            (subst (λ x. text_eq key x ≡ false) ((text_eq_iff k j).0 e) d) h))
    | inr e ↦ rw e (
        same-find (text_eq key j) v (find key es) (find key (keep (has_other_key k) es)) r
          (find-keep key k r es d) h)
  ]

  length-trim :
      (limit fuel : ℕ) (c : Cache R)
      → length c.order ≤ fuel
      → length (trim limit fuel c).order ≤ limit
  unfolding trim
  length-trim limit zero c h = omega (arith, h)
  length-trim limit (suc fuel) c h = elim (Bool-cases (leb (length c.order) limit)) [
    | inl q ↦ rw (trim, q) (ground (arith, q))
    | inr q ↦
        rw (trim, q)
          (length-trim limit fuel (pop_oldest c.order c.entries) (shorter c.order c.entries fuel h))
  ]

  find-trim :
      (limit fuel : ℕ) (key : Text) (r : R) (ks : List Text) (es : List (Text × R))
      → 1 ≤ limit
      → any_of (text_eq key) ks ≡ false
      → find key es ≡ some r
      → find key (trim limit fuel (record { entries = es; order = ks ++ (key ∷ []) })).entries
        ≡ some r
  unfolding trim
  find-trim limit zero key r ks es l n h = h
  find-trim limit (suc fuel) key r [] es l n h = rw (trim, one-le limit l) h
  find-trim limit (suc fuel) key r (k ∷ ks) es l n h =
      elim (Bool-cases (leb (length (k ∷ ks ++ (key ∷ []))) limit)) [
        | inl q ↦ rw (trim, q) h
        | inr q ↦
            rw (trim, q)
              (find-trim limit fuel key r ks (keep (has_other_key k) es) l (rest-differ key k ks n)
                (find-keep key k r es (head-differ key k ks n) h))
      ]

  -- A response that is cached under an id that the cache does not hold is what `get_cached` answers
  -- for this id, and the cache then holds at most `limit` ids, where `limit` is at least 1 (the code
  -- has 256).
  get_cached-cache_response :
      (limit : ℕ) (key : Text) (r : R) (c : Cache R)
      → 1 ≤ limit
      → any_of (text_eq key) c.order ≡ false
      → (get_cached key (cache_response limit key r c) ≡ some r)
        × (length (cache_response limit key r c).order ≤ limit)
  unfolding get_cached cache_response
  get_cached-cache_response limit key r c l n = (
    find-trim limit (suc (length c.order)) key r c.order _ l n (rw (text_eq_refl key) refl),
    length-trim limit (suc (length c.order)) _ (omega (arith, length-append c.order (key ∷ []))),
  )
