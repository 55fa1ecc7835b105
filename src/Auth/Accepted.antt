-- ===== src/Auth/Accepted.antt =====
-- The keys that accepted tokens are verified with.
use lab_gateway.Prelude.{Text, ◌≡◌, refl, Option, none, some, true, false, List, ◌⊎◌, inl, inr}
use lab_gateway.Auth.Keys.{Document, Cache, Config, fetch_jwks}
use lab_gateway.Auth.Verify.{
  Try, returned, expired, invalid, crashed, SigningKey, PyJwt, World, Verified, find_signing_key,
  decode_claims, decode_with, search_again, settle_key, settle_kid, settle_set, settle_fetch,
  verify_for, verify_jwt_token,
}
use lab_gateway.Auth.Named.{
  OnAccepted, OnAccepted-imp, OnFound, then_try-OnAccepted, IsNamed, find_signing_key-IsNamed,
}

module _ {K S C : Type 0} (jwt : PyJwt K S C) (sha256 : Text → Text) (config : Config)
    (issuer audience token : Text) where
  -- claims that a key decodes the token to
  abbrev pub IsDecoded : S → Verified C → Type 0
  IsDecoded key v =
      (jwt.decode token key issuer audience ≡ returned v.claims)
      × (v.credential_hash ≡ sha256 token)

  -- claims that a key of the JSON value with the id that the token names decodes the token to
  abbrev pub IsSigned : Document K → Verified C → Type 0
  IsSigned d v =
      (keys : List (SigningKey S)) × (o : Option Text) × (k : SigningKey S) × (jwt.key_set d
        ≡ returned keys)
      × (jwt.header_kid token ≡ returned o)
      × IsNamed o keys k
      × IsDecoded k.secret v

  decode_claims-IsDecoded :
      (key : S)
      → OnAccepted (IsDecoded key) (decode_claims jwt sha256 config issuer audience token key)
  unfolding decode_claims
  decode_claims-IsDecoded key =
      then_try-OnAccepted (IsDecoded key) (jwt.decode token key issuer audience) _
        (λ a e. (e, refl))

  module _ (d : Document K) (keys : List (SigningKey S)) (o : Option Text)
      (s : jwt.key_set d ≡ returned keys) (h : jwt.header_kid token ≡ returned o) where
    decode_key-IsSigned :
        (k : SigningKey S)
        → IsNamed o keys k
        → OnAccepted (IsSigned d) (decode_claims jwt sha256 config issuer audience token k.secret)
    decode_key-IsSigned k named =
        OnAccepted-imp (IsDecoded k.secret) (IsSigned d)
          (decode_claims jwt sha256 config issuer audience token k.secret)
          (λ v e. (keys, o, k, s, h, named, e)) (decode_claims-IsDecoded k.secret)

    decode_with-IsSigned :
        (found : Option (SigningKey S))
        → OnFound (IsNamed o keys) found
        → OnAccepted (IsSigned d) (decode_with jwt sha256 config issuer audience token found)
    unfolding decode_with
    decode_with-IsSigned none named = tt
    decode_with-IsSigned (some k) named = decode_key-IsSigned k named

    decode_set-IsSigned :
        OnAccepted
          (IsSigned d)
          (decode_with jwt sha256 config issuer audience token (find_signing_key o keys))
    decode_set-IsSigned =
        decode_with-IsSigned (find_signing_key o keys) (find_signing_key-IsNamed o keys)

  search_again-IsSigned :
      (o : Option Text)
      → jwt.header_kid token ≡ returned o
      → (got : Option (Document K))
      → OnAccepted
          (λ v. (d : Document K) × (got ≡ some d) × IsSigned d v)
          (search_again jwt sha256 config issuer audience token o got)
  unfolding search_again
  search_again-IsSigned o h none = tt
  search_again-IsSigned o h (some d) =
      then_try-OnAccepted (λ v. (d' : Document K) × (some d ≡ some d') × IsSigned d' v)
        (jwt.key_set d) _
        (λ keys s.
          OnAccepted-imp (IsSigned d) _
            (decode_with jwt sha256 config issuer audience token (find_signing_key o keys))
            (λ v e. (d, refl, e)) (decode_set-IsSigned d keys o s h))

  module _ (w : World K) (c : Cache K) where
    -- the value at hand signs, or else the one of a forced fetch
    abbrev pub IsEitherSigned : Document K → Verified C → Type 0
    IsEitherSigned d v =
        IsSigned d v
        ⊎ ((d' : Document K) × ((fetch_jwks config true w.second w.second_answer c).1 ≡ some d')
            × IsSigned d' v)

    settle_key-IsEitherSigned :
        (d : Document K) (keys : List (SigningKey S)) (o : Option Text)
        → jwt.key_set d ≡ returned keys
        → jwt.header_kid token ≡ returned o
        → (found : Option (SigningKey S)) → OnFound (IsNamed o keys) found
        → OnAccepted
            (IsEitherSigned d)
            (settle_key jwt sha256 config issuer audience token w o c found).1
    unfolding settle_key
    settle_key-IsEitherSigned d keys o s h (some k) named =
        OnAccepted-imp (IsSigned d) (IsEitherSigned d)
          (decode_claims jwt sha256 config issuer audience token k.secret) (λ v e. inl e)
          (decode_key-IsSigned d keys o s h k named)
    settle_key-IsEitherSigned d keys o s h none named =
        let again = (fetch_jwks config true w.second w.second_answer c).1 in
        OnAccepted-imp _ (IsEitherSigned d)
          (search_again jwt sha256 config issuer audience token o again) (λ v e. inr e)
          (search_again-IsSigned o h again)

    settle_kid-IsEitherSigned :
        (d : Document K) (keys : List (SigningKey S))
        → jwt.key_set d ≡ returned keys
        → (kid : Try (Option Text)) → jwt.header_kid token ≡ kid
        → OnAccepted
            (IsEitherSigned d)
            (settle_kid jwt sha256 config issuer audience token w keys c kid).1
    unfolding settle_kid
    settle_kid-IsEitherSigned d keys s (returned o) h =
        settle_key-IsEitherSigned d keys o s h (find_signing_key o keys)
          (find_signing_key-IsNamed o keys)
    settle_kid-IsEitherSigned d keys s expired h = tt
    settle_kid-IsEitherSigned d keys s invalid h = tt
    settle_kid-IsEitherSigned d keys s crashed h = tt

    settle_set-IsEitherSigned :
        (d : Document K) (set : Try (List (SigningKey S)))
        → jwt.key_set d ≡ set
        → OnAccepted
            (IsEitherSigned d)
            (settle_set jwt sha256 config issuer audience token w c set).1
    unfolding settle_set
    settle_set-IsEitherSigned d (returned keys) s =
        settle_kid-IsEitherSigned d keys s (jwt.header_kid token) refl
    settle_set-IsEitherSigned d expired s = tt
    settle_set-IsEitherSigned d invalid s = tt
    settle_set-IsEitherSigned d crashed s = tt

    settle_fetch-IsEitherSigned :
        (got : Option (Document K))
        → OnAccepted
            (λ v. (d : Document K) × (got ≡ some d) × IsEitherSigned d v)
            (settle_fetch jwt sha256 config issuer audience token w c got).1
    unfolding settle_fetch
    settle_fetch-IsEitherSigned none = tt
    settle_fetch-IsEitherSigned (some d) =
        OnAccepted-imp (IsEitherSigned d) _
          (settle_set jwt sha256 config issuer audience token w c (jwt.key_set d)).1
          (λ v e. (d, refl, e)) (settle_set-IsEitherSigned d (jwt.key_set d) refl)

  abbrev first_fetch : World K → Cache K → Cache K × Option (Document K)
  first_fetch w c = fetch_jwks config false w.first w.first_answer c

  -- what accepted claims rest on
  abbrev pub IsVouched : World K → Cache K → Verified C → Type 0
  IsVouched w c v =
      (d : Document K) × ((first_fetch w c).1 ≡ some d) × IsEitherSigned w (first_fetch w c).0 d v

-- Claims that verify_jwt_token accepts are what PyJWT decodes the token to, for the configured
-- issuer and audience, with a key of the set that the first fetch or else the forced one returned,
-- and the id of that key is the nonempty "kid" that the token names. The credential hash is the
-- hash of the token.
pub accepted-IsVouched :
    {K S C : Type 0} (jwt : PyJwt K S C) (sha256 : Text → Text) (config : Config)
    (issuer audience token : Text) (w : World K) (c : Cache K)
    → OnAccepted
        (IsVouched jwt sha256 config issuer audience token w c)
        (verify_jwt_token jwt sha256 config issuer (some audience) token w c).1
unfolding verify_jwt_token verify_for
accepted-IsVouched jwt sha256 config issuer audience token w c =
    let got = fetch_jwks config false w.first w.first_answer c in
    settle_fetch-IsEitherSigned jwt sha256 config issuer audience token w got.0 got.1
