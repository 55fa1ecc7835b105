-- ===== src/Auth/Verify.antt =====
-- `_extract_token`, `verify_jwt_token` and `verify_jwt` of fmu-runner/auth.py. What the code
-- calls of PyJWT, and SHA-256, are arguments: a key set from a JSON value, the unverified header,
-- and `jwt.decode` with the algorithms and the required claims of the source.
use lab_gateway.Prelude.{
  ℕ, Text, codes, nonempty, strip, text_eq, starts_with, Option, none, some, Bool, true, false,
  ◌&&◌, List, [], ◌∷◌, if◌then◌else◌, drop,
}
use lab_gateway.Auth.Keys.{Document, Cache, Config, Clock, fetch_jwks}

-- how a call of PyJWT ends
pub data Try (A : Type 0) : Type 0 where
  returned : A → Try A
  -- ExpiredSignatureError
  expired : Try A
  -- another InvalidTokenError
  invalid : Try A
  -- an exception that the code does not catch
  crashed : Try A

pub data Verdict (A : Type 0) : Type 0 where
  accepted : A → Verdict A
  -- an HTTPException with this status
  refused : ℕ → Verdict A
  raised : Verdict A

-- a key of a key set; `key_id` is `none` where it is no text
pub record SigningKey (S : Type 0) : Type 0 where
  pub key_id : Option Text
  pub secret : S

-- `K` is an entry of a JWKS, `S` the key that it stands for, and `C` the claims of a token
pub record PyJwt (K S C : Type 0) : Type 0 where
  -- `PyJWKSet.from_dict(data).keys`
  pub key_set : Document K → Try (List (SigningKey S))
  -- the "kid" of `get_unverified_header(token)`, which is a text where it is there
  pub header_kid : Text → Try (Option Text)
  -- `decode` of a token with a key, for an issuer and an audience
  pub decode : Text → S → Text → Text → Try C

-- what one verification meets: the clock and the issuer, for either of its fetches
pub record World (K : Type 0) : Type 0 where
  pub first : Clock
  pub first_answer : Option (Document K)
  pub second : Clock
  pub second_answer : Option (Document K)

-- the claims, and the "_credentialHash" that the code adds
pub record Verified (C : Type 0) : Type 0 where
  pub claims : C
  pub credential_hash : Text

-- `_extract_token`; `none` is the 401
unfoldable pub extract_token : Option Text → Option Text
unfolding starts_with strip
extract_token none = none
extract_token (some auth_header) =
    if starts_with auth_header (codes "Bearer ") && nonempty (strip (drop 7 auth_header))
    then some (strip (drop 7 auth_header))
    else none

-- `kid and key.key_id == kid`
abbrev pub is_match : Option Text → Option Text → Bool
is_match none _ = false
is_match (some kid) none = false
is_match (some kid) (some key_id) = nonempty kid && text_eq key_id kid

-- `except jwt.ExpiredSignatureError` and `except jwt.InvalidTokenError`
unfoldable pub then_try : {A B : Type 0} → Try A → (A → Verdict B) → Verdict B
then_try (returned a) f = f a
then_try expired f = refused 401
then_try invalid f = refused 401
then_try crashed f = raised

module _ {S : Type 0} where
  -- the loop for the matching key
  unfoldable pub find_signing_key : Option Text → List (SigningKey S) → Option (SigningKey S)
  unfolding text_eq
  find_signing_key kid [] = none
  find_signing_key kid (k ∷ ks) =
      let rest = find_signing_key kid ks in if is_match kid k.key_id then some k else rest

module _ {K S C : Type 0} (jwt : PyJwt K S C) (sha256 : Text → Text) (config : Config) where
  module _ (issuer audience token : Text) where
    -- `decode` with the key that was found, and the hash of the token
    unfoldable pub decode_claims : S → Verdict (Verified C)
    unfolding then_try
    decode_claims key =
        then_try (jwt.decode token key issuer audience)
          (λ claims. accepted (record { claims = claims; credential_hash = sha256 token }))

    unfoldable pub decode_with : Option (SigningKey S) → Verdict (Verified C)
    unfolding decode_claims
    decode_with none = refused 401
    decode_with (some k) = decode_claims k.secret

    -- the key of the refreshed set
    unfoldable pub search_again : Option Text → Option (Document K) → Verdict (Verified C)
    unfolding find_signing_key decode_with then_try
    search_again kid none = refused 503
    search_again kid (some d) =
        then_try (jwt.key_set d) (λ keys. decode_with (find_signing_key kid keys))

    -- the key of the first set, or else one refresh; the cache is the one after the call
    unfoldable pub settle_key :
        World K → Option Text → Cache K → Option (SigningKey S) → Cache K × Verdict (Verified C)
    unfolding fetch_jwks search_again decode_claims
    settle_key w kid c (some k) = (c, decode_claims k.secret)
    settle_key w kid c none =
        let again = fetch_jwks config true w.second w.second_answer c in
        (again.0, search_again kid again.1)

    unfoldable pub settle_kid :
        World K → List (SigningKey S) → Cache K → Try (Option Text) → Cache K × Verdict (Verified C)
    unfolding find_signing_key settle_key
    settle_kid w keys c (returned kid) = settle_key w kid c (find_signing_key kid keys)
    settle_kid w keys c expired = (c, refused 401)
    settle_kid w keys c invalid = (c, refused 401)
    settle_kid w keys c crashed = (c, raised)

    unfoldable pub settle_set :
        World K → Cache K → Try (List (SigningKey S)) → Cache K × Verdict (Verified C)
    unfolding settle_kid
    settle_set w c (returned keys) = settle_kid w keys c (jwt.header_kid token)
    settle_set w c expired = (c, refused 401)
    settle_set w c invalid = (c, refused 401)
    settle_set w c crashed = (c, raised)

    unfoldable pub settle_fetch :
        World K → Cache K → Option (Document K) → Cache K × Verdict (Verified C)
    unfolding settle_set
    settle_fetch w c none = (c, refused 503)
    settle_fetch w c (some d) = settle_set w c (jwt.key_set d)

    unfoldable pub verify_for : World K → Cache K → Cache K × Verdict (Verified C)
    unfolding fetch_jwks settle_fetch
    verify_for w c =
        let got = fetch_jwks config false w.first w.first_answer c in settle_fetch w got.0 got.1

  -- `verify_jwt_token`, for `JWT_ISSUER` and `JWT_AUDIENCE`
  unfoldable pub verify_jwt_token :
      Text → Option Text → Text → World K → Cache K → Cache K × Verdict (Verified C)
  unfolding verify_for
  verify_jwt_token issuer none token w c = (c, refused 503)
  verify_jwt_token issuer (some audience) token w c = verify_for issuer audience token w c

  -- `verify_jwt`, for the "Authorization" header
  unfoldable pub verify_jwt :
      Text → Option Text → Option Text → World K → Cache K → Cache K × Verdict (Verified C)
  unfolding extract_token verify_jwt_token
  verify_jwt issuer audience header w c = elim (extract_token header) [
    | none ↦ (c, refused 401)
    | some token ↦ verify_jwt_token issuer audience token w c
  ]
