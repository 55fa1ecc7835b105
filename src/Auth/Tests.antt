-- ===== src/Auth/Tests.antt =====
-- A gateway that trusts one issuer, whose keys are their own ids.
use lab_gateway.Prelude.{
  ℕ, arith, ◌<◌, ◌≤◌, Text, codes, strip, text_eq, ◌≡◌, refl, Option, none, some, Bool, true, false,
  List, [], ◌∷◌, map, ◌++◌, if◌then◌else◌,
}
use lab_gateway.Prelude.Int.{pos}
use lab_gateway.Auth.{
  Url, resolve_auth_jwks_url, resolve_jwt_issuer, is_loopback_or_private_host, normalize_issuer,
  rstrip_slashes, build_local_issuer,
}
use lab_gateway.Auth.Keys.{
  Document, object, key_list, Cache, Config, renewed, fetch_jwks, jwks_health,
  cached_jwks_key_count,
}
use lab_gateway.Auth.Verify.{
  Try, returned, invalid, crashed, Verified, accepted, SigningKey, PyJwt, World, verify_jwt_token,
  extract_token,
}
use lab_gateway.Auth.Health.{at, Promise, health-Promise}
use lab_gateway.Auth.Log.{Call, step, run, IsBacked, fetched-IsBacked}
use lab_gateway.Auth.Accepted.{IsVouched, accepted-IsVouched}
use lab_gateway.Auth.Named.{OnAccepted}

abbrev issuer : Text
issuer = codes "https://lab.edu/auth"

abbrev env : Text → Option Text
env name = if text_eq name (codes "ISSUER") then some (codes " https://lab.edu/auth/ ") else none

abbrev urlparse : Text → Option Url
urlparse s = some (record { scheme = codes "https"; netloc = codes "lab.edu" })

abbrev jwks_url : Text
jwks_url = codes "https://lab.edu/auth/jwks"

url_found : resolve_auth_jwks_url env urlparse ≡ some jwks_url
unfolding resolve_auth_jwks_url
url_found = refl

local_issuer :
    build_local_issuer (λ s. if text_eq s (codes "HTTPS_PORT") then some (codes "8443") else none)
    ≡ codes "https://localhost:8443/auth"
unfolding build_local_issuer
local_issuer = refl

private_host : is_loopback_or_private_host (codes "172.20.0.5:8080") ≡ true
unfolding is_loopback_or_private_host lab_gateway.Auth.is_private
    lab_gateway.Prelude.Value.parse_int strip
private_host = refl

public_host : is_loopback_or_private_host (codes "172.32.0.5") ≡ false
unfolding is_loopback_or_private_host lab_gateway.Auth.is_private
    lab_gateway.Prelude.Value.parse_int strip
public_host = refl

-- a name that only looks like an address of a private network
private_name : is_loopback_or_private_host (codes "10.1.evil.org") ≡ true
unfolding is_loopback_or_private_host lab_gateway.Auth.is_private
    lab_gateway.Prelude.Value.parse_int strip
private_name = refl

bearer_found : extract_token (some (codes "Bearer  abc ")) ≡ some (codes "abc")
unfolding extract_token
bearer_found = refl

abbrev config : Config
config = record { cache_ttl = pos 300; stale_max = 900 }

abbrev keys : List Text → Document Text
keys ks = object (key_list ks)

abbrev old_keys : List Text
old_keys = codes "k1" ∷ []

abbrev new_keys : List Text
new_keys = codes "k2" ∷ codes "k1" ∷ []

abbrev cache : Cache Text
cache = renewed (at 1000) (keys old_keys)

-- past the lifetime, within the bound on stale keys
health-Promise_example : Promise config 1500 cache (jwks_health config 1500 cache).status
unfolding cached_jwks_key_count
health-Promise_example = health-Promise config 1500 cache (omega arith) (omega arith)

abbrev answered : Call Text
answered = record { force = false; clock = at 1000; answer = some (keys old_keys) }

abbrev failed : Call Text
failed = record { force = true; clock = at 1800; answer = none }

fetched-IsBacked_example :
    IsBacked config failed.clock
      (step config failed (run config (answered ∷ []))).0.log
      (step config failed (run config (answered ∷ []))).1
fetched-IsBacked_example = fetched-IsBacked config (answered ∷ []) failed

stale_keys_served : (step config failed (run config (answered ∷ []))).1 ≡ some (keys old_keys)
unfolding step run
stale_keys_served = refl

abbrev signing_key : Text → SigningKey Text
signing_key k = record { key_id = some k; secret = k }

abbrev key_set : Document Text → Try (List (SigningKey Text))
key_set (object (key_list ks)) = returned (map signing_key ks)
key_set _ = crashed

-- a token is the id of its key, and its claims are its audience
abbrev jwt : PyJwt Text Text Text
jwt = record {
  key_set = key_set;
  header_kid = λ token. returned (some token);
  decode = λ token key iss aud. if text_eq token key then returned aud else invalid;
}

abbrev world : World Text
world = record {
  first = at 1100;
  first_answer = none;
  second = at 1101;
  second_answer = some (keys new_keys);
}

abbrev audience : Text
audience = codes "lab-7"

accepted-IsVouched_example :
    OnAccepted
      (IsVouched jwt (λ t. t) config issuer audience (codes "k2") world cache)
      (verify_jwt_token jwt (λ t. t) config issuer (some audience) (codes "k2") world cache).1
accepted-IsVouched_example =
    accepted-IsVouched jwt (λ t. t) config issuer audience (codes "k2") world cache

-- a token under a key that the issuer added after the last fetch
rotated_key_accepted :
    verify_jwt_token jwt (λ t. t) config issuer (some audience) (codes "k2") world cache ≡ (
      renewed (at 1101) (keys new_keys),
      accepted (record { claims = audience; credential_hash = codes "k2" }),
    )
unfolding fetch_jwks lab_gateway.Auth.Verify.find_signing_key verify_jwt_token
rotated_key_accepted = refl
