-- ===== src/Auth.antt =====
-- Which keys and issuer the tokens of the FMU runner are verified with, of fmu-runner/auth.py:
-- `_normalize_issuer`, `_build_local_issuer`, `_is_loopback_or_private_host`,
-- `_validate_jwks_url`, `_build_jwks_url_from_issuer`, `_resolve_auth_jwks_url` and
-- `_resolve_jwt_issuer`. The environment and `urlparse` are arguments.
pub mod Keys
pub mod Verify
pub mod Issuer
pub mod Health
pub mod Log
pub mod Named
pub mod Accepted
mod Tests
use lab_gateway.Prelude.{
  ℕ, Text, codes, nonempty, strip, lower, text_eq, starts_with, Option, none, some, Bool, true,
  false, not, ◌&&◌, ◌||◌, List, [], ◌∷◌, ◌++◌, reverse, leb, ◌==◌, if◌then◌else◌, any_of,
}
use lab_gateway.Prelude.Int.{ℤ, pos, negsuc}
use lab_gateway.Prelude.Value.{parse_int}

-- `value.split(sep)` for one character: `part` is the current part, reversed
unfoldable pub split_at : ℕ → Text → Text → List Text
split_at sep part [] = reverse part ∷ []
split_at sep part (c ∷ s) =
    let next = split_at sep [] s in
    let more = split_at sep (c ∷ part) s in if c == sep then reverse part ∷ next else more

-- `host.split(":")[0]`
unfoldable pub before_colon : Text → Text
before_colon [] = []
before_colon (c ∷ s) = let rest = before_colon s in if c == b':' then [] else c ∷ rest

abbrev pub loopback_hosts : List Text
loopback_hosts = codes "localhost" ∷ codes "127.0.0.1" ∷ codes "::1" ∷ codes "0:0:0:0:0:0:0:1" ∷ []

-- the tests on the first two numbers
unfoldable pub is_private : Option ℤ → Option ℤ → Bool
is_private (some (pos first)) (some (pos second)) =
    first == 10
    || (first == 172 && leb 16 second && leb second 31)
    || (first == 192 && second == 168)
is_private (some (pos first)) (some (negsuc _)) = first == 10
is_private _ _ = false

abbrev pub has_private_parts : List Text → Bool
has_private_parts (a ∷ b ∷ _ ∷ _ ∷ []) = is_private (parse_int a) (parse_int b)
has_private_parts _ = false

-- `_is_loopback_or_private_host`
unfoldable pub is_loopback_or_private_host : Text → Bool
unfolding before_colon lower text_eq starts_with split_at
is_loopback_or_private_host host =
    let host_only = lower (before_colon host) in
    any_of (text_eq host_only) loopback_hosts
    || starts_with host_only (codes "127.")
    || has_private_parts (split_at b'.' [] host_only)

-- `reversed.lstrip("/")`
unfoldable pub drop_slashes : Text → Text
drop_slashes [] = []
drop_slashes (c ∷ s) = let rest = drop_slashes s in if c == b'/' then rest else c ∷ s

-- `value.rstrip("/")`
unfoldable pub rstrip_slashes : Text → Text
unfolding drop_slashes
rstrip_slashes s = reverse (drop_slashes (reverse s))

-- a text, `none` where it is empty
abbrev pub given : Text → Option Text
given [] = none
given (c ∷ s) = some (c ∷ s)

-- `_normalize_issuer`
unfoldable pub normalize_issuer : Option Text → Option Text
unfolding strip rstrip_slashes
normalize_issuer none = none
normalize_issuer (some s) = given (rstrip_slashes (strip s))

-- `(value or default).strip() or default`
abbrev or_default : Text → Text → Text
or_default [] d = d
or_default (c ∷ s) d = c ∷ s

abbrev setting : Option Text → Text → Text
setting none d = or_default (strip d) d
setting (some s) d = or_default (strip (or_default s d)) d

-- the components of a URL that `urlparse` finds and the code reads
pub record Url : Type 0 where
  pub scheme : Text
  pub netloc : Text

abbrev pub is_trusted : Url → Bool
is_trusted u = text_eq u.scheme (codes "https") || is_loopback_or_private_host u.netloc

abbrev pub fallback_url : Text
fallback_url = codes "http://blockchain-services:8080/auth/jwks"

-- `env` is `os.getenv`
module _ (env : Text → Option Text) where
  -- `_build_local_issuer`
  unfoldable pub build_local_issuer : Text
  unfolding strip text_eq
  build_local_issuer =
      let server_name = setting (env (codes "SERVER_NAME")) (codes "localhost") in
      let https_port = setting (env (codes "HTTPS_PORT")) (codes "443") in
      let port_suffix = if text_eq https_port (codes "443") then [] else b':' ∷ https_port in
      codes "https://" ++ (server_name ++ (port_suffix ++ codes "/auth"))

  abbrev pub issuer_or_local : Option Text → Text
  issuer_or_local (some issuer) = issuer
  issuer_or_local none = build_local_issuer

  abbrev pub explicit_issuer_or : Option Text → Text
  explicit_issuer_or (some issuer) = issuer
  explicit_issuer_or none = issuer_or_local (normalize_issuer (env (codes "ISSUER")))

  -- `_resolve_jwt_issuer`
  unfoldable pub resolve_jwt_issuer : Text
  unfolding normalize_issuer build_local_issuer
  resolve_jwt_issuer = explicit_issuer_or (normalize_issuer (env (codes "JWT_ISSUER")))

  -- `urlparse` is `none` where it raises ValueError; a `none` of the functions is that exception
  module _ (urlparse : Text → Option Url) where
    -- the tests on a parsed URL
    unfoldable pub accept_url : Text → Option Url → Option Text
    unfolding is_loopback_or_private_host text_eq
    accept_url url none = none
    accept_url url (some u) =
        if not (nonempty u.scheme) || not (nonempty u.netloc)
        then none
        else if is_trusted u
        then some url
        else none

    -- `_validate_jwks_url`
    unfoldable pub validate_jwks_url : Text → Option Text
    unfolding accept_url
    validate_jwks_url url = accept_url url (urlparse url)

    abbrev pub jwks_url_of_parsed : Text → Option Url → Option Text
    jwks_url_of_parsed issuer none = none
    jwks_url_of_parsed issuer (some u) =
        if not (nonempty u.scheme) || not (nonempty u.netloc)
        then none
        else validate_jwks_url (rstrip_slashes issuer ++ codes "/jwks")

    -- `_build_jwks_url_from_issuer`
    unfoldable pub build_jwks_url_from_issuer : Text → Option Text
    unfolding validate_jwks_url rstrip_slashes
    build_jwks_url_from_issuer issuer = jwks_url_of_parsed issuer (urlparse issuer)

    abbrev pub jwks_url_of_issuer : Option Text → Option Text
    jwks_url_of_issuer (some issuer) = build_jwks_url_from_issuer issuer
    jwks_url_of_issuer none = some fallback_url

    -- the URL of the variable, if it has one
    abbrev pub explicit_url : Option Text → Option Text
    explicit_url none = none
    explicit_url (some s) = given (strip s)

    abbrev pub explicit_url_or : Option Text → Option Text
    explicit_url_or (some url) = validate_jwks_url url
    explicit_url_or none = jwks_url_of_issuer (normalize_issuer (env (codes "ISSUER")))

    -- `_resolve_auth_jwks_url`
    unfoldable pub resolve_auth_jwks_url : Option Text
    unfolding validate_jwks_url build_jwks_url_from_issuer normalize_issuer strip
    resolve_auth_jwks_url = explicit_url_or (explicit_url (env (codes "AUTH_JWKS_URL")))
