-- ===== src/Aas/Endpoint.antt =====
-- `_aas_request_headers` of ops-worker/aas_generator.py: which server gets which credential.
-- `urlsplit` and the tests of one character are arguments.
use lab_gateway.Prelude.{
  ℕ, Text, codes, nonempty, strip, lower, text_eq, Option, none, some, Bool, false, not, ◌&&◌, ◌||◌,
  List, [], ◌∷◌, ◌++◌, any_of, keep, map, ◌==◌, if◌then◌else◌,
}
use lab_gateway.Auth.{split_at, rstrip_slashes}

-- the components of a URL that the code reads
pub record Parts : Type 0 where
  pub scheme : Text
  pub hostname : Option Text
  pub username : Option Text
  pub password : Option Text

-- the configuration, and Python's own functions
pub record Config : Type 0 where
  pub aas_url : Text
  pub allowed_hosts : Text
  pub service_token : Text
  pub service_token_header : Text
  -- `none` where `urlsplit` raises ValueError
  pub urlsplit : Text → Option Parts
  -- `isalnum` and `isalpha` of one character
  pub is_alnum : ℕ → Bool
  pub is_alpha : ℕ → Bool

abbrev pub Headers : Type 0
Headers = List (Text × Text)

abbrev pub bundled_url : Text
bundled_url = codes "http://basyx-aas-server:8081"

abbrev pub is_given : Option Text → Bool
is_given none = false
is_given (some s) = nonempty s

-- the hosts of the setting
unfoldable pub allowlist : Text → List Text
unfolding split_at strip lower
allowlist hosts =
    map (λ s. lower (strip s)) (keep (λ s. nonempty (strip s)) (split_at b',' [] hosts))

abbrev pub is_listed : Text → Option Text → Bool
is_listed hosts none = false
is_listed hosts (some h) = any_of (λ s. text_eq s (lower h)) (allowlist hosts)

-- over HTTPS, without userinfo, to a host of the setting
unfoldable pub is_allowed_endpoint : Text → Parts → Bool
unfolding allowlist lower text_eq
is_allowed_endpoint hosts p =
    text_eq (lower p.scheme) (codes "https")
    && is_given p.hostname
    && not (is_given p.username || is_given p.password)
    && is_listed hosts p.hostname

abbrev placeholders : List Text
placeholders = codes "change_me" ∷ codes "changeme" ∷ codes "password" ∷ codes "test" ∷ []

-- a token that is there and no placeholder
unfoldable pub is_token : Text → Bool
unfolding strip lower text_eq
is_token t = nonempty t && not (any_of (λ w. text_eq w (lower (strip t))) placeholders)

abbrev header_or_default : Text → Text
header_or_default [] = codes "Authorization"
header_or_default (c ∷ s) = c ∷ s

module _ (c : Config) where
  -- `BASYX_AAS_URL.rstrip("/")`
  unfoldable pub endpoint : Text
  unfolding rstrip_slashes
  endpoint = rstrip_slashes c.aas_url

  abbrev is_header_name : Text → Bool
  is_header_name [] = false
  is_header_name (x ∷ s) =
      not (any_of (λ d. not (c.is_alnum d || d == b'-')) (x ∷ s)) && c.is_alpha x

  -- the header and its value
  unfoldable pub credential : Text → Option Headers
  unfolding lower text_eq
  credential name =
      if not (is_header_name name)
      then none
      else if text_eq (lower name) (codes "authorization")
      then some ((name, codes "Bearer " ++ c.service_token) ∷ [])
      else some ((name, c.service_token) ∷ [])

  unfoldable pub headers_for : Option Parts → Option Headers
  unfolding is_allowed_endpoint is_token credential strip
  headers_for none = none
  headers_for (some p) =
      if is_allowed_endpoint c.allowed_hosts p && is_token c.service_token
      then credential (strip (header_or_default c.service_token_header))
      else none

  -- `_aas_request_headers`; `none` is ValueError
  unfoldable pub aas_request_headers : Option Headers
  unfolding endpoint headers_for text_eq
  aas_request_headers =
      if text_eq endpoint bundled_url then some [] else headers_for (c.urlsplit endpoint)
