-- ===== src/Auth/Issuer.antt =====
-- The URL that the keys are fetched from, and the issuer that tokens must name.
use lab_gateway.Prelude.{
  Text, codes, nonempty, strip, ◌≡◌, refl, sym, Option, none, some, Bool, true, false, not, ◌||◌,
  [], ◌∷◌, ◌++◌, reverse, ◌==◌, if◌then◌else◌, ◌⊎◌, inl, inr, Bool-cases, subst,
}
use lab_gateway.Auth.{
  Url, is_trusted, fallback_url, accept_url, validate_jwks_url, jwks_url_of_parsed,
  build_jwks_url_from_issuer, jwks_url_of_issuer, explicit_url, explicit_url_or,
  resolve_auth_jwks_url, resolve_jwt_issuer, normalize_issuer, given, rstrip_slashes, drop_slashes,
}
use lab_gateway.Prelude.{arith}
use mathlib.Core.List.{reverse-reverse}

-- the bundled URL, or one over HTTPS or to a host that counts as loopback or private
abbrev pub IsUsable : (Text → Option Url) → Text → Type 0
IsUsable urlparse url =
    (url ≡ fallback_url) ⊎ ((u : Url) × (urlparse url ≡ some u) × (is_trusted u ≡ true))

-- what an optional text satisfies where it is there
abbrev pub OnSome : (Text → Type 0) → Option Text → Type 0
OnSome P none = Unit
OnSome P (some a) = P a

OnSome-if :
    (P : Text → Type 0) (b : Bool) (o : Option Text)
    → ((b ≡ false) → OnSome P o)
    → OnSome P (if b then none else o)
OnSome-if P true o h = tt
OnSome-if P false o h = h refl

OnSome-then :
    (P : Text → Type 0) (b : Bool) (url : Text)
    → ((b ≡ true) → P url)
    → OnSome P (if b then some url else none)
OnSome-then P true url h = h refl
OnSome-then P false url h = tt

module _ (env : Text → Option Text) (urlparse : Text → Option Url) where
  accept_url-IsUsable :
      (url : Text) (o : Option Url)
      → urlparse url ≡ o
      → OnSome (IsUsable urlparse) (accept_url env urlparse url o)
  unfolding accept_url
  accept_url-IsUsable url none e = tt
  accept_url-IsUsable url (some u) e =
      OnSome-if (IsUsable urlparse) (not (nonempty u.scheme) || not (nonempty u.netloc)) _
        (λ _. OnSome-then (IsUsable urlparse) (is_trusted u) url (λ h. inr (u, e, h)))

  validate_jwks_url-IsUsable :
      (url : Text) → OnSome (IsUsable urlparse) (validate_jwks_url env urlparse url)
  unfolding validate_jwks_url
  validate_jwks_url-IsUsable url = accept_url-IsUsable url (urlparse url) refl

  jwks_url_of_parsed-IsUsable :
      (issuer : Text) (o : Option Url)
      → OnSome (IsUsable urlparse) (jwks_url_of_parsed env urlparse issuer o)
  jwks_url_of_parsed-IsUsable issuer none = tt
  jwks_url_of_parsed-IsUsable issuer (some u) =
      OnSome-if (IsUsable urlparse) (not (nonempty u.scheme) || not (nonempty u.netloc)) _
        (λ _. validate_jwks_url-IsUsable (rstrip_slashes issuer ++ codes "/jwks"))

  jwks_url_of_issuer-IsUsable :
      (o : Option Text) → OnSome (IsUsable urlparse) (jwks_url_of_issuer env urlparse o)
  unfolding build_jwks_url_from_issuer
  jwks_url_of_issuer-IsUsable none = inl refl
  jwks_url_of_issuer-IsUsable (some issuer) = jwks_url_of_parsed-IsUsable issuer (urlparse issuer)

  explicit_url_or-IsUsable :
      (o : Option Text) → OnSome (IsUsable urlparse) (explicit_url_or env urlparse o)
  explicit_url_or-IsUsable none =
      jwks_url_of_issuer-IsUsable (normalize_issuer (env (codes "ISSUER")))
  explicit_url_or-IsUsable (some url) = validate_jwks_url-IsUsable url

-- Where `_resolve_auth_jwks_url` returns, its URL is the bundled one, or one that is parsed with
-- the scheme "https" or with a host that the code counts as loopback or private.
resolve-IsUsable :
    (env : Text → Option Text) (urlparse : Text → Option Url) (url : Text)
    → resolve_auth_jwks_url env urlparse ≡ some url
    → IsUsable urlparse url
unfolding resolve_auth_jwks_url
resolve-IsUsable env urlparse url e = subst (OnSome (IsUsable urlparse)) e (
    explicit_url_or-IsUsable env urlparse (explicit_url env urlparse (env (codes "AUTH_JWKS_URL"))))

drop_slashes_twice : (s : Text) → drop_slashes (drop_slashes s) ≡ drop_slashes s
unfolding drop_slashes
drop_slashes_twice [] = refl
drop_slashes_twice (c ∷ s) = elim (Bool-cases (c == b'/')) [
  | inl e ↦ rw e (drop_slashes_twice s)
  | inr e ↦ rw e (rw e refl)
]

rstrip_slashes_twice : (s : Text) → rstrip_slashes (rstrip_slashes s) ≡ rstrip_slashes s
unfolding rstrip_slashes
rstrip_slashes_twice s =
    rw (reverse-reverse (drop_slashes (reverse s)), drop_slashes_twice (reverse s)) refl

none_is_some : {A : Type 0} {a : A} {P : Type 0} → none ≡ some a → P
none_is_some e = cc

given_same : (s t : Text) → given s ≡ some t → s ≡ t
given_same [] t e = cc
given_same (c ∷ s) t e = cc

normalized_has_no_slash :
    (o : Option Text) (i : Text) → normalize_issuer o ≡ some i → rstrip_slashes i ≡ i
unfolding normalize_issuer
normalized_has_no_slash none i e = cc
normalized_has_no_slash (some s) i e =
    subst (λ x. rstrip_slashes x ≡ x) (given_same (rstrip_slashes (strip s)) i e)
      (rstrip_slashes_twice (strip s))

module _ (env : Text → Option Text) (urlparse : Text → Option Url) where
  accept_url-same :
      (url url' : Text) (o : Option Url) → accept_url env urlparse url o ≡ some url' → url ≡ url'
  unfolding accept_url
  accept_url-same url url' none e = cc
  accept_url-same url url' (some u) e = ground arith

  jwks_url_of_parsed-jwks :
      (issuer url : Text) (o : Option Url)
      → jwks_url_of_parsed env urlparse issuer o ≡ some url
      → rstrip_slashes issuer ++ codes "/jwks" ≡ url
  unfolding validate_jwks_url
  jwks_url_of_parsed-jwks issuer url none e = cc
  jwks_url_of_parsed-jwks issuer url (some u) e =
      let jwks = validate_jwks_url env urlparse (rstrip_slashes issuer ++ codes "/jwks") in
      elim (Bool-cases (not (nonempty u.scheme) || not (nonempty u.netloc))) [
        | inl q ↦ none_is_some (subst (λ b. (if b then none else jwks) ≡ some url) q e)
        | inr q ↦
            accept_url-same (rstrip_slashes issuer ++ codes "/jwks") url
              (urlparse (rstrip_slashes issuer ++ codes "/jwks"))
              (subst (λ b. (if b then none else jwks) ≡ some url) q e)
      ]

-- Where ISSUER is set and neither AUTH_JWKS_URL nor JWT_ISSUER is, the keys are fetched from
-- "/jwks" below the very issuer that tokens must name.
issuer_keys :
    (env : Text → Option Text) (urlparse : Text → Option Url) (issuer url : Text)
    → explicit_url env urlparse (env (codes "AUTH_JWKS_URL")) ≡ none
    → normalize_issuer (env (codes "JWT_ISSUER")) ≡ none
    → normalize_issuer (env (codes "ISSUER")) ≡ some issuer
    → resolve_auth_jwks_url env urlparse ≡ some url
    → url ≡ resolve_jwt_issuer env ++ codes "/jwks"
unfolding resolve_auth_jwks_url resolve_jwt_issuer build_jwks_url_from_issuer
issuer_keys env urlparse issuer url h j i e =
    let found : jwks_url_of_parsed env urlparse issuer (urlparse issuer) ≡ some url =
      subst (λ o. jwks_url_of_issuer env urlparse o ≡ some url) i
        (subst (λ o. explicit_url_or env urlparse o ≡ some url) h e) in
    rw
      (
        resolve_jwt_issuer,
        j,
        i,
        sym (jwks_url_of_parsed-jwks env urlparse issuer url (urlparse issuer) found),
        normalized_has_no_slash (env (codes "ISSUER")) issuer i,
      )
      refl
