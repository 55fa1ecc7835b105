-- ===== src/Station/Context.antt =====
-- What Station is told of a token, whatever the client sends along.
use lab_gateway.Prelude.{
  Text, text_eq_refl, lower, ◌≡◌, refl, Option, none, some, Bool, true, false, if◌then◌else◌,
}
use lab_gateway.Prelude.Value.{Value, str_of, or_else, truthy}
use lab_gateway.Access.{Claims}
use lab_gateway.Station.{
  Permit, allowed, denied, then_permit, Authorised, build_authorized_context, is_access_key,
  validate_access_key, authorized_access_key, ensure_requested_access_key,
  normalize_optional_string, differ, differ_in_case, first_of,
}
use lab_gateway.Station.Message.{
  Held, Item, object, Dict, get, pop, context_entries, merge_context, context_key, enrich,
  build_internal_session_message,
}
use lab_gateway.Station.Entries.{Says, get-set_item, pop-set_item, merge_context-Says}

-- what a permit carries
abbrev pub OnAllowed : {A : Type 0} → (A → Type 0) → Permit A → Type 0
OnAllowed P (allowed a) = P a
OnAllowed P (denied r) = Unit

then_permit-OnAllowed :
    {A B : Type 0} (P : A → Type 0) (Q : B → Type 0) (p : Permit A) (f : A → Permit B)
    → OnAllowed P p
    → ((a : A) → P a → OnAllowed Q (f a))
    → OnAllowed Q (then_permit p f)
unfolding then_permit
then_permit-OnAllowed P Q (allowed a) f h k = k a h
then_permit-OnAllowed P Q (denied r) f h k = tt

if-OnAllowed :
    {A : Type 0} (P : A → Type 0) (b : Bool) (r r' : Permit A)
    → ((b ≡ true) → OnAllowed P r)
    → ((b ≡ false) → OnAllowed P r')
    → OnAllowed P (if b then r else r')
if-OnAllowed P true r r' h k = h refl
if-OnAllowed P false r r' h k = k refl

-- the file that a token names
abbrev pub named_file : Claims → Text
named_file c = str_of (or_else c.access_key c.fmu_file_name)

-- what the gateway vouches for: the file of the token, of the pattern of keys, and no other lab
-- and reservation than the token's
abbrev pub IsPermitted : Claims → Authorised → Type 0
IsPermitted c a =
    (a.claims ≡ c)
    × (a.access_key ≡ named_file c)
    × (is_access_key a.access_key ≡ true)
    × (differ (normalize_optional_string c.lab_id) a.lab_id ≡ false)
    × (differ_in_case a.reservation_key (normalize_optional_string c.reservation_key) ≡ false)

abbrev IsNamedKey : Claims → Text → Type 0
IsNamedKey c key = (key ≡ named_file c) × (is_access_key key ≡ true)

authorized_access_key-IsNamedKey : (c : Claims) → OnAllowed (IsNamedKey c) (authorized_access_key c)
unfolding authorized_access_key validate_access_key
authorized_access_key-IsNamedKey c =
    if-OnAllowed (IsNamedKey c) (truthy (or_else c.access_key c.fmu_file_name))
      (validate_access_key (or_else c.access_key c.fmu_file_name)) _
      (λ _.
        if-OnAllowed (IsNamedKey c) (is_access_key (named_file c)) _ _ (λ q. (refl, q)) (λ _. tt))
      (λ _. tt)

ensure_requested_access_key-IsNamedKey :
    (c : Claims) → OnAllowed (IsNamedKey c) (ensure_requested_access_key c none)
unfolding ensure_requested_access_key then_permit
ensure_requested_access_key-IsNamedKey c =
    then_permit-OnAllowed (IsNamedKey c) (IsNamedKey c) (authorized_access_key c) _
      (authorized_access_key-IsNamedKey c) (λ key h. rw (h.1) h)

differ_first :
    (claim lab : Option Text) → differ claim lab ≡ false → differ claim (first_of lab claim) ≡ false
differ_first none none h = refl
differ_first (some a) none h = rw (text_eq_refl a) refl
differ_first none (some b) h = refl
differ_first (some a) (some b) h = h

differ_in_case_first :
    (claim wanted : Option Text)
    → differ_in_case wanted claim ≡ false
    → differ_in_case (first_of wanted claim) claim ≡ false
differ_in_case_first none none h = refl
differ_in_case_first (some a) none h = rw (text_eq_refl (lower a)) refl
differ_in_case_first claim (some b) h = h

pub build_authorized_context-IsPermitted :
    (c : Claims) (lab reservation : Value)
    → OnAllowed (IsPermitted c) (build_authorized_context c none lab reservation)
unfolding build_authorized_context
build_authorized_context-IsPermitted c lab reservation =
    let claim_lab = normalize_optional_string c.lab_id in
    let claim_reservation = normalize_optional_string c.reservation_key in
    then_permit-OnAllowed (IsNamedKey c) (IsPermitted c) (ensure_requested_access_key c none) _
      (ensure_requested_access_key-IsNamedKey c)
      (λ key (h : IsNamedKey c key).
        if-OnAllowed (IsPermitted c) (differ claim_lab (normalize_optional_string lab)) _ _
          (λ _. tt)
          (λ q.
            if-OnAllowed (IsPermitted c)
              (differ_in_case (normalize_optional_string reservation) claim_reservation) _ _
              (λ _. tt)
              (λ r. (
                refl,
                h.0,
                h.1,
                differ_first claim_lab (normalize_optional_string lab) q,
                differ_in_case_first claim_reservation (normalize_optional_string reservation) r,
              ))))

-- a message to Station: the client's but for the context, which says what the gateway vouches for
abbrev pub IsVouched : Dict Item → Claims → Dict Item → Type 0
IsVouched message c forwarded =
    (pop context_key forwarded ≡ pop context_key message)
    × ((a : Authorised) × IsPermitted c a
        × ((s : Text) × (d : Dict Held) × (get context_key forwarded ≡ some (object s d))
            × Says d a))

-- A message that build_internal_session_message returns is the client's but for "gatewayContext".
-- Whatever the client sent under that key, the claims and the access key there are the token's,
-- the key has the pattern of FMU keys, and a lab or reservation that the context was built for
-- stands there and is no other than the token's.
pub message-IsVouched :
    (render : Dict Held → Text) (message : Dict Item) (c : Claims) (lab reservation : Value)
    → OnAllowed
        (IsVouched message c)
        (build_internal_session_message render message c lab reservation)
unfolding build_internal_session_message enrich
message-IsVouched render message c lab reservation =
    then_permit-OnAllowed (IsPermitted c) (IsVouched message c)
      (build_authorized_context c none lab reservation) _
      (build_authorized_context-IsPermitted c lab reservation)
      (λ a h.
        let merged = merge_context (get context_key message) (context_entries a) in
        (
          pop-set_item context_key (object (render merged) merged) message,
          (
            a,
            h,
            (
              render merged,
              merged,
              get-set_item context_key (object (render merged) merged) message,
              merge_context-Says (get context_key message) a,
            ),
          ),
        ))
