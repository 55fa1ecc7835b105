-- ===== src/Station.antt =====
-- The Station backend of fmu-runner/fmu_backend.py: which FMU a token stands for, the context
-- that the gateway vouches for, and the message that carries it. Sibling modules below model the
-- requests to Station and the WebSocket proxy in front of it.
pub mod Message
pub mod Answer
pub mod Requests
pub mod Proxy
pub mod Entries
pub mod Context
mod Tests
use lab_gateway.Prelude.{
  Text, codes, nonempty, strip, lower, text_eq, Option, none, some, Bool, true, false, not, ◌&&◌,
  ◌||◌, List, [], ◌∷◌, any_of, length, leb, ◌==◌, if◌then◌else◌,
}
use lab_gateway.Prelude.Value.{Value, null, str_of, truthy, or_else}
use lab_gateway.Access.{Claims}
use lab_gateway.Access.Files.{is_ascii_alnum, ends_with}
use lab_gateway.Auth.{split_at}

-- the HTTPExceptions of the context
pub data Reason : Type 0 where
  -- 400
  invalid_key : Reason
  -- 403
  no_file : Reason
  other_file : Reason
  other_lab : Reason
  other_reservation : Reason

pub data Permit (A : Type 0) : Type 0 where
  allowed : A → Permit A
  denied : Reason → Permit A

unfoldable pub then_permit : {A B : Type 0} → Permit A → (A → Permit B) → Permit B
then_permit (allowed a) f = f a
then_permit (denied r) f = denied r

unfoldable pub is_segment_char : Text → Bool
unfolding is_ascii_alnum
is_segment_char [] = true
is_segment_char (c ∷ s) =
    let rest = is_segment_char s in
    if is_ascii_alnum c || c == b'.' || c == b'_' || c == b'-' then rest else false

-- `_FMU_ACCESS_KEY_SEGMENT_RE.fullmatch`
unfoldable pub is_segment : Text → Bool
unfolding is_ascii_alnum is_segment_char
is_segment [] = false
is_segment (c ∷ s) = is_ascii_alnum c && leb (length s) 127 && is_segment_char s

-- the tests on a key as a text
unfoldable pub is_access_key : Text → Bool
unfolding ends_with lower split_at is_segment
is_access_key key =
    ends_with (lower key) (codes ".fmu")
    && not (any_of (λ s. not (is_segment s)) (split_at b'/' [] key))

-- `validate_access_key`
unfoldable pub validate_access_key : Value → Permit Text
unfolding is_access_key str_of
validate_access_key v = if is_access_key (str_of v) then allowed (str_of v) else denied invalid_key

-- `authorized_access_key`
unfoldable pub authorized_access_key : Claims → Permit Text
unfolding validate_access_key truthy or_else
authorized_access_key c =
    let access_key = or_else c.access_key c.fmu_file_name in
    if truthy access_key then validate_access_key access_key else denied no_file

-- the requested file, if one is named
abbrev pub check_requested : Option Text → Text → Permit Text
check_requested none key = allowed key
check_requested (some []) key = allowed key
check_requested (some (c ∷ s)) key =
    if text_eq key (c ∷ s) then allowed (c ∷ s) else denied other_file

abbrev pub validate_text : Text → Permit Text
validate_text key = if is_access_key key then allowed key else denied invalid_key

-- `ensure_requested_access_key`
unfoldable pub ensure_requested_access_key : Claims → Option Text → Permit Text
unfolding authorized_access_key then_permit is_access_key text_eq
ensure_requested_access_key c requested =
    then_permit (authorized_access_key c)
      (λ key. then_permit (check_requested requested key) validate_text)

abbrev pub nonempty_or_none : Text → Option Text
nonempty_or_none [] = none
nonempty_or_none (c ∷ s) = some (c ∷ s)

-- `normalize_optional_string`
unfoldable pub normalize_optional_string : Value → Option Text
unfolding strip str_of
normalize_optional_string null = none
normalize_optional_string v = nonempty_or_none (strip (str_of v))

abbrev pub option_value : Option Text → Value
option_value none = null
option_value (some s) = Value.text s

pub record Authorised : Type 0 where
  pub access_key : Text
  pub lab_id : Option Text
  pub reservation_key : Option Text
  pub claims : Claims

-- both are there and differ
abbrev pub differ : Option Text → Option Text → Bool
differ none _ = false
differ (some _) none = false
differ (some a) (some b) = not (text_eq a b)

abbrev pub differ_in_case : Option Text → Option Text → Bool
differ_in_case none _ = false
differ_in_case (some _) none = false
differ_in_case (some a) (some b) = not (text_eq (lower a) (lower b))

abbrev pub first_of : Option Text → Option Text → Option Text
first_of none b = b
first_of (some a) b = some a

-- `build_authorized_context`
unfoldable pub build_authorized_context : Claims → Option Text → Value → Value → Permit Authorised
unfolding ensure_requested_access_key normalize_optional_string then_permit text_eq lower
build_authorized_context c requested_file requested_lab requested_reservation =
    then_permit (ensure_requested_access_key c requested_file) (λ key.
      let claim_lab = normalize_optional_string c.lab_id in
      let lab = normalize_optional_string requested_lab in
      let claim_reservation = normalize_optional_string c.reservation_key in
      let reservation = normalize_optional_string requested_reservation in
      if differ claim_lab lab
      then denied other_lab
      else if differ_in_case reservation claim_reservation
      then denied other_reservation
      else allowed (record {
        access_key = key;
        lab_id = first_of lab claim_lab;
        reservation_key = first_of reservation claim_reservation;
        claims = c;
      }))
