-- ===== src/Access.antt =====
-- Who may run which FMU, of fmu-runner/main.py: `_is_provider_describe_claim`, `_enforce_fmu_claim`,
-- `_enforce_requested_reservation`, `_coerce_epoch_seconds`, `_effective_timeout_seconds`,
-- `_validate_storage_key`, `_resolve_fmu_path`, and `run_simulation` on the local backend up to the
-- bounds of its options. The file system and the floats of the options are arguments.
pub mod Files
pub mod Run
pub mod Authorised
mod Tests
use lab_gateway.Prelude.{
  ℕ, ◌-◌, Text, codes, nonempty, strip, lower, text_eq, Option, none, some, Bool, not, ◌&&◌, ◌||◌,
  [], ◌∷◌, min, leb, if◌then◌else◌,
}
use lab_gateway.Prelude.Int.{ℤ, pos, negsuc}
use lab_gateway.Prelude.Value.{
  Value, null, bool, int, text, other, str_of, clean, clean_lower, or_else,
}

-- the claims of a token, `null` where one is missing
pub record Claims : Type 0 where
  pub resource_type : Value
  pub scope : Value
  pub purpose : Value
  pub lab_id : Value
  pub access_key : Value
  pub fmu_file_name : Value
  pub reservation_key : Value
  pub puc_hash : Value
  pub exp : Value

-- `_normalize_lab_id`
unfoldable pub normalize_lab_id : Value → Option Text
unfolding strip str_of
normalize_lab_id null = none
normalize_lab_id v = if nonempty (strip (str_of v)) then some (strip (str_of v)) else none

unfoldable pub is_provider_describe_claim : Claims → Bool
unfolding clean clean_lower text_eq
is_provider_describe_claim c =
    text_eq (clean_lower c.resource_type) (codes "fmu")
    && text_eq (clean c.scope) (codes "fmu:describe")
    && text_eq (clean c.purpose) (codes "provider-describe")
    && nonempty (clean c.access_key)

-- no claim of `missing` is blank
unfoldable pub has_claims : Claims → Bool
unfolding clean
has_claims c =
    nonempty (clean c.lab_id)
    && nonempty (clean c.access_key)
    && nonempty (clean c.reservation_key)
    && nonempty (clean c.puc_hash)

-- `_enforce_fmu_claim`: `false` is the 403
unfoldable pub enforce_fmu_claim : Bool → Claims → Bool
unfolding is_provider_describe_claim has_claims lower str_of or_else text_eq
enforce_fmu_claim allow_describe c =
    text_eq (lower (str_of (or_else c.resource_type (text [])))) (codes "fmu")
    && ((allow_describe && is_provider_describe_claim c) || has_claims c)

-- `_enforce_requested_reservation`: `none` is the 403
unfoldable pub enforce_requested_reservation : Claims → Value → Option Text
unfolding clean_lower text_eq
enforce_requested_reservation c requested =
    if nonempty (clean_lower requested)
      && not (text_eq (clean_lower requested) (clean_lower c.reservation_key))
    then none
    else some (clean_lower c.reservation_key)

-- `exp - now`, rounded up: `now` is the clock in whole seconds, rounded down; a span that is not
-- positive is 0
abbrev pub remaining : ℤ → ℕ → ℕ
remaining (pos e) now = e - now
remaining (negsuc e) now = 0

-- the timeout within the configured bound and the reservation
unfoldable pub clamp : ℕ → ℕ → ℕ → Option ℤ → Option ℕ
clamp max_timeout now requested none = some (min requested max_timeout)
clamp max_timeout now requested (some e) =
    if leb (remaining e now) 0
    then none
    else some (min (min requested max_timeout) (remaining e now))

-- `_coerce_epoch_seconds`: `float_text` is `int(float(s))`, `none` where `float` raises; a float is
-- an `other` that `int` accepts
module _ (float_text : Text → Option ℤ) where
  abbrev of_text : Text → Option ℤ
  of_text s = if nonempty s then float_text s else none

  unfoldable pub coerce_epoch_seconds : Value → Option ℤ
  unfolding strip str_of
  coerce_epoch_seconds null = none
  coerce_epoch_seconds (bool _) = none
  coerce_epoch_seconds (int n) = some n
  coerce_epoch_seconds (other _ _ (some n)) = some n
  coerce_epoch_seconds v = of_text (strip (str_of v))

  -- `_effective_timeout_seconds`; `none` is the 401
  unfoldable pub effective_timeout_seconds : ℕ → ℕ → ℕ → Value → Option ℕ
  unfolding coerce_epoch_seconds clamp
  effective_timeout_seconds max_timeout now requested exp =
      clamp max_timeout now requested (coerce_epoch_seconds exp)
