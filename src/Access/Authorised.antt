-- ===== src/Access/Authorised.antt =====
-- What an accepted request for a run guarantees, and where its file lies.
use lab_gateway.Prelude.{ℕ, Text, Option, none, some, Bool, true, false, not, ◌&&◌, leb}
use lab_gateway.Prelude.Int.{ℤ}
use lab_gateway.Prelude.Value.{Value}
use lab_gateway.Access.{
  Claims, normalize_lab_id, enforce_fmu_claim, enforce_requested_reservation, coerce_epoch_seconds,
  remaining,
}
use lab_gateway.Access.Files.{FileSystem, Resolved, found}
use lab_gateway.Access.Run.{Floats, Request, Checked, accepted, labs_differ}

module _ {P : Type 0} (fs : FileSystem P) where
  abbrev trusted : Option P → Bool
  trusted none = true
  trusted (some p) = fs.is_within_base p && fs.is_file p

  -- a file that was found lies within the base directory and is a regular file
  abbrev is_trusted : Resolved P → Bool
  is_trusted (found p) = fs.is_within_base p && fs.is_file p
  is_trusted _ = true

abbrev is_some : {A : Type 0} → Option A → Bool
is_some none = false
is_some (some _) = true

-- the timeout ends no later than the reservation, where the token says when that is
abbrev pub ends_in_time : Option ℤ → ℕ → ℕ → Bool
ends_in_time none now t = true
ends_in_time (some e) now t = leb t (remaining e now)

is_limited : ℕ → ℕ → Option ℤ → Option ℕ → Bool
is_limited max_timeout now e none = true
is_limited max_timeout now e (some t) = leb 1 t && leb t max_timeout && ends_in_time e now t

module _ {P : Type 0} (fs : FileSystem P) (floats : Floats) (float_text : Text → Option ℤ)
    (max_timeout now : ℕ) (c : Claims) where
  -- what an answer grants is a file below the base directory, for a time within the bounds
  unfoldable pub is_within : Checked P → Bool
  is_within (accepted lab p t) =
      (fs.is_within_base p && fs.is_file p)
      && (leb 1 t
          && leb t max_timeout
          && ends_in_time (coerce_epoch_seconds float_text c.exp) now t)
  is_within _ = true

  -- the token is for this lab and this reservation
  unfoldable pub allows : Request → Bool
  allows r =
      enforce_fmu_claim false c
      && not (labs_differ (normalize_lab_id c.lab_id) (normalize_lab_id r.lab_id))
      && is_some (enforce_requested_reservation c r.reservation_key)

  unfoldable pub is_granted : Request → Checked P → Bool
  unfolding allows is_within
  is_granted r (accepted lab p t) = allows r && is_within (accepted lab p t)
  is_granted r _ = true
