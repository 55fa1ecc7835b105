-- ===== src/Realtime/Create/Stages.antt =====
-- The stages of "session.create", in their order.
use lab_gateway.Prelude.{
  ℕ, Text, nonempty, text_eq, lower, Option, none, some, Bool, true, false, not, ◌&&◌, ◌||◌, leb,
  ◌==◌, if◌then◌else◌,
}
use lab_gateway.Prelude.Int.{ℤ}
use lab_gateway.Prelude.Value.{Value, clean, or_else, truthy}
use lab_gateway.Access.{normalize_lab_id, enforce_fmu_claim, coerce_epoch_seconds}
use lab_gateway.Access.Run.{labs_differ}
use lab_gateway.Realtime.Session.{window_error}
use lab_gateway.Realtime.Create.{
  Bearer, Fetch, fetched, http_error, broken, Backend, Message, lab_mismatch, forbidden,
  reservation_not_active, session_expired, session_ticket_invalid, internal_error, given_or, Stage,
  go, refuse, raise,
}

-- `float_text` reads a number in a text, as in `coerce_epoch_seconds`
module _ (float_text : Text → Option ℤ) (now : ℕ) (backend : Backend) (m : Message) where
  -- the ticket that was issued
  unfoldable pub take_issued : Option (Fetch Value) → Stage Text
  unfolding clean
  take_issued none = refuse internal_error false
  take_issued (some (fetched v)) =
      if nonempty (clean v) then go (clean v) else refuse internal_error true
  take_issued (some (http_error status code)) =
      refuse (given_or code (if status == 403 then forbidden else internal_error)) (leb 500 status)
  take_issued (some broken) = refuse internal_error true

  -- both keys are there and differ
  abbrev pub keys_differ : Option Text → Text → Bool
  keys_differ none _ = false
  keys_differ (some k) claim = nonempty claim && not (text_eq (lower k) (lower claim))

  abbrev pub after_window : Option ℕ → Stage Text
  after_window none = take_issued backend.issue
  after_window (some code) =
      if code == 403 then refuse reservation_not_active false else refuse session_expired false

  unfoldable pub issue_ticket : Bearer → Stage Text
  unfolding take_issued normalize_lab_id clean window_error coerce_epoch_seconds truthy or_else
  issue_ticket b =
      if labs_differ (normalize_lab_id b.claims.lab_id) (normalize_lab_id m.lab_id)
      then refuse lab_mismatch false
      else if keys_differ (normalize_lab_id m.reservation_key) (clean b.claims.reservation_key)
      then refuse forbidden false
      else if not (truthy (or_else b.claims.access_key b.claims.fmu_file_name))
      then refuse forbidden false
      else after_window (
          window_error (coerce_epoch_seconds float_text b.nbf)
            (coerce_epoch_seconds float_text b.claims.exp) now)

  -- the ticket of an external session: the one that came, or one issued for the bearer
  unfoldable pub find_ticket : Bool → Option Bearer → Stage Text
  unfolding clean issue_ticket
  find_ticket internal none =
      if internal || nonempty (clean m.session_ticket) then go (clean m.session_ticket) else raise
  find_ticket internal (some b) =
      if internal || nonempty (clean m.session_ticket)
      then go (clean m.session_ticket)
      else issue_ticket b

  unfoldable pub take_redeemed : Option (Fetch Bearer) → Stage Bearer
  unfolding enforce_fmu_claim
  take_redeemed none = refuse internal_error false
  take_redeemed (some (fetched b)) =
      if enforce_fmu_claim false b.claims then go b else refuse forbidden false
  take_redeemed (some (http_error status code)) =
      refuse
        (given_or code (
          if status == 401
          then session_ticket_invalid
          else if status == 403
          then forbidden
          else internal_error))
        (leb 500 status)
  take_redeemed (some broken) = refuse session_ticket_invalid true

  -- the claims of the session
  unfoldable pub find_claims : Bool → Option Bearer → Text → Stage Bearer
  unfolding take_redeemed
  find_claims internal bearer ticket =
      if not internal && nonempty ticket
      then take_redeemed backend.redeem
      else elim bearer [ none ↦ raise | some b ↦ go b ]

  unfoldable pub check_claims : Bearer → Stage Bearer
  unfolding normalize_lab_id truthy or_else
  check_claims b =
      if labs_differ (normalize_lab_id b.claims.lab_id) (normalize_lab_id m.lab_id)
      then refuse lab_mismatch false
      else if not (truthy (or_else b.claims.access_key b.claims.fmu_file_name))
      then refuse forbidden false
      else go b
