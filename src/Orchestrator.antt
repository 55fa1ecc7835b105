-- ===== src/Orchestrator.antt =====
-- `class ReservationOrchestrator` of ops-worker/worker.py: one scan of the tables
-- `lab_reservations` and `reservation_operations`. Times are seconds. What a dispatch meets is a
-- `Scene`; an exception that leaves it ends the scan.
pub mod Rows
mod Moves
pub mod Transitions
pub mod Candidates
mod Tests
use lab_gateway.Prelude.{
  ℕ, ◌+◌, Text, codes, Option, none, some, Bool, true, false, not, ◌&&◌, ◌||◌, List, [], ◌∷◌, ◌++◌,
  ◌==◌, if◌then◌else◌,
}
use lab_gateway.Prelude.Int.{ℤ, pos}
use lab_gateway.Prelude.Table.{text_key}
use lab_gateway.Prelude.Value.{Value, null, text, str_of, or_else, get_value, is_null}
use lab_gateway.Hosts.{Host, Registry, get_by_lab}
use lab_gateway.Operations.{Settings, Moment, Log, record_reservation_operation}
use lab_gateway.Reservations.{
  Payload, Reply, no_power, handle_reservation_start, handle_reservation_end,
}
use lab_gateway.Orchestrator.Rows.{
  Status, active, completed, Reservation, Tables, Options, Scene, update_status, start_action,
  end_action, start_candidates, end_candidates,
}

-- `(host or {}).get("name") or "unmapped"`
abbrev mapped_name : Option Host → Text
mapped_name none = codes "unmapped"
mapped_name (some h) = str_of (or_else (get_value h.name) (text (codes "unmapped")))

-- the payload that a dispatch hands to the handlers
unfoldable pub dispatch_payload : Text → Text → Value → Payload
dispatch_payload id host lab = record {
  reservation_id = some id;
  reservation_id_snake = none;
  host = some host;
  host_name = none;
  lab_id = lab;
  lab_id_snake = null;
  wake = none;
  prepare = none;
  release = none;
  guard_grace = none;
  wake_options = some (record {
    mac = none;
    ping_target = none;
    attempts = none;
    timeout_is_number = true;
    broadcast = none;
    port = none;
  });
  prepare_args = null;
  release_args = null;
  power_action = no_power;
}

-- `str(lab_id) if lab_id is not None else None`
abbrev logged_lab : Value → Value
logged_lab lab = if is_null lab then null else text (str_of lab)

-- `_record_scheduler_op`
unfoldable pub record_scheduler_op :
    Settings → Moment → Text → Value → Text → Text → Bool → Option ℤ → Option Text → Log → Log
record_scheduler_op c m id lab host action success code message log =
    record_reservation_operation c m
      (record {
        reservation_id = id;
        lab_id = logged_lab lab;
        host = host;
        action = action;
        success = success;
        response_code = code;
        message = message;
        created_at = 0;
      })
      log

-- `bool(response.get("success")) and status_code == 200`
unfoldable pub is_success : Reply → Bool
is_success r = r.status_code == 200

-- `response.get("error") or …`: the replies without a step carry an error
unfoldable pub error_of : Text → Text → Reply → Text
error_of failure name r =
    if r.status_code == 400
    then codes "reservationId and host are required"
    else if r.status_code == 404
    then codes "host '" ++ (name ++ codes "' not found")
    else failure

module _ (c : Settings) (is_alnum : ℕ → Bool) (registry : Registry) where
  -- what both dispatches do with the handler's reply; the flag is false where the handler raised
  unfoldable pub settle :
      Text
      → Text
      → Status
      → Scene
      → Reservation
      → Text
      → List Reservation
      → Option Reply × Log
      → Bool × Tables
  unfolding record_scheduler_op update_status is_success error_of
  settle action failure new s row name rows (none, log) =
      (false, record { reservations = rows; log = log })
  settle action failure new s row name rows (some r, log) =
      let success = is_success r in
      (
        true,
        record {
          reservations =
              if success
              then update_status s.update_up s.update_time row.transaction_hash row.status new rows
              else rows;
          log =
              record_scheduler_op c s.recording row.transaction_hash row.lab_id name action success
                (some (pos r.status_code))
                (if success then none else some (error_of failure name r)) log;
        },
      )

  -- both dispatches: which handler, under which action, to which status
  unfoldable pub dispatch :
      (Payload → Log → Option Reply × Log)
      → Text
      → Text
      → Status
      → Scene
      → Reservation
      → Tables
      → Bool × Tables
  unfolding dispatch_payload record_scheduler_op settle
  dispatch handle action failure new s row t =
      let id = row.transaction_hash in
      let found = get_by_lab registry row.lab_id in
      let name = mapped_name found in
      elim found [
        | none ↦ (
          true,
          record t {
            log =
                record_scheduler_op c s.recording id row.lab_id name action false none
                  (some (codes "No host mapping for lab " ++ str_of row.lab_id)) t.log;
          },
        )
        | some _ ↦
            settle action failure new s row name t.reservations
              (handle (dispatch_payload id name row.lab_id) t.log)
      ]

  unfoldable pub dispatch_start : Scene → Reservation → Tables → Bool × Tables
  unfolding dispatch
  dispatch_start s =
      dispatch (handle_reservation_start c is_alnum s.worlds registry) start_action
        (codes "Reservation start failed") active s

  unfoldable pub dispatch_end : Scene → Reservation → Tables → Bool × Tables
  unfolding dispatch
  dispatch_end s =
      dispatch (handle_reservation_end c is_alnum s.worlds registry) end_action
        (codes "Reservation end failed") completed s

  -- a loop over the rows of one query; `true` where it gets through all of them
  unfoldable pub dispatch_all :
      (Reservation → Tables → Bool × Tables) → List Reservation → Tables → Bool × Tables
  dispatch_all one [] t = (true, t)
  dispatch_all one (r ∷ rs) t =
      let (went_on, t') = one r t in
      let rest = dispatch_all one rs t' in if went_on then rest else (false, t')

  -- `scan_once`; `fetch_up` tells whether the transaction of the two queries goes through
  unfoldable pub scan_once :
      Options → Bool → ℕ → (Reservation → Scene) → (Reservation → Scene) → Tables → Bool × Tables
  unfolding start_candidates end_candidates dispatch_start dispatch_end dispatch_all
  scan_once o fetch_up now start_scene end_scene t =
      let starts = start_candidates o now t in
      let ends = end_candidates o now t in
      let (went_on, t') = dispatch_all (λ r. dispatch_start (start_scene r) r) starts t in
      let last = dispatch_all (λ r. dispatch_end (end_scene r) r) ends t' in
      if not o.enabled || not o.engine || not fetch_up
      then (true, t)
      else if went_on
      then last
      else (false, t')
