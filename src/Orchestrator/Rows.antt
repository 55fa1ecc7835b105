-- ===== src/Orchestrator/Rows.antt =====
-- The tables that `ReservationOrchestrator` of ops-worker/worker.py reads and writes, its two
-- queries, and `_update_status`.
use lab_gateway.Prelude.{
  ℕ, ◌+◌, Text, codes, text_eq, Bool, true, false, not, ◌&&◌, List, keep, take, any_of, leb,
  if◌then◌else◌,
}
use lab_gateway.Prelude.Sort.{sort_by}
use lab_gateway.Prelude.Table.{update, text_key}
use lab_gateway.Prelude.Value.{Value}
use lab_gateway.Operations.{Moment, Log}
use lab_gateway.Reservations.Perform.{World}

-- `status`; `unlisted` is any that the orchestrator does not know
pub data Status : Type 0 where
  confirmed active completed cancelled : Status
  unlisted : Text → Status

pub record Reservation : Type 0 where
  pub transaction_hash : Text
  pub lab_id : Value
  pub start_time : ℕ
  pub end_time : ℕ
  pub status : Status
  pub updated_at : ℕ

abbrev pub reservation_key : Reservation → Text
reservation_key r = r.transaction_hash

pub record Tables : Type 0 where
  pub reservations : List Reservation
  pub log : Log

pub record Options : Type 0 where
  pub enabled : Bool
  pub engine : Bool
  pub start_lead : ℕ
  pub end_delay : ℕ
  pub lookback : ℕ
  pub retry_cooldown : ℕ
  pub max_batch : ℕ

-- the steps of a dispatch, the record of it, whether the UPDATE of the status goes through, and
-- its UTC_TIMESTAMP
pub record Scene : Type 0 where
  pub worlds : Text → World
  pub recording : Moment
  pub update_up : Bool
  pub update_time : ℕ

abbrev pub same_status : Status → Status → Bool
same_status confirmed confirmed = true
same_status active active = true
same_status completed completed = true
same_status cancelled cancelled = true
same_status (unlisted a) (unlisted b) = text_eq a b
same_status _ _ = false

-- `(current_status, new_status) in allowed`
unfoldable pub is_allowed : Status → Status → Bool
is_allowed confirmed active = true
is_allowed confirmed completed = true
is_allowed active completed = true
is_allowed confirmed cancelled = true
is_allowed active cancelled = true
is_allowed _ _ = false

-- the SET and the WHERE of the UPDATE, on a row of the reservation
abbrev pub set_status : ℕ → Status → Status → Reservation → Reservation
set_status time current new r =
    if same_status r.status current then record r { status = new; updated_at = time } else r

-- `_update_status`
unfoldable pub update_status :
    Bool → ℕ → Text → Status → Status → List Reservation → List Reservation
unfolding is_allowed
update_status up time id current new rows =
    if is_allowed current new && up
    then update reservation_key id (set_status time current new) rows
    else rows

-- a `scheduler:…` operation of the reservation within the cooldown
unfoldable pub was_tried : Options → ℕ → Text → Log → Reservation → Bool
was_tried o now action log r =
    any_of
      (λ p.
        text_eq p.reservation_id r.transaction_hash
        && text_eq p.action action
        && leb now (p.created_at + o.retry_cooldown))
      log

unfoldable pub is_confirmed : Status → Bool
is_confirmed confirmed = true
is_confirmed _ = false

-- `status IN ('CONFIRMED','ACTIVE')`
unfoldable pub is_running : Status → Bool
is_running confirmed = true
is_running active = true
is_running _ = false

abbrev pub start_action : Text
start_action = codes "scheduler:start"

abbrev pub end_action : Text
end_action = codes "scheduler:end"

unfoldable pub can_start : Options → ℕ → Log → Reservation → Bool
unfolding was_tried is_confirmed
can_start o now log r =
    is_confirmed r.status
    && leb r.start_time (now + o.start_lead)
    && leb now (r.start_time + o.lookback)
    && not (was_tried o now start_action log r)

unfoldable pub can_end : Options → ℕ → Log → Reservation → Bool
unfolding was_tried is_running
can_end o now log r =
    is_running r.status
    && leb (r.end_time + o.end_delay) now
    && leb now (r.end_time + o.lookback)
    && not (was_tried o now end_action log r)

abbrev starts_before : Reservation → Reservation → Bool
starts_before a b = leb a.start_time b.start_time

abbrev ends_before : Reservation → Reservation → Bool
ends_before a b = leb a.end_time b.end_time

-- `_fetch_start_candidates` and `_fetch_end_candidates`
unfoldable pub start_candidates : Options → ℕ → Tables → List Reservation
unfolding can_start
start_candidates o now t =
    take o.max_batch (sort_by starts_before (keep (can_start o now t.log) t.reservations))

unfoldable pub end_candidates : Options → ℕ → Tables → List Reservation
unfolding can_end
end_candidates o now t =
    take o.max_batch (sort_by ends_before (keep (can_end o now t.log) t.reservations))
