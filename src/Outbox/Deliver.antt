-- ===== src/Outbox/Deliver.antt =====
-- `_mark_session_observation_delivered`, `_mark_session_observation_failure` and
-- `deliver_session_observation_outbox` of ops-worker/worker.py. What the loop meets at a record
-- (clock, credentials, the answer of the audit service, the database) is a `Weather`.
pub mod Laws
use lab_gateway.Prelude.{
  ℕ, suc, ◌+◌, Text, codes, nonempty, Option, none, some, Bool, true, false, not, ◌&&◌, ◌||◌, List,
  [], ◌∷◌, ◌++◌, take, leb, ltb, if◌then◌else◌,
}
use lab_gateway.Prelude.Value.{show_ℕ}
use lab_gateway.Prelude.Table.{update, nat_eq}
use lab_gateway.Outbox.{
  Row, Table, row_id, Status, retry, sent, failed, is_sending, retry_delay_seconds,
}
use lab_gateway.Outbox.Claim.{claim_rows}

pub record Config : Type 0 where
  pub outbox_enabled : Bool
  pub access_audit_url : Text
  pub gateway_id : Text
  pub signing_secret : Text
  pub batch_size : ℕ
  pub max_attempts : ℕ

-- an answer: its status, `body.get("recorded") is True`, and the `repr` of that entry
pub record Reply : Type 0 where
  pub status_code : ℕ
  pub recorded : Bool
  pub shown : Text

pub record Weather : Type 0 where
  -- the clock when the row is marked
  pub clock : ℕ
  -- `_session_observer_authorization()` returns
  pub authorized : Bool
  -- `none`: the request or the reading of its body raises
  pub reply : Option Reply
  -- the transaction of the first mark goes through, and that of the one in the handler
  pub mark_up : Bool
  pub recover_up : Bool

unfoldable pub mark_delivered : ℕ → ℕ → List Row → List Row
unfolding is_sending
mark_delivered id now = update row_id id λ r.
    if is_sending r.status
    then record r {
      status = sent;
      delivered_at = some now;
      locked_at = none;
      last_error = none;
      updated_at = now;
    }
    else r

unfoldable pub failure_status : ℕ → ℕ → Status
failure_status max_attempts attempts = if leb max_attempts attempts then failed else retry

unfoldable pub mark_failure : ℕ → Row → Text → ℕ → List Row → List Row
unfolding is_sending failure_status
mark_failure max_attempts seen error now =
    let attempts = seen.attempts + 1 in
    update row_id seen.id λ r.
      if is_sending r.status
      then record r {
        status = failure_status max_attempts attempts;
        attempts = attempts;
        next_attempt_at = now + retry_delay_seconds attempts;
        locked_at = none;
        last_error = some (take 1024 error);
        updated_at = now;
      }
      else r

unfoldable pub accepted : Reply → Bool
accepted r = leb 200 r.status_code && ltb r.status_code 300 && r.recorded

abbrev refusal : Reply → Text
refusal r =
    codes "audit endpoint status=" ++ (show_ℕ r.status_code ++ (codes " recorded=" ++ r.shown))

-- one round of the loop: whether the record was delivered, `none` when an exception escapes
module _ (max_attempts : ℕ) (w : Weather) (r : Row) (rows : List Row) where
  -- the `except` branch
  unfoldable pub recover : Option Bool × List Row
  recover =
      if w.recover_up
      then (some false, mark_failure max_attempts r (codes "Audit delivery failed") w.clock rows)
      else (none, rows)

  unfoldable pub post : Option Bool × List Row
  unfolding recover accepted
  post = elim w.reply [
    | none ↦ recover
    | some reply ↦
        if not w.mark_up
        then recover
        else if accepted reply
        then (some true, mark_delivered r.id w.clock rows)
        else (some false, mark_failure max_attempts r (refusal reply) w.clock rows)
  ]

  unfoldable pub attempt : Option Bool × List Row
  unfolding post
  attempt =
      if w.authorized
      then post
      else if w.mark_up
      then (
        some false,
        mark_failure max_attempts r (codes "Observer authorization failed") w.clock rows,
      )
      else (none, rows)

abbrev as_count : Bool → ℕ → ℕ
as_count true n = suc n
as_count false n = n

module _ (max_attempts : ℕ) (weather : Row → Weather) where
  unfoldable pub deliver_rows : List Row → ℕ → List Row → Option ℕ × List Row
  deliver_rows [] delivered rows = (some delivered, rows)
  deliver_rows (r ∷ rs) delivered rows =
      let (result, rows') = attempt max_attempts (weather r) r rows in
      elim result [ none ↦ (none, rows') | some d ↦ deliver_rows rs (as_count d delivered) rows' ]

unfoldable pub deliver_session_observation_outbox :
    Config → Bool → Bool → ℕ → (Row → Weather) → Table → Option ℕ × Table
unfolding claim_rows deliver_rows
deliver_session_observation_outbox c db_engine claim_up now weather t =
    if not c.outbox_enabled || not db_engine
    then (some 0, t)
    else if not (nonempty c.access_audit_url)
    then (some 0, t)
    else if not (nonempty c.gateway_id) || not (nonempty c.signing_secret)
    then (some 0, t)
    else let (claimed, t') = claim_rows db_engine claim_up c.batch_size now t in
      let (n, rows) = deliver_rows c.max_attempts weather claimed 0 t'.rows in
      (n, record t' { rows = rows })
