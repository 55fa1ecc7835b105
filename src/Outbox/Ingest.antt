-- ===== src/Outbox/Ingest.antt =====
-- `enqueue_session_observation` of ops-worker/worker.py. A key that is there already makes the
-- INSERT raise IntegrityError; any other failure of a transaction is an `up` that is false.
pub mod Laws
pub mod Accepted
use lab_gateway.Prelude.{
  ℕ, suc, ◌+◌, Text, Option, none, some, Bool, true, false, not, ◌&&◌, List, [], ◌∷◌, ◌++◌,
  nonempty, any_of, lower, strip, ltb_ℤ, if◌then◌else◌, pos, negsuc, ◌||◌,
}
use lab_gateway.Prelude.Int.{ℤ}
use lab_gateway.Prelude.Value.{Value, str_of, clean, int_of}
use lab_gateway.Prelude.Table.{find, update, text_key}
use lab_gateway.Outbox.{Row, Table, pending, retry, is_failed, is_retry}

-- the fields that the code reads from the payload, `null` where a field is missing
pub record Payload : Type 0 where
  pub dedup_key : Value
  pub reservation_key : Value
  pub jwt_jti : Value
  pub session_id : Value
  pub gateway_id : Value
  pub access_type : Value
  pub observed_at : Value

abbrev required_fields : Payload → List Value
required_fields p =
    p.dedup_key ∷ p.reservation_key ∷ p.jwt_jti ∷ p.session_id ∷ p.gateway_id ∷ p.access_type
    ∷ p.observed_at ∷ []

unfoldable pub is_incomplete : Payload → Bool
unfolding clean
is_incomplete p = any_of (λ v. not (nonempty (clean v))) (required_fields p)

-- `datetime.fromtimestamp` takes the years 1 to 9999
unfoldable pub from_timestamp : ℤ → Option ℤ
from_timestamp n =
    if ltb_ℤ n (negsuc 62135596799) || ltb_ℤ (pos 253402300799) n then none else some n

unfoldable pub observed_time : Value → Option ℤ
unfolding int_of from_timestamp
observed_time v = elim (int_of v) [ none ↦ none | some n ↦ from_timestamp n ]

-- `str(payload[…]).strip()`
unfoldable pub column : Value → Text
unfolding str_of strip
column v = strip (str_of v)

pub new_row : Payload → ℤ → ℕ → ℕ → Row
unfolding column lower
new_row p observed now id = record {
  id = id;
  dedup_key = column p.dedup_key;
  reservation_key = column p.reservation_key;
  jwt_jti = column p.jwt_jti;
  session_id = column p.session_id;
  gateway_id = column p.gateway_id;
  access_type = lower (column p.access_type);
  observed_at = observed;
  status = pending;
  attempts = 0;
  next_attempt_at = now;
  locked_at = none;
  delivered_at = none;
  last_error = none;
  updated_at = now;
}

-- the SET list of the UPDATE that follows an IntegrityError
unfoldable pub reopen : ℕ → Row → Row
unfolding is_failed is_retry
reopen now r = record r {
  attempts = if is_failed r.status then 0 else r.attempts;
  next_attempt_at = if is_failed r.status || is_retry r.status then now else r.next_attempt_at;
  locked_at = if is_failed r.status then none else r.locked_at;
  last_error = if is_failed r.status then none else r.last_error;
  status = if is_failed r.status then retry else r.status;
  updated_at = now;
}

module _ (p : Payload) (now : ℕ) (insert_up update_up : Bool) where
  unfoldable pub store : ℤ → Table → Bool × Table
  unfolding new_row reopen column
  store observed t = elim (find (λ r. r.dedup_key) (column p.dedup_key) t.rows) [
    | none ↦
        if insert_up
        then (
          true,
          record {
            rows = t.rows ++ new_row p observed now t.next_id ∷ [];
            next_id = suc t.next_id;
          },
        )
        else (false, t)
    | some _ ↦
        if insert_up && update_up
        then (
          true,
          record t { rows = update (λ r. r.dedup_key) (column p.dedup_key) (reopen now) t.rows },
        )
        else (false, t)
  ]

  unfoldable pub enqueue_session_observation : Bool → Table → Bool × Table
  unfolding store is_incomplete observed_time
  enqueue_session_observation db_engine t =
      if not db_engine || is_incomplete p
      then (false, t)
      else elim (observed_time p.observed_at) [ none ↦ (false, t) | some n ↦ store n t ]
