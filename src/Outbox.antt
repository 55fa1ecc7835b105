-- ===== src/Outbox.antt =====
-- The session-observation outbox of ops-worker/worker.py: the table
-- `gateway_session_observation_outbox`, its states, and the delay between attempts.
-- Times are whole seconds since the epoch. The `up` arguments of the operations tell whether a
-- database transaction goes through; one that does not raises and changes nothing.
pub mod Backoff
pub mod Ingest
pub mod Claim
pub mod Deliver
mod Tests
use lab_gateway.Prelude.{ℕ, ◌-◌, ◌*◌, ◌^◌, Text, Option, Bool, true, false, List, min}
use lab_gateway.Prelude.Int.{ℤ}

-- `status`, a VARCHAR that only ever holds these
pub data Status : Type 0 where
  pending retry sending sent failed : Status

pub record Row : Type 0 where
  pub id : ℕ
  pub dedup_key : Text
  pub reservation_key : Text
  pub jwt_jti : Text
  pub session_id : Text
  pub gateway_id : Text
  pub access_type : Text
  pub observed_at : ℤ
  pub status : Status
  pub attempts : ℕ
  pub next_attempt_at : ℕ
  pub locked_at : Option ℕ
  pub delivered_at : Option ℕ
  pub last_error : Option Text
  pub updated_at : ℕ

-- the rows in order of insertion, and the next value of the auto-increment column
pub record Table : Type 0 where
  pub rows : List Row
  pub next_id : ℕ

-- `status IN ('PENDING', 'RETRY')`
unfoldable pub is_open : Status → Bool
is_open pending = true
is_open retry = true
is_open _ = false

unfoldable pub is_retry : Status → Bool
is_retry retry = true
is_retry _ = false

unfoldable pub is_sending : Status → Bool
is_sending sending = true
is_sending _ = false

unfoldable pub is_sent : Status → Bool
is_sent sent = true
is_sent _ = false

unfoldable pub is_failed : Status → Bool
is_failed failed = true
is_failed _ = false

abbrev pub row_id : Row → ℕ
row_id r = r.id

-- `session_observation_retry_delay_seconds`; `attempts` is never negative, so `max(0, …)` is `-`
unfoldable pub retry_delay_seconds : ℕ → ℕ
retry_delay_seconds attempts = min 300 (5 * 2 ^ min (attempts - 1) 6)
