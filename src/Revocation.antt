-- ===== src/Revocation.antt =====
-- The queue of Guacamole tokens to revoke in ops-worker/worker.py: the table
-- `guacamole_token_revocation_queue`, `enqueue_guacamole_token_revocation` and the loop of
-- `process_guacamole_token_revocations`. Times are seconds. Encryption and hashing are arguments;
-- the round as a whole is in Round, with the reconciliation of Observe that opens it.
pub mod Observe
pub mod Round
mod Observed
pub mod Evidence
pub mod Reported
pub mod Expiry
pub mod Queue
pub mod Progress
mod Tests
use lab_gateway.Prelude.{
  ℕ, suc, ◌+◌, Text, codes, nonempty, lower, Option, none, some, Bool, true, false, not, ◌&&◌, ◌||◌,
  List, [], ◌∷◌, ◌++◌, any_of, keep, take, length, leb, ltb, leb_ℤ, ◌==◌, if◌then◌else◌,
}
use lab_gateway.Prelude.Int.{ℤ, pos}
use lab_gateway.Prelude.Sort.{sort_by}
use lab_gateway.Prelude.Table.{find, update, text_key}
use lab_gateway.Prelude.Value.{Value, clean}
use lab_gateway.Outbox.{retry_delay_seconds}
use lab_gateway.Outbox.Ingest.{observed_time, column}

pub data Status : Type 0 where
  pending retry revoked failed : Status

pub record Row : Type 0 where
  pub token_hash : Text
  pub token_ciphertext : Text
  pub token_validated_at : Option ℕ
  pub username : Text
  pub reservation_key : Text
  pub jwt_jti : Text
  pub gateway_id : Text
  pub expires_at : ℤ
  pub status : Status
  pub attempts : ℕ
  pub next_attempt_at : ℕ
  pub last_error : Option Text
  pub revoked_at : Option ℕ
  pub created_at : ℕ
  pub observed_at : Option ℕ
  pub updated_at : ℕ

abbrev pub row_hash : Row → Text
row_hash r = r.token_hash

unfoldable pub is_open : Status → Bool
is_open pending = true
is_open retry = true
is_open _ = false

unfoldable pub is_failed : Status → Bool
is_failed failed = true
is_failed _ = false

unfoldable pub is_revoked : Status → Bool
is_revoked revoked = true
is_revoked _ = false

pub record Payload : Type 0 where
  pub auth_token : Value
  pub username : Value
  pub reservation_key : Value
  pub jwt_jti : Value
  pub gateway_id : Value
  pub expires_at : Value

unfoldable pub is_incomplete : Payload → Bool
unfolding clean
is_incomplete p =
    any_of (λ v. not (nonempty (clean v)))
      (p.auth_token ∷ p.username ∷ p.reservation_key ∷ p.jwt_jti ∷ p.gateway_id ∷ p.expires_at ∷ [])

-- `COALESCE(token_validated_at, CURRENT_TIMESTAMP)`
abbrev coalesce : Option ℕ → ℕ → ℕ
coalesce none now = now
coalesce (some t) now = t

module _ (hash : Text → Text) (p : Payload) (now : ℕ) where
  -- the row of the INSERT
  unfoldable pub new_row : ℤ → Text → Row
  unfolding column lower
  new_row expires ciphertext = record {
    token_hash = hash (column p.auth_token);
    token_ciphertext = ciphertext;
    token_validated_at = some now;
    username = lower (column p.username);
    reservation_key = column p.reservation_key;
    jwt_jti = column p.jwt_jti;
    gateway_id = column p.gateway_id;
    expires_at = expires;
    status = pending;
    attempts = 0;
    next_attempt_at = now;
    last_error = none;
    revoked_at = none;
    created_at = now;
    observed_at = none;
    updated_at = now;
  }

  -- the UPDATE after an IntegrityError: its WHERE leaves a revoked row alone
  unfoldable pub refresh : ℤ → Text → Row → Row
  unfolding column lower is_revoked is_failed
  refresh expires ciphertext r = if is_revoked r.status then r else record r {
    token_ciphertext = ciphertext;
    token_validated_at = some (coalesce r.token_validated_at now);
    username = lower (column p.username);
    reservation_key = column p.reservation_key;
    jwt_jti = column p.jwt_jti;
    gateway_id = column p.gateway_id;
    expires_at = expires;
    attempts = if is_failed r.status then 0 else r.attempts;
    next_attempt_at = if is_failed r.status then now else r.next_attempt_at;
    last_error = if is_failed r.status then none else r.last_error;
    status = if is_failed r.status then retry else r.status;
    updated_at = now;
  }

  -- the two transactions of the ingest
  unfoldable pub store : Bool → Bool → ℤ → Text → List Row → Bool × List Row
  unfolding new_row refresh
  store insert_up update_up expires ciphertext rows =
      elim (find row_hash (hash (column p.auth_token)) rows) [
        | none ↦
            if insert_up then (true, rows ++ new_row expires ciphertext ∷ []) else (false, rows)
        | some _ ↦
            if insert_up && update_up
            then (
              true,
              update row_hash (hash (column p.auth_token)) (refresh expires ciphertext) rows,
            )
            else (false, rows)
      ]

  -- `enqueue_guacamole_token_revocation`; an `encrypt` of `none` is a ValueError
  unfoldable pub enqueue_guacamole_token_revocation :
      (Text → Option Text) → Bool → Bool → Bool → List Row → Bool × List Row
  unfolding store is_incomplete observed_time column
  enqueue_guacamole_token_revocation encrypt db_engine insert_up update_up rows =
      if not db_engine || is_incomplete p || ltb 512 (length (column p.auth_token))
      then (false, rows)
      else elim (observed_time p.expires_at) [
        | none ↦ (false, rows)
        | some expires ↦ elim (encrypt (column p.auth_token)) [
          | none ↦ (false, rows)
          | some ciphertext ↦ store insert_up update_up expires ciphertext rows
        ]
      ]

-- what the loop meets at a row
pub record Weather : Type 0 where
  pub clock : ℕ
  -- the token is decrypted
  pub decrypted : Bool
  -- the status of the answer to the DELETE, `none` where the request raises
  pub answer : Option ℕ
  -- the transaction of the mark goes through, and that of the handler
  pub mark_up : Bool
  pub recover_up : Bool

unfoldable pub is_due : ℕ → Row → Bool
unfolding is_open
is_due now r = is_open r.status && leb_ℤ r.expires_at (pos now) && leb r.next_attempt_at now

-- ORDER BY expires_at
abbrev expires_before : Row → Row → Bool
expires_before a b = leb_ℤ a.expires_at b.expires_at

unfoldable pub due_rows : ℕ → List Row → List Row
unfolding is_due
due_rows now rows = take 100 (sort_by expires_before (keep (is_due now) rows))

-- 204 or 404
abbrev pub is_gone : Option ℕ → Bool
is_gone none = false
is_gone (some code) = code == 204 || code == 404

unfoldable pub mark_revoked : ℕ → ℕ → Row → Row
mark_revoked now attempts r = record r {
  status = revoked;
  attempts = attempts;
  revoked_at = some now;
  last_error = none;
  updated_at = now;
}

unfoldable pub mark_failed : ℕ → ℕ → ℕ → Row → Row
mark_failed max_attempts now attempts r = record r {
  status = if leb max_attempts attempts then failed else retry;
  attempts = attempts;
  next_attempt_at = now + retry_delay_seconds attempts;
  last_error = some (codes "Guacamole token revocation failed");
  updated_at = now;
}

-- one round of the loop: whether the token was revoked, `none` where the handler raises
unfoldable pub revoke : ℕ → Weather → Row → List Row → Option Bool × List Row
unfolding mark_revoked mark_failed
revoke max_attempts w r rows =
    if w.decrypted && is_gone w.answer && w.mark_up
    then (some true, update row_hash r.token_hash (mark_revoked w.clock (r.attempts + 1)) rows)
    else if w.recover_up
    then (
      some false,
      update row_hash r.token_hash (mark_failed max_attempts w.clock (r.attempts + 1)) rows,
    )
    else (none, rows)

-- the rest of the loop after one round: an exception ends it
abbrev pub go_on :
    (ℕ → List Row → Option ℕ × List Row) → ℕ → Option Bool × List Row → Option ℕ × List Row
go_on next n (none, rows) = (none, rows)
go_on next n (some d, rows) = next (if d then suc n else n) rows

module _ (max_attempts : ℕ) (weather : Row → Weather) where
  unfoldable pub revoke_rows : List Row → ℕ → List Row → Option ℕ × List Row
  unfolding revoke
  revoke_rows [] n rows = (some n, rows)
  revoke_rows (r ∷ rs) n rows = go_on (revoke_rows rs) n (revoke max_attempts (weather r) r rows)
