-- ===== src/Revocation/Round.antt =====
-- `process_guacamole_token_revocations` of ops-worker/worker.py: a round of reconciliation and then
-- of revocation.
use lab_gateway.Prelude.{ℕ, Option, none, some, Bool, not, ◌||◌, List, if◌then◌else◌}
use lab_gateway.Revocation.{Row, Weather, due_rows, revoke_rows}
use lab_gateway.Revocation.Observe.{Scene, Queues, reconcile_guacamole_observations}

abbrev pub with_outbox_of : Queues → Option ℕ × List Row → Option ℕ × Queues
with_outbox_of q (n, rows) = (n, record q { rows = rows })

-- the part after the reconciliation; `fetch_up` tells whether the query goes through
abbrev pub revoke_due : ℕ → (Row → Weather) → Bool → ℕ → Queues → Option ℕ × Queues
revoke_due max_attempts weather fetch_up now q =
    if fetch_up
    then with_outbox_of q (revoke_rows max_attempts weather (due_rows now q.rows) 0 q.rows)
    else (none, q)

-- `process_guacamole_token_revocations`
unfoldable pub process_guacamole_token_revocations :
    ℕ → (Row → Weather) → Scene → Bool → Bool → Bool → ℕ → Queues → Option ℕ × Queues
unfolding due_rows revoke_rows reconcile_guacamole_observations
process_guacamole_token_revocations max_attempts weather scene db_engine admin_session fetch_up now
      q =
    if not db_engine || not admin_session
    then (some 0, q)
    else revoke_due max_attempts weather fetch_up now (reconcile_guacamole_observations scene q)
