-- ===== src/Outbox/Claim.antt =====
-- `_claim_session_observation_outbox_rows` of ops-worker/worker.py: rows that have been SENDING for
-- more than a minute are taken back, then the due rows are locked, at most one batch.
pub mod Laws
use lab_gateway.Prelude.{
  ℕ, ◌+◌, Option, none, some, Bool, false, ◌&&◌, ◌||◌, List, [], ◌∷◌, map, keep, take, count_if,
  ltb, leb, ◌==◌, if◌then◌else◌,
}
use lab_gateway.Prelude.Sort.{sort_by}
use lab_gateway.Prelude.Table.{update, nat_eq}
use lab_gateway.Outbox.{Row, Table, row_id, retry, sending, is_open, is_sending}

-- `locked_at < :cutoff`, where the cutoff is `now - 60`; NULL is not below it
abbrev lock_expired : ℕ → Option ℕ → Bool
lock_expired now none = false
lock_expired now (some t) = ltb (t + 60) now

unfoldable pub take_back : ℕ → Row → Row
unfolding is_sending
take_back now r =
    if is_sending r.status && lock_expired now r.locked_at
    then record r { status = retry; next_attempt_at = now; locked_at = none; updated_at = now }
    else r

unfoldable pub is_due : ℕ → Row → Bool
unfolding is_open
is_due now r = is_open r.status && leb r.next_attempt_at now

-- ORDER BY next_attempt_at, id
abbrev earlier : Row → Row → Bool
earlier a b =
    ltb a.next_attempt_at b.next_attempt_at
    || (a.next_attempt_at == b.next_attempt_at && leb a.id b.id)

unfoldable pub due_rows : ℕ → ℕ → List Row → List Row
unfolding is_due
due_rows limit now rows = take limit (sort_by earlier (keep (is_due now) rows))

unfoldable pub lock : ℕ → Row → Row
unfolding is_open
lock now r =
    if is_open r.status
    then record r { status = sending; locked_at = some now; updated_at = now }
    else r

-- `WHERE id = :id AND status IN ('PENDING', 'RETRY')`, as the row count of the UPDATE counts it
unfoldable pub lockable : ℕ → List Row → ℕ
unfolding is_open
lockable id = count_if (λ r. r.id == id && is_open r.status)

-- the loop over the selected rows: what it claims, and the rows that it leaves
unfoldable pub lock_rows : ℕ → List Row → List Row → List Row × List Row
unfolding lock lockable
lock_rows now [] rows = ([], rows)
lock_rows now (r ∷ rs) rows =
    let (claimed, left) = lock_rows now rs (update row_id r.id (lock now) rows) in
    ((if lockable r.id rows == 1 then r ∷ claimed else claimed), left)

-- `up` tells whether the one transaction of the claim goes through
unfoldable pub claim_rows : Bool → Bool → ℕ → ℕ → Table → List Row × Table
unfolding take_back due_rows lock_rows
claim_rows db_engine up limit now t =
    let rows = map (take_back now) t.rows in
    let (claimed, left) = lock_rows now (due_rows limit now rows) rows in
    if db_engine && up then (claimed, record t { rows = left }) else ([], t)
