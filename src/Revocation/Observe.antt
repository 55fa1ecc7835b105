-- ===== src/Revocation/Observe.antt =====
-- Sessions that Guacamole shows, in ops-worker/worker.py: `_guacamole_connection_history_observed`
-- and `_reconcile_guacamole_observations`, which reports them to the outbox and stamps `observed_at`
-- in the queue. Its exceptions are caught by its caller, so that it only ends early.
use lab_gateway.Prelude.{
  ℕ, ◌+◌, Text, codes, strip, lower, nonempty, text_eq, Option, none, some, Bool, true, false, not,
  ◌&&◌, ◌||◌, List, [], ◌∷◌, ◌++◌, any_of, keep, take, leb, leb_ℤ, ltb_ℤ, ◌==◌, if◌then◌else◌,
}
use lab_gateway.Prelude.Int.{ℤ, pos}
use lab_gateway.Prelude.Sort.{sort_by}
use lab_gateway.Prelude.Table.{update, text_key}
use lab_gateway.Prelude.Value.{text, int}
use lab_gateway.Outbox.{Table}
use lab_gateway.Outbox.Ingest.{Payload, enqueue_session_observation}
use lab_gateway.Revocation.{Row, row_hash, is_open, is_revoked}

-- a row of guacamole_connection_history
pub record Connection : Type 0 where
  pub username : Text
  pub start_date : ℕ
  pub end_date : Option ℕ

abbrev or_else : Option ℕ → ℕ → ℕ
or_else none n = n
or_else (some m) n = m

abbrev pub is_given : Option ℕ → Bool
is_given none = false
is_given (some n) = true

-- NULL, or at or after the start of the window
abbrev ends_within : ℕ → ℕ → Option ℕ → Bool
ends_within issued lookback none = true
ends_within issued lookback (some t) = leb issued (t + lookback)

abbrev first_start : List Connection → Option ℕ
first_start [] = none
first_start (c ∷ cs) = some c.start_date

abbrev starts_before : Connection → Connection → Bool
starts_before a b = leb a.start_date b.start_date

-- the WHERE of the history query; the window starts `lookback` before the token was issued
unfoldable pub is_connection_of : ℕ → Row → Connection → Bool
unfolding lower strip text_eq
is_connection_of lookback r c =
    let issued = or_else r.token_validated_at r.created_at in
    text_eq (lower c.username) (lower (strip r.username))
    && leb issued (c.start_date + lookback)
    && leb_ℤ (pos c.start_date) r.expires_at
    && ends_within issued lookback c.end_date

-- `_guacamole_connection_history_observed`; a history of `none` is a missing engine or an exception
unfoldable pub guacamole_connection_history_observed : ℕ → Option (List Connection) → Row → Option ℕ
unfolding is_connection_of lower strip
guacamole_connection_history_observed lookback none r = none
guacamole_connection_history_observed lookback (some connections) r =
    if nonempty (lower (strip r.username))
    then first_start (sort_by starts_before (keep (is_connection_of lookback r) connections))
    else none

-- what the reconciliation meets at a row
pub record Look : Type 0 where
  pub clock : ℕ
  pub history : Option (List Connection)
  -- the status of the answer for the user's token, `none` where decrypting or asking raises
  pub token_answer : Option ℕ
  -- the transactions of the outbox and of the mark go through
  pub insert_up : Bool
  pub update_up : Bool
  pub mark_up : Bool

-- what it meets before its loop
pub record Scene : Type 0 where
  -- the names of the active users in small letters, `none` where they are not answered
  pub active_users : Option (List Text)
  pub fetch_up : Bool
  -- the retention, counted back from now
  pub evidence_cutoff : ℤ
  pub lookback : ℕ
  pub looks : Row → Look

-- the two tables that a round writes
pub record Queues : Type 0 where
  pub rows : List Row
  pub outbox : Table

unfoldable pub is_unobserved : ℤ → Row → Bool
unfolding is_open is_revoked
is_unobserved cutoff r =
    (is_open r.status || is_revoked r.status)
    && not (is_given r.observed_at)
    && ltb_ℤ cutoff r.expires_at

abbrev pub created_before : Row → Row → Bool
created_before a b = leb a.created_at b.created_at

unfoldable pub unobserved_rows : ℤ → List Row → List Row
unfolding is_unobserved
unobserved_rows cutoff rows = take 100 (sort_by created_before (keep (is_unobserved cutoff) rows))

abbrev pub is_answered : Option ℕ → Bool
is_answered none = false
is_answered (some code) = code == 200

-- the connection was seen, and either the token is still accepted or, after its revocation, the
-- history and the mark of its validation stand for that
unfoldable pub is_proved : List Text → Option ℕ → Option ℕ → Row → Bool
unfolding is_revoked lower text_eq
is_proved active_users started token_answer r =
    (any_of (λ u. text_eq u (lower r.username)) active_users || is_given started)
    && (is_revoked r.status && is_given started && is_given r.token_validated_at
        || is_answered token_answer)

unfoldable pub observation : Option ℕ → ℕ → Row → Payload
observation started now r = record {
  dedup_key = text r.token_hash;
  reservation_key = text r.reservation_key;
  jwt_jti = text r.jwt_jti;
  session_id = text (codes "guac:" ++ r.token_hash);
  gateway_id = text r.gateway_id;
  access_type = text (codes "guacamole");
  observed_at = int (pos (or_else started now));
}

-- the UPDATE of the mark, with its `observed_at IS NULL`
unfoldable pub mark_observed : ℕ → Row → Row
mark_observed now r =
    if is_given r.observed_at then r else record r { observed_at = some now; updated_at = now }

-- whether the loop goes on after the answer of the outbox
unfoldable pub settle_observed : Look → Row → List Row → Bool × Table → Bool × Queues
unfolding mark_observed
settle_observed w r rows (false, outbox) = (true, record { rows = rows; outbox = outbox })
settle_observed w r rows (true, outbox) =
    if w.mark_up
    then (
      true,
      record { rows = update row_hash r.token_hash (mark_observed w.clock) rows; outbox = outbox },
    )
    else (false, record { rows = rows; outbox = outbox })

module _ (s : Scene) (active_users : List Text) where
  abbrev pub started_at : Row → Option ℕ
  started_at r = guacamole_connection_history_observed s.lookback (s.looks r).history r

  unfoldable pub observe : Row → Queues → Bool × Queues
  unfolding settle_observed is_proved observation guacamole_connection_history_observed
  observe r q =
      let w = s.looks r in
      if is_proved active_users (started_at r) w.token_answer r
      then settle_observed w r q.rows (
          enqueue_session_observation (observation (started_at r) w.clock r) w.clock w.insert_up
            w.update_up true q.outbox)
      else (true, q)

  abbrev pub observe_next : (Queues → Queues) → Bool × Queues → Queues
  observe_next next (false, q) = q
  observe_next next (true, q) = next q

  unfoldable pub observe_rows : List Row → Queues → Queues
  unfolding observe
  observe_rows [] q = q
  observe_rows (r ∷ rs) q = observe_next (observe_rows rs) (observe r q)

abbrev pub observe_active : Scene → Queues → Option (List Text) → Queues
observe_active s q none = q
observe_active s q (some active_users) =
    if s.fetch_up
    then observe_rows s active_users (unobserved_rows s.evidence_cutoff q.rows) q
    else q

-- `_reconcile_guacamole_observations`, under the handler of its caller
unfoldable pub reconcile_guacamole_observations : Scene → Queues → Queues
unfolding observe_rows unobserved_rows
reconcile_guacamole_observations s q = observe_active s q s.active_users
