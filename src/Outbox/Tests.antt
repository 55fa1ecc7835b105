-- ===== src/Outbox/Tests.antt =====
-- The outbox on concrete tables.
use lab_gateway.Prelude.{
  ℕ, zero, suc, ◌+◌, ◌≤◌, ◌≡◌, refl, Text, codes, none, some, Bool, true, false, [], ◌∷◌, All,
  arith,
}
use lab_gateway.Prelude.Int.{pos}
use lab_gateway.Prelude.Table.{find, Distinct, nat_eq, text_key}
use lab_gateway.Prelude.Value.{text, int}
use lab_gateway.Outbox.{Row, Table, Status, pending, retry, failed, row_id, retry_delay_seconds}
use lab_gateway.Outbox.Ingest.{Payload, enqueue_session_observation}
use lab_gateway.Outbox.Ingest.Laws.{IsValid, row_key, payload_key, Again, enqueue-Again}
use lab_gateway.Outbox.Claim.{claim_rows}
use lab_gateway.Outbox.Claim.Laws.{ClaimIsSound, InState, claim_rows_sound}
use lab_gateway.Outbox.Deliver.{Config, Weather, deliver_session_observation_outbox}
use lab_gateway.Outbox.Deliver.Laws.{sent_rows, settled, served, deliver_accounts}

abbrev row : ℕ → Text → Status → ℕ → ℕ → Row
row id key status attempts due = record {
  id = id;
  dedup_key = key;
  reservation_key = codes "r";
  jwt_jti = codes "j";
  session_id = codes "s";
  gateway_id = codes "g";
  access_type = codes "fmu";
  observed_at = pos 1;
  status = status;
  attempts = attempts;
  next_attempt_at = due;
  locked_at = none;
  delivered_at = none;
  last_error = none;
  updated_at = 0;
}

abbrev two_rows : Table
two_rows = record {
  rows =
      row 1 (codes "a") pending 0 5
      ∷ row 2 (codes "b") retry 4 3
      ∷ row 3 (codes "c") failed 5 0
      ∷ [];
  next_id = 4;
}

abbrev report : Payload
report = record {
  dedup_key = text (codes " c ");
  reservation_key = text (codes "r");
  jwt_jti = text (codes "j");
  session_id = text (codes "s");
  gateway_id = text (codes "g");
  access_type = text (codes "FMU");
  observed_at = int (pos 17);
}

two_rows-Distinct : Distinct row_id two_rows.rows
unfolding find
two_rows-Distinct = (refl, (refl, (refl, tt)))

two_rows-IsValid : IsValid two_rows
unfolding find lab_gateway.Prelude.text_eq
two_rows-IsValid = record {
  ids = (refl, (refl, (refl, tt)));
  keys = (refl, (refl, (refl, tt)));
  below = (omega arith, (omega arith, (omega arith, tt)));
}

report_known : find row_key (payload_key report) two_rows.rows ≡ some (row 3 (codes "c") failed 5 0)
unfolding find lab_gateway.Prelude.text_eq lab_gateway.Outbox.Ingest.column
report_known = refl

enqueue-Again_example :
    Again
      (row 3 (codes "c") failed 5 0)
      (payload_key report)
      two_rows
      (enqueue_session_observation report 9 true true true two_rows)
enqueue-Again_example =
    enqueue-Again report 9 true true true (row 3 (codes "c") failed 5 0) two_rows report_known

claim_rows_sound_example :
    ClaimIsSound 2 9
      (claim_rows true true 2 9 two_rows).0
      (claim_rows true true 2 9 two_rows).1.rows
claim_rows_sound_example = claim_rows_sound true true 2 9 two_rows two_rows-Distinct

abbrev config : Config
config = record {
  outbox_enabled = true;
  access_audit_url = codes "https://audit";
  gateway_id = codes "g";
  signing_secret = codes "s";
  batch_size = 10;
  max_attempts = 5;
}

-- the first row is accepted, the second one is not
abbrev weather : Row → Weather
weather r = record {
  clock = 20;
  authorized = true;
  reply = some (record {
    status_code = 200;
    recorded = elim r.attempts [ zero ↦ true | suc _ ↦ false ];
    shown = codes "False";
  });
  mark_up = true;
  recover_up = true;
}

one_delivered : (deliver_session_observation_outbox config true true 9 weather two_rows).0 ≡ some 1
unfolding deliver_session_observation_outbox lab_gateway.Prelude.Sort.sort_by
    lab_gateway.Outbox.Deliver.attempt lab_gateway.Prelude.Table.update
one_delivered = refl

deliver_accounts_example :
    let rows = (deliver_session_observation_outbox config true true 9 weather two_rows).1.rows in
    (sent_rows rows ≡ sent_rows two_rows.rows + 1)
    × All
        (λ (r : Row). (d : Bool) × InState (settled config.max_attempts r d) r.id rows)
        (served config true true 9 two_rows)
deliver_accounts_example =
    deliver_accounts config true true 9 1 weather two_rows two_rows-Distinct one_delivered
