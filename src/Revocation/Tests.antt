-- ===== src/Revocation/Tests.antt =====
-- The revocation queue on concrete rows.
use lab_gateway.Prelude.{
  ℕ, ◌≤◌, arith, length, keep, ◌≡◌, refl, Text, codes, Option, none, some, true, false, List, [],
  ◌∷◌,
}
use lab_gateway.Prelude.Int.{pos}
use lab_gateway.Prelude.Table.{find, Distinct, text_key}
use lab_gateway.Prelude.Value.{text, int}
use lab_gateway.Revocation.{
  Row, row_hash, Status, pending, revoked, Payload, Weather, is_due, is_revoked,
}
use lab_gateway.Revocation.Observe.{Scene, Queues, is_given, reconcile_guacamole_observations}
use lab_gateway.Revocation.Round.{process_guacamole_token_revocations}
use lab_gateway.Revocation.Observed.{HasKept}
use lab_gateway.Revocation.Reported.{Rests, reconcile-Rests}
use lab_gateway.Revocation.Expiry.{undue_untouched}
use lab_gateway.Revocation.Progress.{IsRevoked, due-IsRevoked}

abbrev row : Text → ℕ → Status → Row
row hash expires status = record {
  token_hash = hash;
  token_ciphertext = codes "c";
  token_validated_at = none;
  username = codes "u";
  reservation_key = codes "r";
  jwt_jti = codes "j";
  gateway_id = codes "g";
  expires_at = pos expires;
  status = status;
  attempts = 0;
  next_attempt_at = 0;
  last_error = none;
  revoked_at = none;
  created_at = 0;
  observed_at = none;
  updated_at = 0;
}

abbrev rows : List Row
rows = row (codes "a") 50 pending ∷ row (codes "b") 500 pending ∷ row (codes "c") 40 revoked ∷ []

rows-Distinct : Distinct row_hash rows
unfolding find lab_gateway.Prelude.text_eq
rows-Distinct = (refl, (refl, (refl, tt)))

a_found : find row_hash (codes "a") rows ≡ some (row (codes "a") 50 pending)
unfolding find lab_gateway.Prelude.text_eq
a_found = refl

b_found : find row_hash (codes "b") rows ≡ some (row (codes "b") 500 pending)
unfolding find lab_gateway.Prelude.text_eq
b_found = refl

b_undue : is_due 100 (row (codes "b") 500 pending) ≡ false
unfolding is_due
b_undue = refl

abbrev weather : Row → Weather
weather _ = record {
  clock = 101;
  decrypted = true;
  answer = some 204;
  mark_up = true;
  recover_up = true;
}

-- the user `u` is active, and the user's token is accepted
abbrev scene : Scene
scene = record {
  active_users = some (codes "u" ∷ []);
  fetch_up = true;
  evidence_cutoff = pos 45;
  lookback = 30;
  looks = λ _. record {
    clock = 100;
    history = none;
    token_answer = some 200;
    insert_up = true;
    update_up = true;
    mark_up = true;
  };
}

abbrev queues : Queues
queues = record { rows = rows; outbox = record { rows = []; next_id = 1 } }

undue_untouched_example :
    HasKept
      (codes "b")
      (row (codes "b") 500 pending)
      (process_guacamole_token_revocations 20 weather scene true true true 100 queues).1.rows
undue_untouched_example =
    undue_untouched (codes "b") 20 weather scene true true true 100 queues
      (row (codes "b") 500 pending) rows-Distinct b_found b_undue

a_new : is_given (row (codes "a") 50 pending).observed_at ≡ false
a_new = refl

reconcile-Rests_example :
    Rests scene
      (codes "a")
      (row (codes "a") 50 pending)
      (reconcile_guacamole_observations scene queues)
reconcile-Rests_example =
    reconcile-Rests scene (codes "a") (row (codes "a") 50 pending) queues rows-Distinct a_found
      a_new

-- `c` expired before the cutoff; the other two sessions are reported and marked
sessions_reported : length (reconcile_guacamole_observations scene queues).outbox.rows ≡ 2
unfolding reconcile_guacamole_observations lab_gateway.Prelude.Sort.sort_by
    lab_gateway.Outbox.Ingest.enqueue_session_observation find
sessions_reported = refl

-- the token `c` is reported again
abbrev report : Payload
report = record {
  auth_token = text (codes "c");
  username = text (codes "U");
  reservation_key = text (codes "r");
  jwt_jti = text (codes "j");
  gateway_id = text (codes "g");
  expires_at = int (pos 40);
}

abbrev hash : Text → Text
hash t = t

abbrev encrypt : Text → Option Text
encrypt t = some t

c_found : find row_hash (codes "c") rows ≡ some (row (codes "c") 40 revoked)
unfolding find lab_gateway.Prelude.text_eq
c_found = refl

c_revoked : is_revoked (row (codes "c") 40 revoked).status ≡ true
unfolding is_revoked
c_revoked = refl

a_due : is_due 100 (row (codes "a") 50 pending) ≡ true
unfolding is_due
a_due = refl

few_due : length (keep (is_due 100) rows) ≤ 100
unfolding is_due
few_due = omega arith

due-IsRevoked_example :
    IsRevoked
      (codes "a")
      (process_guacamole_token_revocations 20 weather scene true true true 100 queues).1.rows
due-IsRevoked_example =
    due-IsRevoked (codes "a") 20 weather (λ x. refl) (λ x e. refl) scene 100 queues
      (row (codes "a") 50 pending) a_found a_due few_due
