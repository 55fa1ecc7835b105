-- ===== src/Operations/Tests.antt =====
-- A failed wake whose alert is in its cooldown, and mails that are turned down.
use lab_gateway.Prelude.{
  ℕ, ◌≡◌, refl, Text, codes, none, Bool, true, false, [], ◌∷◌, any_of, ◌==◌, if◌then◌else◌,
}
use lab_gateway.Prelude.Value.{null}
use lab_gateway.Operations.{
  Op, Settings, Moment, Log, raised, answered, recent_alert, counts_as_failure,
  record_reservation_operation, post_mail,
}
use lab_gateway.Operations.Alerts.{alerts, is_alert, cooldown_holds}
use lab_gateway.Operations.Posting.{Outcome, post_mail_outcome}

abbrev pub settings : Settings
settings = record {
  db_engine = true;
  notifications_enabled = true;
  notification_url = codes "http://mail";
  retry_attempts = 2;
  retry_backoff = 3;
  alert_threshold = 1;
  alert_window = 300;
  alert_cooldown = 900;
}

-- the second attempt is accepted
abbrev pub moment : Moment
moment = record {
  clock = 1000;
  check_clock = 1000;
  alert_clock = 1001;
  insert_up = true;
  query_up = true;
  alert_up = true;
  answers = λ k. if k == 2 then answered 200 true else raised;
}

abbrev operation : Text → Bool → ℕ → Op
operation action success time = record {
  reservation_id = codes "r";
  lab_id = null;
  host = codes "pc1";
  action = action;
  success = success;
  response_code = none;
  message = none;
  created_at = time;
}

abbrev log : Log
log = operation (codes "alert") true 500 ∷ []

still_cooling :
    any_of (recent_alert (codes "pc1") settings.alert_cooldown moment.check_clock) log ≡ true
unfolding recent_alert lab_gateway.Prelude.text_eq
still_cooling = refl

wake_plain : is_alert (operation (codes "wake") false 0) ≡ false
unfolding lab_gateway.Prelude.text_eq
wake_plain = refl

cooldown_holds_example :
    alerts (record_reservation_operation settings moment (operation (codes "wake") false 0) log)
    ≡ alerts log
cooldown_holds_example =
    cooldown_holds settings moment (operation (codes "wake") false 0) log wake_plain still_cooling

mail_plain : is_alert (operation (codes "notification") false 0) ≡ false
unfolding lab_gateway.Prelude.text_eq
mail_plain = refl

mail_fine : counts_as_failure (operation (codes "notification") false 0) ≡ false
unfolding counts_as_failure lab_gateway.Prelude.text_eq
mail_fine = refl

post_mail_outcome_example : Outcome 2 3 moment.answers (post_mail 2 3 moment.answers)
post_mail_outcome_example = post_mail_outcome 2 3 moment.answers
