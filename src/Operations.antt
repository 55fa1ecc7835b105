-- ===== src/Operations.antt =====
-- The log of operations of ops-worker/worker.py, with the notifications and alerts about failures:
-- `record_reservation_operation`, `_should_send_failure_alert`, `_send_failure_alert`,
-- `_check_failure_alert` and `notify_critical_failure`. The JSON payload of a row, the texts of
-- the mails and the durations are left out; times are seconds.
pub mod Posting
pub mod Alerts
pub mod Tests
use lab_gateway.Prelude.{
  ℕ, zero, suc, ◌+◌, ◌*◌, Text, codes, nonempty, text_eq, Option, none, some, Bool, false, not,
  ◌&&◌, ◌||◌, List, [], ◌∷◌, ◌++◌, count_if, any_of, ltb, leb, if◌then◌else◌,
}
use lab_gateway.Prelude.Int.{ℤ, pos}
use lab_gateway.Prelude.Value.{Value}

-- a row of `reservation_operations`
pub record Op : Type 0 where
  pub reservation_id : Text
  pub lab_id : Value
  pub host : Text
  pub action : Text
  pub success : Bool
  pub response_code : Option ℤ
  pub message : Option Text
  pub created_at : ℕ

-- `status` is "completed" or "failed" as `success` says
abbrev pub op_status : Op → Text
op_status o = if o.success then codes "completed" else codes "failed"

pub record Settings : Type 0 where
  pub db_engine : Bool
  pub notifications_enabled : Bool
  pub notification_url : Text
  pub retry_attempts : ℕ
  pub retry_backoff : ℕ
  pub alert_threshold : ℕ
  pub alert_window : ℕ
  pub alert_cooldown : ℕ

-- the answer to one POST: an exception, or a status and `response.ok`
pub data Answer : Type 0 where
  raised : Answer
  answered : ℕ → Bool → Answer

pub record Posted : Type 0 where
  pub attempts : ℕ
  pub response : Option (ℕ × Bool)
  pub slept : ℕ

-- `response` after an attempt: an exception leaves the one of an earlier attempt
abbrev pub heard : Answer → Option (ℕ × Bool) → Option (ℕ × Bool)
heard raised old = old
heard (answered code ok) old = some (code, ok)

abbrev pub is_accepted : Answer → Bool
is_accepted raised = false
is_accepted (answered _ ok) = ok

-- the `while` loop of both mails, with at most `left` rounds; `left` is the retries plus one, which
-- is enough. `answers k` is the answer to the k-th attempt.
module _ (retries backoff : ℕ) (answers : ℕ → Answer) where
  unfoldable pub post_loop : ℕ → Posted → Posted
  post_loop zero p = p
  post_loop (suc left) p =
      let attempt = p.attempts + 1 in
      let response = heard (answers attempt) p.response in
      let again =
        post_loop left (record {
          attempts = attempt;
          response = response;
          slept = p.slept + backoff * attempt;
        }) in
      if is_accepted (answers attempt) || ltb retries attempt
      then record { attempts = attempt; response = response; slept = p.slept }
      else again

  unfoldable pub post_mail : Posted
  unfolding post_loop
  post_mail = post_loop (retries + 1) (record { attempts = 0; response = none; slept = 0 })

-- `response is not None and response.ok`
abbrev pub was_sent : Posted → Bool
was_sent p = elim p.response [ none ↦ false | some (_, ok) ↦ ok ]

abbrev pub status_of : Posted → Option ℤ
status_of p = elim p.response [ none ↦ none | some (code, _) ↦ some (pos code) ]

-- what a call meets: clocks, whether each transaction goes through, and the answers to a mail
pub record Moment : Type 0 where
  pub clock : ℕ
  pub check_clock : ℕ
  pub alert_clock : ℕ
  pub insert_up : Bool
  pub query_up : Bool
  pub alert_up : Bool
  pub answers : ℕ → Answer

abbrev pub Log : Type 0
Log = List Op

-- `action NOT IN ('notification', 'alert')`
unfoldable pub counts_as_failure : Op → Bool
counts_as_failure o =
    not o.success
    && not (text_eq o.action (codes "notification") || text_eq o.action (codes "alert"))

unfoldable pub recent_failure : Text → ℕ → ℕ → Op → Bool
unfolding counts_as_failure
recent_failure host window now o =
    text_eq o.host host && counts_as_failure o && leb now (o.created_at + window)

unfoldable pub recent_alert : Text → ℕ → ℕ → Op → Bool
recent_alert host cooldown now o =
    text_eq o.host host && text_eq o.action (codes "alert") && leb now (o.created_at + cooldown)

unfoldable pub should_send_failure_alert : Settings → Text → ℕ → Log → Bool
should_send_failure_alert c host now log =
    c.db_engine
    && nonempty host
    && c.notifications_enabled
    && nonempty c.notification_url
    && leb c.alert_threshold (count_if (recent_failure host c.alert_window now) log)
    && not (any_of (recent_alert host c.alert_cooldown now) log)

-- the row that `_send_failure_alert` records once its mail was posted or given up
unfoldable pub alert_row : Settings → Moment → Op → Op
alert_row c m o =
    let p = post_mail c.retry_attempts c.retry_backoff m.answers in
    record {
      reservation_id = o.reservation_id;
      lab_id = o.lab_id;
      host = o.host;
      action = codes "alert";
      success = was_sent p;
      response_code = status_of p;
      message = none;
      created_at = m.alert_clock;
    }

-- `_check_failure_alert` after the row `o`; an exception is caught by the caller
unfoldable pub check_failure_alert : Settings → Moment → Op → Log → Log
check_failure_alert c m o log =
    if m.query_up && should_send_failure_alert c o.host m.check_clock log && m.alert_up
    then log ++ alert_row c m o ∷ []
    else log

-- `record_reservation_operation`: no failure leaves it
unfoldable pub record_reservation_operation : Settings → Moment → Op → Log → Log
record_reservation_operation c m o log =
    let row = record o { created_at = m.clock } in
    if not (c.db_engine && m.insert_up)
    then log
    else if counts_as_failure o
    then check_failure_alert c m row (log ++ row ∷ [])
    else log ++ row ∷ []

-- `notify_critical_failure`
unfoldable pub notify_critical_failure : Settings → Moment → Text → Value → Text → Log → Log
notify_critical_failure c m reservation lab host log =
    let p = post_mail c.retry_attempts c.retry_backoff m.answers in
    if not c.notifications_enabled || not (nonempty c.notification_url)
    then log
    else record_reservation_operation c m
        (record {
          reservation_id = reservation;
          lab_id = lab;
          host = host;
          action = codes "notification";
          success = was_sent p;
          response_code = status_of p;
          message = none;
          created_at = m.clock;
        })
        log
