-- ===== src/Operations/Alerts.antt =====
-- When a failed operation sends an alert.
use lab_gateway.Prelude.{
  ℕ, ◌+◌, ◌≡◌, refl, Text, codes, text_eq, Bool, true, false, ◌||◌, List, [], ◌∷◌, ◌++◌, count_if,
  any_of, arith,
}
use lab_gateway.Operations.{
  Op, Settings, Moment, Log, recent_alert, counts_as_failure, should_send_failure_alert,
  check_failure_alert, record_reservation_operation,
}

abbrev pub is_alert : Op → Bool
is_alert o = text_eq o.action (codes "alert")

unfoldable pub alerts : Log → ℕ
alerts = count_if is_alert

pub any_of-append {ℓ} :
    {A : Type ℓ} (p : A → Bool) (xs ys : List A)
    → any_of p (xs ++ ys) ≡ (any_of p xs || any_of p ys)
any_of-append p [] ys = refl
any_of-append p (x ∷ xs) ys = ground (arith, any_of-append p xs ys)

count_if-append {ℓ} :
    {A : Type ℓ} (p : A → Bool) (xs ys : List A)
    → count_if p (xs ++ ys) ≡ count_if p xs + count_if p ys
count_if-append p [] ys = omega arith
count_if-append p (x ∷ xs) ys = ground (arith, count_if-append p xs ys)

alerts-one : (log : Log) (o : Op) → is_alert o ≡ false → alerts (log ++ o ∷ []) ≡ alerts log
unfolding alerts
alerts-one log o h = ground (arith, count_if-append is_alert log (o ∷ []))

held_back :
    (c : Settings) (host : Text) (now : ℕ) (log : Log) (row : Op)
    → any_of (recent_alert host c.alert_cooldown now) log ≡ true
    → should_send_failure_alert c host now (log ++ row ∷ []) ≡ false
unfolding should_send_failure_alert
held_back c host now log row cooling =
    rw (any_of-append (recent_alert host c.alert_cooldown now) log (row ∷ []), cooling)
      (ground arith)

check_held_back :
    (c : Settings) (m : Moment) (o : Op) (log : Log)
    → should_send_failure_alert c o.host m.check_clock log ≡ false
    → check_failure_alert c m o log ≡ log
unfolding check_failure_alert
check_held_back c m o log h = ground arith

-- While an alert about the host is still in its cooldown, recording an operation of that host adds
-- no alert, whatever fails.
pub cooldown_holds :
    (c : Settings) (m : Moment) (o : Op) (log : Log)
    → is_alert o ≡ false
    → any_of (recent_alert o.host c.alert_cooldown m.check_clock) log ≡ true
    → alerts (record_reservation_operation c m o log) ≡ alerts log
unfolding record_reservation_operation
cooldown_holds c m o log plain cooling =
    let row = record o { created_at = m.clock } in
    ground (
      arith,
      check_held_back c m row (log ++ row ∷ []) (held_back c o.host m.check_clock log row cooling),
      alerts-one log row plain,
    )

-- An operation that does not count as a failure adds no alert either: a success, or the outcome of
-- a mail, so that a failed mail never sends another mail.
mails_send_no_alert :
    (c : Settings) (m : Moment) (o : Op) (log : Log)
    → is_alert o ≡ false
    → counts_as_failure o ≡ false
    → alerts (record_reservation_operation c m o log) ≡ alerts log
unfolding record_reservation_operation
mails_send_no_alert c m o log plain fine =
    let row = record o { created_at = m.clock } in ground (arith, alerts-one log row plain)
