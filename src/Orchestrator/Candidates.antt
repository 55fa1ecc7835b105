-- ===== src/Orchestrator/Candidates.antt =====
-- Which reservations a scan picks up again.
use lab_gateway.Prelude.{
  ℕ, ◌+◌, ◌≤◌, Text, codes, text_eq, text_eq_refl, ◌≡◌, Option, none, some, Bool, true, false, ◌&&◌,
  List, [], ◌∷◌, ◌++◌, any_of, leb, arith, Option-cases, inl, inr,
}
use lab_gateway.Prelude.Value.{Value}
use lab_gateway.Prelude.Int.{ℤ}
use lab_gateway.Hosts.{Registry, get_by_lab}
use lab_gateway.Operations.{
  Op, Settings, Moment, Log, alert_row, check_failure_alert, record_reservation_operation,
}
use lab_gateway.Operations.Alerts.{any_of-append}
use lab_gateway.Reservations.{Payload, Reply, handle_reservation_start, handle_reservation_end}
use lab_gateway.Orchestrator.{
  settle, dispatch, dispatch_start, dispatch_end, record_scheduler_op, mapped_name,
  dispatch_payload,
}
use lab_gateway.Orchestrator.Rows.{
  Status, Reservation, Tables, Options, Scene, can_start, can_end, was_tried, start_action,
  end_action, active, completed,
}

any_of-last {ℓ} :
    {A : Type ℓ} (p : A → Bool) (xs : List A) (x : A) → p x ≡ true → any_of p (xs ++ x ∷ []) ≡ true
any_of-last p xs x h = ground (arith, any_of-append p xs (x ∷ []))

check-keeps :
    (p : Op → Bool) (c : Settings) (m : Moment) (o : Op) (log : Log)
    → any_of p log ≡ true
    → any_of p (check_failure_alert c m o log) ≡ true
unfolding check_failure_alert
check-keeps p c m o log h = ground (arith, any_of-append p log (alert_row c m o ∷ []))

record-contains :
    (p : Op → Bool) (c : Settings) (m : Moment) (o : Op) (log : Log)
    → c.db_engine ≡ true
    → m.insert_up ≡ true
    → p (record o { created_at = m.clock }) ≡ true
    → any_of p (record_reservation_operation c m o log) ≡ true
unfolding record_reservation_operation
record-contains p c m o log engine up h =
    let row = record o { created_at = m.clock } in
    ground (
      arith,
      check-keeps p c m row (log ++ row ∷ []) (any_of-last p log row h),
      any_of-last p log row h,
    )

-- `o` tells the same reservation and action, within the cooldown
abbrev tries : Options → ℕ → Text → Reservation → Op → Bool
tries o now action r p =
    text_eq p.reservation_id r.transaction_hash
    && text_eq p.action action
    && leb now (p.created_at + o.retry_cooldown)

scheduler_op-tried :
    (c : Settings) (m : Moment) (lab : Value) (host action : Text) (success : Bool)
    (code : Option ℤ) (message : Option Text) (o : Options) (now : ℕ) (r : Reservation) (log : Log)
    → c.db_engine ≡ true
    → m.insert_up ≡ true
    → now ≤ m.clock + o.retry_cooldown
    → was_tried o now action
        (record_scheduler_op c m r.transaction_hash lab host action success code message log)
        r
      ≡ true
unfolding was_tried record_scheduler_op
scheduler_op-tried c m lab host action success code message o now r log engine up soon =
    record-contains (tries o now action r) c m _ log engine up
      (ground (arith, text_eq_refl r.transaction_hash, text_eq_refl action))

module _ (c : Settings) (is_alnum : ℕ → Bool) (registry : Registry) (o : Options) (now : ℕ)
    (s : Scene) where
  settle-tried :
      (action failure : Text) (new : Status) (r : Reservation) (name : Text)
      (rows : List Reservation) (x : Option Reply × Log)
      → c.db_engine ≡ true
      → s.recording.insert_up ≡ true
      → now ≤ s.recording.clock + o.retry_cooldown
      → (settle c is_alnum registry action failure new s r name rows x).0 ≡ true
      → was_tried o now action
          (settle c is_alnum registry action failure new s r name rows x).1.log
          r
        ≡ true
  unfolding settle
  settle-tried action failure new r name rows (none, log) engine up soon went = cc
  settle-tried action failure new r name rows (some y, log) engine up soon went =
      scheduler_op-tried c s.recording r.lab_id name action _ _ _ o now r log engine up soon

  dispatch-tried :
      (handle : Payload → Log → Option Reply × Log) (action failure : Text) (new : Status)
      (r : Reservation) (t : Tables)
      → c.db_engine ≡ true
      → s.recording.insert_up ≡ true
      → now ≤ s.recording.clock + o.retry_cooldown
      → (dispatch c is_alnum registry handle action failure new s r t).0 ≡ true
      → was_tried o now action
          (dispatch c is_alnum registry handle action failure new s r t).1.log
          r
        ≡ true
  unfolding dispatch
  dispatch-tried handle action failure new r t engine up soon =
      elim (Option-cases (get_by_lab registry r.lab_id)) [
        | inl e ↦
            rw (dispatch, e)
              (λ went.
                scheduler_op-tried c s.recording r.lab_id
                  (mapped_name (get_by_lab registry r.lab_id)) action false none _ o now r t.log
                  engine up soon)
        | inr (h, e) ↦
            rw (dispatch, e)
              (settle-tried action failure new r (mapped_name (get_by_lab registry r.lab_id))
                t.reservations
                (handle
                  (dispatch_payload r.transaction_hash (mapped_name (get_by_lab registry r.lab_id))
                    r.lab_id)
                  t.log)
                engine up soon)
      ]

  not_start :
      (log : Log) (r : Reservation)
      → was_tried o now start_action log r ≡ true
      → can_start o now log r ≡ false
  unfolding can_start
  not_start log r h = rw h (ground arith)

  not_end :
      (log : Log) (r : Reservation)
      → was_tried o now end_action log r ≡ true
      → can_end o now log r ≡ false
  unfolding can_end
  not_end log r h = rw h (ground arith)

  -- Once the start of a reservation was dispatched and recorded, whatever its outcome, the reservation
  -- is no candidate for a start again until the cooldown is over.
  pub start_waits :
      (r : Reservation) (t : Tables)
      → c.db_engine ≡ true
      → s.recording.insert_up ≡ true
      → now ≤ s.recording.clock + o.retry_cooldown
      → (dispatch_start c is_alnum registry s r t).0 ≡ true
      → can_start o now (dispatch_start c is_alnum registry s r t).1.log r ≡ false
  unfolding dispatch_start
  start_waits r t engine up soon went = not_start _ r (
      dispatch-tried (handle_reservation_start c is_alnum s.worlds registry) start_action
        (codes "Reservation start failed") active r t engine up soon went)

  -- Once the end of a reservation was dispatched and recorded, whatever its outcome, the reservation
  -- is no candidate for an end again until the cooldown is over.
  end_waits :
      (r : Reservation) (t : Tables)
      → c.db_engine ≡ true
      → s.recording.insert_up ≡ true
      → now ≤ s.recording.clock + o.retry_cooldown
      → (dispatch_end c is_alnum registry s r t).0 ≡ true
      → can_end o now (dispatch_end c is_alnum registry s r t).1.log r ≡ false
  unfolding dispatch_end
  end_waits r t engine up soon went = not_end _ r (
      dispatch-tried (handle_reservation_end c is_alnum s.worlds registry) end_action
        (codes "Reservation end failed") completed r t engine up soon went)
