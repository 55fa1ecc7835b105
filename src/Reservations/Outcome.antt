-- ===== src/Reservations/Outcome.antt =====
-- What the replies of `handle_reservation_start` and `handle_reservation_end` say.
use lab_gateway.Prelude.{
  ℕ, Text, codes, nonempty, ◌≡◌, ◌⊎◌, inl, inr, refl, Option, none, some, Bool, true, false, not,
  ◌&&◌, ◌||◌, List, [], ◌∷◌, ◌++◌, ◌==◌, arith, if◌then◌else◌, Bool-cases, Option-cases,
}
use lab_gateway.Prelude.Int.{ℤ, pos}
use lab_gateway.Prelude.Value.{Value, int, int_of, get_default}
use lab_gateway.Hosts.{Host, Registry, get}
use lab_gateway.Operations.{Settings, Log}
use lab_gateway.Reservations.{
  Reply, Payload, reply_of, step_of, prepare_step, wake_then_prepare, power_step,
  release_then_power, with_host, handle_reservation_start, handle_reservation_end, PowerAction,
  no_power, power, not_object, parse_bool, first_field, first_value,
}
use lab_gateway.Reservations.Perform.{World, Step, perform_wake_step}

abbrev pub all_passed : List Step → Bool
all_passed [] = true
all_passed (s ∷ ss) = s.success && all_passed ss

-- the last step failed, and only the last
abbrev pub stopped_at_failure : List Step → Bool
stopped_at_failure [] = false
stopped_at_failure (s ∷ []) = not s.success
stopped_at_failure (s ∷ t ∷ ss) = s.success && stopped_at_failure (t ∷ ss)

abbrev pub is_empty : List Step → Bool
is_empty [] = true
is_empty (_ ∷ _) = false

abbrev pub agrees : Bool → List Step → Bool
agrees success steps = if success then all_passed steps else stopped_at_failure steps

abbrev pub has_run : Reply → Bool
has_run r =
    (r.status_code == 200 && all_passed r.steps)
    || (r.status_code == 502 && stopped_at_failure r.steps)

abbrev pub was_refused : Reply → Bool
was_refused r = (r.status_code == 400 || r.status_code == 404) && is_empty r.steps

abbrev pub ReplyIsRight : Log → Option Reply × Log → Type 0
ReplyIsRight log (none, after) = Unit
ReplyIsRight log (some r, after) = (has_run r ≡ true) ⊎ ((was_refused r ≡ true) × (after ≡ log))

agrees-append :
    (ss : List Step) (s : Step) → all_passed ss ≡ true → agrees s.success (ss ++ s ∷ []) ≡ true
agrees-append [] s h = ground arith
agrees-append (t ∷ []) s h = ground arith
agrees-append (t ∷ u ∷ ss) s h = ground (arith, agrees-append (u ∷ ss) s)

reply_has_run :
    (success : Bool) (ss : List Step)
    → agrees success ss ≡ true
    → has_run (reply_of success ss) ≡ true
reply_has_run true ss h = ground arith
reply_has_run false ss h = ground arith

step_has_run :
    (ss : List Step) (action : Text) (success : Bool)
    → all_passed ss ≡ true
    → has_run (reply_of success (ss ++ step_of action success ∷ [])) ≡ true
step_has_run ss action success h =
    reply_has_run success (ss ++ step_of action success ∷ [])
      (agrees-append ss (step_of action success) h)

one_step : (action : Text) (success : Bool) → agrees success (step_of action success ∷ []) ≡ true
one_step action true = refl
one_step action false = refl

Power-cases :
    (x : PowerAction)
    → (x ≡ no_power)
      ⊎ ((x ≡ not_object) ⊎ ((mode : Option Value) × (args : Value) × (x ≡ power mode args)))
Power-cases no_power = inl refl
Power-cases not_object = inr (inl refl)
Power-cases (power mode args) = inr (inr (mode, args, refl))

module _ (c : Settings) (is_alnum : ℕ → Bool) (worlds : Text → World) (r : Registry) (p : Payload)
    (before : Log) where
  module _ (h : Host) (reservation : Text) (lab : Value) where
    prepare_step_lem :
        (grace : ℤ) (success : Bool) (ss : List Step) (log : Log)
        → agrees success ss ≡ true
        → ReplyIsRight before
            (prepare_step c is_alnum worlds r p h reservation lab grace success ss log)
    unfolding prepare_step
    prepare_step_lem grace false ss log a = inl (reply_has_run false ss a)
    prepare_step_lem grace true ss log a = elim (Bool-cases (parse_bool p.prepare)) [
      | inl e ↦ rw e (inl (search (step_has_run, a)))
      | inr e ↦ rw e (inl (reply_has_run true ss a))
    ]

    wake_then_prepare_lem :
        (grace : ℤ) (log : Log)
        → ReplyIsRight before (wake_then_prepare c is_alnum worlds r p h reservation lab grace log)
    unfolding wake_then_prepare
    wake_then_prepare_lem grace log = elim (Bool-cases (parse_bool p.wake)) [
      | inl e ↦ rw e (elim (Option-cases p.wake_options) [
        | inl q ↦ rw q tt
        | inr (o, q) ↦
            rw q
              (woken (perform_wake_step c is_alnum (worlds (codes "wake")) h reservation lab o log))
      ])
      | inr e ↦ rw e (prepare_step_lem grace true [] log refl)
    ]
      where
        woken :
            (x : Option Bool × Log)
            → ReplyIsRight before (elim x.0 [
              | none ↦ (none, x.1)
              | some success ↦
                  prepare_step c is_alnum worlds r p h reservation lab grace success
                    (step_of (codes "wake") success ∷ [])
                    x.1
            ])
        woken (none, l) = tt
        woken (some true, l) = prepare_step_lem grace true (step_of (codes "wake") true ∷ []) l refl
        woken (some false, l) =
            prepare_step_lem grace false (step_of (codes "wake") false ∷ []) l refl

    power_step_lem :
        (success : Bool) (ss : List Step) (log : Log)
        → agrees success ss ≡ true
        → ReplyIsRight before (power_step c is_alnum worlds r p h reservation lab success ss log)
    unfolding power_step
    power_step_lem false ss log a = elim (Power-cases p.power_action) [
      | inl e ↦ rw e (inl (reply_has_run false ss a))
      | inr (inl e) ↦ rw e (inl (reply_has_run false ss a))
      | inr (inr (mode, args, e)) ↦ rw e (inl (reply_has_run false ss a))
    ]
    power_step_lem true ss log a = elim (Power-cases p.power_action) [
      | inl e ↦ rw e (inl (reply_has_run true ss a))
      | inr (inl e) ↦ rw e tt
      | inr (inr (mode, args, e)) ↦ rw e (inl (search (step_has_run, a)))
    ]

    release_then_power_lem :
        (log : Log)
        → ReplyIsRight before (release_then_power c is_alnum worlds r p h reservation lab log)
    unfolding release_then_power
    release_then_power_lem log = elim (Bool-cases (parse_bool p.release)) [
      | inl e ↦ rw e (power_step_lem _ _ _ (one_step (codes "release") _))
      | inr e ↦ rw e (power_step_lem true [] log refl)
    ]

  with_host_lem :
      (handle : Host → Text → Value → Option Reply × Log)
      → ((h : Host) (reservation : Text) (lab : Value)
          → ReplyIsRight before (handle h reservation lab))
      → ReplyIsRight before (with_host c is_alnum worlds r p handle before)
  unfolding with_host
  with_host_lem handle right =
      elim (Bool-cases (
        not (nonempty (first_field p.reservation_id p.reservation_id_snake))
        || not (nonempty (first_field p.host p.host_name)))) [
          | inl e ↦ rw e (inr (refl, refl))
          | inr e ↦ rw e (elim (Option-cases (get r (first_field p.host p.host_name))) [
            | inl q ↦ rw q (inr (refl, refl))
            | inr (h, q) ↦ rw q (
                right h (first_field p.reservation_id p.reservation_id_snake)
                  (first_value p.lab_id p.lab_id_snake))
          ])
        ]

  -- A reply of `handle_reservation_start` has code 200 where every step passed, and 502 where the
  -- last step failed and every step before it passed, so that nothing is prepared after a failed
  -- wake; or it has code 400 or 404, no step ran and nothing was logged.
  pub start_reply : ReplyIsRight before (handle_reservation_start c is_alnum worlds r p before)
  unfolding handle_reservation_start
  start_reply =
      with_host_lem
        (λ h reservation lab. elim (int_of (get_default p.guard_grace (int (pos 90)))) [
          | none ↦ (none, before)
          | some grace ↦ wake_then_prepare c is_alnum worlds r p h reservation lab grace before
        ])
        (λ h reservation lab.
          elim (Option-cases (int_of (get_default p.guard_grace (int (pos 90))))) [
            | inl e ↦ rw e tt
            | inr (grace, e) ↦ rw e (wake_then_prepare_lem h reservation lab grace before)
          ])

  -- A reply of `handle_reservation_end` has code 200 where every step passed, and 502 where the last
  -- step failed and every step before it passed, so that nothing is powered off after a failed
  -- release; or it has code 400 or 404, no step ran and nothing was logged.
  end_reply : ReplyIsRight before (handle_reservation_end c is_alnum worlds r p before)
  unfolding handle_reservation_end
  end_reply =
      with_host_lem
        (λ h reservation lab. release_then_power c is_alnum worlds r p h reservation lab before)
        (λ h reservation lab. release_then_power_lem h reservation lab before)
