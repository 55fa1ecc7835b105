-- ===== src/Reservations.antt =====
-- Starting and ending a reservation in ops-worker/worker.py: `wol_and_wait`, `host_is_up`,
-- `perform_wake_step`, `perform_command_step`, `handle_reservation_start` and
-- `handle_reservation_end`. Packets, probes and remote commands are arguments; durations, messages
-- and the details of a step are left out. The ids of a request are texts.
mod Target
pub mod Perform
pub mod Steps
pub mod Outcome
pub mod Tests
use lab_gateway.Prelude.{
  ℕ, ◌+◌, Text, codes, nonempty, strip, lower, Option, none, some, Bool, true, false, not, ◌&&◌,
  ◌||◌, List, [], ◌∷◌, ◌++◌, map, ◌==◌, if◌then◌else◌,
}
use lab_gateway.Prelude.Int.{ℤ, pos}
use lab_gateway.Prelude.Value.{
  Value, null, bool, int, text, list, str_of, int_of, truthy, is_blank, text_in, get_default,
  values,
}
use lab_gateway.Hosts.{Host, Registry, get}
use lab_gateway.Operations.{Settings, Log}
use lab_gateway.Reservations.Perform.{
  World, Step, WakeOptions, perform_wake_step, perform_command_step,
}

-- `parse_bool(payload.get(key, True), True)`
unfoldable pub parse_bool : Option Value → Bool
unfolding text_in strip lower truthy
parse_bool none = true
parse_bool (some null) = true
parse_bool (some (bool b)) = b
parse_bool (some (text s)) =
    not (text_in (lower (strip s)) (codes "false" ∷ codes "0" ∷ codes "no" ∷ codes "off" ∷ []))
parse_bool (some v) = truthy v

-- `normalize_args`
unfoldable pub normalize_args : Value → List Text → List Text
unfolding str_of
normalize_args null default = default
normalize_args (list _ items) default = map str_of (values items)
normalize_args v default = str_of v ∷ []

-- `powerAction`: absent or empty, an object with its mode and arguments, or any other true value
pub data PowerAction : Type 0 where
  no_power : PowerAction
  power : Option Value → Value → PowerAction
  not_object : PowerAction

pub record Payload : Type 0 where
  pub reservation_id : Option Text
  pub reservation_id_snake : Option Text
  pub host : Option Text
  pub host_name : Option Text
  pub lab_id : Value
  pub lab_id_snake : Value
  pub wake : Option Value
  pub prepare : Option Value
  pub release : Option Value
  pub guard_grace : Option Value
  -- `none`: no object, so that reading an option raises
  pub wake_options : Option WakeOptions
  pub prepare_args : Value
  pub release_args : Value
  pub power_action : PowerAction

-- `_get_mandatory_field` of two keys; the empty text stands for None, which fails the same tests
unfoldable pub first_field : Option Text → Option Text → Text
first_field (some (c ∷ s)) _ = c ∷ s
first_field _ none = []
first_field _ (some t) = t

unfoldable pub first_value : Value → Value → Value
first_value a b = if not (is_blank a) then a else if not (is_blank b) then b else null

-- a reply with its status code and its steps; an error has none
pub record Reply : Type 0 where
  pub status_code : ℕ
  pub steps : List Step

-- `success`, and the `status_code` that goes with it
abbrev reply_of : Bool → List Step → Reply
reply_of success steps = record { status_code = if success then 200 else 502; steps = steps }

abbrev step_of : Text → Bool → Step
step_of action success = record { action = action; success = success }

module _ (c : Settings) (is_alnum : ℕ → Bool) (worlds : Text → World) (r : Registry)
    (p : Payload) where
  module _ (h : Host) (reservation : Text) (lab : Value) where
    -- the second step of `handle_reservation_start`, after the steps so far
    unfoldable pub prepare_step : ℤ → Bool → List Step → Log → Option Reply × Log
    unfolding perform_command_step parse_bool normalize_args
    prepare_step grace success steps log =
        if success && parse_bool p.prepare
        then (let (ok, log') =
              perform_command_step c is_alnum (worlds (codes "prepare")) h reservation lab
                (codes "prepare") (codes "prepare-session")
                (normalize_args p.prepare_args
                  ((codes "--guard-grace=" ++ str_of (int grace)) ∷ []))
                log in
            (some (reply_of ok (steps ++ step_of (codes "prepare") ok ∷ [])), log'))
        else (some (reply_of success steps), log)

    unfoldable pub wake_then_prepare : ℤ → Log → Option Reply × Log
    unfolding perform_wake_step prepare_step
    wake_then_prepare grace log =
        if not (parse_bool p.wake) then prepare_step grace true [] log else elim p.wake_options [
          | none ↦ (none, log)
          | some o ↦
              let (ok, log') =
                perform_wake_step c is_alnum (worlds (codes "wake")) h reservation lab o log in
              elim ok [
                | none ↦ (none, log')
                | some success ↦
                    prepare_step grace success (step_of (codes "wake") success ∷ []) log'
              ]
        ]

    -- the second step of `handle_reservation_end`
    unfoldable pub power_step : Bool → List Step → Log → Option Reply × Log
    unfolding perform_command_step normalize_args
    power_step success steps log = elim p.power_action [
      | no_power ↦ (some (reply_of success steps), log)
      | not_object ↦ if success then (none, log) else (some (reply_of success steps), log)
      | power mode args ↦
          let word = str_of (get_default mode (text (codes "shutdown"))) in
          if success
          then (let (ok, log') =
                perform_command_step c is_alnum (worlds (codes "power")) h reservation lab
                  (codes "power:" ++ word) (codes "power") (word ∷ normalize_args args []) log in
              (some (reply_of ok (steps ++ step_of (codes "power:" ++ word) ok ∷ [])), log'))
          else (some (reply_of success steps), log)
    ]

    unfoldable pub release_then_power : Log → Option Reply × Log
    unfolding perform_command_step parse_bool normalize_args power_step
    release_then_power log =
        if parse_bool p.release
        then (let (ok, log') =
              perform_command_step c is_alnum (worlds (codes "release")) h reservation lab
                (codes "release") (codes "release-session")
                (normalize_args p.release_args (codes "--reboot" ∷ [])) log in
            power_step ok (step_of (codes "release") ok ∷ []) log')
        else power_step true [] log

  -- the guards that both handlers share
  unfoldable pub with_host : (Host → Text → Value → Option Reply × Log) → Log → Option Reply × Log
  unfolding first_field first_value get
  with_host handle log =
      let reservation = first_field p.reservation_id p.reservation_id_snake in
      let name = first_field p.host p.host_name in
      if not (nonempty reservation) || not (nonempty name)
      then (some (record { status_code = 400; steps = [] }), log)
      else elim (get r name) [
        | none ↦ (some (record { status_code = 404; steps = [] }), log)
        | some h ↦ handle h reservation (first_value p.lab_id p.lab_id_snake)
      ]

  unfoldable pub handle_reservation_start : Log → Option Reply × Log
  unfolding with_host wake_then_prepare
  handle_reservation_start log =
      with_host
        (λ h reservation lab. elim (int_of (get_default p.guard_grace (int (pos 90)))) [
          | none ↦ (none, log)
          | some grace ↦ wake_then_prepare h reservation lab grace log
        ])
        log

  unfoldable pub handle_reservation_end : Log → Option Reply × Log
  unfolding with_host release_then_power
  handle_reservation_end log =
      with_host (λ h reservation lab. release_then_power h reservation lab log) log
