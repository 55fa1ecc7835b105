-- ===== src/Reservations/Perform.antt =====
-- The steps of a reservation in ops-worker/worker.py: `wol_and_wait`, `host_is_up`,
-- `perform_wake_step` and `perform_command_step`.
use lab_gateway.Prelude.{
  ℕ, zero, suc, Text, codes, strip, Option, none, some, Bool, true, false, not, ◌&&◌, List, [],
  ◌++◌, ◌==◌, if◌then◌else◌,
}
use lab_gateway.Prelude.Int.{ℤ, pos, negsuc, pos_part}
use lab_gateway.Prelude.Value.{
  Value, int, text, str_of, int_of, truthy, or_else, is_blank, get_value, get_default,
}
use lab_gateway.Hosts.{Host}
use lab_gateway.Operations.{
  Op, Settings, Moment, Log, record_reservation_operation, notify_critical_failure,
}
use lab_gateway.Reservations.Target.{is_valid_ping_target}
use lab_gateway.WinRm.{Ran, is_winrm}

-- what one round of `wol_and_wait` meets: the packet cannot be sent, or a probe that answers or not
pub data Round : Type 0 where
  send_fails : Round
  probed : Bool → Round

-- `host_is_up`: `valid` is `_is_valid_ping_target` of the target, `up` whether a connection opens
unfoldable pub host_is_up : Bool → Option ℤ → Bool → Bool
host_is_up valid none up = valid && up
host_is_up valid (some p) up = valid && is_winrm p && up

-- `for attempt in range(1, attempts + 1)`, with `left` rounds to go; `none` is an exception
module _ (valid : Bool) (probe_port : Option ℤ) (rounds : ℕ → Round) (attempts : ℤ) where
  unfoldable pub wake_rounds : ℕ → ℕ → Option (Bool × ℤ)
  unfolding host_is_up
  wake_rounds zero attempt = some (false, attempts)
  wake_rounds (suc left) attempt =
      let rest = wake_rounds left (suc attempt) in
      elim (rounds attempt) [
        | send_fails ↦ none
        | probed up ↦ if host_is_up valid probe_port up then some (true, pos attempt) else rest
      ]

  unfoldable pub wol_and_wait : Option (Bool × ℤ)
  unfolding wake_rounds
  wol_and_wait = wake_rounds (pos_part attempts) 1

-- `wakeOptions`; `timeout_is_number` tells whether `float` takes its `ping_timeout`
pub record WakeOptions : Type 0 where
  pub mac : Option Value
  pub ping_target : Option Value
  pub attempts : Option Value
  pub timeout_is_number : Bool
  pub broadcast : Option Value
  pub port : Option Value

-- what a step meets when it records and when it notifies, and the rounds or the command's result
pub record World : Type 0 where
  pub recording : Moment
  pub notifying : Moment
  pub rounds : ℕ → Round
  pub remote : Host → Text → List Text → Option Ran

pub record Step : Type 0 where
  pub action : Text
  pub success : Bool

-- `host.get("name", "")`
abbrev host_name : Host → Text
host_name h = str_of (get_default h.name (text []))

operation : Text → Value → Text → Text → Bool → Option ℤ → Option Text → Op
operation reservation lab host action success code message = record {
  reservation_id = reservation;
  lab_id = lab;
  host = host;
  action = action;
  success = success;
  response_code = code;
  message = message;
  created_at = 0;
}

-- the port of the probe: one that `int` refuses counts as none
unfoldable pub probe_port : Value → Option ℤ
probe_port v = if is_blank v then none else int_of v

-- `success, used_attempts = …` and its `except`
unfoldable pub has_answered : Option (Bool × ℤ) → Bool
has_answered none = false
has_answered (some (success, _)) = success

abbrev wake_code : Bool → Option ℤ
wake_code success = some (pos (if success then 200 else 504))

abbrev wake_message : Option (Bool × ℤ) → Text
wake_message none = codes "Wake operation failed"
wake_message (some (success, _)) =
    if success then codes "Host reachable" else codes "Host did not respond to ping"

abbrev exit_code : Option Ran → Option ℤ
exit_code none = none
exit_code (some r) = some r.exit_code

-- `result.get("exit_code", 1) == 0`
unfoldable pub has_succeeded : Option Ran → Bool
has_succeeded none = false
has_succeeded (some r) = elim r.exit_code [ pos n ↦ n == 0 | negsuc n ↦ false ]

abbrev command_message : Option Ran → Text
command_message none = codes "Lab Station command failed"
command_message (some r) = codes "Exit code " ++ str_of (int r.exit_code)

-- the parameters that every step of a request shares
module _ (c : Settings) (is_alnum : ℕ → Bool) (w : World) (h : Host) (reservation : Text)
    (lab : Value) where
  -- records an outcome, and reports a failed one
  unfoldable pub record_step : Bool → Text → Bool → Option ℤ → Text → Log → Log
  unfolding operation
  record_step report action success code message log =
      let log' =
        record_reservation_operation c w.recording
          (operation reservation lab (host_name h) action success code (some message)) log in
      if report && not success
      then notify_critical_failure c w.notifying reservation lab (host_name h) log'
      else log'

  -- `perform_wake_step`; `none` is an exception that escapes
  unfoldable pub perform_wake_step : WakeOptions → Log → Option Bool × Log
  unfolding record_step wol_and_wait probe_port is_valid_ping_target
  perform_wake_step o log =
      let mac = or_else (get_value o.mac) (get_value h.mac) in
      let target =
        or_else (or_else (get_value o.ping_target) (get_value h.ping_target))
          (get_value h.address) in
      let attempts = int_of (get_default o.attempts (get_default h.wake_attempts (int (pos 3)))) in
      let port = int_of (get_default o.port (get_default h.wol_port (int (pos 9)))) in
      if not (truthy mac)
      then (
        some false,
        record_step false (codes "wake") false none (codes "MAC address not configured") log,
      )
      else if not (truthy target)
      then (
        some false,
        record_step false (codes "wake") false none (codes "Ping target not configured") log,
      )
      else if not o.timeout_is_number
      then (none, log)
      else elim attempts [
        | none ↦ (none, log)
        | some n ↦ elim port [
          | none ↦ (none, log)
          | some _ ↦
              let result =
                wol_and_wait (is_valid_ping_target is_alnum (strip (str_of target)))
                  (probe_port (get_value h.winrm_port)) w.rounds n in
              let success = has_answered result in
              (
                some success,
                record_step true (codes "wake") success (wake_code success) (wake_message result)
                    log,
              )
        ]
      ]

  -- `perform_command_step`
  unfoldable pub perform_command_step : Text → Text → List Text → Log → Bool × Log
  unfolding record_step has_succeeded
  perform_command_step action command args log =
      let result = w.remote h command args in
      let success = has_succeeded result in
      (success, record_step true action success (exit_code result) (command_message result) log)
