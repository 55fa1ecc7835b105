-- ===== src/Reservations/Tests.antt =====
-- A reservation that starts and ends on a host that answers the second probe.
use lab_gateway.Prelude.{ℕ, codes, none, some, Bool, true, [], ◌==◌, leb, ◌&&◌}
use lab_gateway.Prelude.Int.{pos}
use lab_gateway.Prelude.Value.{null, text}
use lab_gateway.Hosts.Tests.{one_registry}
use lab_gateway.Operations.Tests.{settings, moment}
use lab_gateway.Reservations.{Payload, power, handle_reservation_start}
use lab_gateway.Reservations.Perform.{Round, probed, World, wol_and_wait}
use lab_gateway.Reservations.Steps.{WakeIsRight, wol_and_wait_lem}
use lab_gateway.Reservations.Outcome.{ReplyIsRight, start_reply}

abbrev pub is_alnum : ℕ → Bool
is_alnum c = leb 48 c && leb c 57

abbrev pub second_answers : ℕ → Round
second_answers k = probed (k == 2)

abbrev pub world : World
world = record {
  recording = moment;
  notifying = moment;
  rounds = second_answers;
  remote = λ h command args. some (record { exit_code = pos 0; stdout = []; stderr = [] });
}

abbrev payload : Payload
payload = record {
  reservation_id = some (codes "0x1");
  reservation_id_snake = none;
  host = some (codes "PC1");
  host_name = none;
  lab_id = text (codes "7");
  lab_id_snake = null;
  wake = none;
  prepare = none;
  release = none;
  guard_grace = none;
  wake_options = some (record {
    mac = none;
    ping_target = some (text (codes "10.0.0.5"));
    attempts = none;
    timeout_is_number = true;
    broadcast = none;
    port = none;
  });
  prepare_args = null;
  release_args = null;
  power_action = power none null;
}

wol_and_wait_lem_example :
    WakeIsRight true none second_answers (pos 3) 3 1 (wol_and_wait true none second_answers (pos 3))
wol_and_wait_lem_example = wol_and_wait_lem true none second_answers (pos 3)

start_reply_example :
    ReplyIsRight []
      (handle_reservation_start settings is_alnum (λ _. world) one_registry payload [])
start_reply_example = start_reply settings is_alnum (λ _. world) one_registry payload []
