-- ===== src/Orchestrator/Tests.antt =====
-- One scan over two reservations.
use lab_gateway.Prelude.{ℕ, ◌≤◌, ◌≡◌, refl, Text, codes, true, false, [], ◌∷◌, arith}
use lab_gateway.Prelude.Value.{Value, text}
use lab_gateway.Hosts.Tests.{one_registry}
use lab_gateway.Operations.Tests.{settings, moment}
use lab_gateway.Reservations.Tests.{is_alnum, world}
use lab_gateway.Orchestrator.{scan_once, dispatch_start, dispatch_end}
use lab_gateway.Orchestrator.Rows.{
  Status, confirmed, active, Reservation, Tables, Options, Scene, can_start,
}
use lab_gateway.Orchestrator.Transitions.{Advances, scan-Advances}
use lab_gateway.Orchestrator.Candidates.{start_waits}

abbrev reservation : Text → ℕ → ℕ → Status → Reservation
reservation hash start end status = record {
  transaction_hash = hash;
  lab_id = text (codes "7");
  start_time = start;
  end_time = end;
  status = status;
  updated_at = 0;
}

abbrev tables : Tables
tables = record {
  reservations =
      reservation (codes "0x1") 1000 5000 confirmed ∷ reservation (codes "0x2") 100 900 active ∷ [];
  log = [];
}

abbrev options : Options
options = record {
  enabled = true;
  engine = true;
  start_lead = 120;
  end_delay = 60;
  lookback = 3600;
  retry_cooldown = 300;
  max_batch = 200;
}

abbrev scene : Scene
scene = record { worlds = λ _. world; recording = moment; update_up = true; update_time = 1001 }

scan-Advances_example :
    Advances tables.reservations
      (scan_once settings is_alnum one_registry options true 1000
        (λ _. scene)
        (λ _. scene)
        tables).1.reservations
scan-Advances_example =
    scan-Advances settings is_alnum one_registry options true 1000 (λ _. scene) (λ _. scene) tables

abbrev first : Reservation
first = reservation (codes "0x1") 1000 5000 confirmed

start_went_on : (dispatch_start settings is_alnum one_registry scene first tables).0 ≡ true
unfolding dispatch_start lab_gateway.Hosts.get_by_lab lab_gateway.Prelude.Table.find
    lab_gateway.Prelude.text_eq lab_gateway.Reservations.handle_reservation_start
    lab_gateway.Prelude.Value.or_else lab_gateway.Prelude.Value.int_of
    lab_gateway.Reservations.Perform.has_answered
start_went_on = refl

start_waits_example :
    can_start options 1200
      (dispatch_start settings is_alnum one_registry scene first tables).1.log
      first
    ≡ false
start_waits_example =
    start_waits settings is_alnum one_registry options 1200 scene first tables refl refl
      (omega arith) start_went_on

abbrev second : Reservation
second = reservation (codes "0x2") 100 900 active

end_went_on : (dispatch_end settings is_alnum one_registry scene second tables).0 ≡ true
unfolding dispatch_end lab_gateway.Hosts.get_by_lab lab_gateway.Prelude.Table.find
    lab_gateway.Prelude.text_eq lab_gateway.Reservations.handle_reservation_end
    lab_gateway.Prelude.Value.or_else
end_went_on = refl
