-- ===== src/Timeline/Tests.antt =====
-- A timeline of two operations.
use lab_gateway.Prelude.{Text, codes, none, true, List, [], ◌∷◌}
use lab_gateway.Prelude.Value.{null}
use lab_gateway.Operations.{Op}

abbrev operation : Text → Op
operation action = record {
  reservation_id = codes "0x1";
  lab_id = null;
  host = codes "pc1";
  action = action;
  success = true;
  response_code = none;
  message = none;
  created_at = 0;
}

abbrev log : List Op
log = operation (codes "wake") ∷ []

abbrev last : Op
last = operation (codes "scheduler:start")
