-- ===== src/Access/Tests.antt =====
-- A directory with one FMU below a provider's, and a request for it.
use lab_gateway.Prelude.{
  ℕ, zero, suc, ◌==◌, codes, strip, Option, none, some, true, List, [], ◌∷◌, leb, ltb, ◌≡◌, refl,
}
use lab_gateway.Prelude.Int.{pos}
use lab_gateway.Prelude.Value.{Value, null, int, text, int_of}
use lab_gateway.Access.{Claims}
use lab_gateway.Access.Files.{Entry, FileSystem, found, resolve_fmu_path}
use lab_gateway.Access.Run.{Floats, Request, accepted, check_run}

abbrev provider : Entry ℕ
provider = record { name = codes "0xab"; path = 1; resolved = some 1; is_dir = true }

abbrev model : Entry ℕ
model = record { name = codes "pump.fmu"; path = 2; resolved = some 3; is_dir = true }

abbrev listing : ℕ → Option (List (Entry ℕ))
listing zero = some (provider ∷ [])
listing (suc zero) = some (model ∷ [])
listing _ = none

abbrev files : FileSystem ℕ
files = record {
  base = 0;
  base_is_dir = true;
  entries = listing;
  is_within_base = λ p. leb p 3;
  is_file = λ p. p == 3;
}

abbrev pump : Value
pump = text (codes " pump.fmu")

pump_found : resolve_fmu_path (λ s. s) files pump ≡ found 3
unfolding resolve_fmu_path strip
pump_found = refl

-- seconds in whole numbers
abbrev seconds : Value → Option ℕ
seconds (int (pos n)) = some n
seconds _ = none

abbrev whole : Floats
whole = record {
  Time = ℕ;
  of_value = seconds;
  le = leb;
  lt = ltb;
  zero = 0;
  max_stop_time = 100;
  min_step_size = 1;
}

abbrev token : Claims
token = record {
  resource_type = text (codes "FMU");
  scope = null;
  purpose = null;
  lab_id = text (codes "7");
  access_key = pump;
  fmu_file_name = null;
  reservation_key = text (codes "0xAA");
  puc_hash = text (codes "0xBB");
  exp = int (pos 1020);
}

abbrev request : Request
request = record {
  lab_id = int (pos 7);
  reservation_key = text (codes "0xaa");
  start_time = int (pos 0);
  stop_time = int (pos 10);
  step_size = int (pos 1);
  timeout = some (int (pos 60));
}

run_accepted :
    check_run whole (λ s. none) 300 1000 token (resolve_fmu_path (λ s. s) files) request
    ≡ accepted (codes "7") 3 20
unfolding check_run resolve_fmu_path int_of
run_accepted = refl
