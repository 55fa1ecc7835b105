-- ===== src/Simulations/Tests.antt =====
-- Runs of the FMU runner at concrete servers.
use lab_gateway.Prelude.{
  ◌+◌, arith, text_eq, if◌then◌else◌, ◌≤◌, ◌≡◌, refl, Text, codes, none, some, true, [], ◌∷◌,
}
use lab_gateway.Prelude.Table.{find, text_key}
use lab_gateway.Simulations.{
  Server, Entry, entry_sim, acquire_slot, Caller, cancel_simulation, cancelled, end_run, ended,
  set_count, finalize, shutdown_executor,
}
use lab_gateway.Simulations.Balance.{
  Job, begins, Reach, here, next, init, in_flight, slots_count_runs, cancel_releases_twice,
}

abbrev lab : Text
lab = codes "7"

abbrev job : Job
job = record { sim_id = codes "x"; lab_id = lab }

abbrev entry : Entry
entry = record {
  sim_id = codes "x";
  lab_id = lab;
  reservation_key = codes "r";
  puc_hash = codes "p";
  executor = some 3;
}

abbrev busy : Server
busy = record { active = λ l. if text_eq lab l then 2 else 0; running = entry ∷ []; stopped = [] }

abbrev caller : Caller
caller = record { lab_id = some lab; reservation_key = codes "r"; puc_hash = codes "p" }

abbrev one_taken : Server
one_taken = record {
  active = set_count lab (init.server.active lab + 1) init.server.active;
  running = [];
  stopped = [];
}

one_Reach : Reach 4 init (record { server = one_taken; jobs = job ∷ [] })
unfolding find acquire_slot
one_Reach = next here (begins job refl refl)

slots_count_runs_example :
    (one_taken.active lab ≡ in_flight lab (job ∷ [])) × (in_flight lab (job ∷ []) ≤ 4)
slots_count_runs_example =
    slots_count_runs 4 (record { server = one_taken; jobs = job ∷ [] }) lab one_Reach

abbrev after_cancel : Server
after_cancel = finalize (codes "x") none (shutdown_executor (some 3) true busy)

busy_cancelled : cancel_simulation caller (codes "x") busy ≡ cancelled after_cancel
unfolding cancel_simulation find text_eq
busy_cancelled = refl

entry_found : find entry_sim (codes "x") busy.running ≡ some entry
unfolding find text_eq
entry_found = refl

two_taken : 2 ≤ busy.active lab
unfolding text_eq
two_taken = omega arith

cancel_releases_twice_example :
    (end_run ended (codes "x") lab (some 3) after_cancel).active lab + 2 ≡ busy.active lab
cancel_releases_twice_example =
    cancel_releases_twice caller ended (codes "x") lab (some 3) busy after_cancel entry entry_found
      refl busy_cancelled two_taken
