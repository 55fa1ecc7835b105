-- ===== src/Simulations.antt =====
-- The concurrency slots and the registry of running simulations of fmu-runner/main.py, with the
-- part of `run_simulation` and of `cancel_simulation` that changes them. A dict of counters is a
-- function; `_running_futures` is a table keyed by the simulation id.
pub mod Balance
mod Tests
use lab_gateway.Prelude.{
  ℕ, ◌+◌, ◌-◌, Text, text_eq, Option, none, some, Bool, true, false, not, ◌&&◌, ◌||◌, List, [], ◌∷◌,
  leb, strip, nonempty, if◌then◌else◌,
}
use lab_gateway.Prelude.Table.{find, erase, text_key}

pub record Entry : Type 0 where
  pub sim_id : Text
  pub lab_id : Text
  pub reservation_key : Text
  pub puc_hash : Text
  -- the worker pool of the run; `none` where the executor is no `ProcessPoolExecutor`
  pub executor : Option ℕ

pub record Server : Type 0 where
  pub active : Text → ℕ
  pub running : List Entry
  -- the pools that were shut down, newest first, and whether their workers were killed
  pub stopped : List (ℕ × Bool)

abbrev pub entry_sim : Entry → Text
entry_sim e = e.sim_id

abbrev pub set_count : Text → ℕ → (Text → ℕ) → Text → ℕ
set_count lab n active l = if text_eq lab l then n else active l

-- `none` is the 429
unfoldable pub acquire_slot : ℕ → Text → Server → Option Server
acquire_slot limit lab s =
    if leb limit (s.active lab)
    then none
    else some (record s { active = set_count lab (s.active lab + 1) s.active })

-- `max(0, n - 1)` is `n - 1` on ℕ
unfoldable pub release_slot : Text → Server → Server
release_slot lab s = record s { active = set_count lab (s.active lab - 1) s.active }

unfoldable pub track_running_future : Entry → Server → Server
track_running_future e s = record s { running = e ∷ erase entry_sim e.sim_id s.running }

-- `force` kills the workers first
unfoldable pub shutdown_executor : Option ℕ → Bool → Server → Server
shutdown_executor none force s = s
shutdown_executor (some pool) force s = record s { stopped = (pool, force) ∷ s.stopped }

abbrev release_some : Option Text → Server → Server
release_some none s = s
release_some (some lab) s = release_slot lab s

-- `_finalize_simulation_tracking`; the entry that `pop` returned decides which lab is released
unfoldable pub finalize : Text → Option Text → Server → Server
unfolding release_slot shutdown_executor
finalize sim_id fallback s = elim (find entry_sim sim_id s.running) [
  | none ↦ release_some fallback s
  | some e ↦
      release_slot e.lab_id (
        shutdown_executor e.executor false
          (record s { running = erase entry_sim sim_id s.running }))
]

-- what `run_simulation` meets after the slot is taken, up to the end of the wait
pub data Outcome : Type 0 where
  -- the observation or the submission raises: nothing was tracked
  rejected : Outcome
  -- the future ends, with a result or an exception
  ended : Outcome
  timed_out : Outcome

-- the run from `_track_running_future` on: a timeout kills the pool, then `finally`
unfoldable pub end_run : Outcome → Text → Text → Option ℕ → Server → Server
unfolding finalize
end_run timed_out sim_id lab pool s = finalize sim_id (some lab) (shutdown_executor pool true s)
end_run _ sim_id lab pool s = finalize sim_id (some lab) s

-- the claims of a request, as `cancel_simulation` normalises them
pub record Caller : Type 0 where
  pub lab_id : Option Text
  pub reservation_key : Text
  pub puc_hash : Text

pub data CancelError : Type 0 where
  not_found forbidden : CancelError

pub data CancelResult : Type 0 where
  cancelled : Server → CancelResult
  refused : CancelError → CancelResult

-- `_normalize_lab_id` of a text
unfoldable pub normalize_text : Text → Option Text
unfolding strip
normalize_text t = if nonempty (strip t) then some (strip t) else none

abbrev same_lab : Option Text → Option Text → Bool
same_lab none none = true
same_lab (some a) (some b) = text_eq a b
same_lab _ _ = false

unfoldable pub cancel_simulation : Caller → Text → Server → CancelResult
unfolding finalize normalize_text
cancel_simulation c sim_id s = elim (find entry_sim sim_id s.running) [
  | none ↦ refused not_found
  | some e ↦
      if not (same_lab c.lab_id (normalize_text e.lab_id))
      then refused forbidden
      else if not (text_eq c.reservation_key e.reservation_key)
      then refused forbidden
      else if not (text_eq c.puc_hash e.puc_hash)
      then refused forbidden
      else cancelled (finalize sim_id none (shutdown_executor e.executor true s))
]
