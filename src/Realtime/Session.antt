-- ===== src/Realtime/Session.antt =====
-- A realtime session of fmu-runner/realtime_ws.py: its state, the reservation window, what it sends,
-- `attach`, `detach` and `terminate`. The FMU, the floats and the clocks are arguments.
use lab_gateway.Prelude.{ℕ, ◌+◌, Text, Option, none, some, Bool, true, false, List, if◌then◌else◌}
use lab_gateway.Prelude.Int.{ℤ, pos, ltb_ℤ, leb_ℤ}
use lab_gateway.Prelude.Value.{Value}
use lab_gateway.Realtime.Queue.{Outgoing, enqueue_event}

-- floats, and the values that an FMU answers
pub record Engine : Type 1 where
  pub Time : Type 0
  pub Sample : Type 0
  pub le : Time → Time → Bool
  pub lt : Time → Time → Bool
  pub add : Time → Time → Time
  pub sub : Time → Time → Time
  pub least : Time → Time → Time
  pub zero_time : Time
  pub default_stop : Time
  pub default_step : Time
  -- `float(v)`, `none` where it raises TypeError or ValueError
  pub of_value : Value → Option Time

pub data Answer (A : Type 0) : Type 0 where
  ok : A → Answer A
  -- an HTTPException with this status
  http : ℕ → Answer A
  -- another exception
  crash : Answer A
  -- a loop that goes on after all that is given
  unfinished : Answer A

pub data Phase : Type 0 where
  created : Phase
  initialized : Phase
  running : Phase
  paused : Phase
  stopped : Phase
  failed : Phase

unfoldable pub is_running : Phase → Bool
is_running running = true
is_running _ = false

pub data Reason : Type 0 where
  client_terminated : Reason
  expired : Reason
  detached_timeout : Reason
  service_shutdown : Reason
  observation_failed : Reason

abbrev pub is_client : Reason → Bool
is_client client_terminated = true
is_client _ = false

pub data Event (T V : Type 0) : Type 0 where
  state_event : Phase → T → Event T V
  progress_event : T → Event T V
  -- `seq`, `dropped`, `batchSize`, `simTime` and `values`
  outputs_event : ℕ → ℕ → ℕ → T → V → Event T V
  closed_event : Reason → Event T V

pub record Subscription (T : Type 0) : Type 0 where
  pub max_batch_size : ℕ
  -- `min_interval_seconds()`
  pub min_interval : T
  pub last_emit : T
  pub rate_dropped : ℕ

-- what the world answers while a command runs: the clocks, and the calls of the FMU
pub record World (T V : Type 0) : Type 0 where
  -- `time.time()` in whole seconds, rounded down
  pub now : ℕ
  pub monotonic : T
  -- `read_model_description`: whether the kind is "coSimulation"
  pub description : Answer Bool
  pub extracts : Bool
  pub instantiates : Bool
  -- from `instantiate` to `exitInitializationMode`, the inputs at the start included
  pub setup : Answer Unit
  -- `doStep` returns
  pub steps : T → T → Bool
  -- `_sample_outputs`, and `_get_values` of the variables that a command names
  pub sampled : Answer V
  -- `_set_values`
  pub set : Answer Unit

pub record Session (T V : Type 0) : Type 0 where
  pub lab : Text
  pub nbf : Option ℤ
  pub exp : Option ℤ
  pub phase : Phase
  pub current_time : T
  pub stop_time : T
  pub step_size : T
  -- the connection's queue and `_pending_queue_drops`
  pub outgoing : Outgoing (Event T V)
  pub attach_deadline : Option ℕ
  pub subscription : Option (Subscription T)
  pub seq : ℕ
  pub pending_samples : List V
  -- a runner task that is not done
  pub runner : Bool
  -- the model description that is loaded: whether it is a coSimulation
  pub model : Option Bool
  pub fmu : Bool
  pub unzipped : Bool
  pub closed : Bool

abbrev pub is_before : ℕ → Option ℤ → Bool
is_before now none = false
is_before now (some n) = ltb_ℤ (pos now) n

abbrev pub is_over : ℕ → Option ℤ → Bool
is_over now none = false
is_over now (some e) = leb_ℤ e (pos now)

-- `ensure_reservation_window`: `none` where it returns, or the status
unfoldable pub window_error : Option ℤ → Option ℤ → ℕ → Option ℕ
window_error nbf exp now =
    if is_before now nbf then some 403 else if is_over now exp then some 401 else none

module _ {T V : Type 0} (size : ℕ) where
  unfoldable pub emit : Event T V → Session T V → Session T V
  unfolding enqueue_event
  emit e s = record s { outgoing = enqueue_event size s.outgoing e }

  -- `_emit_state`
  unfoldable pub emit_state : Session T V → Session T V
  unfolding emit
  emit_state s = emit (state_event s.phase s.current_time) s

-- `attach`, to a connection with this queue
unfoldable pub attach : {T V : Type 0} → List (Event T V) → Session T V → Session T V
attach queue s = record s {
  attach_deadline = none;
  outgoing = record { connection = some queue; drops = s.outgoing.drops };
}

-- `detach`; `grace` is `ws_attach_grace_seconds`
unfoldable pub detach : {T V : Type 0} → ℕ → ℕ → Session T V → Session T V
detach grace now s = record s {
  outgoing = record { connection = none; drops = s.outgoing.drops };
  attach_deadline = some (now + grace);
}

-- `_shutdown_fmu`
unfoldable pub shutdown_fmu : {T V : Type 0} → Session T V → Session T V
shutdown_fmu s = record s { fmu = false; unzipped = false }
