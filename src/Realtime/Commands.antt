-- ===== src/Realtime/Commands.antt =====
-- The commands of a session, of fmu-runner/realtime_ws.py: the methods of `_RealtimeSession`, and the
-- dispatch of `handle_websocket` for a session that is attached. Each answers the state it leaves
-- and what it returns or raises. A command is taken as one step: nothing but the send of
-- "session.closed" in `terminate` waits.
use lab_gateway.Prelude.{ℕ, Option, none, some, Bool, true, false, not, if◌then◌else◌}
use lab_gateway.Prelude.Value.{Value}
use lab_gateway.Realtime.Session.{
  Engine, Answer, ok, http, crash, unfinished, initialized, World, Session, window_error,
  emit_state, shutdown_fmu,
}

abbrev pub Outcome : Type 0 → Type 0 → Type 0
Outcome T V = Session T V × Answer Unit

module _ (engine : Engine) (size grace : ℕ) where
  abbrev S : Type 0
  S = Session engine.Time engine.Sample

  abbrev W : Type 0
  W = World engine.Time engine.Sample

  abbrev Done : Type 0
  Done = Outcome engine.Time engine.Sample

  abbrev done : S → Done
  done s = (s, ok tt)

  abbrev pub then_do : (S → Done) → Done → Done
  then_do f (s, ok _) = f s
  then_do f (s, http code) = (s, http code)
  then_do f (s, crash) = (s, crash)
  then_do f (s, unfinished) = (s, unfinished)

  -- `ensure_reservation_window`, before the rest of an operation
  unfoldable pub in_window : W → S → (S → Done) → Done
  unfolding window_error
  in_window w s rest = elim (window_error s.nbf s.exp w.now) [
    | none ↦ rest s
    | some code ↦ (s, http code)
  ]

  abbrev pub load : S → Answer Bool → Done
  load s (ok kind) = done (record s { model = some kind })
  load s (http code) = (s, http code)
  load s crash = (s, crash)
  load s unfinished = (s, unfinished)

  -- `_ensure_model_loaded`
  unfoldable pub ensure_model_loaded : W → S → Done
  ensure_model_loaded w s = elim s.model [ some _ ↦ done s | none ↦ load s w.description ]

  -- the options of `initialize`
  pub record Options : Type 0 where
    pub start_time : Value
    pub end_time : Value
    pub step : Value

  abbrev coerce_float : Value → engine.Time → engine.Time
  coerce_float v fallback = elim (engine.of_value v) [ none ↦ fallback | some t ↦ t ]

  -- from `instantiate` on
  abbrev pub finish_setup : Answer Unit → S → Done
  finish_setup (ok _) s = done (emit_state size (record s { phase = initialized }))
  finish_setup (http code) s = (s, http code)
  finish_setup crash s = (s, crash)
  finish_setup unfinished s = (s, unfinished)

  unfoldable pub set_up : W → S → Done
  unfolding emit_state shutdown_fmu
  set_up w s =
      if not w.extracts
      then (shutdown_fmu s, crash)
      else if not w.instantiates
      then (record s { fmu = false; unzipped = true }, crash)
      else finish_setup w.setup (record s { fmu = true; unzipped = true })

  unfoldable pub check_times : W → S → Done
  unfolding set_up
  check_times w s =
      if engine.le s.stop_time s.current_time
      then (s, http 400)
      else if engine.le s.step_size engine.zero_time
      then (s, http 400)
      else set_up w s

  -- the times of a session whose model is loaded, with the runner cancelled
  abbrev pub with_times : engine.Time → engine.Time → engine.Time → S → S
  with_times start stop step s = record s {
    runner = false;
    current_time = start;
    stop_time = stop;
    step_size = step;
  }

  abbrev pub is_co_simulation : Option Bool → Bool
  is_co_simulation none = true
  is_co_simulation (some b) = b

  unfoldable pub check_kind : W → engine.Time → engine.Time → engine.Time → S → Done
  unfolding check_times
  check_kind w start stop step s =
      if not (is_co_simulation s.model)
      then (s, http 400)
      else check_times w (with_times start stop step s)

  -- `initialize` with the floats of its options
  unfoldable pub initialize_with : W → engine.Time → engine.Time → engine.Time → S → Done
  unfolding in_window ensure_model_loaded check_kind
  initialize_with w start stop step s =
      in_window w s (λ s1. then_do (check_kind w start stop step) (ensure_model_loaded w s1))

  unfoldable pub initialize : W → Options → S → Done
  unfolding initialize_with
  initialize w o s =
      initialize_with w (coerce_float o.start_time engine.zero_time)
        (coerce_float o.end_time engine.default_stop) (coerce_float o.step engine.default_step) s
