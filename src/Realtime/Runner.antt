-- ===== src/Realtime/Runner.antt =====
-- Steps, the runner, and how it starts, pauses and ends, of `_RealtimeSession` in
-- fmu-runner/realtime_ws.py.
use lab_gateway.Prelude.{
  ℕ, ◌+◌, ◌-◌, none, some, Bool, true, false, not, List, [], ◌∷◌, ◌++◌, length, drop, if◌then◌else◌,
}
use lab_gateway.Realtime.Session.{
  Engine, Answer, ok, http, crash, unfinished, Phase, initialized, running, paused, stopped, failed,
  is_running, Reason, is_client, progress_event, outputs_event, closed_event, Subscription, World,
  Session, emit, emit_state, detach, shutdown_fmu,
}
use lab_gateway.Realtime.Commands.{
  then_do, in_window, initialize_with, ensure_model_loaded, Outcome,
}

module _ (engine : Engine) (size grace : ℕ) where
  abbrev S : Type 0
  S = Session engine.Time engine.Sample

  abbrev W : Type 0
  W = World engine.Time engine.Sample

  abbrev Done : Type 0
  Done = Outcome engine.Time engine.Sample

  abbrev done : S → Done
  done s = (s, ok tt)

  -- the samples that are kept, and how many went
  abbrev overflow : ℕ → List engine.Sample → ℕ
  overflow most vs = length vs - most

  -- `sim.outputs`, with the newest sample
  unfoldable pub flush : W → Subscription engine.Time → engine.Sample → S → S
  unfolding emit
  flush w sub v s =
      emit size
        (outputs_event s.seq (sub.rate_dropped + s.outgoing.drops) (length s.pending_samples)
          s.current_time v)
        (record s {
          seq = s.seq + 1;
          pending_samples = [];
          subscription = some (record sub { rate_dropped = 0; last_emit = w.monotonic });
          outgoing = record { connection = s.outgoing.connection; drops = 0 };
        })

  -- the sample joins those that wait, and the oldest go where they are too many
  abbrev add_sample : Subscription engine.Time → engine.Sample → S → S
  add_sample sub v s = record s {
    pending_samples =
        drop (overflow sub.max_batch_size (s.pending_samples ++ (v ∷ [])))
          (s.pending_samples ++ (v ∷ []));
    subscription = some (record sub {
      rate_dropped = sub.rate_dropped + overflow sub.max_batch_size (s.pending_samples ++ (v ∷ []));
    });
  }

  unfoldable pub emit_sample : W → Subscription engine.Time → engine.Sample → S → S
  unfolding flush
  emit_sample w sub v s =
      let dropped =
        sub.rate_dropped + overflow sub.max_batch_size (s.pending_samples ++ (v ∷ [])) in
      if engine.lt (engine.sub w.monotonic sub.last_emit) sub.min_interval
      then record (add_sample sub v s) {
        subscription = some (record sub { rate_dropped = dropped + 1 });
      }
      else flush w (record sub { rate_dropped = dropped }) v (add_sample sub v s)

  abbrev pub emit_answer : W → Subscription engine.Time → S → Answer engine.Sample → Done
  emit_answer w sub s (ok v) = done (emit_sample w sub v s)
  emit_answer w sub s (http code) = (s, http code)
  emit_answer w sub s crash = (s, crash)
  emit_answer w sub s unfinished = (s, unfinished)

  -- `_emit_outputs_if_needed`, which every caller calls without `force`
  unfoldable pub emit_outputs_if_needed : W → S → Done
  unfolding emit_sample
  emit_outputs_if_needed w s = elim s.subscription [
    | none ↦ done s
    | some sub ↦ emit_answer w sub s w.sampled
  ]

  -- `_step_once` after its window check
  unfoldable pub advance : W → Bool → engine.Time → S → Done
  unfolding emit emit_outputs_if_needed
  advance w outputs delta s =
      let after =
        emit size (progress_event (engine.add s.current_time delta))
          (record s { current_time = engine.add s.current_time delta }) in
      if not s.fmu
      then (s, http 409)
      else if engine.le delta engine.zero_time
      then (s, http 400)
      else if not (w.steps s.current_time delta)
      then (s, crash)
      else if outputs
      then emit_outputs_if_needed w after
      else done after

  unfoldable pub step_once : W → Bool → engine.Time → S → Done
  unfolding in_window advance
  step_once w outputs delta s = in_window engine size grace w s (advance w outputs delta)

  -- `run_until`, with the world at each step
  unfoldable pub run_until : List W → engine.Time → S → Done
  unfolding step_once
  run_until [] target s = if engine.lt s.current_time target then (s, unfinished) else done s
  run_until (w ∷ ws) target s =
      if not (engine.lt s.current_time target)
      then done s
      else then_do engine size grace (run_until ws target)
          (step_once w false (engine.least s.step_size (engine.sub target s.current_time)) s)

  abbrev pub start_open : S → Done
  start_open s =
      if not s.fmu
      then (s, http 409)
      else if is_running s.phase
      then done s
      else done (record (emit_state size (record s { phase = running })) { runner = true })

  unfoldable pub start : W → S → Done
  unfolding in_window
  start w s = in_window engine size grace w s start_open

  unfoldable pub pause : S → S
  unfolding emit_state
  pause s =
      if is_running s.phase
      then emit_state size (record s { runner = false; phase = paused })
      else s

  abbrev pub can_resume : Phase → Bool
  can_resume paused = true
  can_resume initialized = true
  can_resume _ = false

  unfoldable pub resume : W → S → Done
  unfolding start is_running
  resume w s =
      if is_running s.phase
      then done s
      else if not (can_resume s.phase)
      then (s, http 409)
      else start w s

  abbrev or_default : engine.Time → engine.Time → engine.Time
  or_default t default = if engine.lt engine.zero_time t then t else default

  abbrev pub mark_initialized : S → Done
  mark_initialized s = done (emit_state size (record s { phase = initialized }))

  abbrev pub reinitialize : W → S → Done
  reinitialize w s = then_do engine size grace mark_initialized (
      initialize_with engine size grace w engine.zero_time
        (or_default s.stop_time engine.default_stop) (or_default s.step_size engine.default_step) s)

  unfoldable pub reset : W → S → Done
  unfolding ensure_model_loaded initialize_with emit_state
  reset w s = then_do engine size grace (reinitialize w) (ensure_model_loaded engine size grace w s)

  -- `terminate`, and whether it called `release_slot`
  unfoldable pub terminate : Reason → ℕ → S → S × Bool
  unfolding detach shutdown_fmu emit
  terminate reason now s =
      let after = record (shutdown_fmu (detach grace now (record s { runner = false }))) {
        phase = stopped;
        closed = true;
      } in
      if s.closed
      then (s, false)
      else (if is_client reason then emit size (closed_event reason) after else after, true)

  -- what the loop makes of the end of a step
  abbrev pub after_step : Done → S
  after_step (s, ok _) = s
  after_step (s, http _) = emit_state size (record s { phase = failed; runner = false })
  after_step (s, crash) = emit_state size (record s { phase = failed; runner = false })
  after_step (s, unfinished) = s

  -- one round of `_run_loop`
  unfoldable pub run_round : W → S → S
  unfolding step_once emit_state
  run_round w s =
      if not (is_running s.phase)
      then record s { runner = false }
      else if engine.le s.stop_time s.current_time
      then emit_state size (record s { phase = stopped; runner = false })
      else after_step (step_once w true s.step_size s)
