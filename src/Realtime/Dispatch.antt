-- ===== src/Realtime/Dispatch.antt =====
-- The dispatch of `handle_websocket` in fmu-runner/realtime_ws.py, for a command with a session.
use lab_gateway.Prelude.{ℕ, Option, none, some, Bool, false, not, List, [], max, leb, if◌then◌else◌}
use lab_gateway.Realtime.Session.{
  Engine, Answer, ok, http, crash, unfinished, client_terminated, expired, detached_timeout, World,
  Session, window_error, is_over,
}
use lab_gateway.Realtime.Commands.{Options, Outcome, ensure_model_loaded, initialize}
use lab_gateway.Realtime.Runner.{step_once, run_until, start, pause, resume, reset, terminate}

pub data Command (engine : Engine) (size grace : ℕ) : Type 0 where
  session_ping : Command engine size grace
  model_describe : Command engine size grace
  sim_initialize : Options engine size grace → Command engine size grace
  sim_start : Command engine size grace
  sim_pause : Command engine size grace
  sim_resume : Command engine size grace
  sim_reset : Command engine size grace
  -- `deltaT` as a float, where it is one and not 0
  sim_step : Option engine.Time → Command engine size grace
  sim_run_until :
      Option engine.Time → List (World engine.Time engine.Sample) → Command engine size grace
  -- whether `values` is an object
  sim_set_inputs : Bool → Command engine size grace
  -- whether `variables` is a list or missing
  sim_get_outputs : Bool → Command engine size grace
  sim_get_state : Command engine size grace
  -- whether `variables` is a list or missing, `int(maxBatchSize)` where it does not raise, and the
  -- interval of the new subscription
  sim_subscribe_outputs : Bool → Option ℕ → engine.Time → Command engine size grace
  sim_unsubscribe_outputs : Command engine size grace
  session_terminate : Command engine size grace
  -- answered by an INVALID_COMMAND as for the status 400
  unsupported : Command engine size grace

-- no connection, and the time to attach one is over
abbrev pub is_abandoned : {E : Type 0} → ℕ → Option E → Option ℕ → Bool
is_abandoned now none (some d) = leb d now
is_abandoned _ _ _ = false

module _ (engine : Engine) (size grace : ℕ) where
  abbrev S : Type 0
  S = Session engine.Time engine.Sample

  abbrev W : Type 0
  W = World engine.Time engine.Sample

  -- what a command leaves, whether it called `release_slot`, and how it ends
  abbrev Reply : Type 0
  Reply = S × Bool × Answer Unit

  abbrev pub keeps_slot : Outcome engine.Time engine.Sample → Reply
  keeps_slot (s, a) = (s, false, a)

  -- a call of the FMU that leaves the session as it is
  abbrev pub asked : {A : Type 0} → Answer A → S → Outcome engine.Time engine.Sample
  asked (ok _) s = (s, ok tt)
  asked (http code) s = (s, http code)
  asked crash s = (s, crash)
  asked unfinished s = (s, unfinished)

  -- `_sample_outputs`
  abbrev pub sample_outputs : W → S → Outcome engine.Time engine.Sample
  sample_outputs w s = if not s.fmu then (s, http 409) else asked w.sampled s

  -- `_set_values`
  abbrev pub set_values : W → S → Outcome engine.Time engine.Sample
  set_values w s = if not s.fmu then (s, http 409) else asked w.set s

  -- the answer of a step, with the outputs sampled after it
  abbrev pub then_sample : W → Outcome engine.Time engine.Sample → Outcome engine.Time engine.Sample
  then_sample w (s, ok _) = sample_outputs w s
  then_sample w (s, http code) = (s, http code)
  then_sample w (s, crash) = (s, crash)
  then_sample w (s, unfinished) = (s, unfinished)

  abbrev pub or_time : Option engine.Time → engine.Time → engine.Time
  or_time none t = t
  or_time (some t) _ = t

  abbrev pub subscribe : Option ℕ → engine.Time → S → Outcome engine.Time engine.Sample
  subscribe none interval s = (s, crash)
  subscribe (some most) interval s = (
    record s {
      subscription = some (record {
        max_batch_size = max 1 most;
        min_interval = interval;
        last_emit = engine.zero_time;
        rate_dropped = 0;
      });
    },
    ok tt,
  )

  abbrev closing : S × Bool → Reply
  closing (s, released) = (s, released, ok tt)

  unfoldable pub perform : W → Command engine size grace → S → Reply
  unfolding ensure_model_loaded initialize start pause resume reset step_once run_until terminate
  perform w session_ping s = (s, false, ok tt)
  perform w model_describe s = keeps_slot (ensure_model_loaded engine size grace w s)
  perform w (sim_initialize o) s = keeps_slot (initialize engine size grace w o s)
  perform w sim_start s = keeps_slot (start engine size grace w s)
  perform w sim_pause s = (pause engine size grace s, false, ok tt)
  perform w sim_resume s = keeps_slot (resume engine size grace w s)
  perform w sim_reset s = keeps_slot (reset engine size grace w s)
  perform w (sim_step delta) s =
      keeps_slot (then_sample w (step_once engine size grace w false (or_time delta s.step_size) s))
  perform w (sim_run_until target ws) s =
      keeps_slot (then_sample w (run_until engine size grace ws (or_time target s.current_time) s))
  perform w (sim_set_inputs fits) s =
      keeps_slot (if not fits then (s, http 400) else set_values w s)
  perform w (sim_get_outputs fits) s =
      keeps_slot (if not fits then (s, http 400) else sample_outputs w s)
  perform w sim_get_state s = (s, false, ok tt)
  perform w (sim_subscribe_outputs fits most interval) s =
      keeps_slot (if not fits then (s, http 400) else subscribe most interval s)
  perform w sim_unsubscribe_outputs s =
      (record s { subscription = none; pending_samples = [] }, false, ok tt)
  perform w session_terminate s = closing (terminate engine size grace client_terminated w.now s)
  perform w unsupported s = (s, false, http 400)

  -- the window check that comes before every command
  unfoldable pub dispatch : W → Command engine size grace → S → Reply
  unfolding perform
  dispatch w c s = elim (window_error s.nbf s.exp w.now) [
    | none ↦ perform w c s
    | some code ↦ (s, false, http code)
  ]

  -- what `_cleanup_loop` does to a session that is not closed, and whether the slot was given back;
  -- the time is in whole seconds, rounded down
  unfoldable pub cleanup : ℕ → S → S × Bool
  unfolding terminate
  cleanup now s =
      if is_over now s.exp
      then terminate engine size grace expired now s
      else if is_abandoned now s.outgoing.connection s.attach_deadline
      then terminate engine size grace detached_timeout now s
      else (s, false)
