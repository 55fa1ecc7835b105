-- ===== src/Realtime/Slots.antt =====
-- A command, a round of the runner or an end of a session keeps the session sound, and gives its slot
-- back exactly where it closes it.
use lab_gateway.Prelude.{
  ℕ, ◌+◌, ◌≡◌, refl, ap, ◌∙◌, Option, none, some, Bool, true, false, not, if◌then◌else◌, Bool-cases,
  Option-cases, inl, inr, arith,
}
use lab_gateway.Realtime.Session.{
  Engine, Answer, ok, http, crash, unfinished, is_running, World, Session, window_error, Reason,
  client_terminated, emit, emit_state, detach, shutdown_fmu, is_client,
}
use lab_gateway.Realtime.Commands.{Outcome, initialize, ensure_model_loaded}
use lab_gateway.Realtime.Runner.{
  after_step, step_once, run_until, start, resume, reset, terminate, run_round,
}
use lab_gateway.Realtime.Dispatch.{
  Command, session_ping, model_describe, sim_initialize, sim_start, sim_pause, sim_resume,
  sim_reset, sim_step, sim_run_until, sim_set_inputs, sim_get_outputs, sim_get_state,
  sim_subscribe_outputs, sim_unsubscribe_outputs, session_terminate, unsupported, keeps_slot,
  or_time, set_values, asked, sample_outputs, then_sample, subscribe, perform, dispatch,
}
use lab_gateway.Realtime.Frame.{Mode, mode, left, step_once-mode, run_until-mode}
use lab_gateway.Realtime.Sound.{
  is_sound, Fine, same-Fine, off-Fine, loaded-mode, start-Fine, pause-Fine, resume-Fine,
  initialize_with-Stops, reset-Fine,
}

abbrev pub b2n : Bool → ℕ
b2n true = 1
b2n false = 0

-- a step that keeps the session sound, and gives the slot back exactly where it closes the session
pub record Settles (m m' : Mode) (released : Bool) : Type 0 where
  pub sound : is_sound m ≡ true → is_sound m' ≡ true
  pub balanced : b2n released + b2n m.closed ≡ b2n m'.closed

pub Fine-Settles : (m m' : Mode) → Fine m m' → Settles m m' false
Fine-Settles m m' f = record { sound = f.sound; balanced = omega (arith, ap b2n f.kept) }

module _ (engine : Engine) (size grace : ℕ) where
  abbrev S : Type 0
  S = Session engine.Time engine.Sample

  abbrev W : Type 0
  W = World engine.Time engine.Sample

  asked-mode :
      {A : Type 0} → (a : Answer A) (s : S) → mode (left (asked engine size grace a s)) ≡ mode s
  asked-mode (ok _) s = refl
  asked-mode (http code) s = refl
  asked-mode crash s = refl
  asked-mode unfinished s = refl

  guard-mode :
      (b : Bool) (code : ℕ) (s : S) (o : Outcome engine.Time engine.Sample)
      → mode (left o) ≡ mode s
      → mode (left (if b then (s, http code) else o)) ≡ mode s
  guard-mode true code s o h = refl
  guard-mode false code s o h = h

  sample-mode : (w : W) (s : S) → mode (left (sample_outputs engine size grace w s)) ≡ mode s
  sample-mode w s = guard-mode (not s.fmu) 409 s _ (asked-mode w.sampled s)

  set-mode : (w : W) (s : S) → mode (left (set_values engine size grace w s)) ≡ mode s
  set-mode w s = guard-mode (not s.fmu) 409 s _ (asked-mode w.set s)

  then_sample-mode :
      (w : W) (o : Outcome engine.Time engine.Sample)
      → mode (left (then_sample engine size grace w o)) ≡ mode (left o)
  then_sample-mode w (s, ok _) = sample-mode w s
  then_sample-mode w (s, http code) = refl
  then_sample-mode w (s, crash) = refl
  then_sample-mode w (s, unfinished) = refl

  subscribe-mode :
      (n : Option ℕ) (t : engine.Time) (s : S)
      → mode (left (subscribe engine size grace n t s)) ≡ mode s
  subscribe-mode none t s = refl
  subscribe-mode (some n) t s = refl

  pub terminate-Settles :
      (r : Reason) (now : ℕ) (s : S)
      → Settles
          (mode s)
          (mode (terminate engine size grace r now s).0)
          (terminate engine size grace r now s).1
  unfolding terminate detach shutdown_fmu emit is_sound
  terminate-Settles r now s = elim (Bool-cases s.closed) [
    | inl c ↦ rw (terminate, c) (record { sound = λ h. h; balanced = refl })
    | inr c ↦ elim (Bool-cases (is_client r)) [
      | inl i ↦ rw (terminate, c, i) (record { sound = λ h. refl; balanced = refl })
      | inr i ↦ rw (terminate, c, i) (record { sound = λ h. refl; balanced = refl })
    ]
  ]

  ended-Fine :
      (s : S) (o : Outcome engine.Time engine.Sample)
      → mode (left o) ≡ mode s
      → Fine (mode s) (mode (after_step engine size grace o))
  unfolding emit_state emit
  ended-Fine s (t, ok _) h = same-Fine _ _ h
  ended-Fine s (t, http code) h = off-Fine _ _ refl (ap (λ m. m.closed) h)
  ended-Fine s (t, crash) h = off-Fine _ _ refl (ap (λ m. m.closed) h)
  ended-Fine s (t, unfinished) h = same-Fine _ _ h

  pub run_round-Fine : (w : W) (s : S) → Fine (mode s) (mode (run_round engine size grace w s))
  unfolding run_round emit_state emit
  run_round-Fine w s = elim (Bool-cases (is_running s.phase)) [
    | inr p ↦ rw (run_round, p) (off-Fine _ _ refl refl)
    | inl p ↦ elim (Bool-cases (engine.le s.stop_time s.current_time)) [
      | inl e ↦ rw (run_round, p, e) (off-Fine _ _ refl refl)
      | inr e ↦
          rw (run_round, p, e)
            (ended-Fine s (step_once engine size grace w true s.step_size s)
              (step_once-mode engine size grace w true s.step_size s))
    ]
  ]

  kept-Settles :
      (s : S) (o : Outcome engine.Time engine.Sample)
      → Fine (mode s) (mode (left o))
      → Settles
          (mode s)
          (mode (keeps_slot engine size grace o).0)
          (keeps_slot engine size grace o).1
  kept-Settles s (t, a) h = Fine-Settles _ _ h

  perform-Settles :
      (w : W) (c : Command engine size grace) (s : S)
      → Settles
          (mode s)
          (mode (perform engine size grace w c s).0)
          (perform engine size grace w c s).1
  unfolding perform initialize
  perform-Settles w session_ping s = Fine-Settles _ _ (same-Fine _ _ refl)
  perform-Settles w model_describe s =
      kept-Settles s (ensure_model_loaded engine size grace w s)
        (same-Fine _ _ (loaded-mode engine size grace w s))
  perform-Settles w (sim_initialize o) s =
      kept-Settles s (initialize engine size grace w o s)
        (initialize_with-Stops engine size grace w _ _ _ s).fine
  perform-Settles w sim_start s =
      kept-Settles s (start engine size grace w s) (start-Fine engine size grace w s)
  perform-Settles w sim_pause s = Fine-Settles _ _ (pause-Fine engine size grace s)
  perform-Settles w sim_resume s =
      kept-Settles s (resume engine size grace w s) (resume-Fine engine size grace w s)
  perform-Settles w sim_reset s =
      kept-Settles s (reset engine size grace w s) (reset-Fine engine size grace w s)
  perform-Settles w (sim_step delta) s =
      let o = step_once engine size grace w false (or_time engine size grace delta s.step_size) s in
      kept-Settles s (then_sample engine size grace w o)
        (same-Fine _ _ (then_sample-mode w o ∙ step_once-mode engine size grace w false _ s))
  perform-Settles w (sim_run_until target ws) s =
      let o = run_until engine size grace ws (or_time engine size grace target s.current_time) s in
      kept-Settles s (then_sample engine size grace w o)
        (same-Fine _ _ (then_sample-mode w o ∙ run_until-mode engine size grace ws _ s))
  perform-Settles w (sim_set_inputs fits) s =
      kept-Settles s (if not fits then (s, http 400) else set_values engine size grace w s) (
        same-Fine _ _
          (guard-mode (not fits) 400 s (set_values engine size grace w s) (set-mode w s)))
  perform-Settles w (sim_get_outputs fits) s =
      kept-Settles s (if not fits then (s, http 400) else sample_outputs engine size grace w s) (
        same-Fine _ _
          (guard-mode (not fits) 400 s (sample_outputs engine size grace w s) (sample-mode w s)))
  perform-Settles w sim_get_state s = Fine-Settles _ _ (same-Fine _ _ refl)
  perform-Settles w (sim_subscribe_outputs fits most interval) s =
      kept-Settles s
        (if not fits then (s, http 400) else subscribe engine size grace most interval s)
        (same-Fine _ _ (
          guard-mode (not fits) 400 s (subscribe engine size grace most interval s)
            (subscribe-mode most interval s)))
  perform-Settles w sim_unsubscribe_outputs s = Fine-Settles _ _ (same-Fine _ _ refl)
  perform-Settles w session_terminate s = terminate-Settles client_terminated w.now s
  perform-Settles w unsupported s = Fine-Settles _ _ (same-Fine _ _ refl)

  pub dispatch-Settles :
      (w : W) (c : Command engine size grace) (s : S)
      → Settles
          (mode s)
          (mode (dispatch engine size grace w c s).0)
          (dispatch engine size grace w c s).1
  unfolding dispatch
  dispatch-Settles w c s = elim (Option-cases (window_error s.nbf s.exp w.now)) [
    | inl q ↦ rw (dispatch, q) (perform-Settles w c s)
    | inr (code, q) ↦ rw (dispatch, q) (Fine-Settles _ _ (same-Fine _ _ refl))
  ]
