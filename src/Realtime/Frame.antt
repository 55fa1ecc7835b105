-- ===== src/Realtime/Frame.antt =====
-- What steps and samples leave as it is, and what the set-up does with the runner.
use lab_gateway.Prelude.{
  ℕ, ◌≡◌, refl, ◌∙◌, Bool, false, List, [], ◌∷◌, Bool-cases, Option-cases, inl, inr,
}
use lab_gateway.Realtime.Session.{
  Engine, Answer, ok, http, crash, unfinished, Phase, World, Session, Subscription, window_error,
}
use lab_gateway.Realtime.Commands.{Outcome, then_do, in_window}
use lab_gateway.Realtime.Runner.{
  emit_sample, flush, emit_answer, emit_outputs_if_needed, advance, step_once, run_until,
}

-- what the life of a session is about
pub record Mode : Type 0 where
  pub runner : Bool
  pub phase : Phase
  pub fmu : Bool
  pub closed : Bool

abbrev pub mode : {T V : Type 0} → Session T V → Mode
mode s = record { runner = s.runner; phase = s.phase; fmu = s.fmu; closed = s.closed }

abbrev pub left : {T V : Type 0} → Outcome T V → Session T V
left (s, _) = s

module _ (engine : Engine) (size grace : ℕ) where
  emit_sample-mode :
      (w : World engine.Time engine.Sample) (sub : Subscription engine.Time) (v : engine.Sample)
      (s : Session engine.Time engine.Sample)
      → mode (emit_sample engine size grace w sub v s) ≡ mode s
  unfolding emit_sample flush lab_gateway.Realtime.Session.emit
  emit_sample-mode w sub v s =
      elim (Bool-cases (engine.lt (engine.sub w.monotonic sub.last_emit) sub.min_interval)) [
        | inl q ↦ rw (emit_sample, q) refl
        | inr q ↦ rw (emit_sample, q) refl
      ]

  answer-mode :
      (w : World engine.Time engine.Sample) (sub : Subscription engine.Time)
      (s : Session engine.Time engine.Sample) (a : Answer engine.Sample)
      → mode (left (emit_answer engine size grace w sub s a)) ≡ mode s
  answer-mode w sub s (ok v) = emit_sample-mode w sub v s
  answer-mode w sub s (http code) = refl
  answer-mode w sub s crash = refl
  answer-mode w sub s unfinished = refl

  outputs-mode :
      (w : World engine.Time engine.Sample) (s : Session engine.Time engine.Sample)
      → mode (left (emit_outputs_if_needed engine size grace w s)) ≡ mode s
  unfolding emit_outputs_if_needed
  outputs-mode w s = elim (Option-cases s.subscription) [
    | inl q ↦ rw (emit_outputs_if_needed, q) refl
    | inr (sub, q) ↦ rw (emit_outputs_if_needed, q) (answer-mode w sub s w.sampled)
  ]

  advance-mode :
      (w : World engine.Time engine.Sample) (outputs : Bool) (delta : engine.Time)
      (s : Session engine.Time engine.Sample)
      → mode (left (advance engine size grace w outputs delta s)) ≡ mode s
  unfolding advance lab_gateway.Realtime.Session.emit
  advance-mode w outputs delta s = elim (Bool-cases s.fmu) [
    | inr f ↦ rw (advance, f) refl
    | inl f ↦ elim (Bool-cases (engine.le delta engine.zero_time)) [
      | inl d ↦ rw (advance, f, d) refl
      | inr d ↦ elim (Bool-cases (w.steps s.current_time delta)) [
        | inr t ↦ rw (advance, f, d, t) refl
        | inl t ↦ elim (Bool-cases outputs) [
          | inl o ↦ rw (advance, f, d, t, o) (outputs-mode w _)
          | inr o ↦ rw (advance, f, d, t, o) refl
        ]
      ]
    ]
  ]

  pub step_once-mode :
      (w : World engine.Time engine.Sample) (outputs : Bool) (delta : engine.Time)
      (s : Session engine.Time engine.Sample)
      → mode (left (step_once engine size grace w outputs delta s)) ≡ mode s
  unfolding step_once in_window
  step_once-mode w outputs delta s = elim (Option-cases (window_error s.nbf s.exp w.now)) [
    | inl q ↦ rw (step_once, in_window, q) (advance-mode w outputs delta s)
    | inr (code, q) ↦ rw (step_once, in_window, q) refl
  ]

  then_do-mode :
      (f : Session engine.Time engine.Sample → Outcome engine.Time engine.Sample)
      (o : Outcome engine.Time engine.Sample)
      → ((s : Session engine.Time engine.Sample) → mode (left (f s)) ≡ mode s)
      → mode (left (then_do engine size grace f o)) ≡ mode (left o)
  then_do-mode f (s, ok _) h = h s
  then_do-mode f (s, http code) h = refl
  then_do-mode f (s, crash) h = refl
  then_do-mode f (s, unfinished) h = refl

  pub run_until-mode :
      (ws : List (World engine.Time engine.Sample)) (target : engine.Time)
      (s : Session engine.Time engine.Sample)
      → mode (left (run_until engine size grace ws target s)) ≡ mode s
  unfolding run_until
  run_until-mode [] target s = elim (Bool-cases (engine.lt s.current_time target)) [
    | inl q ↦ rw (run_until, q) refl
    | inr q ↦ rw (run_until, q) refl
  ]
  run_until-mode (w ∷ ws) target s = elim (Bool-cases (engine.lt s.current_time target)) [
    | inl q ↦
        rw (run_until, q)
          (then_do-mode (run_until engine size grace ws target)
              (step_once engine size grace w false _ s) (run_until-mode ws target)
            ∙ step_once-mode w false _ s)
    | inr q ↦ rw (run_until, q) refl
  ]
