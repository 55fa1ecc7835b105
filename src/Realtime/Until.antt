-- ===== src/Realtime/Until.antt =====
-- "sim.runUntil" ends.
use lab_gateway.Prelude.{
  ℕ, zero, suc, ◌≡◌, refl, ◌∙◌, Bool, true, false, false≢true, List, [], ◌∷◌, length, Bool-cases,
  Option-cases, inl, inr,
}
use lab_gateway.Realtime.Session.{
  Engine, Answer, ok, http, crash, unfinished, World, Session, window_error, emit,
}
use lab_gateway.Realtime.Commands.{Outcome, then_do, in_window}
use lab_gateway.Realtime.Runner.{advance, step_once, run_until}

abbrev is_unfinished : Answer Unit → Bool
is_unfinished unfinished = true
is_unfinished _ = false

module _ (engine : Engine) (size grace : ℕ) where
  abbrev S : Type 0
  S = Session engine.Time engine.Sample

  -- a step returns with the time moved on by `delta`, or it raises
  abbrev Moves : engine.Time → S → Outcome engine.Time engine.Sample → Type 0
  Moves delta s (t, ok _) =
      (t.current_time ≡ engine.add s.current_time delta) × (t.step_size ≡ s.step_size)
  Moves delta s (t, http code) = Unit
  Moves delta s (t, crash) = Unit
  Moves delta s (t, unfinished) = false ≡ true

  advance-Moves :
      (w : World engine.Time engine.Sample) (delta : engine.Time) (s : S)
      → Moves delta s (advance engine size grace w false delta s)
  unfolding advance emit
  advance-Moves w delta s = elim (Bool-cases s.fmu) [
    | inr f ↦ rw (advance, f) tt
    | inl f ↦ elim (Bool-cases (engine.le delta engine.zero_time)) [
      | inl d ↦ rw (advance, f, d) tt
      | inr d ↦ elim (Bool-cases (w.steps s.current_time delta)) [
        | inr t ↦ rw (advance, f, d, t) tt
        | inl t ↦ rw (advance, f, d, t) (refl, refl)
      ]
    ]
  ]

  step_once-Moves :
      (w : World engine.Time engine.Sample) (delta : engine.Time) (s : S)
      → Moves delta s (step_once engine size grace w false delta s)
  unfolding step_once in_window
  step_once-Moves w delta s = elim (Option-cases (window_error s.nbf s.exp w.now)) [
    | inl q ↦ rw (step_once, in_window, q) (advance-Moves w delta s)
    | inr (code, q) ↦ rw (step_once, in_window, q) tt
  ]

  then_do-finished :
      (delta : engine.Time) (s : S) (f : S → Outcome engine.Time engine.Sample)
      (o : Outcome engine.Time engine.Sample)
      → Moves delta s o
      → ((t : S)
          → t.current_time ≡ engine.add s.current_time delta
          → t.step_size ≡ s.step_size
          → is_unfinished (f t).1 ≡ false)
      → is_unfinished (then_do engine size grace f o).1 ≡ false
  then_do-finished delta s f (t, ok _) m h = h t m.0 m.1
  then_do-finished delta s f (t, http code) m h = refl
  then_do-finished delta s f (t, crash) m h = refl
  then_do-finished delta s f (t, unfinished) m h = absurd (false≢true m)

  -- the time that so many steps towards the target lead to
  after_steps : ℕ → (target step : engine.Time) → engine.Time → engine.Time
  after_steps zero target step t = t
  after_steps (suc n) target step t =
      after_steps n target step (engine.add t (engine.least step (engine.sub target t)))

  -- Where the additions of as many steps as the world is given for lead to the target or past it,
  -- whatever the arithmetic of times is, "sim.runUntil" returns or raises within these steps.
  run_until-finished :
      (target step : engine.Time) (ws : List (World engine.Time engine.Sample)) (s : S)
      → s.step_size ≡ step
      → engine.lt (after_steps (length ws) target step s.current_time) target ≡ false
      → is_unfinished (run_until engine size grace ws target s).1 ≡ false
  unfolding run_until after_steps
  run_until-finished target step [] s e h = rw (run_until, h) refl
  run_until-finished target step (w ∷ ws) s e h =
      elim (Bool-cases (engine.lt s.current_time target)) [
        | inr q ↦ rw (run_until, q) refl
        | inl q ↦
            rw (run_until, q)
              (then_do-finished _ s (run_until engine size grace ws target)
                (step_once engine size grace w false
                  (engine.least s.step_size (engine.sub target s.current_time)) s)
                (step_once-Moves w _ s)
                (λ t c z. run_until-finished target step ws t (z ∙ e) (rw (c, e) h)))
      ]
