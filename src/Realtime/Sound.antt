-- ===== src/Realtime/Sound.antt =====
-- A runner that is live has a running session with an FMU: the operations that start, pause and set
-- up keep it so, and none of them closes a session.
use lab_gateway.Prelude.{
  ℕ, ◌≡◌, refl, sym, ap, ◌∙◌, Bool, true, false, not, ◌&&◌, ◌||◌, Bool-cases, Option-cases, inl,
  inr,
}
use lab_gateway.Realtime.Session.{
  Engine, Answer, ok, http, crash, unfinished, is_running, World, Session, window_error, emit,
  emit_state, shutdown_fmu,
}
use lab_gateway.Realtime.Commands.{
  Outcome, then_do, load, finish_setup, with_times, is_co_simulation, check_kind, in_window,
  ensure_model_loaded, check_times, set_up, initialize_with,
}
use lab_gateway.Realtime.Runner.{
  mark_initialized, reinitialize, start_open, start, pause, can_resume, resume, reset,
}
use lab_gateway.Realtime.Frame.{Mode, mode, left}

-- a live runner means a running session with an FMU
unfoldable pub is_sound : Mode → Bool
unfolding is_running
is_sound m = not m.runner || (is_running m.phase && m.fmu)

not-true : (b : Bool) → not b ≡ true → b ≡ false
not-true true h = sym h
not-true false h = refl

-- a step that keeps the session open or closed, and keeps it sound
pub record Fine (m m' : Mode) : Type 0 where
  pub sound : is_sound m ≡ true → is_sound m' ≡ true
  pub kept : m'.closed ≡ m.closed

pub same-Fine : (m m' : Mode) → m' ≡ m → Fine m m'
same-Fine m m' q = record { sound = λ h. rw q h; kept = ap (λ x. x.closed) q }

pub off-Fine : (m m' : Mode) → m'.runner ≡ false → m'.closed ≡ m.closed → Fine m m'
unfolding is_sound
off-Fine m m' q k = record { sound = λ h. rw (is_sound, q) refl; kept = k }

pub trans-Fine : (a b c : Mode) → Fine a b → Fine b c → Fine a c
trans-Fine a b c p q = record { sound = λ h. q.sound (p.sound h); kept = q.kept ∙ p.kept }

module _ (engine : Engine) (size grace : ℕ) where
  abbrev S : Type 0
  S = Session engine.Time engine.Sample

  abbrev W : Type 0
  W = World engine.Time engine.Sample

  pub in_window-Fine :
      (w : W) (s : S) (rest : S → Outcome engine.Time engine.Sample)
      → Fine (mode s) (mode (left (rest s)))
      → Fine (mode s) (mode (left (in_window engine size grace w s rest)))
  unfolding in_window
  in_window-Fine w s rest h = elim (Option-cases (window_error s.nbf s.exp w.now)) [
    | inl q ↦ rw (in_window, q) h
    | inr (code, q) ↦ rw (in_window, q) (same-Fine _ _ refl)
  ]

  load-mode : (s : S) (a : Answer Bool) → mode (left (load engine size grace s a)) ≡ mode s
  load-mode s (ok kind) = refl
  load-mode s (http code) = refl
  load-mode s crash = refl
  load-mode s unfinished = refl

  pub loaded-mode :
      (w : W) (s : S) → mode (left (ensure_model_loaded engine size grace w s)) ≡ mode s
  unfolding ensure_model_loaded
  loaded-mode w s = elim (Option-cases s.model) [
    | inl q ↦ rw (ensure_model_loaded, q) (load-mode s w.description)
    | inr (kind, q) ↦ rw (ensure_model_loaded, q) refl
  ]

  start_open-Fine : (s : S) → Fine (mode s) (mode (left (start_open engine size grace s)))
  unfolding emit_state emit is_sound
  start_open-Fine s = elim (Bool-cases s.fmu) [
    | inr f ↦ rw f (same-Fine _ _ refl)
    | inl f ↦ elim (Bool-cases (is_running s.phase)) [
      | inl p ↦ rw (f, p) (same-Fine _ _ refl)
      | inr p ↦ rw (f, p) (record { sound = λ h. refl; kept = refl })
    ]
  ]

  pub start-Fine : (w : W) (s : S) → Fine (mode s) (mode (left (start engine size grace w s)))
  unfolding start
  start-Fine w s = in_window-Fine w s (start_open engine size grace) (start_open-Fine s)

  pub pause-Fine : (s : S) → Fine (mode s) (mode (pause engine size grace s))
  unfolding pause emit_state emit
  pause-Fine s = elim (Bool-cases (is_running s.phase)) [
    | inl p ↦ rw (pause, p) (off-Fine _ _ refl refl)
    | inr p ↦ rw (pause, p) (same-Fine _ _ refl)
  ]

  pub resume-Fine : (w : W) (s : S) → Fine (mode s) (mode (left (resume engine size grace w s)))
  unfolding resume
  resume-Fine w s = elim (Bool-cases (is_running s.phase)) [
    | inl p ↦ rw (resume, p) (same-Fine _ _ refl)
    | inr p ↦ elim (Bool-cases (can_resume engine size grace s.phase)) [
      | inl c ↦ rw (resume, p, c) (start-Fine w s)
      | inr c ↦ rw (resume, p, c) (same-Fine _ _ refl)
    ]
  ]

  -- a set-up that returns leaves no runner
  abbrev is_quiet : Outcome engine.Time engine.Sample → Bool
  is_quiet (s, ok _) = not s.runner
  is_quiet (s, http code) = true
  is_quiet (s, crash) = true
  is_quiet (s, unfinished) = true

  pub record Stops (m : Mode) (o : Outcome engine.Time engine.Sample) : Type 0 where
    pub fine : Fine m (mode (left o))
    quiet : is_quiet o ≡ true

  off-Stops :
      (m : Mode) (s : S) (a : Answer Unit) → s.runner ≡ false → s.closed ≡ m.closed → Stops m (s, a)
  off-Stops m s (ok _) r k = record { fine = off-Fine _ _ r k; quiet = ap not r }
  off-Stops m s (http code) r k = record { fine = off-Fine _ _ r k; quiet = refl }
  off-Stops m s crash r k = record { fine = off-Fine _ _ r k; quiet = refl }
  off-Stops m s unfinished r k = record { fine = off-Fine _ _ r k; quiet = refl }

  setup-Stops :
      (m : Mode) (s : S) (a : Answer Unit)
      → s.runner ≡ false
      → s.closed ≡ m.closed
      → Stops m (finish_setup engine size grace a s)
  unfolding emit_state emit
  setup-Stops m s (ok _) r k = off-Stops m _ (ok tt) r k
  setup-Stops m s (http code) r k = off-Stops m _ _ r k
  setup-Stops m s crash r k = off-Stops m _ _ r k
  setup-Stops m s unfinished r k = off-Stops m _ _ r k

  set_up-Stops :
      (w : W) (m : Mode) (s : S)
      → s.runner ≡ false
      → s.closed ≡ m.closed
      → Stops m (set_up engine size grace w s)
  unfolding set_up shutdown_fmu
  set_up-Stops w m s r k = elim (Bool-cases w.extracts) [
    | inr e ↦ rw (set_up, e) (off-Stops m _ crash r k)
    | inl e ↦ elim (Bool-cases w.instantiates) [
      | inr i ↦ rw (set_up, e, i) (off-Stops m _ crash r k)
      | inl i ↦ rw (set_up, e, i) (setup-Stops m _ w.setup r k)
    ]
  ]

  check_times-Stops :
      (w : W) (m : Mode) (s : S)
      → s.runner ≡ false
      → s.closed ≡ m.closed
      → Stops m (check_times engine size grace w s)
  unfolding check_times
  check_times-Stops w m s r k = elim (Bool-cases (engine.le s.stop_time s.current_time)) [
    | inl e ↦ rw (check_times, e) (off-Stops m _ (http 400) r k)
    | inr e ↦ elim (Bool-cases (engine.le s.step_size engine.zero_time)) [
      | inl i ↦ rw (check_times, e, i) (off-Stops m _ (http 400) r k)
      | inr i ↦ rw (check_times, e, i) (set_up-Stops w m s r k)
    ]
  ]

  refused-Stops : (s : S) (code : ℕ) → Stops (mode s) (s, http code)
  refused-Stops s code = record { fine = same-Fine _ _ refl; quiet = refl }

  check_kind-Stops :
      (w : W) (a b c : engine.Time) (s : S)
      → Stops (mode s) (check_kind engine size grace w a b c s)
  unfolding check_kind
  check_kind-Stops w a b c s = elim (Bool-cases (is_co_simulation engine size grace s.model)) [
    | inl k ↦
        rw (check_kind, k)
          (check_times-Stops w (mode s) (with_times engine size grace a b c s) refl refl)
    | inr k ↦ rw (check_kind, k) (refused-Stops s 400)
  ]

  then_do-Stops :
      (m : Mode) (f : S → Outcome engine.Time engine.Sample) (o : Outcome engine.Time engine.Sample)
      → Fine m (mode (left o))
      → ((s : S) → Stops (mode s) (f s))
      → Stops m (then_do engine size grace f o)
  then_do-Stops m f (s, ok _) p h = record {
    fine = trans-Fine _ _ _ p (h s).fine;
    quiet = (h s).quiet;
  }
  then_do-Stops m f (s, http code) p h = record { fine = p; quiet = refl }
  then_do-Stops m f (s, crash) p h = record { fine = p; quiet = refl }
  then_do-Stops m f (s, unfinished) p h = record { fine = p; quiet = refl }

  pub initialize_with-Stops :
      (w : W) (a b c : engine.Time) (s : S)
      → Stops (mode s) (initialize_with engine size grace w a b c s)
  unfolding initialize_with in_window
  initialize_with-Stops w a b c s = elim (Option-cases (window_error s.nbf s.exp w.now)) [
    | inl q ↦
        rw (initialize_with, in_window, q)
          (then_do-Stops (mode s) (check_kind engine size grace w a b c)
            (ensure_model_loaded engine size grace w s) (same-Fine _ _ (loaded-mode w s))
            (check_kind-Stops w a b c))
    | inr (code, q) ↦ rw (initialize_with, in_window, q) (refused-Stops s code)
  ]

  mark-Stops :
      (m : Mode) (o : Outcome engine.Time engine.Sample)
      → Stops m o
      → Fine m (mode (left (then_do engine size grace (mark_initialized engine size grace) o)))
  unfolding emit_state emit
  mark-Stops m (s, ok _) h = off-Fine _ _ (not-true s.runner h.quiet) h.fine.kept
  mark-Stops m (s, http code) h = h.fine
  mark-Stops m (s, crash) h = h.fine
  mark-Stops m (s, unfinished) h = h.fine

  then_do-Fine :
      (m : Mode) (f : S → Outcome engine.Time engine.Sample) (o : Outcome engine.Time engine.Sample)
      → Fine m (mode (left o))
      → ((s : S) → Fine (mode s) (mode (left (f s))))
      → Fine m (mode (left (then_do engine size grace f o)))
  then_do-Fine m f (s, ok _) p h = trans-Fine _ _ _ p (h s)
  then_do-Fine m f (s, http code) p h = p
  then_do-Fine m f (s, crash) p h = p
  then_do-Fine m f (s, unfinished) p h = p

  pub reset-Fine : (w : W) (s : S) → Fine (mode s) (mode (left (reset engine size grace w s)))
  unfolding reset
  reset-Fine w s =
      then_do-Fine (mode s) (reinitialize engine size grace w)
        (ensure_model_loaded engine size grace w s) (same-Fine _ _ (loaded-mode w s))
        (λ s1. mark-Stops (mode s1) _ (initialize_with-Stops w _ _ _ s1))
