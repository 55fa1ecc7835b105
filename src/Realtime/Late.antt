-- ===== src/Realtime/Late.antt =====
-- A session whose reservation is over.
use lab_gateway.Prelude.{
  ℕ, ◌≡◌, refl, ◌∙◌, Option, some, Bool, true, false, List, [], ◌∷◌, All, if◌then◌else◌, Bool-cases,
  inl, inr,
}
use lab_gateway.Prelude.Int.{ℤ, pos, leb_ℤ}
use lab_gateway.Realtime.Session.{
  Engine, http, is_running, World, Session, is_before, is_over, window_error, Reason, expired,
  detached_timeout, is_client, emit, emit_state, attach, detach, shutdown_fmu,
}
use lab_gateway.Realtime.Commands.{in_window}
use lab_gateway.Realtime.Runner.{step_once, terminate, run_round}
use lab_gateway.Realtime.Dispatch.{Command, is_abandoned, dispatch, cleanup}
use lab_gateway.Realtime.Life.{
  Happening, command, runner_round, cleanup_at, attached, detached, ended, unless, happen, live,
}

error-late :
    (nbf : Option ℤ) (e : ℤ) (now : ℕ)
    → leb_ℤ e (pos now) ≡ true
    → (code : ℕ) × (window_error nbf (some e) now ≡ some code)
unfolding window_error
error-late nbf e now h = elim (Bool-cases (is_before now nbf)) [
  | inl q ↦ (403, rw (window_error, q) refl)
  | inr q ↦ (401, rw (window_error, q, h) refl)
]

module _ (engine : Engine) (size grace : ℕ) where
  abbrev S : Type 0
  S = Session engine.Time engine.Sample

  -- a command or a round of the runner at or after `e`
  abbrev pub is_late : ℤ → Happening engine size grace → Bool
  is_late e (command w c) = leb_ℤ e (pos w.now)
  is_late e (runner_round w) = leb_ℤ e (pos w.now)
  is_late e _ = true

  -- the simulation time and the end of the reservation are the same
  record Rests (s t : S) : Type 0 where
    time : t.current_time ≡ s.current_time
    until : t.exp ≡ s.exp
    window : t.nbf ≡ s.nbf

  refl-Rests : (s : S) → Rests s s
  refl-Rests s = record { time = refl; until = refl; window = refl }

  terminate-Rests : (r : Reason) (now : ℕ) (s : S) → Rests s (terminate engine size grace r now s).0
  unfolding terminate detach shutdown_fmu emit
  terminate-Rests r now s = elim (Bool-cases s.closed) [
    | inl c ↦ rw (terminate, c) (record { time = refl; until = refl; window = refl })
    | inr c ↦ elim (Bool-cases (is_client r)) [
      | inl i ↦ rw (terminate, c, i) (record { time = refl; until = refl; window = refl })
      | inr i ↦ rw (terminate, c, i) (record { time = refl; until = refl; window = refl })
    ]
  ]

  cleanup-Rests : (now : ℕ) (s : S) → Rests s (cleanup engine size grace now s).0
  unfolding cleanup
  cleanup-Rests now s = elim (Bool-cases (is_over now s.exp)) [
    | inl a ↦ rw (cleanup, a) (terminate-Rests expired now s)
    | inr a ↦ elim (Bool-cases (is_abandoned now s.outgoing.connection s.attach_deadline)) [
      | inl b ↦ rw (cleanup, a, b) (terminate-Rests detached_timeout now s)
      | inr b ↦ rw (cleanup, a, b) (refl-Rests s)
    ]
  ]

  unless-Rests :
      (b : Bool) (s : S) (o : S × Bool) → Rests s o.0 → Rests s (unless engine size grace b s o).0
  unless-Rests true s o h = refl-Rests s
  unless-Rests false s o h = h

  step_once-late :
      (w : World engine.Time engine.Sample) (s : S) (code : ℕ)
      → window_error s.nbf s.exp w.now ≡ some code
      → step_once engine size grace w true s.step_size s ≡ (s, http code)
  unfolding step_once in_window
  step_once-late w s code q = rw (step_once, in_window, q) refl

  round-Rests :
      (w : World engine.Time engine.Sample) (s : S) (code : ℕ)
      → window_error s.nbf s.exp w.now ≡ some code
      → Rests s (run_round engine size grace w s)
  unfolding run_round emit_state emit
  round-Rests w s code q = elim (Bool-cases (is_running s.phase)) [
    | inr p ↦ rw (run_round, p) (record { time = refl; until = refl; window = refl })
    | inl p ↦ elim (Bool-cases (engine.le s.stop_time s.current_time)) [
      | inl e ↦ rw (run_round, p, e) (record { time = refl; until = refl; window = refl })
      | inr e ↦
          rw (run_round, p, e, step_once-late w s code q)
            (record { time = refl; until = refl; window = refl })
    ]
  ]

  dispatch-Rests :
      (w : World engine.Time engine.Sample) (c : Command engine size grace) (s : S) (code : ℕ)
      → window_error s.nbf s.exp w.now ≡ some code
      → Rests s (dispatch engine size grace w c s).0
  unfolding dispatch
  dispatch-Rests w c s code q = rw (dispatch, q) (refl-Rests s)

  either-Rests : (b : Bool) (s t : S) → Rests s t → Rests s (if b then t else s)
  either-Rests true s t h = h
  either-Rests false s t h = refl-Rests s

  happen-Rests :
      (h : Happening engine size grace) (e : ℤ) (s : S)
      → s.exp ≡ some e
      → is_late e h ≡ true
      → Rests s (happen engine size grace h s).0
  unfolding happen attach detach
  happen-Rests (command w c) e s x l =
      let (code, q) = error-late s.nbf e w.now l in dispatch-Rests w c s code (rw x q)
  happen-Rests (runner_round w) e s x l =
      let (code, q) = error-late s.nbf e w.now l in
      either-Rests s.runner s _ (round-Rests w s code (rw x q))
  happen-Rests (cleanup_at now) e s x l =
      unless-Rests s.closed s (cleanup engine size grace now s) (cleanup-Rests now s)
  happen-Rests (attached queue) e s x l = record { time = refl; until = refl; window = refl }
  happen-Rests (detached now) e s x l = record { time = refl; until = refl; window = refl }
  happen-Rests (ended reason now) e s x l = terminate-Rests reason now s

  -- Where the token of a session has an end, and every command and every round of the runner comes at
  -- that time or later, the simulation time stays what it was, whatever the commands are, and also
  -- with clean-ups, attachments, losses of the connection and ends from outside between them.
  pub live-late :
      (hs : List (Happening engine size grace)) (e : ℤ) (s : S)
      → s.exp ≡ some e
      → All (λ h. is_late e h ≡ true) hs
      → (live engine size grace hs s).0.current_time ≡ s.current_time
  unfolding live
  live-late [] e s x l = refl
  live-late (h ∷ hs) e s x (l, ls) =
      let r = happen-Rests h e s x l in
      live-late hs e (happen engine size grace h s).0 (r.until ∙ x) ls ∙ r.time
