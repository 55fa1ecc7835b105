-- ===== src/Realtime/Life.antt =====
-- A session through any sequence of commands, rounds of the runner, clean-ups, attachments and losses
-- of the connection.
use lab_gateway.Prelude.{
  ℕ, ◌+◌, ◌≡◌, refl, Bool, true, false, List, [], ◌∷◌, if◌then◌else◌, Bool-cases, inl, inr, arith,
}
use lab_gateway.Realtime.Session.{
  Engine, Answer, World, Session, Event, is_over, Reason, expired, detached_timeout, attach, detach,
}
use lab_gateway.Realtime.Runner.{terminate, run_round}
use lab_gateway.Realtime.Dispatch.{Command, is_abandoned, dispatch, cleanup}
use lab_gateway.Realtime.Frame.{mode}
use lab_gateway.Realtime.Sound.{is_sound, same-Fine}
use lab_gateway.Realtime.Slots.{
  b2n, Settles, Fine-Settles, terminate-Settles, run_round-Fine, dispatch-Settles,
}

module _ (engine : Engine) (size grace : ℕ) where
  abbrev S : Type 0
  S = Session engine.Time engine.Sample

  abbrev W : Type 0
  W = World engine.Time engine.Sample

  pub data Happening : Type 0 where
    command : W → Command engine size grace → Happening
    runner_round : W → Happening
    cleanup_at : ℕ → Happening
    attached : List (Event engine.Time engine.Sample) → Happening
    detached : ℕ → Happening
    -- `terminate` from outside the commands
    ended : Reason → ℕ → Happening

  abbrev first_two : S × Bool × Answer Unit → S × Bool
  first_two (s, released, _) = (s, released)

  abbrev pub unless : Bool → S → S × Bool → S × Bool
  unless b s o = if b then (s, false) else o

  -- what happens, and whether the slot was given back
  unfoldable pub happen : Happening → S → S × Bool
  unfolding dispatch run_round cleanup attach detach terminate
  happen (command w c) s = first_two (dispatch engine size grace w c s)
  happen (runner_round w) s = (if s.runner then run_round engine size grace w s else s, false)
  happen (cleanup_at now) s = unless s.closed s (cleanup engine size grace now s)
  happen (attached queue) s = (attach queue s, false)
  happen (detached now) s = (detach grace now s, false)
  happen (ended reason now) s = terminate engine size grace reason now s

  abbrev counted : (S → S × ℕ) → S × Bool → S × ℕ
  counted f (s, released) = ((f s).0, b2n released + (f s).1)

  -- the end of a sequence, and how often the slot was given back
  unfoldable pub live : List Happening → S → S × ℕ
  unfolding happen
  live [] s = (s, 0)
  live (h ∷ hs) s = counted (live hs) (happen h s)

  guard-Settles :
      (b : Bool) (s : S) (o : S × Bool)
      → Settles (mode s) (mode o.0) o.1
      → Settles (mode s) (mode (unless b s o).0) (unless b s o).1
  guard-Settles true s o h = Fine-Settles _ _ (same-Fine _ _ refl)
  guard-Settles false s o h = h

  running-Settles :
      (b : Bool) (s t : S)
      → Settles (mode s) (mode t) false
      → Settles (mode s) (mode (if b then t else s)) false
  running-Settles true s t h = h
  running-Settles false s t h = Fine-Settles _ _ (same-Fine _ _ refl)

  cleanup-Settles :
      (now : ℕ) (s : S)
      → Settles
          (mode s)
          (mode (cleanup engine size grace now s).0)
          (cleanup engine size grace now s).1
  unfolding cleanup
  cleanup-Settles now s = elim (Bool-cases (is_over now s.exp)) [
    | inl a ↦ rw (cleanup, a) (terminate-Settles engine size grace expired now s)
    | inr a ↦ elim (Bool-cases (is_abandoned now s.outgoing.connection s.attach_deadline)) [
      | inl b ↦ rw (cleanup, a, b) (terminate-Settles engine size grace detached_timeout now s)
      | inr b ↦ rw (cleanup, a, b) (Fine-Settles _ _ (same-Fine _ _ refl))
    ]
  ]

  happen-Settles : (h : Happening) (s : S) → Settles (mode s) (mode (happen h s).0) (happen h s).1
  unfolding happen attach detach
  happen-Settles (command w c) s = dispatch-Settles engine size grace w c s
  happen-Settles (runner_round w) s =
      running-Settles s.runner s _ (Fine-Settles _ _ (run_round-Fine engine size grace w s))
  happen-Settles (cleanup_at now) s =
      guard-Settles s.closed s (cleanup engine size grace now s) (cleanup-Settles now s)
  happen-Settles (attached queue) s = Fine-Settles _ _ (same-Fine _ _ refl)
  happen-Settles (detached now) s = Fine-Settles _ _ (same-Fine _ _ refl)
  happen-Settles (ended reason now) s = terminate-Settles engine size grace reason now s

  -- Through any sequence of commands, rounds of the runner, clean-ups, attachments, losses of the
  -- connection and ends from outside: where a session starts without a runner, or running with an
  -- FMU, a runner that is live at the end has a session in the state "running" with an FMU loaded.
  pub live-is_sound :
      (hs : List Happening) (s : S)
      → is_sound (mode s) ≡ true
      → is_sound (mode (live hs s).0) ≡ true
  unfolding live
  live-is_sound [] s h = h
  live-is_sound (e ∷ hs) s h = live-is_sound hs (happen e s).0 ((happen-Settles e s).sound h)

  -- Through any such sequence the slot is given back once where an open session ends closed, and
  -- never otherwise: not by a second "session.terminate", not by the clean-up of a session that is
  -- closed; and `_closed` never goes back. An operation is one step here, `terminate` included.
  pub live-releases :
      (hs : List Happening) (s : S) → (live hs s).1 + b2n s.closed ≡ b2n (live hs s).0.closed
  unfolding live
  live-releases [] s = omega arith
  live-releases (e ∷ hs) s =
      omega (arith, (happen-Settles e s).balanced, live-releases hs (happen e s).0)
