-- ===== src/Realtime/Queue.antt =====
-- The event queue of a connection, of fmu-runner/realtime_ws.py: `_enqueue_event` and what
-- `_sender_loop` takes from the queue. `asyncio.Queue` is a list, oldest event first.
pub mod Log
use lab_gateway.Prelude.{
  ℕ, ◌+◌, Option, none, some, List, [], ◌∷◌, ◌++◌, length, ltb, if◌then◌else◌, ◌==◌, ◌||◌,
}

-- `connection` is the queue of the connection that is attached; `drops` is `_pending_queue_drops`
pub record Outgoing (E : Type 0) : Type 0 where
  pub connection : Option (List E)
  pub drops : ℕ

-- `put_nowait`: `none` is QueueFull, and a queue of size 0 has no bound
unfoldable pub put_nowait : {E : Type 0} → ℕ → List E → E → Option (List E)
put_nowait size q e = if size == 0 || ltb (length q) size then some (q ++ (e ∷ [])) else none

-- `get_nowait`, the exception left out
unfoldable pub rest_of : {E : Type 0} → List E → List E
rest_of [] = []
rest_of (e ∷ q) = q

-- the second `put_nowait`
abbrev put_again : {E : Type 0} → List E → ℕ → Option (List E) → Outgoing E
put_again q n none = record { connection = some q; drops = n + 1 }
put_again q n (some q') = record { connection = some q'; drops = n }

unfoldable pub enqueue_queue : {E : Type 0} → ℕ → ℕ → List E → E → Outgoing E
unfolding put_nowait rest_of
enqueue_queue size n q e = elim (put_nowait size q e) [
  | some q' ↦ record { connection = some q'; drops = n }
  | none ↦ put_again (rest_of q) (n + 1) (put_nowait size (rest_of q) e)
]

-- `_enqueue_event`
unfoldable pub enqueue_event : {E : Type 0} → ℕ → Outgoing E → E → Outgoing E
unfolding enqueue_queue
enqueue_event size o e = elim o.connection [ none ↦ o | some q ↦ enqueue_queue size o.drops q e ]
