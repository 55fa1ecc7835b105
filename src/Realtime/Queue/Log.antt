-- ===== src/Realtime/Queue/Log.antt =====
-- The queue against a log without bound and a position in it.
use lab_gateway.Prelude.{
  ℕ, drop, length-drop, length-append, zero, suc, ◌+◌, ◌-◌, ◌≤◌, ◌<◌, none, some, false, List, [],
  ◌∷◌, ◌++◌, length, ltb, if◌then◌else◌, ◌≡◌, refl, ◌∙◌, arith, Bool-cases, inl, inr,
}
use lab_gateway.Realtime.Queue.{Outgoing, put_nowait, rest_of, enqueue_queue, enqueue_event}

pub data Step (E : Type 0) : Type 0 where
  -- `_enqueue_event`
  enqueue : E → Step E
  -- `_sender_loop` takes an event and sends it
  send : Step E

-- the queue of a connection, the drops, and how many events were sent
pub record Line (E : Type 0) : Type 0 where
  pub queue : List E
  pub drops : ℕ
  pub sent : ℕ

-- all events so far and the position of the next one to send
pub record Log (E : Type 0) : Type 0 where
  pub events : List E
  pub position : ℕ

abbrev send_from : {E : Type 0} → ℕ → ℕ → List E → Line E
send_from n m [] = record { queue = []; drops = n; sent = m }
send_from n m (e ∷ q) = record { queue = q; drops = n; sent = m + 1 }

module _ {E : Type 0} (size : ℕ) where
  abbrev line_of : ℕ → Outgoing E → Line E
  line_of n o = record {
    queue = elim o.connection [ none ↦ [] | some q ↦ q ];
    drops = o.drops;
    sent = n;
  }

  unfoldable pub step : Line E → Step E → Line E
  unfolding enqueue_event
  step l (enqueue e) =
      line_of l.sent (enqueue_event size (record { connection = some l.queue; drops = l.drops }) e)
  step l send = send_from l.drops l.sent l.queue

  unfoldable pub run : Line E → List (Step E) → Line E
  run l [] = l
  run l (s ∷ ss) = run (step l s) ss

  -- an event goes at the end, and where `size` events wait, the position skips one
  unfoldable pub log_step : Log E → Step E → Log E
  log_step a (enqueue e) = record {
    events = a.events ++ (e ∷ []);
    position = if ltb (length a.events - a.position) size then a.position else suc a.position;
  }
  log_step a send = record {
    events = a.events;
    position = if ltb a.position (length a.events) then suc a.position else a.position;
  }

  unfoldable pub log_run : Log E → List (Step E) → Log E
  log_run a [] = a
  log_run a (s ∷ ss) = log_run (log_step a s) ss

-- the queue holds the events from the position on, and the position counts those sent and dropped
pub record Refines {E : Type 0} (size : ℕ) (l : Line E) (a : Log E) : Type 0 where
  pub queued : l.queue ≡ drop a.position a.events
  pub counted : l.drops + l.sent ≡ a.position
  pub reached : a.position ≤ length a.events
  pub bounded : length l.queue ≤ size

drop-append :
    {E : Type 0}
    → (n : ℕ) (es : List E) (e : E) → n ≤ length es
    → drop n (es ++ (e ∷ [])) ≡ drop n es ++ (e ∷ [])
drop-append zero es e h = refl
drop-append (suc n) [] e h = search (arith)
drop-append (suc n) (x ∷ es) e h = drop-append n es e (search (arith))

drop-suc : {E : Type 0} → (n : ℕ) (es : List E) → drop (suc n) es ≡ rest_of (drop n es)
unfolding rest_of
drop-suc zero [] = refl
drop-suc zero (e ∷ es) = refl
drop-suc (suc n) [] = refl
drop-suc (suc n) (e ∷ es) = drop-suc n es

waiting :
    {E : Type 0}
    → (size : ℕ) (l : Line E) (a : Log E) → Refines size l a
    → length l.queue ≡ length a.events - a.position
waiting size l a r = rw r.queued (length-drop a.position a.events)

put-room :
    {E : Type 0}
    → (size : ℕ) (q : List E) (e : E) → length q < size
    → put_nowait size q e ≡ some (q ++ (e ∷ []))
unfolding put_nowait
put-room size q e h = ground (arith, h)

put-full :
    {E : Type 0}
    → (size : ℕ) (q : List E) (e : E) → 1 ≤ size
    → size ≤ length q
    → put_nowait size q e ≡ none
unfolding put_nowait
put-full size q e c1 h = ground (arith, c1, h)

length-rest_of : {E : Type 0} → (q : List E) → length (rest_of q) ≡ length q - 1
unfolding rest_of
length-rest_of [] = omega arith
length-rest_of (e ∷ q) = omega arith

enqueue-room :
    {E : Type 0}
    → (size n : ℕ) (q : List E) (e : E) → length q < size
    → enqueue_queue size n q e ≡ record { connection = some (q ++ (e ∷ [])); drops = n }
unfolding enqueue_queue
enqueue-room size n q e h = rw (enqueue_queue, put-room size q e h) refl

enqueue-full :
    {E : Type 0}
    → (size n : ℕ) (q : List E) (e : E) → 1 ≤ size
    → length q ≡ size
    → enqueue_queue size n q e ≡ record { connection = some (rest_of q ++ (e ∷ [])); drops = n + 1 }
unfolding enqueue_queue
enqueue-full size n q e c1 h =
    rw
      (
        enqueue_queue,
        put-full size q e c1 (search (arith)),
        put-room size (rest_of q) e (search (arith, length-rest_of q)),
      )
      refl

behind :
    {E : Type 0}
    → (size : ℕ) (l : Line E) (a : Log E) → 1 ≤ size
    → Refines size l a
    → ltb (length a.events - a.position) size ≡ false
    → suc a.position ≤ length a.events
behind size l a c1 r q = ground (arith, c1, q, r.reached)

enqueue-Refines :
    {E : Type 0}
    → (size : ℕ) (l : Line E) (a : Log E) (e : E) → 1 ≤ size
    → Refines size l a
    → Refines size (step size l (enqueue e)) (log_step size a (enqueue e))
unfolding step log_step enqueue_event
enqueue-Refines size l a e c1 r = elim (Bool-cases (ltb (length a.events - a.position) size)) [
  | inl q ↦
      rw (q, enqueue-room size l.drops l.queue e (ground (arith, q, waiting size l a r)))
        (record {
          queued = rw (r.queued, drop-append a.position a.events e r.reached) refl;
          counted = r.counted;
          reached = omega (arith, r.reached, length-append a.events (e ∷ []));
          bounded = ground (arith, q, waiting size l a r, length-append l.queue (e ∷ []));
        })
  | inr q ↦
      rw
        (
          q,
          enqueue-full size l.drops l.queue e c1 (ground (arith, q, waiting size l a r, r.bounded)),
        )
        (record {
          queued =
              rw
                (
                  r.queued,
                  ← drop-suc a.position a.events,
                  drop-append (suc a.position) a.events e (behind size l a c1 r q),
                )
                refl;
          counted = omega (arith, r.counted);
          reached = omega (arith, behind size l a c1 r q, length-append a.events (e ∷ []));
          bounded = omega (
            arith,
            c1,
            r.bounded,
            length-append (rest_of l.queue) (e ∷ []),
            length-rest_of l.queue,
          );
        })
]

drop-all : {E : Type 0} → (n : ℕ) (es : List E) → length es ≤ n → drop n es ≡ []
drop-all zero [] h = refl
drop-all zero (e ∷ es) h = search (arith)
drop-all (suc n) [] h = refl
drop-all (suc n) (e ∷ es) h = drop-all n es (search (arith))

send_from-some :
    {E : Type 0}
    → (n m : ℕ) (q : List E) → 1 ≤ length q
    → send_from n m q ≡ record { queue = rest_of q; drops = n; sent = m + 1 }
unfolding rest_of
send_from-some n m [] h = search (arith)
send_from-some n m (e ∷ q) h = refl

send-Refines :
    {E : Type 0}
    → (size : ℕ) (l : Line E) (a : Log E) → Refines size l a
    → Refines size (step size l send) (log_step size a send)
unfolding step log_step
send-Refines size l a r = elim (Bool-cases (ltb a.position (length a.events))) [
  | inl q ↦
      rw (q, send_from-some l.drops l.sent l.queue (ground (arith, q, waiting size l a r)))
        (record {
          queued = rw (r.queued, drop-suc a.position a.events) refl;
          counted = omega (arith, r.counted);
          reached = ground (arith, q);
          bounded = omega (arith, r.bounded, length-rest_of l.queue);
        })
  | inr q ↦
      rw (q, r.queued ∙ drop-all a.position a.events (ground (arith, q)))
        (record {
          queued = rw (drop-all a.position a.events (ground (arith, q))) refl;
          counted = r.counted;
          reached = r.reached;
          bounded = omega arith;
        })
]

step-Refines :
    {E : Type 0}
    → (size : ℕ) (l : Line E) (a : Log E) (s : Step E) → 1 ≤ size
    → Refines size l a
    → Refines size (step size l s) (log_step size a s)
step-Refines size l a (enqueue e) c1 r = enqueue-Refines size l a e c1 r
step-Refines size l a send c1 r = send-Refines size l a r

-- Where a queue has room for an event at least, every sequence of events queued and sent, from a
-- state in which the queue holds what the log has from the position on, ends in such a state again:
-- what the client gets is the log in order, the position counts exactly the events sent and those
-- in `_pending_queue_drops`, an event is skipped only where `size` events wait, and it is the
-- oldest one.
pub run-Refines :
    {E : Type 0}
    → (size : ℕ) (l : Line E) (a : Log E) (ss : List (Step E)) → 1 ≤ size
    → Refines size l a
    → Refines size (run size l ss) (log_run size a ss)
unfolding run log_run
run-Refines size l a [] c1 r = r
run-Refines size l a (s ∷ ss) c1 r =
    run-Refines size (step size l s) (log_step size a s) ss c1 (step-Refines size l a s c1 r)
