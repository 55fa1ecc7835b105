-- ===== src/Station/Proxy/Elsewhere.antt =====
-- What the proxy does to its table of sessions while one of them is left alone.
use lab_gateway.Prelude.{
  ℕ, Text, codes, nonempty, strip, text_eq, ◌≡◌, refl, sym, ap, ◌∙◌, Option, none, some, Bool, true,
  false, not, ◌&&◌, List, [], ◌∷◌, arith, if◌then◌else◌, Bool-cases, inl, inr,
}
use lab_gateway.Prelude.Int.{ℤ}
use lab_gateway.Prelude.Value.{clean}
use lab_gateway.Realtime.Create.{Fetch}
use lab_gateway.Station.Message.{Dict, get, pop}
use lab_gateway.Station.Entries.{get-set_other, get-pop_other}
use lab_gateway.Station.Proxy.{
  Session, same_option, is_expired, cleanup, State, StationMessage, Pending, Out, relayed,
  cache_reply, Reply, is_confirmed, pending_or_default,
}
use lab_gateway.Station.Proxy.Reader.{
  session_of, store_session, relay, refuse_session, accept_session, receive_created,
  receive_attached, receive_closed, receive,
}

-- Steps of any connections over the shared table: a message of Station's that does not name the
-- session `id` or that neither creates nor closes a session, the removal of another session, as an
-- attach that finds it expired does, and a round of the clean-up before the session expires.
pub data Elsewhere (id : Text) : Dict Session → Dict Session → Type 0 where
  here : {d : Dict Session} → Elsewhere id d d
  message :
      {e : Dict Session} (float_text : Text → Option ℤ) (confirm : Option (Fetch Unit))
      (msg : StationMessage) (s : State)
      → text_eq (clean msg.session_id) id ≡ false
      → Elsewhere id (receive float_text confirm (some msg) s).0.sessions e
      → Elsewhere id s.sessions e
  news :
      {e : Dict Session} (float_text : Text → Option ℤ) (confirm : Option (Fetch Unit))
      (msg : StationMessage) (s : State)
      → text_eq (clean msg.kind) (codes "session.created") ≡ false
      → text_eq (clean msg.kind) (codes "session.closed") ≡ false
      → Elsewhere id (receive float_text confirm (some msg) s).0.sessions e
      → Elsewhere id s.sessions e
  removal :
      {d e : Dict Session} (other : Text)
      → text_eq other id ≡ false
      → Elsewhere id (pop other d) e
      → Elsewhere id d e
  sweep :
      {d e : Dict Session} (now : ℕ) (session : Session)
      → get id d ≡ some session
      → is_expired now session ≡ false
      → Elsewhere id (cleanup now d) e
      → Elsewhere id d e

pub cache_reply-sessions :
    (id : Text) (r : Reply) (s : State) → (cache_reply id r s).sessions ≡ s.sessions
unfolding cache_reply
cache_reply-sessions id r s = elim (Bool-cases (nonempty id)) [
  | inl q ↦ rw q refl
  | inr q ↦ rw q refl
]

get-cleanup :
    (id : Text) (now : ℕ) (session : Session) (d : Dict Session)
    → get id d ≡ some session
    → is_expired now session ≡ false
    → get id (cleanup now d) ≡ some session
unfolding get cleanup
get-cleanup id now session [] h live = h
get-cleanup id now session (e ∷ d) h live = elim (Bool-cases (text_eq e.0 id)) [
  | inl q ↦ ground (arith, get-cleanup id now session d)
  | inr q ↦ ground (arith, get-cleanup id now session d)
]

module _ (float_text : Text → Option ℤ) (confirm : Option (Fetch Unit)) (id : Text) where
  if-get :
      (b : Bool) (x y : State) (o : Option Session)
      → get id x.sessions ≡ o
      → get id y.sessions ≡ o
      → get id (if b then x else y).sessions ≡ o
  if-get true x y o h k = h
  if-get false x y o h k = k

  if-step :
      (b : Bool) (x y : State × List Out) (o : Option Session)
      → get id x.0.sessions ≡ o
      → get id y.0.sessions ≡ o
      → get id (if b then x else y).0.sessions ≡ o
  if-step true x y o h k = h
  if-step false x y o h k = k

  relay-get :
      (request_id : Text) (m : StationMessage) (s : State) (o : Option Session)
      → get id s.sessions ≡ o
      → get id (relay float_text confirm request_id m s).0.sessions ≡ o
  unfolding relay
  relay-get request_id m s o h = rw (cache_reply-sessions request_id (relayed m) s) h

  module _ (m : StationMessage) (other : text_eq (clean m.session_id) id ≡ false) where
    accept_session-other :
        (request_id : Text) (p : Pending) (s : State)
        → get id
            (accept_session float_text confirm (clean m.session_id) request_id p m s).0.sessions
          ≡ get id s.sessions
    unfolding accept_session refuse_session
    accept_session-other request_id p s =
        let session = session_of float_text confirm (clean m.session_id) p.holder m in
        if-step (not (nonempty (clean m.session_id))) (relay float_text confirm request_id m s) _
          (get id s.sessions) (relay-get request_id m s (get id s.sessions) refl)
          (if-step (nonempty (strip p.session_ticket) && not (is_confirmed confirm))
            (refuse_session float_text confirm (clean m.session_id) request_id s)
            (relay float_text confirm request_id m
              (store_session float_text confirm (clean m.session_id) p m s))
            (get id s.sessions) (ap (get id) (cache_reply-sessions request_id _ s))
            (relay-get request_id m (store_session float_text confirm (clean m.session_id) p m s)
              (get id s.sessions) (get-set_other id (clean m.session_id) session s.sessions other)))

    created_other :
        (s : State) → get id (receive_created float_text confirm m s).0.sessions ≡ get id s.sessions
    unfolding receive_created
    created_other s =
        accept_session-other (clean m.request_id)
          (pending_or_default (get (clean m.request_id) s.pending) s.claims)
          (record s { pending = pop (clean m.request_id) s.pending })

    attached_other :
        (s : State)
        → get id (receive_attached float_text confirm m s).0.sessions ≡ get id s.sessions
    unfolding receive_attached
    attached_other s =
        let t = record s { current_session_id = some (clean m.session_id) } in
        relay-get (clean m.request_id) m (if nonempty (clean m.session_id) then t else s)
          (get id s.sessions)
          (if-get (nonempty (clean m.session_id)) t s (get id s.sessions) refl refl)

    closed_other :
        (s : State) → get id (receive_closed float_text confirm m s).0.sessions ≡ get id s.sessions
    unfolding receive_closed
    closed_other s =
        let named = clean m.session_id in
        let t = record s {
          sessions = pop named s.sessions;
          current_session_id =
              if same_option s.current_session_id (some named) then none else s.current_session_id;
        } in
        relay-get (clean m.request_id) m (if nonempty named then t else s) (get id s.sessions) (
          if-get (nonempty named) t s (get id s.sessions) (get-pop_other id named s.sessions other)
            refl)

    receive_other :
        (s : State) → get id (receive float_text confirm (some m) s).0.sessions ≡ get id s.sessions
    unfolding receive
    receive_other s =
        let o = get id s.sessions in
        let attached = receive_attached float_text confirm m s in
        let closed = receive_closed float_text confirm m s in
        let relayed = relay float_text confirm (clean m.request_id) m s in
        let is_closed = text_eq (clean m.kind) (codes "session.closed") in
        let is_attached = text_eq (clean m.kind) (codes "session.attached") in
        let last = if is_closed then closed else relayed in
        if-step (text_eq (clean m.kind) (codes "session.created"))
          (receive_created float_text confirm m s) (if is_attached then attached else last) o
          (created_other s)
          (if-step is_attached attached last o (attached_other s) (
            if-step is_closed closed relayed o (closed_other s)
              (relay-get (clean m.request_id) m s o refl)))

module _ (float_text : Text → Option ℤ) (confirm : Option (Fetch Unit)) (m : StationMessage)
    (s : State) where
  attached_sessions : (receive_attached float_text confirm m s).0.sessions ≡ s.sessions
  unfolding receive_attached relay
  attached_sessions = elim (Bool-cases (nonempty (clean m.session_id))) [
    | inl q ↦ rw q (cache_reply-sessions (clean m.request_id) (relayed m) _)
    | inr q ↦ rw q (cache_reply-sessions (clean m.request_id) (relayed m) s)
  ]

  -- a message that neither creates nor closes a session leaves the table
  receive_news :
      text_eq (clean m.kind) (codes "session.created") ≡ false
      → text_eq (clean m.kind) (codes "session.closed") ≡ false
      → (receive float_text confirm (some m) s).0.sessions ≡ s.sessions
  unfolding receive relay
  receive_news c d = elim (Bool-cases (text_eq (clean m.kind) (codes "session.attached"))) [
    | inl q ↦ rw (receive, c, q) attached_sessions
    | inr q ↦ rw (receive, c, q, d) (cache_reply-sessions (clean m.request_id) (relayed m) s)
  ]

pub Elsewhere-get : (id : Text) (d e : Dict Session) → Elsewhere id d e → get id e ≡ get id d
Elsewhere-get id d e here = refl
Elsewhere-get id d e (message float_text confirm msg s other r) =
    Elsewhere-get id _ e r ∙ receive_other float_text confirm id msg other s
Elsewhere-get id d e (news float_text confirm msg s c h r) =
    Elsewhere-get id _ e r ∙ ap (get id) (receive_news float_text confirm msg s c h)
Elsewhere-get id d e (removal other n r) = Elsewhere-get id _ e r ∙ get-pop_other id other d n
Elsewhere-get id d e (sweep now session h live r) =
    Elsewhere-get id _ e r ∙ get-cleanup id now session d h live ∙ sym h
