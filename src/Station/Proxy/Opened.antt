-- ===== src/Station/Proxy/Opened.antt =====
-- The claims of a connection, from its opening through all that its client and Station send.
use lab_gateway.Prelude.{
  Text, codes, nonempty, text_eq, ◌≡◌, refl, sym, subst, ◌∙◌, Option, none, some, Bool, true, false,
  not, ◌&&◌, ◌==◌, List, [], ◌∷◌, if◌then◌else◌,
}
use lab_gateway.Prelude.{strip}
use lab_gateway.Prelude.Int.{ℤ}
use lab_gateway.Prelude.Value.{clean}
use lab_gateway.Access.{enforce_fmu_claim}
use lab_gateway.Auth.Verify.{Verdict, accepted, refused, raised, extract_token}
use lab_gateway.Realtime.Create.{Fetch}
use lab_gateway.Station.Message.{Item, Dict, get, pop}
use lab_gateway.Station.Proxy.{
  Holder, Out, Pending, State, StationMessage, pending_or_default, is_confirmed, relayed, failure,
  observation_failed,
}
use lab_gateway.Station.Proxy.Reader.{
  relay, refuse_session, accept_session, store_session, receive_created, receive_attached,
  receive_closed, receive,
}
use lab_gateway.Station.Proxy.Create.{Place, request_id}
use lab_gateway.Station.Proxy.Commands.{
  handle, open_token, Opening, listening, closed, open_verified, open_connection,
}
use lab_gateway.Station.Proxy.Enforced.{IsEnforced, left, cache_reply-claims, handle-IsEnforced}

module _ (float_text : Text → Option ℤ) (confirm : Option (Fetch Unit)) where
  relay-claims :
      (id : Text) (m : StationMessage) (s : State)
      → (relay float_text confirm id m s).0.claims ≡ s.claims
  unfolding relay
  relay-claims id m s = cache_reply-claims id (relayed m) s

  if-received :
      (b : Bool) (x y : State × List Out) (o : Option Holder)
      → x.0.claims ≡ o
      → y.0.claims ≡ o
      → (if b then x else y).0.claims ≡ o
  if-received true x y o h k = h
  if-received false x y o h k = k

  if-state :
      (b : Bool) (x y : State) (o : Option Holder)
      → x.claims ≡ o
      → y.claims ≡ o
      → (if b then x else y).claims ≡ o
  if-state true x y o h k = h
  if-state false x y o h k = k

  accept_session-claims :
      (id request_id : Text) (p : Pending) (m : StationMessage) (s : State)
      → (accept_session float_text confirm id request_id p m s).0.claims ≡ s.claims
  unfolding accept_session refuse_session
  accept_session-claims id request_id p m s =
      if-received (not (nonempty id)) _ _ s.claims (relay-claims request_id m s) (
        if-received (nonempty (strip p.session_ticket) && not (is_confirmed confirm)) _ _ s.claims
          (cache_reply-claims request_id (failure observation_failed true) s)
          (relay-claims request_id m (store_session float_text confirm id p m s)))

  receive-claims :
      (o : Option StationMessage) (s : State) → (receive float_text confirm o s).0.claims ≡ s.claims
  unfolding receive receive_created receive_attached receive_closed
  receive-claims none s = refl
  receive-claims (some m) s =
      if-received (text_eq (clean m.kind) (codes "session.created")) _ _ s.claims
        (accept_session-claims (clean m.session_id) (clean m.request_id)
          (pending_or_default (get (clean m.request_id) s.pending) s.claims) m
          (record s { pending = pop (clean m.request_id) s.pending }))
        (if-received (text_eq (clean m.kind) (codes "session.attached")) _ _ s.claims
          (relay-claims (clean m.request_id) m _
            ∙ if-state (nonempty (clean m.session_id)) _ s s.claims refl refl)
          (if-received (text_eq (clean m.kind) (codes "session.closed")) _ _ s.claims
            (relay-claims (clean m.request_id) m _
              ∙ if-state (nonempty (clean m.session_id)) _ s s.claims refl refl)
            (relay-claims (clean m.request_id) m s)))

-- what reaches a connection: a message of the client, or one of Station
pub data Event : Type 0 where
  from_client : Place → Option (Dict Item) → Event
  from_station : (Text → Option ℤ) → Option (Fetch Unit) → Option StationMessage → Event

unfoldable pub after : Event → State → State
unfolding handle receive
after (from_client place m) s = left (handle place m s)
after (from_station float_text confirm m) s = (receive float_text confirm m s).0

unfoldable pub run : List Event → State → State
unfolding after
run [] s = s
run (e ∷ es) s = run es (after e s)

after-IsEnforced : (e : Event) (s : State) → IsEnforced s.claims → IsEnforced (after e s).claims
unfolding after
after-IsEnforced (from_client place m) s h = handle-IsEnforced place m s h
after-IsEnforced (from_station float_text confirm m) s h =
    subst IsEnforced (sym (receive-claims float_text confirm m s)) h

run-IsEnforced : (es : List Event) (s : State) → IsEnforced s.claims → IsEnforced (run es s).claims
unfolding run
run-IsEnforced [] s h = h
run-IsEnforced (e ∷ es) s h = run-IsEnforced es (after e s) (after-IsEnforced e s h)

-- the claims that a connection starts with
abbrev pub started : Opening → Option Holder
started (listening o) = o
started _ = none

if-started :
    (b : Bool) (x y : Opening)
    → ((b ≡ true) → IsEnforced (started x))
    → IsEnforced (started y)
    → IsEnforced (started (if b then x else y))
if-started true x y h k = h refl
if-started false x y h k = k

open_verified-IsEnforced : (v : Verdict Holder) → IsEnforced (started (open_verified v))
unfolding open_verified
open_verified-IsEnforced (accepted h) =
    if-started (enforce_fmu_claim false h.claims) (listening (some h)) _ (λ q. q) tt
open_verified-IsEnforced (refused status) =
    if-started (status == 401) (listening none) _ (λ _. tt) tt
open_verified-IsEnforced raised = tt

open_token-IsEnforced :
    (verify : Text → Verdict Holder) (o : Option Text) → IsEnforced (started (open_token verify o))
unfolding open_token
open_token-IsEnforced verify none = tt
open_token-IsEnforced verify (some token) = open_verified-IsEnforced (verify token)

-- However a connection is opened, and whatever its client and Station then send in any order, the
-- claims that it holds, where it holds any, pass the check of FMU claims.
pub opened-IsEnforced :
    (internal : Bool) (internal_token provided : Text) (authorization : Option Text)
    (verify : Text → Verdict Holder) (es : List Event) (s : State)
    → s.claims ≡ started (open_connection internal internal_token provided authorization verify)
    → IsEnforced (run es s).claims
unfolding open_connection
opened-IsEnforced internal internal_token provided authorization verify es s e =
    run-IsEnforced es s (
      subst IsEnforced (sym e) (
        if-started (internal && nonempty internal_token && not (text_eq provided internal_token))
          closed _ (λ _. tt) (open_token-IsEnforced verify (extract_token authorization))))
