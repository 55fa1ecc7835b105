-- ===== src/Station/Proxy/Reader.antt =====
-- `_station_reader` of fmu-runner/station_ws_proxy.py: what the proxy does with a message of
-- Station's.
use lab_gateway.Prelude.{
  Text, codes, nonempty, strip, text_eq, Option, none, some, true, not, ◌&&◌, List, [], ◌∷◌,
  if◌then◌else◌,
}
use lab_gateway.Prelude.Int.{ℤ}
use lab_gateway.Prelude.Value.{clean}
use lab_gateway.Access.{normalize_lab_id, coerce_epoch_seconds}
use lab_gateway.Station.Message.{get, set_item, pop}
use lab_gateway.Realtime.Create.{Fetch}
use lab_gateway.Station.Proxy.{
  Holder, Session, holder_file, same_option, StationMessage, failure, relayed, Out, to_client,
  terminate, Pending, State, cache_reply, pending_or_default, is_confirmed, first_epoch,
  observation_failed, internal_error,
}

-- `float_text` reads a number in a text, and `confirm` is what `confirm_session_started` answers
module _ (float_text : Text → Option ℤ) (confirm : Option (Fetch Unit)) where
  unfoldable pub session_of : Text → Holder → StationMessage → Session
  unfolding normalize_lab_id holder_file coerce_epoch_seconds
  session_of id h m = record {
    session_id = id;
    holder = h;
    lab_id = normalize_lab_id h.claims.lab_id;
    access_key = holder_file h;
    exp =
        first_epoch (coerce_epoch_seconds float_text m.expires_at)
          (coerce_epoch_seconds float_text h.claims.exp);
  }

  -- the message goes on to the client
  unfoldable pub relay : Text → StationMessage → State → State × List Out
  unfolding cache_reply
  relay request_id m s = (cache_reply request_id (relayed m) s, to_client (relayed m) ∷ [])

  abbrev pub store_session : Text → Pending → StationMessage → State → State
  store_session id p m s = record s {
    sessions = set_item id (session_of id p.holder m) s.sessions;
    current_session_id = some id;
  }

  -- a session whose start the backend does not confirm is ended
  unfoldable pub refuse_session : Text → Text → State → State × List Out
  unfolding cache_reply
  refuse_session id request_id s = (
    cache_reply request_id (failure observation_failed true) s,
    terminate request_id id ∷ to_client (failure observation_failed true) ∷ [],
  )

  unfoldable pub accept_session : Text → Text → Pending → StationMessage → State → State × List Out
  unfolding strip relay refuse_session session_of set_item
  accept_session id request_id p m s =
      if not (nonempty id)
      then relay request_id m s
      else if nonempty (strip p.session_ticket) && not (is_confirmed confirm)
      then refuse_session id request_id s
      else relay request_id m (store_session id p m s)

  -- "session.created"
  unfoldable pub receive_created : StationMessage → State → State × List Out
  unfolding clean get pop accept_session
  receive_created m s =
      let request_id = clean m.request_id in
      accept_session (clean m.session_id) request_id
        (pending_or_default (get request_id s.pending) s.claims) m
        (record s { pending = pop request_id s.pending })

  -- "session.attached"
  unfoldable pub receive_attached : StationMessage → State → State × List Out
  unfolding clean relay
  receive_attached m s =
      let id = clean m.session_id in
      relay (clean m.request_id) m
        (if nonempty id then record s { current_session_id = some id } else s)

  -- "session.closed"
  unfoldable pub receive_closed : StationMessage → State → State × List Out
  unfolding clean pop relay text_eq
  receive_closed m s =
      let id = clean m.session_id in
      let is_current = same_option s.current_session_id (some id) in
      relay (clean m.request_id) m (
        if nonempty id
        then record s {
          sessions = pop id s.sessions;
          current_session_id = if is_current then none else s.current_session_id;
        }
        else s)

  -- a message of `_station_reader`; `none` is no JSON
  unfoldable pub receive : Option StationMessage → State → State × List Out
  unfolding clean text_eq receive_created receive_attached receive_closed relay
  receive none s = (s, to_client (failure internal_error true) ∷ [])
  receive (some m) s =
      if text_eq (clean m.kind) (codes "session.created")
      then receive_created m s
      else if text_eq (clean m.kind) (codes "session.attached")
      then receive_attached m s
      else if text_eq (clean m.kind) (codes "session.closed")
      then receive_closed m s
      else relay (clean m.request_id) m s
