-- ===== src/Station/Proxy/Commands.antt =====
-- "session.attach", the other commands, and the loop body of `handle_websocket` in
-- fmu-runner/station_ws_proxy.py.
use lab_gateway.Prelude.{
  ℕ, Text, codes, nonempty, text_eq, Option, none, some, Bool, true, false, not, ◌&&◌, ◌||◌, [],
  ◌∷◌, leb, ◌==◌, if◌then◌else◌,
}
use lab_gateway.Prelude.Value.{null, clean}
use lab_gateway.Access.{enforce_fmu_claim}
use lab_gateway.Auth.Verify.{Verdict, accepted, refused, raised, extract_token}
use lab_gateway.Station.{Permit, allowed, denied}
use lab_gateway.Station.Message.{Item, Dict, get, pop, build_internal_session_message}
use lab_gateway.Station.Proxy.{
  Holder, Session, matches_claims, is_expired, unauthorized, invalid_command, forbidden,
  session_expired, internal_error, failure, Reply, to_client, to_station, State,
}
use lab_gateway.Station.Proxy.Create.{
  Place, Channel, opened, unavailable, lost, Step, next, ended, field, respond, request_id,
  ensure_station, create,
}

module _ (place : Place) (m : Dict Item) where
  abbrev pub asked_session : Text
  asked_session = clean (field (codes "sessionId") m)

  unfoldable pub send_attach : State → Permit (Dict Item) → Step
  unfolding respond clean get
  send_attach s (denied r) = respond (request_id place m) internal_error false s
  send_attach s (allowed f) = next s (to_station f ∷ [])

  unfoldable pub attach_over : Holder → State → Channel → Step
  unfolding send_attach respond build_internal_session_message clean get
  attach_over h s opened =
      send_attach (record s { is_connected = true })
        (build_internal_session_message place.render m h.claims null null)
  attach_over h s (unavailable status) =
      respond (request_id place m) internal_error (leb 500 status) s
  attach_over h s lost = ended s

  -- the session that is named, if it is in the table
  unfoldable pub attach_to : Holder → Text → State → Option Session → Step
  unfolding respond attach_over is_expired matches_claims pop clean get
  attach_to h id s none = respond (request_id place m) forbidden false s
  attach_to h id s (some session) =
      if is_expired place.now session
      then respond (request_id place m) session_expired false
          (record s { sessions = pop id s.sessions })
      else if not (matches_claims session h)
      then respond (request_id place m) forbidden false s
      else attach_over h s (ensure_station place m s)

  -- "session.attach"
  unfoldable pub attach : State → Option Holder → Step
  unfolding respond attach_to clean get
  attach s none = respond (request_id place m) unauthorized false s
  attach s (some h) =
      if nonempty asked_session
      then attach_to h asked_session s (get asked_session s.sessions)
      else respond (request_id place m) invalid_command false s

  -- any other command
  unfoldable pub forward : State → Option Text → Step
  unfolding respond clean get
  forward s none = respond (request_id place m) forbidden false s
  forward s (some id) =
      if s.is_connected
      then next s (to_station m ∷ [])
      else respond (request_id place m) internal_error true s

  unfoldable pub dispatch : State → Step
  unfolding create attach forward text_eq clean get
  dispatch s =
      if text_eq (clean (field (codes "type") m)) (codes "session.create")
      then create place m s
      else if text_eq (clean (field (codes "type") m)) (codes "session.attach")
      then attach s s.claims
      else forward s s.current_session_id

  -- what the request was answered before
  unfoldable pub answer_again : State → Option Reply → Step
  unfolding dispatch
  answer_again s (some r) = next s (to_client r ∷ [])
  answer_again s none = dispatch s

-- a message of the client; `none` is no JSON
unfoldable pub handle : Place → Option (Dict Item) → State → Step
unfolding answer_again get clean
handle place none s = next s (to_client (failure invalid_command false) ∷ [])
handle place (some m) s =
    if not (nonempty (clean (field (codes "type") m))) || not (nonempty (request_id place m))
    then next s (to_client (failure invalid_command false) ∷ [])
    else answer_again place m s (get (request_id place m) s.local_request_cache)

-- how a connection starts
pub data Opening : Type 0 where
  -- the loop runs with these claims
  listening : Option Holder → Opening
  -- the internal token is wrong, and the connection is closed
  closed : Opening
  -- an HTTPException with this status, or another exception, ends the handler
  failed : ℕ → Opening
  crashed : Opening

-- the claims, once `enforce_fmu_claim` has passed
unfoldable pub open_verified : Verdict Holder → Opening
unfolding enforce_fmu_claim
open_verified (accepted h) =
    if enforce_fmu_claim false h.claims then listening (some h) else failed 403
open_verified (refused status) = if status == 401 then listening none else failed status
open_verified raised = crashed

-- `none` is a 401, which leaves the connection without claims
unfoldable pub open_token : (Text → Verdict Holder) → Option Text → Opening
unfolding open_verified
open_token verify none = listening none
open_token verify (some token) = open_verified (verify token)

-- the start of `handle_websocket`: the internal token of the configuration and the one that came,
-- the "authorization" header, and what `verify_jwt_token` makes of a token
unfoldable pub open_connection :
    Bool → Text → Text → Option Text → (Text → Verdict Holder) → Opening
unfolding text_eq extract_token open_token
open_connection internal internal_token provided authorization verify =
    if internal && nonempty internal_token && not (text_eq provided internal_token)
    then closed
    else open_token verify (extract_token authorization)
