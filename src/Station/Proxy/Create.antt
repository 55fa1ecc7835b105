-- ===== src/Station/Proxy/Create.antt =====
-- "session.create" of `handle_websocket` in fmu-runner/station_ws_proxy.py. What leaves the
-- process (the three calls about tickets, and the channel to Station) is an argument, with its
-- answer.
use lab_gateway.Prelude.{
  ℕ, Text, codes, nonempty, text_eq, lower, Option, none, some, Bool, true, false, not, ◌&&◌, ◌||◌,
  List, [], ◌∷◌, leb, ◌==◌, ◌++◌, if◌then◌else◌,
}
use lab_gateway.Prelude.Int.{ℤ}
use lab_gateway.Prelude.Value.{Value, str_of, clean, or_else, truthy}
use lab_gateway.Access.{normalize_lab_id, enforce_fmu_claim}
use lab_gateway.Access.Run.{labs_differ}
use lab_gateway.RateLimit.{allow_station_session_create}
use lab_gateway.Realtime.Create.{Fetch, fetched, http_error, broken, normalize_ticket_id}
use lab_gateway.Station.{
  Permit, allowed, denied, Reason, invalid_key, other_lab, Authorised, build_authorized_context,
  option_value,
}
use lab_gateway.Station.Message.{
  Held, Item, Dict, get, pop, set_item, item_value, build_internal_session_message,
}
use lab_gateway.Station.Proxy.{
  Holder, Code, rate_limited, unauthorized, lab_mismatch, forbidden, session_ticket_invalid,
  internal_error, detailed, failure, Out, to_client, to_station, State, cache_reply,
}

-- how the channel to Station opens
pub data Channel : Type 0 where
  opened : Channel
  -- an HTTPException with this status
  unavailable : ℕ → Channel
  -- any other exception
  lost : Channel

-- the configuration and the surroundings of one message
pub record Place : Type 0 where
  pub internal : Bool
  -- of the limiter: a minute and the clock in ticks, and the limit
  pub window : ℕ
  pub ticks : ℕ
  pub create_limit : ℕ
  pub now : ℕ
  pub client_host : Text
  pub float_text : Text → Option ℤ
  -- the `str` of a context
  pub render : Dict Held → Text
  -- `none` where the call is not configured
  pub issue : Option (Fetch Value)
  pub redeem : Option (Fetch Holder)
  pub channel : Channel

-- a stage goes on, or it answers an error and whether to retry, or it raises what nobody catches
pub data Stage (A : Type 0) : Type 0 where
  go : A → Stage A
  refuse : Code → Bool → Stage A
  raise : Stage A

unfoldable pub then_stage : {A B : Type 0} → Stage A → (A → Stage B) → Stage B
then_stage (go a) f = f a
then_stage (refuse c r) f = refuse c r
then_stage raise f = raise

-- the connection goes on with these outputs, or an exception ends it
pub data Step : Type 0 where
  next : State → List Out → Step
  ended : State → Step

-- `message.get(key)`
abbrev pub field : Text → Dict Item → Value
field key m = item_value (get key m)

-- `detail.get("code") or default`
abbrev detailed_or : Option Text → Code → Code
detailed_or none c = c
detailed_or (some s) c = if nonempty s then detailed s else c

-- the error that is sent and kept for this request
unfoldable pub respond : Text → Code → Bool → State → Step
unfolding cache_reply
respond id c r s = next (cache_reply id (failure c r) s) (to_client (failure c r) ∷ [])

abbrev or_dash : Option Text → Text
or_dash none = codes "-"
or_dash (some s) = s

module _ (place : Place) (m : Dict Item) where
  abbrev pub asked_lab : Option Text
  asked_lab = normalize_lab_id (field (codes "labId") m)

  abbrev pub asked_reservation : Option Text
  asked_reservation = normalize_lab_id (field (codes "reservationKey") m)

  abbrev pub asked_ticket : Text
  asked_ticket = clean (field (codes "sessionTicket") m)

  abbrev pub request_id : Text
  request_id = clean (field (codes "requestId") m)

  -- `create_key`
  unfoldable pub create_key : Option Holder → Text
  unfolding normalize_ticket_id str_of normalize_lab_id get clean
  create_key (some h) = codes "sub:" ++ (str_of h.sub ++ (codes ":" ++ or_dash asked_lab))
  create_key none =
      codes "ticket:"
      ++ (or_dash (normalize_ticket_id asked_ticket) ++ (codes ":" ++ place.client_host))

  -- the ticket that was issued
  unfoldable pub take_issued : Option (Fetch Value) → Stage Text
  unfolding clean
  take_issued none = refuse internal_error false
  take_issued (some (fetched v)) =
      if nonempty (clean v) then go (clean v) else refuse internal_error true
  take_issued (some (http_error status code)) =
      refuse (detailed_or code (if status == 403 then forbidden else internal_error))
        (leb 500 status)
  take_issued (some broken) = refuse internal_error true

  -- both keys are there and differ
  abbrev pub keys_differ : Option Text → Text → Bool
  keys_differ none _ = false
  keys_differ (some k) claim = nonempty claim && not (text_eq (lower k) (lower claim))

  unfoldable pub issue_ticket : Holder → Stage Text
  unfolding take_issued normalize_lab_id clean truthy or_else get
  issue_ticket h =
      if labs_differ (normalize_lab_id h.claims.lab_id) asked_lab
      then refuse lab_mismatch false
      else if keys_differ asked_reservation (clean h.claims.reservation_key)
      then refuse forbidden false
      else if not (truthy (or_else h.claims.access_key h.claims.fmu_file_name))
      then refuse forbidden false
      else take_issued place.issue

  -- the ticket of an external session: the one that came, or one issued for the bearer
  unfoldable pub find_ticket : Option Holder → Stage Text
  unfolding clean issue_ticket get
  find_ticket none = if nonempty asked_ticket then go asked_ticket else refuse unauthorized false
  find_ticket (some h) =
      if place.internal || nonempty asked_ticket then go asked_ticket else issue_ticket h

  unfoldable pub take_redeemed : Option (Fetch Holder) → Stage Holder
  unfolding enforce_fmu_claim
  take_redeemed none = refuse internal_error false
  take_redeemed (some (fetched h)) =
      if enforce_fmu_claim false h.claims then go h else refuse forbidden false
  take_redeemed (some (http_error status code)) =
      refuse
        (detailed_or code (
          if status == 401
          then session_ticket_invalid
          else if status == 403
          then forbidden
          else internal_error))
        (leb 500 status)
  take_redeemed (some broken) = refuse session_ticket_invalid true

  -- without claims the context raises AttributeError
  abbrev pub own_claims : Option Holder → Stage Holder
  own_claims none = raise
  own_claims (some h) = go h

  unfoldable pub find_claims : Option Holder → Text → Stage Holder
  unfolding take_redeemed
  find_claims bearer ticket =
      if not place.internal && nonempty ticket
      then take_redeemed place.redeem
      else own_claims bearer

  -- the claims and the ticket of the session
  unfoldable pub authorise : Option Holder → Stage (Holder × Text)
  unfolding then_stage find_ticket find_claims
  authorise bearer =
      then_stage (find_ticket bearer)
        (λ ticket. then_stage (find_claims bearer ticket) (λ h. go (h, ticket)))

  abbrev reason_code : Reason → Code
  reason_code invalid_key = internal_error
  reason_code other_lab = lab_mismatch
  reason_code _ = forbidden

  abbrev pub asked_context : Holder → Permit Authorised
  asked_context h =
      build_authorized_context h.claims none (option_value asked_lab)
        (option_value asked_reservation)

  abbrev pub asked_message : Holder → Permit (Dict Item)
  asked_message h =
      build_internal_session_message place.render m h.claims (option_value asked_lab)
        (option_value asked_reservation)

  unfoldable pub send_create : Holder → Text → State → Permit (Dict Item) → Step
  unfolding respond set_item pop clean get
  send_create h ticket s (denied r) = respond request_id internal_error false s
  send_create h ticket s (allowed f) =
      next
        (record s {
          pending = set_item request_id (record { holder = h; session_ticket = ticket }) s.pending;
        })
        (to_station (pop (codes "sessionTicket") f) ∷ [])

  -- `_ensure_station`
  abbrev pub ensure_station : State → Channel
  ensure_station s = if s.is_connected then opened else place.channel

  unfoldable pub with_channel : Holder → Text → State → Channel → Step
  unfolding respond send_create build_internal_session_message normalize_lab_id clean get
  with_channel h ticket s opened =
      send_create h ticket (record s { is_connected = true }) (asked_message h)
  with_channel h ticket s (unavailable status) =
      respond request_id internal_error (leb 500 status) s
  with_channel h ticket s lost = ended s

  unfoldable pub with_context : Holder → Text → State → Permit Authorised → Step
  unfolding respond with_channel clean get
  with_context h ticket s (denied r) = respond request_id (reason_code r) false s
  with_context h ticket s (allowed a) = with_channel h ticket s (ensure_station s)

  unfoldable pub settle : State → Stage (Holder × Text) → Step
  unfolding respond with_context build_authorized_context normalize_lab_id clean get
  settle s (go (h, ticket)) = with_context h ticket (record s { claims = some h }) (asked_context h)
  settle s (refuse c r) = respond request_id c r s
  settle s raise = ended s

  -- "session.create"
  unfoldable pub create : State → Step
  unfolding create_key allow_station_session_create authorise settle respond clean get
  create s =
      let (verdict, hits) =
        allow_station_session_create place.window place.create_limit (create_key s.claims)
          place.ticks s.hits in
      let s' = record s { hits = hits } in
      if verdict then settle s' (authorise s.claims) else respond request_id rate_limited true s'
