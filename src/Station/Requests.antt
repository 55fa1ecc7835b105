-- ===== src/Station/Requests.antt =====
-- The HTTP calls of `StationFmuBackend` in fmu-runner/fmu_backend.py. A request is data, and
-- Station is a function from a request to its response, `none` where httpx raises.
pub mod Variables
pub mod Metadata
pub mod Health
pub mod Bound
use lab_gateway.Prelude.{
  ℕ, Text, codes, nonempty, text_eq, lower, Option, none, some, Bool, true, false, not, ◌&&◌, ◌||◌,
  List, [], ◌∷◌, ◌++◌, reverse, drop, leb, if◌then◌else◌,
}
use lab_gateway.Prelude.Value.{Value, null, text, other, str_of, or_else, truthy, show_ℕ}
use lab_gateway.Access.{Claims}
use lab_gateway.Access.Files.{ends_with}
use lab_gateway.Auth.{split_at, rstrip_slashes}
use lab_gateway.Station.{
  Permit, allowed, denied, Reason, Authorised, is_segment, build_authorized_context,
}
use lab_gateway.Station.Message.{Dict, get}
use lab_gateway.Station.Answer.{
  Json, json_value, Body, object, no_object, no_json, Response, Job, Request, Answer, reply,
  failure, raised, then_answer, fail, of_permit,
}

-- `S\.fmu`, for a segment `S`
unfoldable pub is_file_segment : Text → Bool
unfolding ends_with is_segment
is_file_segment s = ends_with s (codes ".fmu") && is_segment (reverse (drop 4 (reverse s)))

unfoldable pub are_key_segments : List Text → Bool
unfolding is_segment is_file_segment
are_key_segments [] = false
are_key_segments (s ∷ []) = is_file_segment s
are_key_segments (s ∷ t ∷ ss) = is_segment s && are_key_segments (t ∷ ss)

-- `re.fullmatch(r"(?:S/)*S\.fmu", key)`
unfoldable pub is_station_key : Text → Bool
unfolding are_key_segments split_at
is_station_key key = are_key_segments (split_at b'/' [] key)

-- the operations of `_request_json`
pub data Operation : Type 0 where
  health : Operation
  describe : Text → Operation
  catalog : Text → Operation

-- the headers but "Accept"
abbrev optional_header : Text → Text → Dict Text → Dict Text
optional_header name value rest = if nonempty value then (name, value) ∷ rest else rest

abbrev pub authorization_text : Option Text → Text
authorization_text none = []
authorization_text (some s) = s

-- the body of a response as a JSON object
unfoldable pub read_object : Body → Answer (Dict Json)
read_object (object d) = reply d
read_object no_object = fail 502 (codes "Station backend returned invalid payload")
read_object no_json = fail 502 (codes "Station backend returned invalid JSON")

-- the detail of a GET that Station refuses
unfoldable pub error_detail : Text → Body → Value
unfolding or_else get
error_detail s (object d) =
    or_else (json_value (get (codes "error") d))
      (or_else (json_value (get (codes "message") d)) (text s))
error_detail s _ = text s

-- the body of a simulation: what a client asks for
pub record Wish : Type 0 where
  pub lab_id : Value
  pub reservation_key : Value
  pub sim_id : Value
  pub parameters : Value
  pub options : Value

module _ (base_url internal_token : Text) where
  -- `_headers_for`, and `_headers` without an authorization
  unfoldable pub headers_for : Text → Option Text → Dict Text
  headers_for accept authorization =
      (codes "Accept", accept)
      ∷ optional_header (codes "X-Internal-Session-Token") internal_token
          (optional_header (codes "Authorization") (authorization_text authorization) [])

  -- `build_internal_session_headers`
  unfoldable pub build_internal_session_headers : Option Text → Dict Text
  build_internal_session_headers authorization =
      optional_header (codes "X-Internal-Session-Token") internal_token
        (optional_header (codes "Authorization") (authorization_text authorization) [])

  abbrev pub json_type : Text
  json_type = codes "application/json"

  abbrev keyed : Text → Text → Answer Request
  keyed path key =
      if is_station_key key
      then reply (record {
        path = path;
        headers = (codes "X-FMU-Access-Key", key) ∷ headers_for json_type none;
        job = none;
      })
      else fail 400 (codes "Token contains an invalid FMU file key")

  abbrev get_request_for : Operation → Answer Request
  get_request_for health =
      reply (record {
        path = codes "/internal/health";
        headers = headers_for json_type none;
        job = none;
      })
  get_request_for (describe key) = keyed (codes "/internal/fmu/describe") key
  get_request_for (catalog key) = keyed (codes "/internal/fmu/catalog") key

  -- `self.base_url`, which `__init__` strips
  abbrev pub is_configured : Bool
  is_configured = nonempty (rstrip_slashes base_url)

  abbrev pub when_configured : {A : Type 0} → Answer A → Answer A
  when_configured a =
      if is_configured then a else fail 503 (codes "Station backend is not configured")

  -- the request of `_request_json`
  unfoldable pub get_request : Operation → Answer Request
  unfolding is_station_key headers_for rstrip_slashes
  get_request op = when_configured (get_request_for op)

  abbrev read_get : Option Response → Answer (Dict Json)
  read_get none = fail 503 (codes "Station backend unavailable")
  read_get (some r) =
      if leb 400 r.status
      then failure r.status (error_detail r.text_of r.body)
      else read_object r.body

  -- `_request_json`
  unfoldable pub request_json : (Request → Option Response) → Operation → Answer (Dict Json)
  unfolding get_request then_answer read_object error_detail
  request_json station op = then_answer (get_request op) (λ r. read_get (station r))

  -- `{}`
  abbrev empty_object : Value
  empty_object = other false (codes "{}") none

  abbrev if_truthy : Value → Option Value
  if_truthy v = if truthy v then some v else none

  -- `_json_payload_for_station`
  unfoldable pub json_payload_for_station : Authorised → Wish → Job
  unfolding or_else truthy
  json_payload_for_station a w = record {
    access_key = a.access_key;
    claims = a.claims;
    parameters = or_else w.parameters empty_object;
    options = or_else w.options empty_object;
    sim_id = if_truthy w.sim_id;
    lab_id = a.lab_id;
    reservation_key = a.reservation_key;
  }

  -- the request with the token's key
  abbrev pub job_request : Text → Text → Option Text → Job → Answer Request
  job_request path accept authorization j =
      if is_station_key j.access_key
      then reply (record { path = path; headers = headers_for accept authorization; job = some j })
      else fail 400 (codes "Token contains an invalid FMU file key")

  abbrev pub context_of : Claims → Wish → Answer Authorised
  context_of c w = of_permit (build_authorized_context c none w.lab_id w.reservation_key)

  -- the request of `run_authorized_simulation`, with that of `_post_json`
  unfoldable pub run_request : Claims → Wish → Option Text → Answer Request
  unfolding then_answer build_authorized_context json_payload_for_station is_station_key headers_for
      rstrip_slashes
  run_request c w authorization = then_answer (context_of c w) (λ a. when_configured (
      job_request (codes "/internal/fmu/simulations/run") json_type authorization
        (json_payload_for_station a w)))

  -- the request of `open_authorized_simulation_stream`
  unfoldable pub stream_request : Claims → Wish → Option Text → Answer Request
  unfolding then_answer build_authorized_context json_payload_for_station is_station_key headers_for
  stream_request c w authorization = then_answer (context_of c w) (λ a.
      job_request (codes "/internal/fmu/simulations/stream") (codes "application/x-ndjson")
        authorization (json_payload_for_station a w))

  -- the status with `_response_error_detail`
  unfoldable pub rejected : {A : Type 0} → ℕ → Answer A
  unfolding show_ℕ
  rejected status =
      fail status (codes "Station backend rejected request (" ++ (show_ℕ status ++ codes ")"))

  abbrev read_post : Option Response → Answer (Dict Json)
  read_post none = fail 503 (codes "Station backend unavailable")
  read_post (some r) = if leb 400 r.status then rejected r.status else read_object r.body

  -- `run_authorized_simulation`
  unfoldable pub run_authorized_simulation :
      (Request → Option Response) → Claims → Wish → Option Text → Answer (Dict Json)
  unfolding run_request then_answer read_object rejected
  run_authorized_simulation station c w authorization =
      then_answer (run_request c w authorization) (λ r. read_post (station r))

  abbrev read_stream : Option Response → Answer Response
  read_stream none = fail 503 (codes "Station backend unavailable")
  read_stream (some r) = if leb 400 r.status then rejected r.status else reply r

  -- `open_authorized_simulation_stream`
  unfoldable pub open_authorized_simulation_stream :
      (Request → Option Response) → Claims → Wish → Option Text → Answer Response
  unfolding stream_request then_answer rejected
  open_authorized_simulation_stream station c w authorization =
      then_answer (stream_request c w authorization) (λ r. read_stream (station r))

-- the components of the base URL, and those of the URL for sessions
pub record Location : Type 0 where
  pub scheme : Text
  pub netloc : Text
  pub path : Text

-- the URL for sessions below a parsed base URL, `none` where `urlparse` raises
abbrev session_url : Option Location → Answer Location
session_url none = raised
session_url (some parsed) =
    if not (nonempty parsed.scheme) || not (nonempty parsed.netloc)
    then fail 503 (codes "Station backend URL is invalid")
    else reply (record {
      scheme = if text_eq parsed.scheme (codes "https") then codes "wss" else codes "ws";
      netloc = parsed.netloc;
      path = rstrip_slashes parsed.path ++ codes "/internal/fmu/sessions";
    })

-- `station_session_ws_url`, before `urlunparse`; `urlparse` is an argument
unfoldable pub station_session_ws_url : Text → (Text → Option Location) → Answer Location
unfolding rstrip_slashes text_eq
station_session_ws_url base_url urlparse =
    if nonempty (rstrip_slashes base_url)
    then session_url (urlparse (rstrip_slashes base_url))
    else fail 503 (codes "Station backend is not configured")
