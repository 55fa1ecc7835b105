-- ===== src/Station/Tests.antt =====
-- One bearer, who creates a session over a ticket and attaches to it again.
use lab_gateway.Prelude.{
  ℕ, Text, codes, strip, text_eq, ◌≡◌, refl, Option, none, some, true, false, [], ◌∷◌,
  if◌then◌else◌,
}
use lab_gateway.Prelude.Int.{pos}
use lab_gateway.Prelude.Value.{Value, null, int, text, clean}
use lab_gateway.Auth.Verify.{accepted}
use lab_gateway.Access.{Claims}
use lab_gateway.Realtime.Create.{Fetch, fetched}
use lab_gateway.Station.{
  Permit, allowed, denied, other_lab, invalid_key, build_authorized_context, validate_access_key,
  is_access_key,
}
use lab_gateway.Station.Message.{
  Held, sent, Item, plain, object, Dict, get, context_key, build_internal_session_message,
}
use lab_gateway.Station.Requests.{is_station_key}
use lab_gateway.Station.Answer.{Request, Response, no_json, array, reply}
use lab_gateway.Station.Answer
use lab_gateway.Station.Requests.Metadata.{Floats, list_authorized_fmu}
use lab_gateway.Station.Proxy.Enforced.{IsEnforced}
use lab_gateway.Station.Proxy.Opened.{from_client, from_station, run, opened-IsEnforced}
use lab_gateway.Station.Context.{OnAllowed, IsVouched, message-IsVouched}
use lab_gateway.Station.Proxy.{Holder, State, StationMessage, to_station, is_expired}
use lab_gateway.Station.Proxy.Reader.{receive_created, receive}
use lab_gateway.Station.Proxy.Create.{Place, opened, Step, next, create}
use lab_gateway.Station.Proxy.Commands.{attach}
use lab_gateway.Station.Proxy.Redeemed.{OnStep, IsCreate, outside, create-IsCreate}
use lab_gateway.Station.Proxy.Attached.{IsOwned, attach-IsOwned}
use lab_gateway.Station.Proxy.Elsewhere.{Elsewhere, message, here}
use lab_gateway.Station.Proxy.Reattached.{created_can_attach}

abbrev claims : Claims
claims = record {
  resource_type = text (codes "fmu");
  scope = null;
  purpose = null;
  lab_id = text (codes "7");
  access_key = text (codes "pumps/a.fmu");
  fmu_file_name = null;
  reservation_key = text (codes "0xAB");
  puc_hash = text (codes "0x1");
  exp = int (pos 900);
}

abbrev holder : Holder
holder = record { claims = claims; sub = text (codes "bob"); target_gateway_id = null }

-- the client claims another file
abbrev creation : Dict Item
creation =
    (codes "type", plain (text (codes "session.create")))
    ∷ (codes "requestId", plain (text (codes "r1")))
    ∷ (codes "labId", plain (text (codes "7")))
    ∷ (codes "sessionTicket", plain (text (codes "st_1")))
    ∷ (context_key, object (codes "{}") ((codes "accessKey", sent (text (codes "b.fmu"))) ∷ []))
    ∷ []

abbrev render : Dict Held → Text
render d = codes "{}"

abbrev place : Place
place = record {
  internal = false;
  window = 60;
  ticks = 5;
  create_limit = 3;
  now = 500;
  client_host = codes "host";
  float_text = λ s. none;
  render = render;
  issue = none;
  redeem = some (fetched holder);
  channel = opened;
}

abbrev connection : State
connection = record {
  claims = none;
  pending = [];
  current_session_id = none;
  is_connected = false;
  local_request_cache = [];
  sessions = [];
  hits = λ k. [];
}

abbrev lab_seven : Value
lab_seven = text (codes "7")

message-IsVouched_example :
    OnAllowed
      (IsVouched creation claims)
      (build_internal_session_message render creation claims lab_seven null)
message-IsVouched_example = message-IsVouched render creation claims lab_seven null

foreign_lab : build_authorized_context claims none (text (codes "8")) null ≡ denied other_lab
unfolding build_authorized_context
foreign_lab = refl

parent_segment : validate_access_key (text (codes "../a.fmu")) ≡ denied invalid_key
unfolding validate_access_key
parent_segment = refl

create-IsCreate_example :
    OnStep (IsCreate place creation) (create (outside place) creation connection)
create-IsCreate_example = create-IsCreate place creation connection

abbrev after : Step → State → State
after (next s outs) other = s
after _ other = other

abbrev waiting : State
waiting = record connection {
  claims = some holder;
  is_connected = true;
  pending = (codes "r1", record { holder = holder; session_ticket = codes "st_1" }) ∷ [];
}

created_waits : (after (create place creation connection) connection).pending ≡ waiting.pending
unfolding create
created_waits = refl

abbrev created : StationMessage
created = record {
  kind = text (codes "session.created");
  request_id = text (codes "r1");
  session_id = text (codes "s9");
  expires_at = null;
}

abbrev confirmed : Option (Fetch Unit)
confirmed = some (fetched tt)

abbrev recorded : State
recorded = (receive_created (λ s. none) confirmed created waiting).0

-- a start that is not confirmed ends the session at Station
unconfirmed_ends : (receive (λ s. none) none (some created) waiting).0.sessions ≡ []
unfolding receive
unconfirmed_ends = refl

abbrev again : Dict Item
again =
    (codes "type", plain (text (codes "session.attach")))
    ∷ (codes "requestId", plain (text (codes "r2")))
    ∷ (codes "sessionId", plain (text (codes "s9")))
    ∷ []

attach-IsOwned_example :
    OnStep (IsOwned place again recorded (some holder)) (attach place again recorded (some holder))
attach-IsOwned_example = attach-IsOwned place again recorded (some holder)

abbrev permitted : Permit (Dict Item) → Dict Item
permitted (allowed f) = f
permitted (denied r) = []

abbrev forwarded : Dict Item
forwarded = permitted (build_internal_session_message render again claims null null)

-- meanwhile, session s8 is created on another connection
abbrev elsewhere : State
elsewhere = record connection { claims = some holder; sessions = recorded.sessions }

abbrev other_created : StationMessage
other_created = record created { request_id = text (codes "r7"); session_id = text (codes "s8") }

abbrev later : State
later = record recorded {
  sessions = (receive (λ s. none) confirmed (some other_created) elsewhere).0.sessions;
}

later-Elsewhere : Elsewhere (codes "s9") recorded.sessions later.sessions
unfolding clean strip text_eq
later-Elsewhere = message (λ s. none) confirmed other_created elsewhere refl here

created_can_attach_example :
    attach place again later (some holder)
    ≡ next (record later { is_connected = true }) (to_station forwarded ∷ [])
unfolding get clean strip receive_created is_expired build_internal_session_message
created_can_attach_example =
    created_can_attach confirmed place created again waiting later
      (record { holder = holder; session_ticket = codes "st_1" }) forwarded refl refl refl
      later-Elsewhere refl refl refl refl

-- the key of a token may end in capitals, which Station's requests refuse
capitals_refused : is_access_key (codes "a.FMU") ≡ true
unfolding is_access_key
capitals_refused = refl

capitals_not_sent : is_station_key (codes "a.FMU") ≡ false
unfolding is_station_key
capitals_not_sent = refl

-- a Station without a catalog
abbrev station : Request → Option Response
station r =
    if text_eq r.path (codes "/internal/fmu/describe")
    then some (record {
      status = 200;
      text_of = [];
      body = Answer.object ((codes "variables", array (codes "[]") []) ∷ []);
    })
    else some (record { status = 404; text_of = codes "?"; body = no_json })

abbrev floats : Floats ℕ
floats = record { of_value = λ v. none; zero_time = 0; one_time = 1; small_time = 2 }

model_listed :
    list_authorized_fmu floats (codes "http://station/") [] station claims
    ≡ reply (
        ((codes "filename", text (codes "pumps/a.fmu"))
          ∷ (codes "path", text (codes "pumps/a.fmu"))
          ∷ (codes "source", text (codes "station"))
          ∷ (codes "simulationType", text (codes "Unknown"))
          ∷ [])
        ∷ [])
unfolding list_authorized_fmu
model_listed = refl

-- a bearer whose claims pass, who creates a session that Station then reports
opened-IsEnforced_example :
    IsEnforced
      (run
        (from_client place (some creation) ∷ from_station (λ s. none) confirmed (some created) ∷ [])
        (record connection { claims = some holder })).claims
unfolding lab_gateway.Station.Proxy.Commands.open_connection
opened-IsEnforced_example =
    opened-IsEnforced false [] [] (some (codes "Bearer t")) (λ token. accepted holder)
      (from_client place (some creation) ∷ from_station (λ s. none) confirmed (some created) ∷ [])
      (record connection { claims = some holder }) refl
