-- ===== src/Station/Proxy.antt =====
-- The WebSocket proxy in front of Station, fmu-runner/station_ws_proxy.py: its sessions and
-- the clean-up. A message is handled in one
-- step; the table of sessions and the limiter are shared with other connections, whose steps may
-- come in between. A dict is the list of its entries. Sibling modules below model the client's side.
pub mod Reader
pub mod Create
pub mod Commands
pub mod Redeemed
pub mod Enforced
pub mod Opened
pub mod Attached
pub mod Elsewhere
pub mod Reattached
use lab_gateway.Prelude.{
  ℕ, Text, codes, nonempty, strip, text_eq, Option, none, some, Bool, true, false, not, ◌&&◌, ◌||◌,
  List, [], ◌∷◌, keep, if◌then◌else◌,
}
use lab_gateway.Prelude.Int.{ℤ, pos, leb_ℤ}
use lab_gateway.Prelude.Value.{Value, null, text, str_of, clean, clean_lower, or_else}
use lab_gateway.Access.{Claims, normalize_lab_id, coerce_epoch_seconds}
use lab_gateway.RateLimit.{Hits}
use lab_gateway.Station.Message.{Item, Dict, get, set_item, pop}
use lab_gateway.Realtime.Create.{Fetch, fetched}

-- the claims that the proxy reads
pub record Holder : Type 0 where
  pub claims : Claims
  pub sub : Value
  pub target_gateway_id : Value

-- `_GatewayStationSession`
pub record Session : Type 0 where
  pub session_id : Text
  pub holder : Holder
  pub lab_id : Option Text
  pub access_key : Text
  pub exp : Option ℤ

-- `str(value or "")`
unfoldable pub str_or_empty : Value → Text
unfolding str_of or_else
str_or_empty v = str_of (or_else v (text []))

-- `str(claims.get("accessKey") or claims.get("fmuFileName") or "")`
unfoldable pub holder_file : Holder → Text
unfolding str_or_empty or_else
holder_file h = str_or_empty (or_else h.claims.access_key h.claims.fmu_file_name)

abbrev pub same_option : Option Text → Option Text → Bool
same_option none none = true
same_option none (some _) = false
same_option (some _) none = false
same_option (some a) (some b) = text_eq a b

-- `matches_claims`; `clean_lower` is `_normalize_binding`
unfoldable pub matches_claims : Session → Holder → Bool
unfolding str_or_empty holder_file normalize_lab_id clean_lower text_eq
matches_claims s h =
    text_eq (str_or_empty h.sub) (str_or_empty s.holder.sub)
    && same_option (normalize_lab_id h.claims.lab_id) s.lab_id
    && text_eq (holder_file h) s.access_key
    && text_eq (clean_lower h.claims.reservation_key) (clean_lower s.holder.claims.reservation_key)
    && text_eq (clean_lower h.claims.puc_hash) (clean_lower s.holder.claims.puc_hash)
    && text_eq (clean_lower h.target_gateway_id) (clean_lower s.holder.target_gateway_id)

abbrev expires_by : ℕ → Option ℤ → Bool
expires_by now none = false
expires_by now (some e) = leb_ℤ e (pos now)

-- `session.exp is not None and now >= session.exp`
unfoldable pub is_expired : ℕ → Session → Bool
is_expired now s = expires_by now s.exp

-- one round of `_cleanup_loop`
unfoldable pub cleanup : ℕ → Dict Session → Dict Session
unfolding is_expired
cleanup now sessions = keep (λ e. not (is_expired now e.1)) sessions

pub data Code : Type 0 where
  invalid_command : Code
  rate_limited : Code
  unauthorized : Code
  lab_mismatch : Code
  forbidden : Code
  session_ticket_invalid : Code
  session_expired : Code
  observation_failed : Code
  internal_error : Code
  -- the "code" of an exception's detail
  detailed : Text → Code

-- what the code reads of a JSON object that Station sends
pub record StationMessage : Type 0 where
  pub kind : Value
  pub request_id : Value
  pub session_id : Value
  pub expires_at : Value

-- what a client is sent: an error and whether to retry, or what Station sent
pub data Reply : Type 0 where
  failure : Code → Bool → Reply
  relayed : StationMessage → Reply

pub data Out : Type 0 where
  to_client : Reply → Out
  to_station : Dict Item → Out
  -- a "session.terminate" of the proxy's own, for a request and a session
  terminate : Text → Text → Out

-- a "session.create" that Station has not answered
pub record Pending : Type 0 where
  pub holder : Holder
  pub session_ticket : Text

-- a connection, and what it shares
pub record State : Type 0 where
  pub claims : Option Holder
  pub pending : Dict Pending
  pub current_session_id : Option Text
  pub is_connected : Bool
  pub local_request_cache : Dict Reply
  pub sessions : Dict Session
  pub hits : Hits

-- `local_request_cache[request_id] = payload`, where there is an id
unfoldable pub cache_reply : Text → Reply → State → State
unfolding set_item
cache_reply id r s =
    if nonempty id
    then record s { local_request_cache = set_item id r s.local_request_cache }
    else s

-- the claims `{}`
abbrev nobody : Holder
nobody = record {
  claims = record {
    resource_type = null;
    scope = null;
    purpose = null;
    lab_id = null;
    access_key = null;
    fmu_file_name = null;
    reservation_key = null;
    puc_hash = null;
    exp = null;
  };
  sub = null;
  target_gateway_id = null;
}

abbrev holder_or_nobody : Option Holder → Holder
holder_or_nobody none = nobody
holder_or_nobody (some h) = h

-- `pending_creates.pop(request_id, {"claims": claims or {}})`
abbrev pub pending_or_default : Option Pending → Option Holder → Pending
pending_or_default (some p) _ = p
pending_or_default none o = record { holder = holder_or_nobody o; session_ticket = [] }

-- whether `confirm_session_started` is configured and returns
abbrev pub is_confirmed : Option (Fetch Unit) → Bool
is_confirmed (some (fetched _)) = true
is_confirmed _ = false

abbrev pub first_epoch : Option ℤ → Option ℤ → Option ℤ
first_epoch none b = b
first_epoch (some a) _ = some a
