-- ===== src/Station/Proxy/Reattached.antt =====
-- Attaching again to a session that the proxy has recorded.
use lab_gateway.Prelude.{
  Text, nonempty, strip, text_eq_refl, ◌≡◌, refl, ◌∙◌, Option, none, some, true, false, not, ◌&&◌,
  [], ◌∷◌,
}
use lab_gateway.Prelude.Int.{ℤ}
use lab_gateway.Prelude.Value.{null, clean, clean_lower}
use lab_gateway.Access.{normalize_lab_id}
use lab_gateway.Realtime.Create.{Fetch}
use lab_gateway.Station.{allowed}
use lab_gateway.Station.Message.{Item, Dict, get, pop, build_internal_session_message}
use lab_gateway.Station.Entries.{get-set_item}
use lab_gateway.Station.Proxy.{
  Holder, matches_claims, is_expired, State, to_station, str_or_empty, holder_file, same_option,
  StationMessage, Pending, is_confirmed, relayed,
}
use lab_gateway.Station.Proxy.Reader.{
  session_of, store_session, relay, accept_session, receive_created,
}
use lab_gateway.Station.Proxy.Create.{Place, next, request_id}
use lab_gateway.Station.Proxy.Elsewhere.{Elsewhere, Elsewhere-get, cache_reply-sessions}
use lab_gateway.Station.Proxy.Commands.{asked_session, send_attach, attach_over, attach_to, attach}

same_option_refl : (o : Option Text) → same_option o o ≡ true
same_option_refl none = refl
same_option_refl (some a) = text_eq_refl a

session_of-matches :
    (float_text : Text → Option ℤ) (confirm : Option (Fetch Unit)) (id : Text) (h : Holder)
    (msg : StationMessage)
    → matches_claims (session_of float_text confirm id h msg) h ≡ true
unfolding matches_claims session_of
session_of-matches float_text confirm id h msg =
    rw
      (
        text_eq_refl (str_or_empty h.sub),
        same_option_refl (normalize_lab_id h.claims.lab_id),
        text_eq_refl (holder_file h),
        text_eq_refl (clean_lower h.claims.reservation_key),
        text_eq_refl (clean_lower h.claims.puc_hash),
        text_eq_refl (clean_lower h.target_gateway_id),
      )
      refl

accept_session-get :
    (float_text : Text → Option ℤ) (confirm : Option (Fetch Unit)) (id request_id : Text)
    (p : Pending) (msg : StationMessage) (s : State)
    → nonempty id ≡ true
    → (nonempty (strip p.session_ticket) && not (is_confirmed confirm)) ≡ false
    → get id (accept_session float_text confirm id request_id p msg s).0.sessions
      ≡ some (session_of float_text confirm id p.holder msg)
unfolding accept_session relay
accept_session-get float_text confirm id request_id p msg s n t =
    let session = session_of float_text confirm id p.holder msg in
    rw
      (
        accept_session,
        n,
        t,
        cache_reply-sessions request_id (relayed msg) (store_session float_text confirm id p msg s),
      )
      (get-set_item id session s.sessions)

-- A session whose "session.created" Station sends for a waiting "session.create", with an id and
-- no ticket or a confirmed one, can be attached to again: after any messages of Station's on any
-- connections but those that create or close this session, removals of other sessions and rounds of
-- the clean-up before it expires, the claims that it was created with attach to it over an open channel, as long
-- as it has not expired, and the message that goes to Station is the one that
-- build_internal_session_message returns.
pub created_can_attach :
    (confirm : Option (Fetch Unit)) (place : Place) (msg : StationMessage) (m : Dict Item)
    (s later : State) (p : Pending) (f : Dict Item)
    → get (clean msg.request_id) s.pending ≡ some p
    → nonempty (clean msg.session_id) ≡ true
    → (nonempty (strip p.session_ticket) && not (is_confirmed confirm)) ≡ false
    → Elsewhere
        (clean msg.session_id)
        (receive_created place.float_text confirm msg s).0.sessions
        later.sessions
    → later.is_connected ≡ true
    → asked_session place m ≡ clean msg.session_id
    → is_expired place.now (session_of place.float_text confirm (clean msg.session_id) p.holder msg)
      ≡ false
    → build_internal_session_message place.render m p.holder.claims null null ≡ allowed f
    → attach place m later (some p.holder)
      ≡ next (record later { is_connected = true }) (to_station f ∷ [])
unfolding attach receive_created attach_to attach_over send_attach
created_can_attach confirm place msg m s later p f w n t same up asked live built =
    let id = clean msg.session_id in
    let s' = record s { pending = pop (clean msg.request_id) s.pending } in
    let found : get id later.sessions ≡ some (session_of place.float_text confirm id p.holder msg) =
      Elsewhere-get id _ later.sessions same
      ∙ rw w (accept_session-get place.float_text confirm id (clean msg.request_id) p msg s' n t) in
    rw
      (
        asked,
        n,
        found,
        live,
        session_of-matches place.float_text confirm id p.holder msg,
        up,
        built,
      )
      refl
