-- ===== src/Station/Proxy/Attached.antt =====
-- Who may attach to a session of the proxy.
use lab_gateway.Prelude.{
  nonempty, ◌≡◌, refl, sym, false≢true, Option, none, some, Bool, true, false, not,
}
use lab_gateway.Prelude.Value.{null}
use lab_gateway.Station.{Permit, allowed, denied}
use lab_gateway.Station.Message.{Item, Dict, get, build_internal_session_message}
use lab_gateway.Station.Context.{OnAllowed, IsVouched, message-IsVouched}
use lab_gateway.Station.Proxy.{Holder, Session, matches_claims, is_expired, State}
use lab_gateway.Station.Proxy.Create.{
  Place, Channel, opened, unavailable, lost, respond, ensure_station,
}
use lab_gateway.Station.Proxy.Commands.{asked_session, send_attach, attach_over, attach_to, attach}
use lab_gateway.Station.Proxy.Redeemed.{OnStep, if-OnStep}

module _ (place : Place) (m : Dict Item) where
  -- the message with the context of the connection's claims, which are those of the session that
  -- it names, before the session's end
  abbrev pub IsOwned : State → Option Holder → State → Dict Item → Type 0
  IsOwned s o s' f =
      (h : Holder) × (session : Session) × (o ≡ some h)
      × (get (asked_session place m) s.sessions ≡ some session)
      × (is_expired place.now session ≡ false)
      × (matches_claims session h ≡ true)
      × IsVouched m h.claims f

  not-false : (b : Bool) → not b ≡ false → b ≡ true
  not-false true e = refl
  not-false false e = absurd (false≢true (sym e))

  module _ (s : State) (h : Holder) (session : Session)
      (found : get (asked_session place m) s.sessions ≡ some session)
      (live : is_expired place.now session ≡ false) (owned : matches_claims session h ≡ true) where
    send_attach-IsOwned :
        (s' : State) (p : Permit (Dict Item))
        → OnAllowed (IsVouched m h.claims) p
        → OnStep (IsOwned s (some h)) (send_attach place m s' p)
    unfolding send_attach respond
    send_attach-IsOwned s' (denied r) v = (tt, tt)
    send_attach-IsOwned s' (allowed f) v = ((h, session, refl, found, live, owned, v), tt)

    attach_over-IsOwned : (c : Channel) → OnStep (IsOwned s (some h)) (attach_over place m h s c)
    unfolding attach_over respond
    attach_over-IsOwned opened =
        send_attach-IsOwned (record s { is_connected = true })
          (build_internal_session_message place.render m h.claims null null)
          (message-IsVouched place.render m h.claims null null)
    attach_over-IsOwned (unavailable status) = (tt, tt)
    attach_over-IsOwned lost = tt

  attach_to-IsOwned :
      (s : State) (h : Holder) (o : Option Session)
      → get (asked_session place m) s.sessions ≡ o
      → OnStep (IsOwned s (some h)) (attach_to place m h (asked_session place m) s o)
  unfolding attach_to respond
  attach_to-IsOwned s h none found = (tt, tt)
  attach_to-IsOwned s h (some session) found =
      if-OnStep (IsOwned s (some h)) (is_expired place.now session) _ _ (λ _. (tt, tt))
        (λ live.
          if-OnStep (IsOwned s (some h)) (not (matches_claims session h)) _ _ (λ _. (tt, tt))
            (λ e.
              attach_over-IsOwned s h session found live (not-false (matches_claims session h) e)
                (ensure_station place m s)))

-- A message that "session.attach" sends to Station is the client's with the context of the
-- connection's claims, and it names a session of the table that is not past its end and whose
-- subject, lab, access key, reservation, hash and target gateway are those of the claims.
pub attach-IsOwned :
    (place : Place) (m : Dict Item) (s : State) (o : Option Holder)
    → OnStep (IsOwned place m s o) (attach place m s o)
unfolding attach respond
attach-IsOwned place m s none = (tt, tt)
attach-IsOwned place m s (some h) =
    if-OnStep (IsOwned place m s (some h)) (nonempty (asked_session place m)) _ _
      (λ _. attach_to-IsOwned place m s h (get (asked_session place m) s.sessions) refl)
      (λ _. (tt, tt))
