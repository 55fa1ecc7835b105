-- ===== src/Station/Proxy/Enforced.antt =====
-- The claims of a connection, through what its client sends.
use lab_gateway.Prelude.{
  Text, codes, nonempty, text_eq, ◌≡◌, refl, sym, subst, Option, none, some, Bool, true, false, not,
  ◌&&◌, ◌||◌, if◌then◌else◌, Bool-cases, inl, inr,
}
use lab_gateway.Prelude.Value.{null, clean}
use lab_gateway.Access.{enforce_fmu_claim}
use lab_gateway.RateLimit.{allow_station_session_create}
use lab_gateway.Realtime.Create.{Fetch, fetched, http_error, broken}
use lab_gateway.Station.{Permit, allowed, denied, Authorised}
use lab_gateway.Station.Message.{Item, Dict, get, pop, build_internal_session_message}
use lab_gateway.Station.Proxy.{
  Holder, Session, Code, rate_limited, Reply, State, cache_reply, is_expired, matches_claims,
  failure,
}
use lab_gateway.Station.Proxy.Create.{
  Place, Channel, opened, unavailable, lost, Stage, go, refuse, raise, Step, next, ended, field,
  respond, request_id, find_ticket, take_redeemed, own_claims, find_claims, authorise,
  asked_message, asked_context, send_create, with_channel, with_context, settle, ensure_station,
  create, create_key,
}
use lab_gateway.Station.Proxy.Commands.{
  asked_session, send_attach, attach_over, attach_to, attach, forward, dispatch, answer_again,
  handle,
}
use lab_gateway.Station.Proxy.Redeemed.{OnGo, then_stage-OnGo, if-OnGo}

-- claims, where there are any, that pass the check of FMU claims
abbrev pub IsEnforced : Option Holder → Type 0
IsEnforced none = Unit
IsEnforced (some h) = enforce_fmu_claim false h.claims ≡ true

abbrev Passes : Holder → Type 0
Passes h = enforce_fmu_claim false h.claims ≡ true

-- the state that a step leaves
abbrev pub left : Step → State
left (next s outs) = s
left (ended s) = s

if-claims :
    (b : Bool) (x y : Step) (o : Option Holder)
    → (left x).claims ≡ o
    → (left y).claims ≡ o
    → (left (if b then x else y)).claims ≡ o
if-claims true x y o h k = h
if-claims false x y o h k = k

if-IsEnforced :
    (b : Bool) (x y : Step)
    → IsEnforced (left x).claims
    → IsEnforced (left y).claims
    → IsEnforced (left (if b then x else y)).claims
if-IsEnforced true x y h k = h
if-IsEnforced false x y h k = k

pub cache_reply-claims :
    (id : Text) (r : Reply) (s : State) → (cache_reply id r s).claims ≡ s.claims
unfolding cache_reply
cache_reply-claims id r s = elim (Bool-cases (nonempty id)) [
  | inl q ↦ rw q refl
  | inr q ↦ rw q refl
]

respond-claims :
    (id : Text) (c : Code) (r : Bool) (s : State) → (left (respond id c r s)).claims ≡ s.claims
unfolding respond
respond-claims id c r s = cache_reply-claims id (failure c r) s

OnGo-any : {A : Type 0} (s : Stage A) → OnGo (λ _. Unit) s
OnGo-any (go a) = tt
OnGo-any (refuse c r) = tt
OnGo-any raise = tt

module _ (place : Place) (m : Dict Item) where
  send_create-claims :
      (h : Holder) (t : Text) (s : State) (p : Permit (Dict Item))
      → (left (send_create place m h t s p)).claims ≡ s.claims
  unfolding send_create
  send_create-claims h t s (denied r) = respond-claims (request_id place m) _ _ s
  send_create-claims h t s (allowed f) = refl

  with_channel-claims :
      (h : Holder) (t : Text) (s : State) (c : Channel)
      → (left (with_channel place m h t s c)).claims ≡ s.claims
  unfolding with_channel
  with_channel-claims h t s opened =
      send_create-claims h t (record s { is_connected = true }) (asked_message place m h)
  with_channel-claims h t s (unavailable status) = respond-claims (request_id place m) _ _ s
  with_channel-claims h t s lost = refl

  with_context-claims :
      (h : Holder) (t : Text) (s : State) (p : Permit Authorised)
      → (left (with_context place m h t s p)).claims ≡ s.claims
  unfolding with_context
  with_context-claims h t s (denied r) = respond-claims (request_id place m) _ _ s
  with_context-claims h t s (allowed a) = with_channel-claims h t s (ensure_station place m s)

  take_redeemed-Passes : (o : Option (Fetch Holder)) → OnGo Passes (take_redeemed place m o)
  unfolding take_redeemed
  take_redeemed-Passes none = tt
  take_redeemed-Passes (some (fetched h)) =
      if-OnGo Passes (enforce_fmu_claim false h.claims) _ _ (λ q. q) (λ _. tt)
  take_redeemed-Passes (some (http_error status code)) = tt
  take_redeemed-Passes (some broken) = tt

  own_claims-Passes : (o : Option Holder) → IsEnforced o → OnGo Passes (own_claims place m o)
  own_claims-Passes none h = tt
  own_claims-Passes (some b) h = h

  authorise-Passes :
      (o : Option Holder)
      → IsEnforced o
      → OnGo (λ (p : Holder × Text). Passes p.0) (authorise place m o)
  unfolding authorise find_claims
  authorise-Passes o h =
      then_stage-OnGo (λ _. Unit) _ (find_ticket place m o) _ (OnGo-any (find_ticket place m o))
        (λ t _.
          then_stage-OnGo Passes _ (find_claims place m o t) _
            (if-OnGo Passes (not place.internal && nonempty t) _ _
              (λ _. take_redeemed-Passes place.redeem) (λ _. own_claims-Passes o h))
            (λ b q. q))

  settle-IsEnforced :
      (s : State) (g : Stage (Holder × Text))
      → IsEnforced s.claims
      → OnGo (λ (p : Holder × Text). Passes p.0) g
      → IsEnforced (left (settle place m s g)).claims
  unfolding settle
  settle-IsEnforced s (go (h, t)) e q =
      subst IsEnforced
        (sym (with_context-claims h t (record s { claims = some h }) (asked_context place m h))) q
  settle-IsEnforced s (refuse c r) e q =
      subst IsEnforced (sym (respond-claims (request_id place m) c r s)) e
  settle-IsEnforced s raise e q = e

  create-IsEnforced :
      (s : State) → IsEnforced s.claims → IsEnforced (left (create place m s)).claims
  unfolding create
  create-IsEnforced s e =
      let key = create_key place m s.claims in
      let (verdict, hits) =
        allow_station_session_create place.window place.create_limit key place.ticks s.hits in
      let s' = record s { hits = hits } in
      if-IsEnforced verdict (settle place m s' (authorise place m s.claims)) _
        (settle-IsEnforced s' (authorise place m s.claims) e (authorise-Passes s.claims e))
        (subst IsEnforced (sym (respond-claims (request_id place m) rate_limited true s')) e)

  send_attach-claims :
      (s : State) (p : Permit (Dict Item)) → (left (send_attach place m s p)).claims ≡ s.claims
  unfolding send_attach
  send_attach-claims s (denied r) = respond-claims (request_id place m) _ _ s
  send_attach-claims s (allowed f) = refl

  attach_over-claims :
      (h : Holder) (s : State) (c : Channel) → (left (attach_over place m h s c)).claims ≡ s.claims
  unfolding attach_over
  attach_over-claims h s opened =
      send_attach-claims (record s { is_connected = true })
        (build_internal_session_message place.render m h.claims null null)
  attach_over-claims h s (unavailable status) = respond-claims (request_id place m) _ _ s
  attach_over-claims h s lost = refl

  attach_to-claims :
      (h : Holder) (id : Text) (s : State) (o : Option Session)
      → (left (attach_to place m h id s o)).claims ≡ s.claims
  unfolding attach_to
  attach_to-claims h id s none = respond-claims (request_id place m) _ _ s
  attach_to-claims h id s (some session) =
      if-claims (is_expired place.now session) _ _ s.claims
        (respond-claims (request_id place m) _ _ (record s { sessions = pop id s.sessions }))
        (if-claims (not (matches_claims session h)) _ _ s.claims
          (respond-claims (request_id place m) _ _ s)
          (attach_over-claims h s (ensure_station place m s)))

  attach-claims : (s : State) (o : Option Holder) → (left (attach place m s o)).claims ≡ s.claims
  unfolding attach
  attach-claims s none = respond-claims (request_id place m) _ _ s
  attach-claims s (some h) =
      if-claims (nonempty (asked_session place m)) _ _ s.claims
        (attach_to-claims h (asked_session place m) s (get (asked_session place m) s.sessions))
        (respond-claims (request_id place m) _ _ s)

  forward-claims : (s : State) (o : Option Text) → (left (forward place m s o)).claims ≡ s.claims
  unfolding forward
  forward-claims s none = respond-claims (request_id place m) _ _ s
  forward-claims s (some id) =
      if-claims s.is_connected _ _ s.claims refl (respond-claims (request_id place m) _ _ s)

  dispatch-IsEnforced :
      (s : State) → IsEnforced s.claims → IsEnforced (left (dispatch place m s)).claims
  unfolding dispatch
  dispatch-IsEnforced s e =
      if-IsEnforced (text_eq (clean (field (codes "type") m)) (codes "session.create")) _ _
        (create-IsEnforced s e)
        (if-IsEnforced (text_eq (clean (field (codes "type") m)) (codes "session.attach")) _ _
          (subst IsEnforced (sym (attach-claims s s.claims)) e)
          (subst IsEnforced (sym (forward-claims s s.current_session_id)) e))

  unanswered-IsEnforced :
      (s : State) (o : Option Reply)
      → IsEnforced s.claims
      → IsEnforced (left (answer_again place m s o)).claims
  unfolding answer_again
  unanswered-IsEnforced s none e = dispatch-IsEnforced s e
  unanswered-IsEnforced s (some r) e = e

pub handle-IsEnforced :
    (place : Place) (o : Option (Dict Item)) (s : State)
    → IsEnforced s.claims
    → IsEnforced (left (handle place o s)).claims
unfolding handle
handle-IsEnforced place none s e = e
handle-IsEnforced place (some m) s e =
    if-IsEnforced
      (not (nonempty (clean (field (codes "type") m))) || not (nonempty (request_id place m))) _ _ e
      (unanswered-IsEnforced place m s (get (request_id place m) s.local_request_cache) e)
