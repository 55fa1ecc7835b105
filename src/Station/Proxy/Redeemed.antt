-- ===== src/Station/Proxy/Redeemed.antt =====
-- What reaches Station of a "session.create".
use lab_gateway.Prelude.{
  Text, codes, nonempty, ◌≡◌, refl, sym, ◌∙◌, false≢true, Option, none, some, Bool, true, false,
  not, All, if◌then◌else◌,
}
use lab_gateway.Prelude.Value.{Value, clean, or_else, truthy}
use lab_gateway.Access.{normalize_lab_id, enforce_fmu_claim}
use lab_gateway.Access.Run.{labs_differ}
use lab_gateway.RateLimit.{allow_station_session_create}
use lab_gateway.Realtime.Create.{Fetch, fetched, http_error, broken}
use lab_gateway.Station.{Permit, allowed, denied, Authorised, option_value}
use lab_gateway.Station.Message.{Item, Dict, get, pop}
use lab_gateway.Station.Context.{OnAllowed, IsVouched, message-IsVouched}
use lab_gateway.Station.Entries.{get-set_item}
use lab_gateway.Station.Proxy.{Holder, Code, Out, to_client, to_station, terminate, State}
use lab_gateway.Station.Proxy.Create.{
  Place, Channel, opened, unavailable, lost, Stage, go, refuse, raise, then_stage, Step, next,
  ended, respond, request_id, asked_ticket, asked_lab, asked_reservation, keys_differ, take_issued,
  issue_ticket, find_ticket, take_redeemed, find_claims, authorise, asked_message, asked_context,
  send_create, with_channel, with_context, settle, ensure_station, create, create_key,
}

-- what a stage goes on with
abbrev pub OnGo : {A : Type 0} → (A → Type 0) → Stage A → Type 0
OnGo P (go a) = P a
OnGo P (refuse c r) = Unit
OnGo P raise = Unit

pub then_stage-OnGo :
    {A B : Type 0}
    → (P : A → Type 0) (Q : B → Type 0) (s : Stage A) (f : A → Stage B) → OnGo P s
    → ((a : A) → P a → OnGo Q (f a))
    → OnGo Q (then_stage s f)
unfolding then_stage
then_stage-OnGo P Q (go a) f p h = h a p
then_stage-OnGo P Q (refuse c r) f p h = tt
then_stage-OnGo P Q raise f p h = tt

pub if-OnGo :
    {A : Type 0} (P : A → Type 0) (b : Bool) (s s' : Stage A)
    → ((b ≡ true) → OnGo P s)
    → ((b ≡ false) → OnGo P s')
    → OnGo P (if b then s else s')
if-OnGo P true s s' h k = h refl
if-OnGo P false s s' h k = k refl

-- what holds of each message that goes to Station, with the state that is left
abbrev pub OnSent : (State → Dict Item → Type 0) → State → Out → Type 0
OnSent P s (to_client r) = Unit
OnSent P s (to_station f) = P s f
OnSent P s (terminate _ _) = Unit

abbrev pub OnStep : (State → Dict Item → Type 0) → Step → Type 0
OnStep P (next s outs) = All (OnSent P s) outs
OnStep P (ended s) = Unit

pub if-OnStep :
    (P : State → Dict Item → Type 0) (b : Bool) (s s' : Step)
    → ((b ≡ true) → OnStep P s)
    → ((b ≡ false) → OnStep P s')
    → OnStep P (if b then s else s')
if-OnStep P true s s' h k = h refl
if-OnStep P false s s' h k = k refl

pub respond-OnStep :
    (P : State → Dict Item → Type 0) (id : Text) (c : Code) (r : Bool) (s : State)
    → OnStep P (respond id c r s)
unfolding respond
respond-OnStep P id c r s = (tt, tt)

-- an external place
abbrev pub outside : Place → Place
outside place = record place { internal = false }

module _ (place : Place) (m : Dict Item) where
  abbrev IsTicket : Text → Type 0
  IsTicket t = nonempty t ≡ true

  take_issued-IsTicket :
      (o : Option (Fetch Value)) → OnGo IsTicket (take_issued (outside place) m o)
  unfolding take_issued
  take_issued-IsTicket none = tt
  take_issued-IsTicket (some (fetched v)) =
      if-OnGo IsTicket (nonempty (clean v)) _ _ (λ q. q) (λ _. tt)
  take_issued-IsTicket (some (http_error status code)) = tt
  take_issued-IsTicket (some broken) = tt

  issue_ticket-IsTicket : (h : Holder) → OnGo IsTicket (issue_ticket (outside place) m h)
  unfolding issue_ticket
  issue_ticket-IsTicket h =
      if-OnGo IsTicket
        (labs_differ (normalize_lab_id h.claims.lab_id) (asked_lab (outside place) m)) _ _ (λ _. tt)
        (λ _.
          if-OnGo IsTicket
            (keys_differ (outside place) m (asked_reservation (outside place) m)
              (clean h.claims.reservation_key))
            _ _ (λ _. tt)
            (λ _.
              if-OnGo IsTicket (not (truthy (or_else h.claims.access_key h.claims.fmu_file_name))) _
                _ (λ _. tt) (λ _. take_issued-IsTicket place.issue)))

  find_ticket-IsTicket : (o : Option Holder) → OnGo IsTicket (find_ticket (outside place) m o)
  unfolding find_ticket
  find_ticket-IsTicket none =
      if-OnGo IsTicket (nonempty (asked_ticket (outside place) m)) _ _ (λ q. q) (λ _. tt)
  find_ticket-IsTicket (some h) =
      if-OnGo IsTicket (nonempty (asked_ticket (outside place) m)) _ _ (λ q. q)
        (λ _. issue_ticket-IsTicket h)

  -- claims that the backend gave for the ticket, and that pass the check of FMU claims
  abbrev IsRedeemed : Holder → Type 0
  IsRedeemed h = (place.redeem ≡ some (fetched h)) × (enforce_fmu_claim false h.claims ≡ true)

  take_redeemed-IsRedeemed :
      (o : Option (Fetch Holder))
      → place.redeem ≡ o
      → OnGo IsRedeemed (take_redeemed (outside place) m o)
  unfolding take_redeemed
  take_redeemed-IsRedeemed none r = tt
  take_redeemed-IsRedeemed (some (fetched h)) r =
      if-OnGo IsRedeemed (enforce_fmu_claim false h.claims) _ _ (λ q. (r, q)) (λ _. tt)
  take_redeemed-IsRedeemed (some (http_error status code)) r = tt
  take_redeemed-IsRedeemed (some broken) r = tt

  abbrev IsBacked : Holder × Text → Type 0
  IsBacked p = IsTicket p.1 × IsRedeemed p.0

  authorise-IsBacked : (o : Option Holder) → OnGo IsBacked (authorise (outside place) m o)
  unfolding authorise find_claims
  authorise-IsBacked o =
      then_stage-OnGo IsTicket IsBacked (find_ticket (outside place) m o) _ (find_ticket-IsTicket o)
        (λ t q.
          then_stage-OnGo IsRedeemed IsBacked (find_claims (outside place) m o t) _
            (if-OnGo IsRedeemed (nonempty t) _ _ (λ _. take_redeemed-IsRedeemed place.redeem refl)
              (λ e. absurd (false≢true (sym e ∙ q))))
            (λ h r. (q, r)))

  -- a message of the client's whose context is that of redeemed claims, which wait with their
  -- ticket for the answer of Station
  abbrev pub IsCreate : State → Dict Item → Type 0
  IsCreate s f =
      (h : Holder) × (t : Text) × IsBacked (h, t)
      × ((f' : Dict Item) × IsVouched m h.claims f' × (f ≡ pop (codes "sessionTicket") f'))
      × (get (request_id place m) s.pending ≡ some (record { holder = h; session_ticket = t }))

  send_create-IsCreate :
      (h : Holder) (t : Text) (s : State) (p : Permit (Dict Item))
      → IsBacked (h, t)
      → OnAllowed (IsVouched m h.claims) p
      → OnStep IsCreate (send_create (outside place) m h t s p)
  unfolding send_create respond
  send_create-IsCreate h t s (denied r) b v = (tt, tt)
  send_create-IsCreate h t s (allowed f) b v = (
    (
      h,
      t,
      b,
      (f, v, refl),
      get-set_item (request_id place m) (record { holder = h; session_ticket = t }) s.pending,
    ),
    tt,
  )

  with_channel-IsCreate :
      (h : Holder) (t : Text) (s : State) (c : Channel)
      → IsBacked (h, t)
      → OnStep IsCreate (with_channel (outside place) m h t s c)
  unfolding with_channel respond
  with_channel-IsCreate h t s opened b =
      send_create-IsCreate h t (record s { is_connected = true })
        (asked_message (outside place) m h) b
        (message-IsVouched place.render m h.claims (option_value (asked_lab (outside place) m))
          (option_value (asked_reservation (outside place) m)))
  with_channel-IsCreate h t s (unavailable status) b = (tt, tt)
  with_channel-IsCreate h t s lost b = tt

  with_context-IsCreate :
      (h : Holder) (t : Text) (s : State) (p : Permit Authorised)
      → IsBacked (h, t)
      → OnStep IsCreate (with_context (outside place) m h t s p)
  unfolding with_context respond
  with_context-IsCreate h t s (denied r) b = (tt, tt)
  with_context-IsCreate h t s (allowed a) b =
      with_channel-IsCreate h t s (ensure_station (outside place) m s) b

  settle-IsCreate :
      (s : State) (g : Stage (Holder × Text))
      → OnGo IsBacked g
      → OnStep IsCreate (settle (outside place) m s g)
  unfolding settle respond
  settle-IsCreate s (go (h, t)) b =
      with_context-IsCreate h t (record s { claims = some h }) (asked_context (outside place) m h) b
  settle-IsCreate s (refuse c r) b = respond-OnStep IsCreate (request_id (outside place) m) c r s
  settle-IsCreate s raise b = tt

-- Outside the gateway, a message that "session.create" sends to Station is the client's without
-- its ticket and with the context of claims that the backend returned for a nonempty ticket and
-- that pass the check of FMU claims, and that ticket and those claims wait under the request id.
pub create-IsCreate :
    (place : Place) (m : Dict Item) (s : State)
    → OnStep (IsCreate place m) (create (outside place) m s)
unfolding create respond
create-IsCreate place m s =
    let key = create_key (outside place) m s.claims in
    let (verdict, hits) =
      allow_station_session_create place.window place.create_limit key place.ticks s.hits in
    if-OnStep (IsCreate place m) verdict _ _
      (λ _.
        settle-IsCreate place m (record s { hits = hits }) (authorise (outside place) m s.claims)
          (authorise-IsBacked place m s.claims))
      (λ _. (tt, tt))
