-- ===== src/Realtime/Create/Vouched.antt =====
-- What stands behind a session that "session.create" opens.
use lab_gateway.Prelude.{
  Text, nonempty, ◌≡◌, refl, ◌∙◌, sym, Option, none, some, Bool, true, false, false≢true, not, ◌&&◌,
  ◌||◌, Bool-cases, Option-cases, inl, inr,
}
use lab_gateway.Prelude.Value.{clean}
use lab_gateway.Access.{normalize_lab_id, enforce_fmu_claim}
use lab_gateway.Access.Files.{Resolved, refused, raised, found}
use lab_gateway.Access.Run.{labs_differ}
use lab_gateway.Simulations.{Server}
use lab_gateway.Realtime.Session.{Session, window_error, attach}
use lab_gateway.Realtime.Create.{
  Bearer, Fetch, fetched, http_error, broken, Backend, Message, Stage, go, refuse, raise,
  then_stage,
}
use lab_gateway.Realtime.Create.Stages.{find_ticket, find_claims, check_claims}
use lab_gateway.Realtime.Create.Open.{
  Place, Manager, Opened, Result, confirm_session, start_session, take_slot, open_session,
  open_stage, is_anonymous, authorise, create_allowed, create,
}
use lab_gateway.Realtime.Create.Backed.{
  OnGo, then_stage-OnGo, IsEnforced, IsRedeemed, IsConfirmed, find_ticket-nonempty,
  find_claims-IsRedeemed, check_claims-same,
}

-- what holds of the claims and the ticket before the slot
record Authorised {P T : Type 0} (place : Place P T) (m : Message) (b : Bearer) (ticket : Text)
    : Type 0 where
  enforced : enforce_fmu_claim false b.claims ≡ true
  lab_fits : labs_differ (normalize_lab_id b.claims.lab_id) (normalize_lab_id m.lab_id) ≡ false
  redeemed : IsRedeemed place.internal place.backend b
  ticketed : (place.internal || nonempty ticket) ≡ true

-- a session with the claims of its ticket, started inside the reservation, with its start confirmed
pub record IsVouched {P T V : Type 0} (place : Place P T) (m : Message) (o : Opened T V)
    : Type 0 where
  enforced : enforce_fmu_claim false o.bearer.claims ≡ true
  lab_fits :
      labs_differ (normalize_lab_id o.bearer.claims.lab_id) (normalize_lab_id m.lab_id) ≡ false
  redeemed : IsRedeemed place.internal place.backend o.bearer
  confirmed : IsConfirmed place.internal place.backend o.ticket
  in_time : window_error o.session.nbf o.session.exp place.now ≡ none

ticket_confirms :
    (internal : Bool) (backend : Backend) (ticket : Text)
    → nonempty ticket ≡ true
    → backend.confirm ≡ some (fetched tt)
    → IsConfirmed internal backend ticket
ticket_confirms true backend ticket n c = tt
ticket_confirms false backend ticket n c = (n, c)

-- a session without a ticket is internal
unticketed :
    (internal : Bool) (backend : Backend) (ticket : Text)
    → (internal || nonempty ticket) ≡ true
    → nonempty ticket ≡ false
    → IsConfirmed internal backend ticket
unticketed true backend ticket q n = tt
unticketed false backend ticket q n = absurd (false≢true (sym n ∙ q))

module _ {P T : Type 0} (place : Place P T) (m : Message) where
  claims-Authorised :
      (ticket : Text) (b : Bearer)
      → (place.internal || nonempty ticket) ≡ true
      → (enforce_fmu_claim false b.claims ≡ true) × IsRedeemed place.internal place.backend b
      → OnGo
          (λ (p : Bearer × Text). Authorised place m p.0 p.1)
          (then_stage
            (check_claims place.float_text place.now place.backend m b)
            (λ c. go (c, ticket)))
  claims-Authorised ticket b q r =
      then_stage-OnGo
        (λ c.
          (c ≡ b)
          × (labs_differ (normalize_lab_id b.claims.lab_id) (normalize_lab_id m.lab_id) ≡ false))
        (λ (p : Bearer × Text). Authorised place m p.0 p.1)
        (check_claims place.float_text place.now place.backend m b) (λ c. go (c, ticket))
        (check_claims-same place.float_text place.now place.backend m b)
        (λ c d. record {
          enforced = rw d.0 r.0;
          lab_fits = rw d.0 d.1;
          redeemed = rw d.0 r.1;
          ticketed = q;
        })

  ticket-Authorised :
      (bearer : Option Bearer) (ticket : Text)
      → IsEnforced bearer
      → (place.internal || nonempty ticket) ≡ true
      → OnGo
          (λ (p : Bearer × Text). Authorised place m p.0 p.1)
          (then_stage
            (find_claims place.float_text place.now place.backend m place.internal bearer ticket)
            (λ b.
              then_stage
                (check_claims place.float_text place.now place.backend m b)
                (λ c. go (c, ticket))))
  ticket-Authorised bearer ticket e q =
      then_stage-OnGo
        (λ b. (enforce_fmu_claim false b.claims ≡ true) × IsRedeemed place.internal place.backend b)
        (λ (p : Bearer × Text). Authorised place m p.0 p.1)
        (find_claims place.float_text place.now place.backend m place.internal bearer ticket)
        (λ b.
          then_stage (check_claims place.float_text place.now place.backend m b)
            (λ c. go (c, ticket)))
        (find_claims-IsRedeemed place.float_text place.now place.backend m place.internal bearer
          ticket e q)
        (λ b r. claims-Authorised ticket b q r)

  authorise-Authorised :
      (bearer : Option Bearer)
      → IsEnforced bearer
      → OnGo (λ (p : Bearer × Text). Authorised place m p.0 p.1) (authorise place m bearer)
  unfolding authorise
  authorise-Authorised bearer e =
      then_stage-OnGo (λ t. (place.internal || nonempty t) ≡ true)
        (λ (p : Bearer × Text). Authorised place m p.0 p.1)
        (find_ticket place.float_text place.now place.backend m place.internal bearer) _
        (find_ticket-nonempty place.float_text place.now place.backend m place.internal bearer)
        (λ t q. ticket-Authorised bearer t e q)

module _ {P T V : Type 0} (place : Place P T) (m : Message) where
  abbrev Vouched : Result T V → Type 0
  Vouched r = OnGo (λ o. IsVouched place m o) r.1

  confirm-Vouched :
      (b : Bearer) (ticket : Text) (s : Session T V) (g : Manager T V) (o : Option (Fetch Unit))
      → place.backend.confirm ≡ o
      → nonempty ticket ≡ true
      → window_error s.nbf s.exp place.now ≡ none
      → Authorised place m b ticket
      → Vouched (confirm_session place m b ticket s g o)
  unfolding confirm_session attach
  confirm-Vouched b ticket s g none c n w a = tt
  confirm-Vouched b ticket s g (some (fetched tt)) c n w a = record {
    enforced = a.enforced;
    lab_fits = a.lab_fits;
    redeemed = a.redeemed;
    confirmed = ticket_confirms place.internal place.backend ticket n c;
    in_time = w;
  }
  confirm-Vouched b ticket s g (some (http_error status code)) c n w a = tt
  confirm-Vouched b ticket s g (some broken) c n w a = tt

  start-Vouched :
      (b : Bearer) (ticket : Text) (s : Session T V) (g : Manager T V)
      → Authorised place m b ticket
      → Vouched (start_session place m b ticket s g)
  unfolding start_session attach
  start-Vouched b ticket s g a = elim (Option-cases (window_error s.nbf s.exp place.now)) [
    | inr (status, w) ↦ rw (start_session, w) tt
    | inl w ↦ elim (Bool-cases (nonempty ticket)) [
      | inl n ↦
          rw (start_session, w, n) (confirm-Vouched b ticket s _ place.backend.confirm refl n w a)
      | inr n ↦
          rw (start_session, w, n)
            (record {
              enforced = a.enforced;
              lab_fits = a.lab_fits;
              redeemed = a.redeemed;
              confirmed = unticketed place.internal place.backend ticket a.ticketed n;
              in_time = w;
            })
    ]
  ]

  slot-Vouched :
      (b : Bearer) (ticket : Text) (g : Manager T V) (o : Option Server)
      → Authorised place m b ticket
      → Vouched (take_slot place m b ticket g o)
  unfolding take_slot
  slot-Vouched b ticket g none a = tt
  slot-Vouched b ticket g (some server) a = start-Vouched b ticket _ _ a

  open-Vouched :
      (b : Bearer) (ticket : Text) (g : Manager T V) (r : Resolved P)
      → Authorised place m b ticket
      → Vouched (open_session place m b ticket g r)
  unfolding open_session
  open-Vouched b ticket g (refused status) a = tt
  open-Vouched b ticket g raised a = tt
  open-Vouched b ticket g (found p) a = slot-Vouched b ticket g _ a

  stage-Vouched :
      (g : Manager T V) (s : Stage (Bearer × Text))
      → OnGo (λ (p : Bearer × Text). Authorised place m p.0 p.1) s
      → Vouched (open_stage place m g s)
  stage-Vouched g (go (b, ticket)) a = open-Vouched b ticket g _ a
  stage-Vouched g (refuse c r) a = tt
  stage-Vouched g raise a = tt

  allowed-Vouched :
      (bearer : Option Bearer) (g : Manager T V) (allowed : Bool)
      → IsEnforced bearer
      → Vouched (create_allowed place m bearer g allowed)
  unfolding create_allowed
  allowed-Vouched bearer g false e = tt
  allowed-Vouched bearer g true e =
      elim (Bool-cases (is_anonymous bearer && not (nonempty (clean m.session_ticket)))) [
        | inl q ↦ rw (create_allowed, q) tt
        | inr q ↦
            rw (create_allowed, q)
              (stage-Vouched g (authorise place m bearer) (authorise-Authorised place m bearer e))
      ]

  -- Where the claims that a WebSocket came with have passed `_enforce_fmu_claim`, a session that
  -- "session.create" opens has all FMU claims, for the lab that the message names if it names one,
  -- and starts inside the reservation window of those claims; and if the WebSocket is external, it
  -- has a ticket, the claims are what the redemption of the ticket answered, and the start was
  -- confirmed.
  pub create-IsVouched :
      (bearer : Option Bearer) (g : Manager T V)
      → IsEnforced bearer
      → OnGo (λ o. IsVouched place m o) (create place m bearer g).1
  unfolding create
  create-IsVouched bearer g e = allowed-Vouched bearer _ _ e
