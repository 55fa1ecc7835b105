-- ===== src/Realtime/Create/Open.antt =====
-- The end of "session.create": the slot, the session, its confirmation, and the whole command.
use lab_gateway.Prelude.{
  ℕ, Text, nonempty, text_eq, Option, none, some, Bool, true, false, not, ◌&&◌, List, [], ◌∷◌, leb,
  ◌==◌, keep, if◌then◌else◌,
}
use lab_gateway.Prelude.Int.{ℤ}
use lab_gateway.Prelude.Value.{Value, clean, or_else, str_of, text}
use lab_gateway.Access.{normalize_lab_id, coerce_epoch_seconds}
use lab_gateway.Access.Files.{Resolved, refused, raised, found}
use lab_gateway.Access.Run.{chosen_lab}
use lab_gateway.RateLimit.{Hits, allow_session_create}
use lab_gateway.Simulations.{Server, acquire_slot, release_slot}
use lab_gateway.Realtime.Session
use lab_gateway.Realtime.Session.{Session, attach, window_error}
use lab_gateway.Realtime.Create.{
  Bearer, Fetch, fetched, http_error, broken, Backend, Message, rate_limited, unauthorized,
  reservation_not_active, session_expired, internal_error, Stage, go, refuse, raise, then_stage,
  create_key,
}
use lab_gateway.Realtime.Create.Stages.{find_ticket, find_claims, check_claims}

pub record Manager (T V : Type 0) : Type 0 where
  pub hits : Hits
  pub server : Server
  pub sessions : List (Text × Session T V)

-- the configuration and the surroundings of one command
pub record Place (P T : Type 0) : Type 0 where
  pub internal : Bool
  -- of the limiter: a minute and the clock in ticks, and the limit
  pub window : ℕ
  pub ticks : ℕ
  pub create_limit : ℕ
  pub slot_limit : ℕ
  pub now : ℕ
  pub client_host : Text
  pub session_id : Text
  pub float_text : Text → Option ℤ
  -- `_resolve_fmu_path`
  pub resolve : Value → Resolved P
  pub backend : Backend
  -- 0.0, 1.0 and 0.01
  pub zero_time : T
  pub one_time : T
  pub small_time : T

-- what a session was created with
pub record Opened (T V : Type 0) : Type 0 where
  pub bearer : Bearer
  pub ticket : Text
  pub session : Session T V

-- the code of an HTTPException that opening the session raises
abbrev refusal : {A : Type 0} → ℕ → Stage A
refusal status =
    refuse
      (if status == 403
        then reservation_not_active
        else if status == 401
        then session_expired
        else internal_error)
      (leb 500 status)

abbrev pub Result : Type 0 → Type 0 → Type 0
Result T V = Manager T V × Stage (Opened T V)

abbrev pub is_anonymous : Option Bearer → Bool
is_anonymous none = true
is_anonymous (some _) = false

module _ {P T : Type 0} (place : Place P T) (m : Message) where
  -- the ticket and the claims that the session is opened with
  unfoldable pub authorise : Option Bearer → Stage (Bearer × Text)
  unfolding find_ticket find_claims check_claims then_stage
  authorise bearer =
      then_stage (find_ticket place.float_text place.now place.backend m place.internal bearer)
        (λ ticket.
          then_stage
            (find_claims place.float_text place.now place.backend m place.internal bearer ticket)
            (λ b.
              then_stage (check_claims place.float_text place.now place.backend m b)
                (λ c. go (c, ticket))))

module _ {P T V : Type 0} (place : Place P T) (m : Message) where
  -- `_RealtimeSession(...)`
  unfoldable pub new_session : Bearer → Session T V
  unfolding normalize_lab_id coerce_epoch_seconds
  new_session b = record {
    lab = chosen_lab none (normalize_lab_id b.claims.lab_id);
    nbf = coerce_epoch_seconds place.float_text b.nbf;
    exp = coerce_epoch_seconds place.float_text b.claims.exp;
    phase = Session.created;
    current_time = place.zero_time;
    stop_time = place.one_time;
    step_size = place.small_time;
    outgoing = record { connection = none; drops = 0 };
    attach_deadline = none;
    subscription = none;
    seq = 0;
    pending_samples = [];
    runner = false;
    model = none;
    fmu = false;
    unzipped = false;
    closed = false;
  }

  abbrev has_other_id : Text × Session T V → Bool
  has_other_id (id, _) = not (text_eq id place.session_id)

  -- the session is forgotten, and `terminate` gives its slot back
  abbrev undo : Session T V → Manager T V → Manager T V
  undo s g = record {
    hits = g.hits;
    server = release_slot s.lab g.server;
    sessions = keep has_other_id g.sessions;
  }

  -- `confirm_session_started`, for a session that came with a ticket
  unfoldable pub confirm_session :
      Bearer → Text → Session T V → Manager T V → Option (Fetch Unit) → Result T V
  unfolding attach
  confirm_session b ticket s g none = (g, refusal 500)
  confirm_session b ticket s g (some (fetched _)) =
      (g, go (record { bearer = b; ticket = ticket; session = attach [] s }))
  confirm_session b ticket s g (some (http_error status _)) = (undo s g, refusal status)
  confirm_session b ticket s g (some broken) = (undo s g, raise)

  -- the session in the table
  abbrev with_session : Session T V → Manager T V → Manager T V
  with_session s g = record {
    hits = g.hits;
    server = g.server;
    sessions = (place.session_id, s) ∷ keep has_other_id g.sessions;
  }

  unfoldable pub start_session : Bearer → Text → Session T V → Manager T V → Result T V
  unfolding window_error confirm_session
  start_session b ticket s g = elim (window_error s.nbf s.exp place.now) [
    | some status ↦ (g, refusal status)
    | none ↦
        if nonempty ticket
        then confirm_session b ticket s (with_session s g) place.backend.confirm
        else (with_session s g, go (record { bearer = b; ticket = ticket; session = attach [] s }))
  ]

  unfoldable pub take_slot : Bearer → Text → Manager T V → Option Server → Result T V
  unfolding start_session new_session
  take_slot b ticket g none = (g, refusal 429)
  take_slot b ticket g (some server) =
      start_session b ticket (new_session b)
        (record { hits = g.hits; server = server; sessions = g.sessions })

  unfoldable pub open_session : Bearer → Text → Manager T V → Resolved P → Result T V
  unfolding take_slot normalize_lab_id acquire_slot
  open_session b ticket g (refused status) = (g, refusal status)
  open_session b ticket g raised = (g, raise)
  open_session b ticket g (found _) = take_slot b ticket g (
      acquire_slot place.slot_limit
        (chosen_lab (normalize_lab_id b.claims.lab_id) (normalize_lab_id m.lab_id)) g.server)

  abbrev pub open_stage : Manager T V → Stage (Bearer × Text) → Result T V
  open_stage g (go (b, ticket)) =
      open_session b ticket g
        (place.resolve (text (str_of (or_else b.claims.access_key b.claims.fmu_file_name))))
  open_stage g (refuse c r) = (g, refuse c r)
  open_stage g raise = (g, raise)

  unfoldable pub create_allowed : Option Bearer → Manager T V → Bool → Result T V
  unfolding authorise open_session clean
  create_allowed bearer g allowed =
      if not allowed
      then (g, refuse rate_limited true)
      else if is_anonymous bearer && not (nonempty (clean m.session_ticket))
      then (g, refuse unauthorized false)
      else open_stage g (authorise place m bearer)

  -- "session.create"
  unfoldable pub create : Option Bearer → Manager T V → Result T V
  unfolding create_allowed create_key normalize_lab_id clean allow_session_create
  create bearer g =
      let (allowed, hits) =
        allow_session_create place.window place.create_limit
          (create_key bearer (normalize_lab_id m.lab_id) (clean m.session_ticket) place.client_host)
          place.ticks g.hits in
      create_allowed bearer (record { hits = hits; server = g.server; sessions = g.sessions })
        allowed
