-- ===== src/Station/Requests/Metadata.antt =====
-- What the backend makes of Station's answers: `_normalize_model_metadata`,
-- `get_authorized_model_metadata` and `list_authorized_fmu` of `StationFmuBackend` in
-- fmu-runner/fmu_backend.py. The floats are an argument.
use lab_gateway.Prelude.{
  Text, codes, text_eq, Option, none, some, Bool, false, not, List, [], ◌∷◌, ◌==◌, if◌then◌else◌,
}
use lab_gateway.Prelude.Value.{Value, text, str_of, or_else, truthy, is_null}
use lab_gateway.Access.{Claims}
use lab_gateway.Station.{ensure_requested_access_key, authorized_access_key}
use lab_gateway.Station.Message.{Dict, get, set_item}
use lab_gateway.Station.Requests.{describe, catalog, request_json}
use lab_gateway.Station.Answer.{
  Json, array, json_value, Element, entry, stray, Request, Response, Answer, reply, failure, raised,
  then_answer, fail, of_permit,
}
use lab_gateway.Station.Requests.Variables.{Variable, normalize_variables}

-- `v == "..."`
abbrev is_text : Value → Text → Bool
is_text (text s) t = text_eq s t
is_text _ t = false

-- the simulation kind that is sent or derived
unfoldable pub kind_of : Value → Value → Value → Value → Value
unfolding text_eq truthy
kind_of kind type supports_cs supports_me =
    if not (is_null kind)
    then kind
    else if is_text type (codes "CoSimulation")
    then text (codes "coSimulation")
    else if is_text type (codes "ModelExchange")
    then text (codes "modelExchange")
    else if truthy supports_cs
    then text (codes "coSimulation")
    else if truthy supports_me
    then text (codes "modelExchange")
    else text (codes "unknown")

unfoldable pub type_of : Value → Value → Value
unfolding text_eq
type_of kind type =
    if not (is_null type)
    then type
    else if is_text kind (codes "coSimulation")
    then text (codes "CoSimulation")
    else if is_text kind (codes "modelExchange")
    then text (codes "ModelExchange")
    else text (codes "Unknown")

abbrev flag_or : Value → Bool → Bool
flag_or v d = if is_null v then d else truthy v

pub record Metadata (T : Type 0) : Type 0 where
  pub model_name : Text
  pub guid : Value
  pub fmi_version : Text
  pub simulation_kind : Text
  pub simulation_type : Text
  pub supports_co_simulation : Bool
  pub supports_model_exchange : Bool
  pub default_start_time : T
  pub default_stop_time : T
  pub default_step_size : T
  pub model_variables : List Variable

-- `float`, `none` where it raises, and the defaults 0.0, 1.0 and 0.01
pub record Floats (T : Type 0) : Type 0 where
  pub of_value : Value → Option T
  pub zero_time : T
  pub one_time : T
  pub small_time : T

-- `payload.get("modelVariables")`, or else `payload.get("variables")`
abbrev elements_of : Option Json → Option (List Element)
elements_of (some (array s es)) = some es
elements_of _ = none

unfoldable pub raw_variables : Dict Json → Option (List Element)
unfolding get
raw_variables d = elements_of (
    if is_null (json_value (get (codes "modelVariables") d))
    then get (codes "variables") d
    else get (codes "modelVariables") d)

abbrev guid_of : Value → Value
guid_of g = if truthy g then text (str_of g) else g

module _ {T : Type 0} (floats : Floats T) where
  -- `float(payload.get(key, default))`
  unfoldable pub time_at : Text → T → Dict Json → Answer T
  unfolding get
  time_at key default d = elim (get key d) [
    | none ↦ reply default
    | some v ↦ elim (floats.of_value (json_value (some v))) [ none ↦ raised | some t ↦ reply t ]
  ]

  -- the record without the variables
  abbrev build : Dict Json → T → T → T → List Variable → Answer (Metadata T)
  build d start stop step variables =
      let cs = json_value (get (codes "supportsCoSimulation") d) in
      let me = json_value (get (codes "supportsModelExchange") d) in
      let type = json_value (get (codes "simulationType") d) in
      let kind = kind_of (json_value (get (codes "simulationKind") d)) type cs me in
      reply (record {
        model_name =
            str_of
              (or_else (json_value (get (codes "modelName") d)) (text (codes "DecentraLabsProxy")));
        guid = guid_of (json_value (get (codes "guid") d));
        fmi_version =
            str_of (or_else (json_value (get (codes "fmiVersion") d)) (text (codes "2.0")));
        simulation_kind = str_of kind;
        simulation_type = str_of (type_of kind type);
        supports_co_simulation = flag_or cs (is_text kind (codes "coSimulation"));
        supports_model_exchange = flag_or me (is_text kind (codes "modelExchange"));
        default_start_time = start;
        default_stop_time = stop;
        default_step_size = step;
        model_variables = variables;
      })

  -- `_normalize_model_metadata`
  unfoldable pub normalize_model_metadata : Dict Json → Answer (Metadata T)
  unfolding raw_variables time_at normalize_variables then_answer get kind_of type_of str_of or_else
      truthy text_eq
  normalize_model_metadata d = elim (raw_variables d) [
    | none ↦ fail 502 (codes "Station backend response is missing model variables")
    | some es ↦ then_answer (time_at (codes "defaultStartTime") floats.zero_time d) (λ start.
        then_answer (time_at (codes "defaultStopTime") floats.one_time d) (λ stop.
          then_answer (time_at (codes "defaultStepSize") floats.small_time d)
            (λ step. then_answer (normalize_variables 1 es) (build d start stop step))))
  ]

  module _ (base_url internal_token : Text) (station : Request → Option Response) where
    -- `get_authorized_model_metadata`
    unfoldable pub get_authorized_model_metadata : Claims → Option Text → Answer (Metadata T)
    unfolding then_answer ensure_requested_access_key request_json normalize_model_metadata
    get_authorized_model_metadata c requested =
        then_answer (of_permit (ensure_requested_access_key c requested)) (λ key.
          then_answer (request_json base_url internal_token station (describe key))
            normalize_model_metadata)

    abbrev own_entry : Text → List (Text × Value) → Dict Value
    own_entry key rest =
        (codes "filename", text key)
        ∷ (codes "path", text key)
        ∷ (codes "source", text (codes "station"))
        ∷ rest

    -- `setdefault("source", "station")`
    abbrev with_source : Dict Value → Dict Value
    with_source d = elim (get (codes "source") d) [
      | none ↦ set_item (codes "source") (text (codes "station")) d
      | some v ↦ d
    ]

    abbrev entries : List Element → List (Dict Value)
    entries [] = []
    entries (stray ∷ es) = entries es
    entries (entry d ∷ es) = with_source d ∷ entries es

    abbrev listed : Text → Option (List Element) → List (Dict Value)
    listed key none = own_entry key [] ∷ []
    listed key (some es) = entries es

    -- the answer to the catalog request, with the model itself where Station has no catalog
    unfoldable pub settle_catalog : Claims → Text → Answer (Dict Json) → Answer (List (Dict Value))
    unfolding then_answer get_authorized_model_metadata get set_item
    settle_catalog c key (reply d) = reply (listed key (elements_of (get (codes "fmus") d)))
    settle_catalog c key raised = raised
    settle_catalog c key (failure status detail) =
        let described = then_answer (get_authorized_model_metadata c (some key)) (λ m.
          reply (own_entry key ((codes "simulationType", text m.simulation_type) ∷ []) ∷ [])) in
        if status == 404 then described else failure status detail

    -- `list_authorized_fmu`
    unfoldable pub list_authorized_fmu : Claims → Answer (List (Dict Value))
    unfolding then_answer authorized_access_key request_json settle_catalog
    list_authorized_fmu c =
        then_answer (of_permit (authorized_access_key c))
          (λ key. settle_catalog c key (request_json base_url internal_token station (catalog key)))
