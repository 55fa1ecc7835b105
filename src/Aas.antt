-- ===== src/Aas.antt =====
-- The Asset Administration Shell of a physical lab, of ops-worker/aas_generator.py: the identifiers
-- and documents (`_prop`, `build_nameplate_submodel`, `build_technical_data_submodel`,
-- `build_physical_aas_shell`). Sibling modules below model the policy on endpoints and the
-- synchronisation. A document is a record of what varies in it; the time of day is an argument.
pub mod Endpoint
pub mod Sync
pub mod Guarded
pub mod Synced
mod Tests
use lab_gateway.Prelude.{
  ℕ, Text, codes, strip, Option, none, some, Bool, true, false, ◌&&◌, ◌||◌, List, [], ◌∷◌, ◌++◌,
  length, leb, map, ◌==◌, if◌then◌else◌,
}
use lab_gateway.Prelude.Value.{Value, null, bool, text, str_of, truthy}
use lab_gateway.Access.Files.{is_ascii_alnum}

unfoldable pub are_id_chars : Text → Bool
unfolding is_ascii_alnum
are_id_chars [] = true
are_id_chars (c ∷ s) =
    let rest = are_id_chars s in if is_ascii_alnum c || c == b'_' || c == b'-' then rest else false

-- `_AAS_LAB_ID_RE.fullmatch`
unfoldable pub matches_lab_id : Text → Bool
unfolding is_ascii_alnum are_id_chars
matches_lab_id [] = false
matches_lab_id (c ∷ s) = is_ascii_alnum c && leb (length s) 63 && are_id_chars s

-- `_validate_lab_id`; `none` is ValueError
unfoldable pub validate_lab_id : Value → Option Text
unfolding matches_lab_id strip str_of
validate_lab_id v = if matches_lab_id (strip (str_of v)) then some (strip (str_of v)) else none

-- `_aas_id_for_lab`
unfoldable pub aas_id_for_lab : Text → Text
aas_id_for_lab lab = codes "urn:decentralabs:lab:" ++ lab

-- `_submodel_id_nameplate`
unfoldable pub submodel_id_nameplate : Text → Text
submodel_id_nameplate lab = codes "urn:decentralabs:lab:" ++ (lab ++ codes ":sm:nameplate")

-- `_submodel_id_technical`
unfoldable pub submodel_id_technical : Text → Text
submodel_id_technical lab = codes "urn:decentralabs:lab:" ++ (lab ++ codes ":sm:technicalData")

pub record Property : Type 0 where
  pub id_short : Text
  pub value_type : Text
  pub value : Text

-- `_prop`
unfoldable pub prop : Text → Text → Value → Property
unfolding str_of
prop id_short value_type null = record { id_short = id_short; value_type = value_type; value = [] }
prop id_short value_type v = record {
  id_short = id_short;
  value_type = value_type;
  value = str_of v;
}

abbrev pub text_prop : Text → Value → Property
text_prop id_short v = prop id_short (codes "xs:string") v

-- what the code reads of a host: `name` and `address` with "" where they are missing
pub record Host : Type 0 where
  pub name : Option Value
  pub address : Option Value
  pub mac : Value
  pub labs : List Value

-- what it reads of a heartbeat: the missing fields are null, and the texts ""
pub record Heartbeat : Type 0 where
  pub ready : Value
  pub local_mode : Value
  pub local_session : Value
  pub timestamp : Value
  pub last_power_timestamp : Value
  pub last_power_mode : Value
  pub last_logoff_timestamp : Value
  pub last_logoff_user : Value

pub record Submodel : Type 0 where
  pub id : Text
  pub id_short : Text
  pub semantic_id : Text
  pub elements : List Property

pub record Shell : Type 0 where
  pub id : Text
  pub id_short : Text
  pub description : Text
  pub submodels : List Text

abbrev or_empty : Option Value → Value
or_empty none = text []
or_empty (some v) = v

-- `", ".join(...)`
unfoldable pub join_commas : List Text → Text
join_commas [] = []
join_commas (s ∷ []) = s
join_commas (s ∷ t ∷ ss) = s ++ (codes ", " ++ join_commas (t ∷ ss))

abbrev mac_element : Value → List Property
mac_element mac = if truthy mac then text_prop (codes "MacAddress") mac ∷ [] else []

abbrev labs_element : List Value → List Property
labs_element [] = []
labs_element (l ∷ ls) =
    text_prop (codes "MappedLabIds") (text (join_commas (map str_of (l ∷ ls)))) ∷ []

-- `build_nameplate_submodel`
unfoldable pub build_nameplate_submodel : Text → Text → Host → Submodel
unfolding submodel_id_nameplate prop truthy join_commas str_of
build_nameplate_submodel now lab h = record {
  id = submodel_id_nameplate lab;
  id_short = codes "Nameplate";
  semantic_id = codes "https://admin-shell.io/zvei/nameplate/2/0/Nameplate";
  elements =
      text_prop (codes "LabId") (text lab)
      ∷ text_prop (codes "HostName") (or_empty h.name)
      ∷ text_prop (codes "LabType") (text (codes "PhysicalLab"))
      ∷ text_prop (codes "NetworkAddress") (or_empty h.address)
      ∷ text_prop (codes "SyncTimestamp") (text now)
      ∷ (mac_element h.mac ++ labs_element h.labs);
}

-- `bool_str`
unfoldable pub bool_str : Value → Value
unfolding truthy
bool_str null = text []
bool_str v = if truthy v then text (codes "true") else text (codes "false")

-- the text of "LabStatus"
unfoldable pub lab_status : Value → Value
unfolding truthy
lab_status (bool false) = text (codes "NotReady")
lab_status v = if truthy v then text (codes "Ready") else text []

abbrev unpolled : Heartbeat
unpolled = record {
  ready = null;
  local_mode = null;
  local_session = null;
  timestamp = text [];
  last_power_timestamp = text [];
  last_power_mode = text [];
  last_logoff_timestamp = text [];
  last_logoff_user = text [];
}

abbrev or_unpolled : Option Heartbeat → Heartbeat
or_unpolled none = unpolled
or_unpolled (some hb) = hb

-- the elements of the technical data
abbrev technical_elements : Text → Heartbeat → List Property
technical_elements now hb =
    text_prop (codes "LabStatus") (lab_status hb.ready)
    ∷ prop (codes "ReadyFlag") (codes "xs:boolean") (bool_str hb.ready)
    ∷ prop (codes "LocalModeEnabled") (codes "xs:boolean") (bool_str hb.local_mode)
    ∷ prop (codes "LocalSessionActive") (codes "xs:boolean") (bool_str hb.local_session)
    ∷ text_prop (codes "LastHeartbeatTimestamp") hb.timestamp
    ∷ text_prop (codes "LastPowerActionTimestamp") hb.last_power_timestamp
    ∷ text_prop (codes "LastPowerActionMode") hb.last_power_mode
    ∷ text_prop (codes "LastForcedLogoffTimestamp") hb.last_logoff_timestamp
    ∷ text_prop (codes "LastForcedLogoffUser") hb.last_logoff_user
    ∷ text_prop (codes "SyncTimestamp") (text now)
    ∷ []

-- `build_technical_data_submodel`
unfoldable pub build_technical_data_submodel : Text → Text → Option Heartbeat → Submodel
unfolding submodel_id_technical prop bool_str lab_status
build_technical_data_submodel now lab heartbeat = record {
  id = submodel_id_technical lab;
  id_short = codes "TechnicalData";
  semantic_id = codes "https://admin-shell.io/ZVEI/TechnicalData/Submodel/1/2";
  elements = technical_elements now (or_unpolled heartbeat);
}

abbrev name_or : Option Value → Text → Text
name_or none lab = lab
name_or (some v) lab = str_of v

-- `build_physical_aas_shell`
unfoldable pub build_physical_aas_shell : Text → Host → Shell
unfolding aas_id_for_lab submodel_id_nameplate submodel_id_technical str_of
build_physical_aas_shell lab h = record {
  id = aas_id_for_lab lab;
  id_short = codes "DecentraLabs_Lab_" ++ lab;
  description =
      codes "Physical lab resource '"
      ++ (name_or h.name lab ++ (codes "' (labId=" ++ (lab ++ codes ")")));
  submodels = submodel_id_nameplate lab ∷ submodel_id_technical lab ∷ [];
}
