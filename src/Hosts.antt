-- ===== src/Hosts.antt =====
-- The Lab Station catalog of ops-worker/worker.py: `merge_host_configs`, `class HostRegistry`,
-- `upsert_dynamic_host` and the credential references. A host is a JSON object: a field is `none`
-- where its key is missing. A JSON object that is no host, or a name that is no text, raises.
pub mod Lookup
pub mod Merge
pub mod Tests
use lab_gateway.Prelude.{
  Text, strip, lower, text_eq, nonempty, Option, none, some, not, ◌||◌, List, [], ◌∷◌, ◌++◌, map,
  if◌then◌else◌,
}
use lab_gateway.Prelude.Value.{
  Value, null, text, list, get_value, has, clean, clean_lower, str_of, or_else, truthy, values,
}
use lab_gateway.Prelude.Table.{find, text_key}

pub record Host : Type 0 where
  pub name : Option Value
  pub address : Option Value
  pub credential_ref : Option Value
  pub winrm_user : Option Value
  pub winrm_pass : Option Value
  pub winrm_use_ssl : Option Value
  pub winrm_port : Option Value
  pub winrm_transport : Option Value
  pub mac : Option Value
  pub ping_target : Option Value
  pub broadcast : Option Value
  pub wake_attempts : Option Value
  pub wol_port : Option Value
  pub labs : Option Value
  pub labstation_exe : Option Value

-- an entry of a catalog's list, which may be no object
pub data CatalogEntry : Type 0 where
  object : Host → CatalogEntry
  scalar : Value → CatalogEntry

-- `str(host.get("name") or "").strip()`
abbrev pub clean_name : Host → Text
clean_name h = clean (get_value h.name)

-- a dict of hosts, in order of insertion
abbrev pub HostDict : Type 0
HostDict = List (Text × Host)

abbrev pub dict_key : Text × Host → Text
dict_key e = e.0

-- `d[key] = host`: a key that is there keeps its place
unfoldable pub put : Text → Host → HostDict → HostDict
put key h [] = (key, h) ∷ []
put key h ((k, g) ∷ d) =
    let rest = put key h d in if text_eq k key then (k, h) ∷ d else (k, g) ∷ rest

-- one entry of the inner loop of `merge_host_configs`
unfoldable pub merge_entry : CatalogEntry → HostDict → HostDict
unfolding put
merge_entry (scalar _) d = d
merge_entry (object h) d = if nonempty (clean_name h) then put (lower (clean_name h)) h d else d

unfoldable pub merge_source : List CatalogEntry → HostDict → HostDict
unfolding merge_entry
merge_source [] d = d
merge_source (e ∷ es) d = merge_source es (merge_entry e d)

-- the base catalog, then the dynamic one over it
unfoldable pub merge_host_configs : List CatalogEntry → List CatalogEntry → HostDict
unfolding merge_source
merge_host_configs base dynamic = merge_source dynamic (merge_source base [])

-- `normalize_credential_ref(credential_ref or address or name)`
unfoldable pub credential_ref_for_host : Host → Text
unfolding clean_lower
credential_ref_for_host h =
    clean_lower
      (or_else (or_else (get_value h.credential_ref) (get_value h.address)) (get_value h.name))

-- one host of `resolve_host_secret_refs`
unfoldable pub resolve_host : Host → Host
unfolding or_else
resolve_host h = record h {
  credential_ref =
      if truthy (get_value h.credential_ref)
      then h.credential_ref
      else some (or_else (get_value h.address) (get_value h.name));
  winrm_user = none;
  winrm_pass = none;
}

pub record Registry : Type 0 where
  pub hosts : HostDict
  pub lab_index : HostDict

-- what `for lab_id in host.get("labs", [])` goes over; `none` raises
abbrev pub lab_values : Option Value → Option (List Value)
lab_values none = some []
lab_values (some (list _ items)) = some (values items)
lab_values (some (text t)) = some (map (λ c. text (c ∷ [])) t)
lab_values (some _) = none

-- `str(lab_id).strip().lower()`
unfoldable pub lab_key : Value → Text
unfolding str_of strip lower
lab_key v = lower (strip (str_of v))

-- `setdefault`: the first host wins
unfoldable pub index_lab : Host → Value → HostDict → HostDict
unfolding lab_key
index_lab h v d =
    if not (nonempty (lab_key v))
    then d
    else elim (find dict_key (lab_key v) d) [ none ↦ d ++ (lab_key v, h) ∷ [] | some _ ↦ d ]

unfoldable pub index_labs : Host → List Value → HostDict → HostDict
unfolding index_lab
index_labs h [] d = d
index_labs h (v ∷ vs) d = index_labs h vs (index_lab h v d)

abbrev without_secrets : Host → Host
without_secrets h = record h { winrm_user = none; winrm_pass = none }

-- `host["name"].lower()`; `none` is the AttributeError of a name that is no text
abbrev pub host_key : Option Value → Option Text
host_key (some (text t)) = some (lower t)
host_key _ = none

abbrev add_named : Host → Option Text → Option (List Value) → Registry → Option Registry
add_named h (some key) (some labs) r =
    some (record { hosts = put key h r.hosts; lab_index = index_labs h labs r.lab_index })
add_named h _ _ r = none

-- one round of the loop of `HostRegistry.__init__`
unfoldable pub add_host : Host → Registry → Option Registry
unfolding put index_labs
add_host h r =
    if not (has h.name) || not (has h.address)
    then some r
    else add_named (without_secrets h) (host_key h.name) (lab_values h.labs) r

unfoldable pub add_hosts : List Host → Registry → Option Registry
unfolding add_host
add_hosts [] r = some r
add_hosts (h ∷ hs) r = elim (add_host h r) [ none ↦ none | some r' ↦ add_hosts hs r' ]

unfoldable pub build_registry : List Host → Option Registry
unfolding add_hosts
build_registry hs = add_hosts hs (record { hosts = []; lab_index = [] })

-- `HostRegistry.get`
unfoldable pub get : Registry → Text → Option Host
get r name =
    if nonempty name
    then elim (find dict_key (lower name) r.hosts) [ none ↦ none | some (_, h) ↦ some h ]
    else none

-- `HostRegistry.get_by_lab`
unfoldable pub get_by_lab : Registry → Value → Option Host
unfolding lab_key
get_by_lab r null = none
get_by_lab r v = elim (find dict_key (lab_key v) r.lab_index) [ none ↦ none | some (_, h) ↦ some h ]

-- `upsert_dynamic_host`, on the list of hosts of the dynamic catalog: entries that are no objects
-- go, the first host of that name is replaced, and a new name is appended
abbrev objects : List CatalogEntry → List Host
objects [] = []
objects (object h ∷ es) = h ∷ objects es
objects (scalar _ ∷ es) = objects es

unfoldable pub replace_host : Text → Host → List Host → List Host
replace_host key new [] = new ∷ []
replace_host key new (h ∷ hs) =
    let rest = replace_host key new hs in
    if text_eq (lower (clean_name h)) key then new ∷ hs else h ∷ rest

unfoldable pub upsert_dynamic_host : Host → List CatalogEntry → List Host
unfolding replace_host
upsert_dynamic_host new entries = replace_host (lower (clean_name new)) new (objects entries)
