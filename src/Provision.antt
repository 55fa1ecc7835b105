-- ===== src/Provision.antt =====
-- Hosts that an administrator provisions in ops-worker/worker.py: `normalize_labs`,
-- `validate_labs_against_candidates`, `sanitize_host_name` and `build_provisioned_host`. The
-- regular expression `HOST_NAME_RE` is an argument; the paths of the telemetry files are left out.
pub mod Connects
mod Tests
use lab_gateway.Prelude.{
  Text, codes, nonempty, strip, text_eq, Option, none, some, Bool, true, not, ◌&&◌, ◌||◌, List, [],
  ◌∷◌, map, keep, any_of, reverse, ◌==◌, if◌then◌else◌,
}
use lab_gateway.Prelude.Int.{pos}
use lab_gateway.Prelude.Value.{
  Value, Items, bool, int, text, list, nil, cons, values, str_of, clean, or_else, is_null,
}
use lab_gateway.Hosts.{Host}

-- `value.split(",")`: `part` is the current part, reversed
unfoldable pub split_commas : Text → Text → List Text
split_commas part [] = reverse part ∷ []
split_commas part (c ∷ s) =
    let next = split_commas [] s in
    let more = split_commas (c ∷ part) s in if c == b',' then reverse part ∷ next else more

abbrev label_parts : Value → List Text
label_parts (text s) = split_commas [] s
label_parts (list _ items) = map str_of (values items)
label_parts _ = []

-- `normalize_labs`; None and any other value give no part
unfoldable pub normalize_labs : Value → List Text
unfolding split_commas str_of strip
normalize_labs v = keep nonempty (map strip (label_parts v))

-- the answers of `validate_labs_against_candidates`
pub data Verdict : Type 0 where
  valid : Verdict
  no_candidates : Verdict
  not_candidates : List Text → Verdict

unfoldable pub is_member : List Text → Text → Bool
is_member known l = any_of (text_eq l) known

abbrev judge : List Text → List Text → Verdict
judge [] _ = no_candidates
judge (_ ∷ _) [] = valid
judge (_ ∷ _) (l ∷ ls) = not_candidates (l ∷ ls)

unfoldable pub validate_labs_against_candidates : List Text → Value → Verdict
unfolding normalize_labs is_member
validate_labs_against_candidates labs candidates =
    let known = normalize_labs candidates in
    if is_null candidates then valid else judge known (keep (λ l. not (is_member known l)) labs)

pub record Payload : Type 0 where
  pub name : Value
  pub address : Value
  pub labs : Value
  pub valid_lab_ids : Value
  pub credential_ref : Value
  pub winrm_transport : Value
  pub mac : Value

pub record Connection : Type 0 where
  pub hostname : Value
  pub name : Value

pub data Refusal : Type 0 where
  bad_name : Refusal
  no_address : Refusal
  bad_labs : Verdict → Refusal

pub data Built : Type 0 where
  refused : Refusal → Built
  built : Host → Built

-- the items of a list of texts
abbrev pub items_of : List Text → Items
items_of [] = nil
items_of (l ∷ ls) = cons (text l) (items_of ls)

-- `s or "ntlm"`
abbrev or_ntlm : Text → Text
or_ntlm s = if nonempty s then s else codes "ntlm"

-- `matches` is `HOST_NAME_RE.fullmatch`, and `show` the `str` of a list of labs
module _ (matches : Text → Bool) (show : List Text → Text) (p : Payload) (c : Connection) where
  -- `sanitize_host_name`
  unfoldable pub sanitize_host_name : Option Text
  unfolding clean or_else
  sanitize_host_name =
      let name = clean (or_else p.name (or_else c.hostname c.name)) in
      if matches name then some name else none

  abbrev address_of : Text
  address_of = clean (or_else p.address c.hostname)

  unfoldable pub host_of : Text → List Text → Host
  unfolding clean or_else str_of strip
  host_of name labs = record {
    name = some (text name);
    address = some (text address_of);
    credential_ref = some (text (strip (str_of (or_else p.credential_ref (text address_of)))));
    winrm_user = none;
    winrm_pass = none;
    winrm_use_ssl = some (bool true);
    winrm_port = some (int (pos 5986));
    winrm_transport =
        some (text (or_ntlm (strip (str_of (or_else p.winrm_transport (text (codes "ntlm")))))));
    mac = if nonempty (clean p.mac) then some (text (clean p.mac)) else none;
    ping_target = none;
    broadcast = none;
    wake_attempts = none;
    wol_port = none;
    labs = some (list (show labs) (items_of labs));
    labstation_exe = none;
  }

  abbrev judged : Text → List Text → Verdict → Built
  judged name labs valid = built (host_of name labs)
  judged name labs v = refused (bad_labs v)

  unfoldable pub build_provisioned_host : Built
  unfolding sanitize_host_name host_of normalize_labs validate_labs_against_candidates
  build_provisioned_host = elim sanitize_host_name [
    | none ↦ refused bad_name
    | some name ↦
        if not (nonempty address_of)
        then refused no_address
        else judged name (normalize_labs p.labs)
            (validate_labs_against_candidates (normalize_labs p.labs) p.valid_lab_ids)
  ]
