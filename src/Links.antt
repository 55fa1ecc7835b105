-- ===== src/Links.antt =====
-- The AAS links of fmu-runner/main.py: `_aas_link_path`, `create_aas_link`, `get_aas_link`,
-- `delete_aas_link` and `resolve_aas_id`. The directory of the links is an association list from
-- file names; whether a name lies below it once its links are resolved is an argument.
pub mod Resolve
mod Tests
use lab_gateway.Prelude.{
  ℕ, Text, codes, nonempty, strip, starts_with, text_eq, Option, none, some, Bool, true, false, not,
  ◌&&◌, List, [], ◌∷◌, ◌++◌, keep, drop, length, if◌then◌else◌,
}
use lab_gateway.Prelude.Value.{Value, Items, nil, cons, text, list, clean, truthy}
use lab_gateway.Access.Files.{validate_storage_key}

pub record Link : Type 0 where
  pub aas_id : Text
  pub lab_id : Option Text
  pub submodel_ids : Option (List Text)

-- what a file holds: a link that the gateway wrote, or text that does not parse
pub data Content : Type 0 where
  stored : Link → Content
  corrupt : Content

abbrev pub Directory : Type 0
Directory = List (Text × Content)

abbrev pub read : Text → Directory → Option Content
read name [] = none
read name ((n, c) ∷ d) = let rest = read name d in if text_eq n name then some c else rest

abbrev has_other_name : Text → Text × Content → Bool
has_other_name name (n, _) = not (text_eq n name)

abbrev pub unlink : Text → Directory → Directory
unlink name d = keep (has_other_name name) d

abbrev pub write : Text → Link → Directory → Directory
write name l d = (name, stored l) ∷ unlink name d

pub data Reply : Type 0 where
  linked : Link → Reply
  shown : Link → Reply
  unlinked : Reply
  -- an HTTPException with this status
  http : ℕ → Reply
  -- an exception that is not caught
  crash : Reply

-- the JSON object of the request
pub record Body : Type 0 where
  pub aas_id : Value
  pub lab_id : Value
  pub submodel_ids : Value

-- `(v or "").strip()`, `none` where `v` has no `strip`
unfoldable pub text_or_empty : Value → Option Text
unfolding strip truthy
text_or_empty (text s) = some (strip s)
text_or_empty v = if truthy v then none else some []

-- `[s.strip() for s in ids if isinstance(s, str) and s.strip()]`
unfoldable pub stripped : Items → List Text
unfolding strip
stripped nil = []
stripped (cons (text s) vs) =
    let rest = stripped vs in if nonempty (strip s) then strip s ∷ rest else rest
stripped (cons _ vs) = stripped vs

abbrev given_ids : Value → Option (List Text)
given_ids (list _ nil) = none
given_ids (list _ (cons v vs)) = some (stripped (cons v vs))
given_ids _ = none

abbrev given_lab : Text → Option Text
given_lab s = if nonempty s then some s else none

unfoldable pub link_of : Text → Body → Link
unfolding clean stripped
link_of aas_id b = record {
  aas_id = aas_id;
  lab_id = given_lab (clean b.lab_id);
  submodel_ids = given_ids b.submodel_ids;
}

abbrev pub prefix : Text
prefix = codes "urn:decentralabs:lab:"

-- `_aas_link_path`: the name in the directory, and `none` is the 400
module _ (path_name : Text → Text) (is_within : Text → Bool) where
  unfoldable pub aas_link_path : Text → Option Text
  unfolding validate_storage_key
  aas_link_path key = elim (validate_storage_key path_name (text key)) [
    | none ↦ none
    | some safe ↦
        if is_within (safe ++ codes ".aas-link.json")
        then some (safe ++ codes ".aas-link.json")
        else none
  ]

  -- the second file, under the lab id
  abbrev write_lab : Link → Directory → Option Text → Directory × Reply
  write_lab l d none = (d, http 400)
  write_lab l d (some name) = (write name l d, linked l)

  unfoldable pub write_link : Text → Text → Link → Directory → Option Text → Directory × Reply
  unfolding text_eq aas_link_path
  write_link key lab l d none = (d, http 400)
  write_link key lab l d (some name) =
      if nonempty lab && not (text_eq lab key)
      then write_lab l (write name l d) (aas_link_path lab)
      else (write name l d, linked l)

  abbrev create_with : Text → Body → Directory → Option Text → Directory × Reply
  create_with key b d none = (d, crash)
  create_with key b d (some aas_id) =
      if not (nonempty aas_id)
      then (d, http 400)
      else write_link key (clean b.lab_id) (link_of aas_id b) d (aas_link_path key)

  -- `create_aas_link`; `none` is a body that is no JSON
  unfoldable pub create_aas_link : Text → Option Body → Directory → Directory × Reply
  unfolding text_or_empty link_of write_link clean
  create_aas_link key none d = (d, http 400)
  create_aas_link key (some b) d = create_with key b d (text_or_empty b.aas_id)

  abbrev show : Option Content → Reply
  show none = http 404
  show (some (stored l)) = shown l
  show (some corrupt) = http 500

  unfoldable pub get_aas_link : Text → Directory → Reply
  unfolding aas_link_path
  get_aas_link key d = elim (aas_link_path key) [ none ↦ http 400 | some name ↦ show (read name d) ]

  abbrev lab_of : Content → Text
  lab_of (stored l) = elim l.lab_id [ none ↦ [] | some s ↦ s ]
  lab_of corrupt = []

  -- the file under the lab id goes too
  abbrev unlink_lab : Directory → Option Text → Directory × Reply
  unlink_lab d none = (d, http 400)
  unlink_lab d (some name) = (unlink name d, unlinked)

  abbrev delete_found : Text → Text → Directory → Option Content → Directory × Reply
  delete_found key name d none = (d, http 404)
  delete_found key name d (some c) =
      if nonempty (lab_of c) && not (text_eq (lab_of c) key)
      then unlink_lab (unlink name d) (aas_link_path (lab_of c))
      else (unlink name d, unlinked)

  unfoldable pub delete_aas_link : Text → Directory → Directory × Reply
  unfolding aas_link_path text_eq
  delete_aas_link key d = elim (aas_link_path key) [
    | none ↦ (d, http 400)
    | some name ↦ delete_found key name d (read name d)
  ]

  -- the target that a file gives
  abbrev target_of : Option Content → Option Text
  target_of (some (stored l)) = if nonempty (strip l.aas_id) then some (strip l.aas_id) else none
  target_of _ = none

  -- what `resolve_aas_id` answers: the target and whether it is an override, or the 400
  unfoldable pub resolve_key : Text → Text → Directory → Option (Text × Bool)
  unfolding aas_link_path strip
  resolve_key shell key d = elim (aas_link_path key) [
    | none ↦ none
    | some name ↦ elim (target_of (read name d)) [
      | some target ↦ some (target, true)
      | none ↦ elim (aas_link_path (key ++ codes ".fmu")) [
        | none ↦ none
        | some fmu ↦ elim (target_of (read fmu d)) [
          | some target ↦ some (target, true)
          | none ↦ some (shell, false)
        ]
      ]
    ]
  ]

  unfoldable pub resolve_aas_id : Text → Directory → Option (Text × Bool)
  unfolding starts_with resolve_key
  resolve_aas_id shell d =
      if starts_with shell prefix
      then resolve_key shell (drop (length prefix) shell) d
      else some (shell, false)
