-- ===== src/Hosts/Tests.antt =====
-- Catalogs of two hosts.
use lab_gateway.Prelude.{
  ◌+◌, ◌≤◌, ◌≡◌, refl, Text, codes, lower, text_eq, none, some, true, List, [], ◌∷◌, length,
  if◌then◌else◌,
}
use lab_gateway.Prelude.Int.{pos}
use lab_gateway.Prelude.Table.{find, text_key}
use lab_gateway.Prelude.Value.{text, list, int, nil, cons, bool}
use lab_gateway.Hosts.{
  Host, CatalogEntry, object, upsert_dynamic_host, objects, Registry, build_registry, lab_key, get,
  get_by_lab, without_secrets,
}
use lab_gateway.Hosts.Merge.{folded_name, entries, upsert_lem}
use lab_gateway.Hosts.Lookup.{first_claim, last_key, registry_finds}

abbrev pub station : Text → Text → Host
station name address = record {
  name = some (text name);
  address = some (text address);
  credential_ref = none;
  winrm_user = some (text (codes "u"));
  winrm_pass = none;
  winrm_use_ssl = some (bool true);
  winrm_port = some (int (pos 5986));
  winrm_transport = none;
  mac = some (text (codes "aa"));
  ping_target = none;
  broadcast = none;
  wake_attempts = none;
  wol_port = none;
  labs = some (list (codes "['7']") (cons (text (codes "7")) nil));
  labstation_exe = none;
}

abbrev base : List CatalogEntry
base = object (station (codes "PC1") (codes "a")) ∷ []

abbrev dynamic : List CatalogEntry
dynamic = object (station (codes " pc1 ") (codes "b")) ∷ []

upsert_lem_example :
    (find folded_name
        (codes "pc1")
        (upsert_dynamic_host (station (codes "PC1") (codes "c")) dynamic)
      ≡ (if text_eq (folded_name (station (codes "PC1") (codes "c"))) (codes "pc1")
          then some (station (codes "PC1") (codes "c"))
          else find folded_name (codes "pc1") (objects dynamic)))
    × (length (upsert_dynamic_host (station (codes "PC1") (codes "c")) dynamic)
        ≤ length (objects dynamic) + 1)
    × (upsert_dynamic_host
          (station (codes "PC1") (codes "c"))
          (entries (upsert_dynamic_host (station (codes "PC1") (codes "c")) dynamic))
        ≡ upsert_dynamic_host (station (codes "PC1") (codes "c")) dynamic)
upsert_lem_example = upsert_lem (station (codes "PC1") (codes "c")) dynamic (codes "pc1")

abbrev pub one_host : Host
one_host = without_secrets (station (codes "PC1") (codes "a"))

abbrev pub one_registry : Registry
one_registry = record {
  hosts = (codes "pc1", one_host) ∷ [];
  lab_index = (codes "7", one_host) ∷ [];
}

one_built : build_registry (station (codes "PC1") (codes "a") ∷ []) ≡ some one_registry
unfolding build_registry find
one_built = refl

registry_finds_example :
    (get_by_lab one_registry (text (codes "7"))
      ≡ first_claim (lab_key (text (codes "7"))) (station (codes "PC1") (codes "a") ∷ []) none)
    × (get one_registry (codes "Pc1")
        ≡ last_key (lower (codes "Pc1")) (station (codes "PC1") (codes "a") ∷ []) none)
registry_finds_example =
    registry_finds (station (codes "PC1") (codes "a") ∷ []) one_registry (text (codes "7"))
      (codes "Pc1") one_built refl refl
