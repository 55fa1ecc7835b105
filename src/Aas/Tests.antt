-- ===== src/Aas/Tests.antt =====
-- An allowlisted server that creates what it does not have.
use lab_gateway.Prelude.{
  Text, codes, ◌≡◌, refl, none, some, Bool, true, false, [], ◌∷◌, All, leb, if◌then◌else◌,
}
use lab_gateway.Prelude.Value.{Value, null, text}
use lab_gateway.Aas.{Host, validate_lab_id}
use lab_gateway.Aas.Endpoint.{Parts, Config, aas_request_headers}
use lab_gateway.Aas.Sync.{Method, put, post, Call, Answer, answered, synced, sync_lab_to_basyx}
use lab_gateway.Aas.Guarded.{IsSafe, sync-IsSafe}
use lab_gateway.Aas.Synced.{WhenSynced, IsDone, sync-IsDone}

abbrev parts : Parts
parts = record {
  scheme = codes "HTTPS";
  hostname = some (codes "aas.lab.edu");
  username = none;
  password = none;
}

abbrev config : Config
config = record {
  aas_url = codes "https://aas.lab.edu/";
  allowed_hosts = codes "other.org, AAS.lab.edu";
  service_token = codes "s3cret";
  service_token_header = [];
  urlsplit = λ s. some parts;
  is_alnum = λ c. leb 65 c;
  is_alpha = λ c. leb 65 c;
}

headers_found :
    aas_request_headers config ≡ some ((codes "Authorization", codes "Bearer s3cret") ∷ [])
unfolding aas_request_headers
headers_found = refl

foreign_host : aas_request_headers (record config { allowed_hosts = codes "other.org" }) ≡ none
unfolding aas_request_headers
foreign_host = refl

slash_in_lab : validate_lab_id (text (codes "7/8")) ≡ none
unfolding validate_lab_id
slash_in_lab = refl

abbrev is_put : Method → Bool
is_put put = true
is_put post = false

-- a PUT finds nothing
abbrev server : Call → Answer
server k = if is_put k.method then answered 404 else answered 201

abbrev host : Host
host = record {
  name = some (text (codes "bench"));
  address = none;
  mac = null;
  labs = text (codes "7") ∷ [];
}

abbrev lab_seven : Value
lab_seven = text (codes " 7 ")

abbrev encode : Text → Text
encode s = codes "ab"

sync_done :
    (sync_lab_to_basyx config server encode (codes "now") host none lab_seven).1
    ≡ some (record { created = true; updated = false; result = synced })
unfolding sync_lab_to_basyx
sync_done = refl

sync-IsSafe_example :
    All
      (IsSafe config server encode)
      (sync_lab_to_basyx config server encode (codes "now") host none lab_seven).0
sync-IsSafe_example = sync-IsSafe config server encode (codes "now") host none lab_seven

sync-IsDone_example :
    WhenSynced
      (IsDone config server encode (codes "now") host none (validate_lab_id lab_seven))
      (sync_lab_to_basyx config server encode (codes "now") host none lab_seven).1
sync-IsDone_example = sync-IsDone config server encode (codes "now") host none lab_seven
