-- ===== src/Provision/Tests.antt =====
-- A host provisioned from a connection.
use lab_gateway.Prelude.{Text, codes, Bool, true, List, [], ◌∷◌}
use lab_gateway.Prelude.Value.{null, text}
use lab_gateway.Provision.{Payload, Connection, build_provisioned_host}
use lab_gateway.Provision.Connects.{IsReachable, provisioned_connects}

abbrev payload : Payload
payload = record {
  name = null;
  address = text (codes " 10.0.0.5 ");
  labs = text (codes "7, 8,");
  valid_lab_ids = text (codes "7,8,9");
  credential_ref = null;
  winrm_transport = null;
  mac = text (codes "aa");
}

abbrev connection : Connection
connection = record { hostname = text (codes "pc1"); name = null }

abbrev matches : Text → Bool
matches _ = true

abbrev show : List Text → Text
show _ = []

provisioned_connects_example :
    IsReachable (codes "ntlm" ∷ []) (build_provisioned_host matches show payload connection)
provisioned_connects_example =
    provisioned_connects matches show payload connection (codes "ntlm" ∷ [])
