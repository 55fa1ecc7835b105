-- ===== src/Links/Tests.antt =====
-- A link for a file of lab 42.
use lab_gateway.Prelude.{codes, nonempty, strip, ◌≡◌, refl, some, true, [], ◌++◌}
use lab_gateway.Prelude.Int.{pos}
use lab_gateway.Prelude.Value.{null, int, text, clean}
use lab_gateway.Links.{aas_link_path, Body, text_or_empty, prefix, create_aas_link, resolve_aas_id}
use lab_gateway.Links.Resolve.{resolve_aas_id-create_aas_link}

abbrev body : Body
body = record { aas_id = text (codes " urn:shell:7 "); lab_id = int (pos 42); submodel_ids = null }

aas_given : text_or_empty body.aas_id ≡ some (codes "urn:shell:7")
unfolding text_or_empty strip
aas_given = refl

lab_given : nonempty (clean body.lab_id) ≡ true
unfolding clean strip
lab_given = refl

key_path :
    aas_link_path (λ s. s) (λ s. true) (codes "motor.fmu") ≡ some (codes "motor.fmu.aas-link.json")
unfolding aas_link_path strip
key_path = refl

lab_path : aas_link_path (λ s. s) (λ s. true) (clean body.lab_id) ≡ some (codes "42.aas-link.json")
unfolding aas_link_path strip
lab_path = refl

resolve_aas_id-create_aas_link_example :
    resolve_aas_id
      (λ s. s)
      (λ s. true)
      (prefix ++ clean body.lab_id)
      (create_aas_link (λ s. s) (λ s. true) (codes "motor.fmu") (some body) []).0
    ≡ some (codes "urn:shell:7", true)
resolve_aas_id-create_aas_link_example =
    resolve_aas_id-create_aas_link (λ s. s) (λ s. true) (codes "motor.fmu") body []
      (codes "urn:shell:7") (codes "motor.fmu.aas-link.json") (codes "42.aas-link.json") aas_given
      refl lab_given key_path lab_path

lab_resolved :
    resolve_aas_id
      (λ s. s)
      (λ s. true)
      (codes "urn:decentralabs:lab:42")
      (create_aas_link (λ s. s) (λ s. true) (codes "motor.fmu") (some body) []).0
    ≡ some (codes "urn:shell:7", true)
unfolding resolve_aas_id create_aas_link
lab_resolved = refl
