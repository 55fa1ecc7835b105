-- ===== src/Provision/Connects.antt =====
-- A provisioned host passes the connection policy.
use lab_gateway.Prelude.{
  ◌≡◌, refl, Text, nonempty, text_eq, some, Bool, true, not, List, any_of, if◌then◌else◌,
  Bool-cases, Option-cases, inl, inr,
}
use lab_gateway.Prelude.Value.{null, int, int_of}
use lab_gateway.Prelude.Int.{pos}
use lab_gateway.Hosts.{Host}
use lab_gateway.WinRm.{
  Checked, ok, refused, transport_forbidden, connection_policy, effective_transport,
  configured_transport, Connection, read_port, numbered,
}
use lab_gateway.Provision
use lab_gateway.Provision.{
  Payload, Built, built, Verdict, valid, no_candidates, not_candidates, host_of,
  build_provisioned_host, sanitize_host_name, normalize_labs, validate_labs_against_candidates,
  address_of, judged,
}

-- the connection that the policy gives a host of the gateway's own making
abbrev pub own_connection : List Text → Host → Checked Connection
own_connection allowed h =
    if any_of (text_eq (effective_transport null (configured_transport h))) allowed
    then ok (record {
      use_ssl = true;
      port = pos 5986;
      transport = effective_transport null (configured_transport h);
    })
    else refused transport_forbidden

abbrev pub IsReachable : List Text → Built → Type 0
IsReachable allowed (Provision.refused _) = Unit
IsReachable allowed (built h) =
    connection_policy allowed h null null null ≡ own_connection allowed h

module _ (matches : Text → Bool) (show : List Text → Text) (p : Payload)
    (c : Provision.Connection) where
  own_port : read_port (int (pos 5986)) ≡ some (numbered (pos 5986))
  unfolding read_port int_of
  own_port = refl

  host_of-connects :
      (allowed : List Text) (name : Text) (labs : List Text)
      → connection_policy allowed (host_of matches show p c name labs) null null null
        ≡ own_connection allowed (host_of matches show p c name labs)
  unfolding connection_policy host_of
  host_of-connects allowed name labs =
      let t = configured_transport (host_of matches show p c name labs) in
      elim (Bool-cases (any_of (text_eq (effective_transport null t)) allowed)) [
        | inl e ↦ rw (own_port, e) refl
        | inr e ↦ rw (own_port, e) refl
      ]

  judged-connects :
      (allowed : List Text) (name : Text) (labs : List Text) (v : Verdict)
      → IsReachable allowed (judged matches show p c name labs v)
  judged-connects allowed name labs valid = host_of-connects allowed name labs
  judged-connects allowed name labs no_candidates = tt
  judged-connects allowed name labs (not_candidates ls) = tt

  -- Every host that provisioning accepts is one that the connection policy lets through without a
  -- parameter of the request, over HTTPS on port 5986, unless its transport is not allowed, which is
  -- then the refusal.
  pub provisioned_connects :
      (allowed : List Text) → IsReachable allowed (build_provisioned_host matches show p c)
  unfolding build_provisioned_host
  provisioned_connects allowed = elim (Option-cases (sanitize_host_name matches show p c)) [
    | inl e ↦ rw (build_provisioned_host, e) tt
    | inr (name, e) ↦ elim (Bool-cases (not (nonempty (address_of matches show p c)))) [
      | inl q ↦ rw (build_provisioned_host, e, q) tt
      | inr q ↦
          rw (build_provisioned_host, e, q)
            (judged-connects allowed name (normalize_labs p.labs)
              (validate_labs_against_candidates (normalize_labs p.labs) p.valid_lab_ids))
    ]
  ]
