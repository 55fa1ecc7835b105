-- ===== src/WinRm/Tests.antt =====
-- The connection policy on a concrete host.
use lab_gateway.Prelude.{
  ℕ, ◌≡◌, refl, Text, codes, text_eq, Option, some, Bool, true, List, [], ◌∷◌, any_of, ◌==◌,
}
use lab_gateway.Prelude.Value.{null}
use lab_gateway.Hosts.{Host, object}
use lab_gateway.Hosts.Tests.{station}
use lab_gateway.WinRm.{Login, labstation_call, configured_transport, effective_transport}
use lab_gateway.WinRm.Validate.{host_is_valid}
use lab_gateway.WinRm.Policy.{CallIsSafe, call_is_safe}

abbrev host : Host
host = station (codes "PC1") (codes "10.0.0.5")

abbrev allowed : List Text
allowed = codes "ntlm" ∷ codes "kerberos" ∷ []

abbrev store : Text → Option Login
store _ = some (record { user = codes "u"; password = codes "p" })

call_is_safe_example : CallIsSafe store allowed host (
    labstation_call allowed store
      (codes "exe")
      host
      (codes "prepare-session")
      []
      null
      null
      null
      null
      null)
call_is_safe_example =
    call_is_safe allowed store (codes "exe") host (codes "prepare-session") [] null null null null
      null

-- one address, inside the one network
abbrev resolve : Text → Option (List ℕ)
resolve _ = some (5 ∷ [])

abbrev within : ℕ → ℕ → Bool
within a n = a == n

host_valid : host_is_valid resolve within (5 ∷ []) (object host) ≡ true
unfolding host_is_valid lab_gateway.Prelude.strip
host_valid = refl

ntlm_allowed :
    any_of (text_eq (effective_transport null (configured_transport host))) allowed ≡ true
unfolding effective_transport configured_transport text_eq
ntlm_allowed = refl
