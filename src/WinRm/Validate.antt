-- ===== src/WinRm/Validate.antt =====
-- `validate_winrm_catalog` of ops-worker/worker.py.
use lab_gateway.Prelude.{
  Text, nonempty, Option, none, some, Bool, true, false, not, ◌&&◌, ◌||◌, List, [], ◌∷◌, any_of,
}
use lab_gateway.Prelude.Value.{Value, int_of, clean, is_blank, get_value, has}
use lab_gateway.Hosts.{CatalogEntry, object, scalar, clean_name}
use lab_gateway.WinRm.{is_winrm, catalog_bool}

-- no port, or the WinRM one
unfoldable pub port_is_valid : Value → Bool
unfolding int_of
port_is_valid v = is_blank v || elim (int_of v) [ none ↦ false | some n ↦ is_winrm n ]

-- `validate_winrm_catalog`: `true` where it returns, `false` where it raises ValueError. `resolve`
-- is `_resolved_addresses`, and `networks` the management networks, `none` where one is invalid.
module _ {Address Network : Type 0} (resolve : Text → Option (List Address))
    (within : Address → Network → Bool) where
  unfoldable pub is_managed : List Network → Text → Bool
  is_managed networks address = elim (resolve address) [
    | none ↦ false
    | some found ↦ any_of (λ a. any_of (within a) networks) found
  ]

  abbrev pub requires_https : Option Bool → Bool
  requires_https none = false
  requires_https (some b) = b

  unfoldable pub host_is_valid : List Network → CatalogEntry → Bool
  unfolding clean catalog_bool port_is_valid is_managed
  host_is_valid networks (scalar _) = false
  host_is_valid networks (object h) =
      nonempty (clean_name h)
      && nonempty (clean (get_value h.address))
      && has h.winrm_use_ssl
      && has h.winrm_port
      && requires_https (catalog_bool (get_value h.winrm_use_ssl))
      && port_is_valid (get_value h.winrm_port)
      && is_managed networks (clean (get_value h.address))

  unfoldable pub validate_winrm_catalog : Option (List Network) → List CatalogEntry → Bool
  unfolding host_is_valid
  validate_winrm_catalog networks [] = true
  validate_winrm_catalog none hosts = false
  validate_winrm_catalog (some []) hosts = false
  validate_winrm_catalog (some (n ∷ ns)) hosts =
      not (any_of (λ e. not (host_is_valid (n ∷ ns) e)) hosts)
