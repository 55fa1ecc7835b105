-- ===== src/WinRm.antt =====
-- The WinRM side of ops-worker/worker.py: which hosts a catalog may hold, which connection a
-- command may use, and the command itself. The credential store and the remote call are arguments.
-- A float of a JSON object is finite: an `other` that `int` accepts.
pub mod Policy
pub mod Validate
pub mod Catalog
mod Tests
use lab_gateway.Prelude.{
  ℕ, Text, codes, text_eq, strip, lower, Option, none, some, Bool, true, false, not, ◌&&◌, ◌||◌,
  List, [], ◌∷◌, ◌++◌, any_of, ◌==◌, if◌then◌else◌,
}
use lab_gateway.Prelude.Int.{ℤ, pos, negsuc}
use lab_gateway.Prelude.Value.{
  Value, null, bool, int, text, other, str_of, int_of, truthy, or_else, is_blank, text_in,
  get_value, get_default, has, show_ℤ,
}
use lab_gateway.Hosts.{Host, credential_ref_for_host}

abbrev pub winrm_port : ℕ
winrm_port = 5986

abbrev yes_words : List Text
yes_words = codes "true" ∷ codes "1" ∷ codes "yes" ∷ codes "on" ∷ []

abbrev no_words : List Text
no_words = codes "false" ∷ codes "0" ∷ codes "no" ∷ codes "off" ∷ []

-- the words that both readings of a Boolean know; `none` is a ValueError
unfoldable pub word_bool : Text → Option Bool
unfolding text_in
word_bool s =
    if text_in s yes_words then some true else if text_in s no_words then some false else none

abbrev pub as_flag : Option Bool → Option (Option Bool)
as_flag none = none
as_flag (some b) = some (some b)

-- `_coerce_bool`: `none` is a ValueError, `some none` a value that is missing
unfoldable pub coerce_bool : Value → Option (Option Bool)
coerce_bool null = some none
coerce_bool (text []) = some none
coerce_bool (bool b) = some (some b)
coerce_bool (int n) = some (some (truthy (int n)))
coerce_bool (other b s (some n)) = some (some b)
coerce_bool v = as_flag (word_bool (lower (strip (str_of v))))

-- `_catalog_bool`
unfoldable pub catalog_bool : Value → Option Bool
catalog_bool null = some true
catalog_bool (text []) = some true
catalog_bool (bool b) = some b
catalog_bool v = word_bool (lower (strip (str_of v)))

-- the ValueErrors of the policy and of the credentials
pub data Refusal : Type 0 where
  undeclared bad_bool https_required ssl_mismatch : Refusal
  bad_host_port bad_request_port wrong_port port_mismatch : Refusal
  transport_mismatch transport_forbidden inline_credentials no_credentials : Refusal

pub data Checked {ℓ} (A : Type ℓ) : Type ℓ where
  refused : Refusal → Checked A
  ok : A → Checked A

-- the two tests of `use_ssl`: the host's entry, then the request's
unfoldable pub check_ssl : Option (Option Bool) → Option (Option Bool) → Checked Bool
check_ssl none _ = refused bad_bool
check_ssl (some (some false)) _ = refused https_required
check_ssl (some _) none = refused bad_bool
check_ssl (some _) (some (some false)) = refused ssl_mismatch
check_ssl (some _) (some _) = ok true

-- `configured_port` once read: None, the empty text, or an integer
pub data Port : Type 0 where
  no_port empty_port : Port
  numbered : ℤ → Port

unfoldable pub read_port : Value → Option Port
read_port null = some no_port
read_port (text []) = some empty_port
read_port v = elim (int_of v) [ none ↦ none | some n ↦ some (numbered n) ]

-- `n == WINRM_PORT`
abbrev pub is_winrm : ℤ → Bool
is_winrm (pos n) = n == winrm_port
is_winrm (negsuc n) = false

-- the tests on the two ports once they are read; a request of "" counts as none
unfoldable pub agree_ports : Port → Port → Checked ℤ
agree_ports empty_port _ = refused wrong_port
agree_ports no_port (numbered n) = if is_winrm n then ok n else refused wrong_port
agree_ports no_port _ = refused wrong_port
agree_ports (numbered n) (numbered m) =
    if not (is_winrm n)
    then refused wrong_port
    else if is_winrm m
    then ok m
    else refused port_mismatch
agree_ports (numbered n) _ = if is_winrm n then ok n else refused wrong_port

unfoldable pub check_ports : Option Port → Option Port → Checked ℤ
unfolding agree_ports
check_ports none _ = refused bad_host_port
check_ports (some _) none = refused bad_request_port
check_ports (some configured) (some requested) = agree_ports configured requested

-- `str(host.get("winrm_transport") or "ntlm").strip().lower()`
unfoldable pub configured_transport : Host → Text
unfolding strip lower or_else str_of
configured_transport h =
    lower (strip (str_of (or_else (get_value h.winrm_transport) (text (codes "ntlm")))))

unfoldable pub effective_transport : Value → Text → Text
unfolding strip lower or_else str_of
effective_transport transport configured =
    lower (strip (str_of (or_else transport (text configured))))

unfoldable pub check_transport : List Text → Value → Text → Checked Text
unfolding effective_transport
check_transport allowed transport configured =
    let effective = effective_transport transport configured in
    if not (is_blank transport) && not (text_eq effective configured)
    then refused transport_mismatch
    else if not (any_of (text_eq effective) allowed)
    then refused transport_forbidden
    else ok effective

pub record Connection : Type 0 where
  pub use_ssl : Bool
  pub port : ℤ
  pub transport : Text

-- `_winrm_connection_policy` with `WINRM_ALLOWED_TRANSPORTS`
module _ (allowed : List Text) (h : Host) (use_ssl port transport : Value) where
  unfoldable pub connection_policy : Checked Connection
  unfolding coerce_bool check_ssl read_port check_ports check_transport configured_transport
  connection_policy =
      if not (has h.winrm_use_ssl) || not (has h.winrm_port)
      then refused undeclared
      else elim (check_ssl (coerce_bool (get_value h.winrm_use_ssl)) (coerce_bool use_ssl)) [
        | refused e ↦ refused e
        | ok ssl ↦ elim (check_ports (read_port (get_value h.winrm_port)) (read_port port)) [
          | refused e ↦ refused e
          | ok p ↦ elim (check_transport allowed transport (configured_transport h)) [
            | refused e ↦ refused e
            | ok t ↦ ok (record { use_ssl = ssl; port = p; transport = t })
          ]
        ]
      ]

pub record Login : Type 0 where
  pub user : Text
  pub password : Text

-- `_winrm_credentials`: `store` is what `load_winrm_credentials` finds
unfoldable pub winrm_credentials : (Text → Option Login) → Host → Value → Value → Checked Login
unfolding truthy credential_ref_for_host
winrm_credentials store h user password =
    if truthy user || truthy password
    then refused inline_credentials
    else elim (store (credential_ref_for_host h)) [ none ↦ refused no_credentials | some l ↦ ok l ]

-- `https://{address}:{port}/wsman`
unfoldable pub endpoint_of : Host → ℤ → Text
unfolding str_of show_ℤ
endpoint_of h p =
    codes "https://" ++ (str_of (get_value h.address) ++ (b':' ∷ (show_ℤ p ++ codes "/wsman")))

-- `winrm_endpoint`
unfoldable pub winrm_endpoint : List Text → Host → Value → Value → Checked Text
unfolding connection_policy endpoint_of
winrm_endpoint allowed h use_ssl port = elim (connection_policy allowed h use_ssl port null) [
  | refused e ↦ refused e
  | ok c ↦ ok (endpoint_of h c.port)
]

-- the arguments of `winrm.Session` and of its `run_cmd`
pub record Call : Type 0 where
  pub endpoint : Text
  pub login : Login
  pub transport : Text
  pub exe : Value
  pub arguments : List Text

pub record Ran : Type 0 where
  pub exit_code : ℤ
  pub stdout : Text
  pub stderr : Text

-- the call that `run_labstation_command` makes
unfoldable pub labstation_call :
    List Text
    → (Text → Option Login)
    → Text
    → Host
    → Text
    → List Text
    → Value
    → Value
    → Value
    → Value
    → Value
    → Checked Call
unfolding winrm_credentials connection_policy endpoint_of
labstation_call allowed store default_exe h command args user password transport use_ssl port =
    elim (winrm_credentials store h user password) [
      | refused e ↦ refused e
      | ok login ↦ elim (connection_policy allowed h use_ssl port transport) [
        | refused e ↦ refused e
        | ok c ↦ ok (record {
          endpoint = endpoint_of h c.port;
          login = login;
          transport = c.transport;
          exe = get_default h.labstation_exe (text default_exe);
          arguments = command ∷ args;
        })
      ]
    ]

-- `run_labstation_command` without credentials, transport, TLS flag and port, as the steps of a
-- reservation call it; `remote` is the remote call, and `none` an exception
unfoldable pub run_labstation_command :
    List Text
    → (Text → Option Login)
    → Text
    → (Call → Option Ran)
    → Host
    → Text
    → List Text
    → Option Ran
unfolding labstation_call
run_labstation_command allowed store default_exe remote h command args =
    elim (labstation_call allowed store default_exe h command args null null null null null) [
      | refused _ ↦ none
      | ok call ↦ remote call
    ]
