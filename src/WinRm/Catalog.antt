-- ===== src/WinRm/Catalog.antt =====
-- A host that `validate_winrm_catalog` lets through can be reached under the connection policy.
use lab_gateway.Prelude.{
  ◌≡◌, refl, ap, Text, text_eq, strip, lower, Option, none, some, Bool, true, false, not, ◌&&◌,
  ◌||◌, List, [], ◌∷◌, any_of, arith, zero, suc, Option-cases, inl, inr,
}
use lab_gateway.Prelude.Int.{ℤ, pos, negsuc}
use lab_gateway.Prelude.Value.{
  Value, null, bool, int, text, other, list, is_blank, get_value, has, str_of, int_of, truthy,
  text_in, show_ℤ,
}
use lab_gateway.Hosts.{Host, object}
use lab_gateway.WinRm.{
  ok, connection_policy, configured_transport, effective_transport, check_transport, check_ssl,
  coerce_bool, read_port, numbered, is_winrm, word_bool, catalog_bool, as_flag,
}
use lab_gateway.WinRm.Validate.{port_is_valid, host_is_valid}
use lab_gateway.WinRm.Policy.{winrm_port_eq}

-- a flag that a person writes: no list, no object and no float
abbrev pub is_plain : Value → Bool
is_plain (list _ _) = false
is_plain (other _ _ _) = false
is_plain _ = true

zero_is_no : catalog_bool (int (pos 0)) ≡ some false
unfolding catalog_bool word_bool text_in text_eq str_of show_ℤ strip lower
zero_is_no = refl

flag_lem : (w : Option Bool) → w ≡ some true → check_ssl (as_flag w) (some none) ≡ ok true
unfolding check_ssl
flag_lem none e = cc
flag_lem (some true) e = refl
flag_lem (some false) e = cc

check_ssl-catalog :
    (v : Value)
    → is_plain v ≡ true
    → catalog_bool v ≡ some true
    → check_ssl (coerce_bool v) (coerce_bool null) ≡ ok true
unfolding check_ssl coerce_bool catalog_bool truthy str_of
check_ssl-catalog null p e = refl
check_ssl-catalog (bool true) p e = refl
check_ssl-catalog (bool false) p e = cc
check_ssl-catalog (int (pos zero)) p e = cc (zero_is_no)
check_ssl-catalog (int (pos (suc n))) p e = refl
check_ssl-catalog (int (negsuc n)) p e = refl
check_ssl-catalog (text []) p e = refl
check_ssl-catalog (text (c ∷ s)) p e = flag_lem (word_bool (lower (strip (c ∷ s)))) e
check_ssl-catalog (list s i) p e = cc
check_ssl-catalog (other b s i) p e = cc

port_lem :
    (w : Option ℤ)
    → elim w [ none ↦ false | some n ↦ is_winrm n ] ≡ true
    → elim w [ none ↦ none | some n ↦ some (numbered n) ] ≡ some (numbered (pos 5986))
port_lem none e = cc
port_lem (some n) e = ap (λ m. some (numbered m)) (winrm_port_eq n e)

read_port-catalog :
    (v : Value)
    → is_blank v ≡ false
    → port_is_valid v ≡ true
    → read_port v ≡ some (numbered (pos 5986))
unfolding port_is_valid read_port
read_port-catalog null b e = cc
read_port-catalog (text []) b e = cc
read_port-catalog (text (c ∷ s)) b e = port_lem (int_of (text (c ∷ s))) e
read_port-catalog (bool x) b e = port_lem (int_of (bool x)) e
read_port-catalog (int n) b e = port_lem (int_of (int n)) e
read_port-catalog (list s i) b e = port_lem (int_of (list s i)) e
read_port-catalog (other x s i) b e = port_lem (int_of (other x s i)) e

check_transport-null :
    (allowed : List Text) (t : Text)
    → any_of (text_eq (effective_transport null t)) allowed ≡ true
    → check_transport allowed null t ≡ ok (effective_transport null t)
unfolding check_transport
check_transport-null allowed t e = rw e refl

declared_keys : (a b : Bool) → (a && b) ≡ true → (not a || not b) ≡ false
declared_keys a b e = ground arith

valid_flag :
    {Address Network : Type 0} (resolve : Text → Option (List Address))
    (within : Address → Network → Bool) (networks : List Network) (h : Host)
    → host_is_valid resolve within networks (object h) ≡ true
    → ((has h.winrm_use_ssl && has h.winrm_port) ≡ true)
      × (catalog_bool (get_value h.winrm_use_ssl) ≡ some true)
      × (port_is_valid (get_value h.winrm_port) ≡ true)
unfolding host_is_valid
valid_flag resolve within networks h e =
    elim (Option-cases (catalog_bool (get_value h.winrm_use_ssl))) [
      | inl q ↦ ground (arith, q)
      | inr (b, q) ↦ ground (arith, q)
    ]

-- A host that the catalog's validation accepts, whose `winrm_use_ssl` is a plain value, whose port is
-- not left blank and whose transport is allowed, is admitted by the connection policy without any
-- parameter in the request: HTTPS, port 5986, the host's transport.
validated_host_connects :
    {Address Network : Type 0} (resolve : Text → Option (List Address))
    (within : Address → Network → Bool) (networks : List Network) (allowed : List Text) (h : Host)
    → host_is_valid resolve within networks (object h) ≡ true
    → is_plain (get_value h.winrm_use_ssl) ≡ true
    → is_blank (get_value h.winrm_port) ≡ false
    → any_of (text_eq (effective_transport null (configured_transport h))) allowed ≡ true
    → connection_policy allowed h null null null
      ≡ ok (record {
        use_ssl = true;
        port = pos 5986;
        transport = effective_transport null (configured_transport h);
      })
unfolding connection_policy
validated_host_connects resolve within networks allowed h valid plain declared transport =
    let (keys, flag, port) = valid_flag resolve within networks h valid in
    rw
      (
        declared_keys (has h.winrm_use_ssl) (has h.winrm_port) keys,
        check_ssl-catalog (get_value h.winrm_use_ssl) plain flag,
        read_port-catalog (get_value h.winrm_port) declared port,
        check_transport-null allowed (configured_transport h) transport,
      )
      refl
