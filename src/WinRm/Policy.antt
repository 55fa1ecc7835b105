-- ===== src/WinRm/Policy.antt =====
-- What the connection policy guarantees, and how far a validated catalog goes with it.
use lab_gateway.Prelude.{
  ◌≡◌, subst, ◌⊎◌, refl, ap, Text, text_eq, Option, none, some, Bool, true, false, not, ◌&&◌, ◌||◌,
  List, any_of, arith, Bool-cases, inl, inr,
}
use lab_gateway.Prelude.Int.{ℤ, pos, negsuc}
use lab_gateway.Prelude.Value.{Value, is_blank, get_value, has}
use lab_gateway.Hosts.{Host, credential_ref_for_host}
use lab_gateway.WinRm.{
  Checked, Refusal, refused, ok, Connection, connection_policy, configured_transport,
  check_transport, check_ports, check_ssl, agree_ports, coerce_bool, read_port, Port, numbered,
  no_port, empty_port, is_winrm, Login, Call, labstation_call, winrm_credentials, endpoint_of,
}

abbrev pub is_admitted : List Text → Host → Value → Checked Connection → Bool
is_admitted allowed h transport (refused _) = true
is_admitted allowed h transport (ok c) =
    c.use_ssl
    && is_winrm c.port
    && any_of (text_eq c.transport) allowed
    && (is_blank transport || text_eq c.transport (configured_transport h))

abbrev holds {ℓ} : {A : Type ℓ} → (A → Bool) → Checked A → Bool
holds p (refused _) = true
holds p (ok a) = p a

Checked-cases {ℓ} :
    {A : Type ℓ} (c : Checked A) → ((e : Refusal) × (c ≡ refused e)) ⊎ ((a : A) × (c ≡ ok a))
Checked-cases (refused e) = inl (e, refl)
Checked-cases (ok a) = inr (a, refl)

agree_ports_lem : (a b : Port) → holds is_winrm (agree_ports a b) ≡ true
unfolding agree_ports
agree_ports_lem empty_port b = refl
agree_ports_lem no_port (numbered n) = ground arith
agree_ports_lem no_port no_port = refl
agree_ports_lem no_port empty_port = refl
agree_ports_lem (numbered n) (numbered m) = ground arith
agree_ports_lem (numbered n) no_port = ground arith
agree_ports_lem (numbered n) empty_port = ground arith

check_ports_lem : (a b : Option Port) → holds is_winrm (check_ports a b) ≡ true
unfolding check_ports
check_ports_lem none b = refl
check_ports_lem (some a) none = refl
check_ports_lem (some a) (some b) = agree_ports_lem a b

check_ssl_lem : (a b : Option (Option Bool)) → holds (λ s. s) (check_ssl a b) ≡ true
unfolding check_ssl
check_ssl_lem none b = refl
check_ssl_lem (some none) none = refl
check_ssl_lem (some none) (some none) = refl
check_ssl_lem (some none) (some (some true)) = refl
check_ssl_lem (some none) (some (some false)) = refl
check_ssl_lem (some (some false)) b = refl
check_ssl_lem (some (some true)) none = refl
check_ssl_lem (some (some true)) (some none) = refl
check_ssl_lem (some (some true)) (some (some true)) = refl
check_ssl_lem (some (some true)) (some (some false)) = refl

check_transport_lem :
    (allowed : List Text) (v : Value) (t : Text)
    → holds
        (λ s. any_of (text_eq s) allowed && (is_blank v || text_eq s t))
        (check_transport allowed v t)
      ≡ true
unfolding check_transport
check_transport_lem allowed v t = ground arith

admitted_parts :
    (allowed : List Text) (h : Host) (transport : Value) (s : Checked Bool) (p : Checked ℤ)
    (t : Checked Text)
    → holds (λ b. b) s ≡ true
    → holds is_winrm p ≡ true
    → holds
        (λ b.
          any_of (text_eq b) allowed && (is_blank transport || text_eq b (configured_transport h)))
        t
      ≡ true
    → is_admitted allowed h transport (elim s [
      | refused e ↦ refused e
      | ok ssl ↦ elim p [
        | refused e ↦ refused e
        | ok n ↦ elim t [
          | refused e ↦ refused e
          | ok w ↦ ok (record { use_ssl = ssl; port = n; transport = w })
        ]
      ]
    ])
      ≡ true
admitted_parts allowed h transport (refused _) p t a b c = refl
admitted_parts allowed h transport (ok s) (refused _) t a b c = refl
admitted_parts allowed h transport (ok s) (ok p) (refused _) a b c = refl
admitted_parts allowed h transport (ok s) (ok p) (ok t) a b c = ground arith

-- Whatever a host and a request say, a connection that the policy admits uses HTTPS, port 5986 and
-- an allowed transport; a request that names a transport gets the host's own.
policy_admits :
    (allowed : List Text) (h : Host) (use_ssl port transport : Value)
    → is_admitted allowed h transport (connection_policy allowed h use_ssl port transport) ≡ true
unfolding connection_policy
policy_admits allowed h use_ssl port transport =
    elim (Bool-cases (not (has h.winrm_use_ssl) || not (has h.winrm_port))) [
      | inl e ↦ rw e refl
      | inr e ↦ rw e (
          admitted_parts allowed h transport
            (check_ssl (coerce_bool (get_value h.winrm_use_ssl)) (coerce_bool use_ssl))
            (check_ports (read_port (get_value h.winrm_port)) (read_port port))
            (check_transport allowed transport (configured_transport h))
            (check_ssl_lem (coerce_bool (get_value h.winrm_use_ssl)) (coerce_bool use_ssl))
            (check_ports_lem (read_port (get_value h.winrm_port)) (read_port port))
            (check_transport_lem allowed transport (configured_transport h)))
    ]

-- what a call that is made satisfies
abbrev pub CallIsSafe : (Text → Option Login) → List Text → Host → Checked Call → Type 0
CallIsSafe store allowed h (refused _) = Unit
CallIsSafe store allowed h (ok c) =
    (store (credential_ref_for_host h) ≡ some c.login)
    × (c.endpoint ≡ endpoint_of h (pos 5986))
    × (any_of (text_eq c.transport) allowed ≡ true)

pub winrm_port_eq : (n : ℤ) → is_winrm n ≡ true → n ≡ pos 5986
winrm_port_eq (pos n) e = ground arith
winrm_port_eq (negsuc n) e = ground arith

credentials_lem :
    (store : Text → Option Login) (h : Host) (user password : Value) (l : Login)
    → winrm_credentials store h user password ≡ ok l
    → store (credential_ref_for_host h) ≡ some l
unfolding winrm_credentials
credentials_lem store h user password l e = ground arith

admitted_port :
    (allowed : List Text) (h : Host) (transport : Value) (c : Connection)
    → is_admitted allowed h transport (ok c) ≡ true
    → is_winrm c.port ≡ true
admitted_port allowed h transport c e = ground arith

admitted_transport :
    (allowed : List Text) (h : Host) (transport : Value) (c : Connection)
    → is_admitted allowed h transport (ok c) ≡ true
    → any_of (text_eq c.transport) allowed ≡ true
admitted_transport allowed h transport c e = ground arith

module _ (allowed : List Text) (store : Text → Option Login) (default_exe : Text) (h : Host)
    (command : Text) (args : List Text) (user password transport use_ssl port : Value) where
  admitted :
      (c : Connection)
      → connection_policy allowed h use_ssl port transport ≡ ok c
      → is_admitted allowed h transport (ok c) ≡ true
  admitted c r =
      subst (λ x. is_admitted allowed h transport x ≡ true) r
        (policy_admits allowed h use_ssl port transport)

  -- A call that reaches a Lab Station carries the login stored under the host's credential
  -- reference, goes to the host's HTTPS endpoint on port 5986, and uses an allowed transport,
  -- whatever credentials, transport, TLS flag and port the request brought.
  pub call_is_safe : CallIsSafe store allowed h (
      labstation_call allowed store default_exe h command args user password transport use_ssl port)
  unfolding labstation_call
  call_is_safe = elim (Checked-cases (winrm_credentials store h user password)) [
    | inl (e, q) ↦ rw (labstation_call, q) tt
    | inr (l, q) ↦ elim (Checked-cases (connection_policy allowed h use_ssl port transport)) [
      | inl (e, r) ↦ rw (labstation_call, q, r) tt
      | inr (c, r) ↦
          rw (labstation_call, q, r)
            (
              credentials_lem store h user password l q,
              ap (endpoint_of h)
                  (winrm_port_eq c.port (admitted_port allowed h transport c (admitted c r))),
              admitted_transport allowed h transport c (admitted c r),
            )
    ]
  ]
