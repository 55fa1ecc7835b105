-- ===== src/Hosts/Lookup.antt =====
-- What the registry finds, by lab and by name.
use lab_gateway.Prelude.{
  ◌≡◌, refl, ap, ◌∙◌, Text, lower, text_eq, text_eq_iff, nonempty, Option, none, some, Bool, true,
  false, ◌&&◌, List, [], ◌∷◌, any_of, arith, if◌then◌else◌, Bool-cases, Option-cases, inl, inr,
}
use lab_gateway.Prelude.Value.{Value, has, is_null}
use lab_gateway.Prelude.Table.{find, find-append, text_key}
use lab_gateway.Hosts.{
  Host, HostDict, dict_key, Registry, lab_values, lab_key, index_lab, index_labs, without_secrets,
  host_key, add_named, add_host, add_hosts, build_registry, get, get_by_lab,
}
use lab_gateway.Hosts.Merge.{find-put, with_key}

-- some lab of the list has this key
abbrev pub claims_lab : Text → List Value → Bool
claims_lab key = any_of (λ v. nonempty (lab_key v) && text_eq (lab_key v) key)

abbrev or_first : Option Host → Option Host → Option Host
or_first (some g) _ = some g
or_first none o = o

abbrev claim_of : Text → Host → List Value → Option Host
claim_of key h vs = if claims_lab key vs then some h else none

find-index_lab :
    (key : Text) (h : Host) (v : Value) (d : HostDict) (found : Option Host)
    → find dict_key key d ≡ with_key key found
    → find dict_key key (index_lab h v d)
      ≡ with_key key (
          or_first found (if nonempty (lab_key v) && text_eq (lab_key v) key then some h else none))
unfolding index_lab find
find-index_lab key h v d none e =
    ground (arith, find-append dict_key key d ((lab_key v, h) ∷ []), text_eq_iff (lab_key v) key)
find-index_lab key h v d (some g) e =
    ground (arith, find-append dict_key key d ((lab_key v, h) ∷ []), text_eq_iff (lab_key v) key)

or_first-claim :
    (key : Text) (h : Host) (v : Value) (vs : List Value) (found : Option Host)
    → or_first
        (or_first found (if nonempty (lab_key v) && text_eq (lab_key v) key then some h else none))
        (claim_of key h vs)
      ≡ or_first found (claim_of key h (v ∷ vs))
or_first-claim key h v vs none = ground arith
or_first-claim key h v vs (some g) = refl

find-index_labs :
    (key : Text) (h : Host) (vs : List Value) (d : HostDict) (found : Option Host)
    → find dict_key key d ≡ with_key key found
    → find dict_key key (index_labs h vs d) ≡ with_key key (or_first found (claim_of key h vs))
unfolding index_labs
find-index_labs key h [] d none e = e
find-index_labs key h [] d (some g) e = e
find-index_labs key h (v ∷ vs) d found e =
    find-index_labs key h vs (index_lab h v d) _ (find-index_lab key h v d found e)
    ∙ ap (with_key key) (or_first-claim key h v vs found)

abbrev pub lab_list : Option (List Value) → List Value
lab_list none = []
lab_list (some vs) = vs

-- the catalog entry can be a host at all
abbrev pub is_usable : Host → Bool
is_usable h = has h.name && has h.address

abbrev pub step_lab : Text → Host → Option Host → Option Host
step_lab key h found =
    if is_usable h
    then or_first found (claim_of key (without_secrets h) (lab_list (lab_values h.labs)))
    else found

-- the first host of a list that names the lab, without its secrets
abbrev pub first_claim : Text → List Host → Option Host → Option Host
first_claim key [] found = found
first_claim key (h ∷ hs) found = first_claim key hs (step_lab key h found)

abbrev pub same_key : Text → Option Text → Bool
same_key key none = false
same_key key (some k) = text_eq k key

abbrev pub step_name : Text → Host → Option Host → Option Host
step_name key h found =
    if is_usable h && same_key key (host_key h.name) then some (without_secrets h) else found

-- the last host of a list with this name, without its secrets
abbrev pub last_key : Text → List Host → Option Host → Option Host
last_key key [] found = found
last_key key (h ∷ hs) found = last_key key hs (step_name key h found)

-- the two lookups of a registry, for every key
record Indexes (r : Registry) (lab name : Text → Option Host) : Type 0 where
  by_lab : (key : Text) → find dict_key key r.lab_index ≡ with_key key (lab key)
  by_name : (key : Text) → find dict_key key r.hosts ≡ with_key key (name key)

add_named-Indexes :
    (h : Host) (name : Text) (vs : List Value) (r r' : Registry) (f g : Text → Option Host)
    → Indexes r f g
    → add_named h (some name) (some vs) r ≡ some r'
    → Indexes r'
        (λ k. or_first (f k) (claim_of k h vs))
        (λ k. if text_eq name k then some h else g k)
add_named-Indexes h name vs r r' f g x e = record {
  by_lab = λ k. ground (arith, e, find-index_labs k h vs r.lab_index (f k) (x.by_lab k));
  by_name = λ k. ground (arith, e, find-put name k h r.hosts, x.by_name k, text_eq_iff name k);
}

add_usable-Indexes :
    (h : Host) (name : Option Text) (vs : Option (List Value)) (r r' : Registry)
    (f g : Text → Option Host)
    → Indexes r f g
    → add_named h name vs r ≡ some r'
    → Indexes r'
        (λ k. or_first (f k) (claim_of k h (lab_list vs)))
        (λ k. if same_key k name then some h else g k)
add_usable-Indexes h none vs r r' f g x e = absurd (cc)
add_usable-Indexes h (some name) none r r' f g x e = absurd (cc)
add_usable-Indexes h (some name) (some vs) r r' f g x e = add_named-Indexes h name vs r r' f g x e

add_host-Indexes :
    (h : Host) (r r' : Registry) (f g : Text → Option Host)
    → Indexes r f g
    → add_host h r ≡ some r'
    → Indexes r' (λ k. step_lab k h (f k)) (λ k. step_name k h (g k))
unfolding add_host
add_host-Indexes h r r' f g x e = elim (Bool-cases (is_usable h)) [
  | inl usable ↦ rw usable (
      add_usable-Indexes (without_secrets h) (host_key h.name) (lab_values h.labs) r r' f g x
        (ground arith))
  | inr skipped ↦ rw skipped (let same : r ≡ r' = ground arith in rw (← same) x)
]

add_hosts-Indexes :
    (hs : List Host) (r r' : Registry) (f g : Text → Option Host)
    → Indexes r f g
    → add_hosts hs r ≡ some r'
    → Indexes r' (λ k. first_claim k hs (f k)) (λ k. last_key k hs (g k))
unfolding add_hosts
add_hosts-Indexes [] r r' f g x e = let same : r ≡ r' = ground arith in rw (← same) x
add_hosts-Indexes (h ∷ hs) r r' f g x e = elim (Option-cases (add_host h r)) [
  | inl bad ↦ absurd (cc)
  | inr (s, done) ↦
      add_hosts-Indexes hs s r' (λ k. step_lab k h (f k)) (λ k. step_name k h (g k))
        (add_host-Indexes h r s f g x done) (ground arith)
]

built :
    (hs : List Host) (r : Registry)
    → build_registry hs ≡ some r
    → Indexes r (λ k. first_claim k hs none) (λ k. last_key k hs none)
unfolding build_registry find
built hs r e =
    add_hosts-Indexes hs (record { hosts = []; lab_index = [] }) r (λ _. none) (λ _. none)
      (record { by_lab = λ k. refl; by_name = λ k. refl }) e

-- A registry that was built finds for a lab the first usable host of the catalog that names it, and
-- for a name the last usable host of that name, case aside; neither carries WinRM secrets.
pub registry_finds :
    (hs : List Host) (r : Registry) (v : Value) (name : Text)
    → build_registry hs ≡ some r
    → is_null v ≡ false
    → nonempty name ≡ true
    → (get_by_lab r v ≡ first_claim (lab_key v) hs none)
      × (get r name ≡ last_key (lower name) hs none)
unfolding get get_by_lab
registry_finds hs r v name e filled named =
    let x = built hs r e in ground (arith, x.by_lab (lab_key v), x.by_name (lower name))
