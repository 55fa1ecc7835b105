-- ===== src/Credentials/Rotation.antt =====
-- A rotation keeps every login.
use lab_gateway.Prelude.{
  ◌≡◌, refl, sym, ap, subst, Text, nonempty, text_eq, Option, none, some, true, [], ◌∷◌, arith,
  if◌then◌else◌, Bool-cases, Option-cases, inl, inr,
}
use lab_gateway.Prelude.Value.{Value, clean_lower}
use lab_gateway.Prelude.Table.{find, text_key}
use lab_gateway.Credentials.{
  Fernet, Json, Entry, entry_ref, Store, load_winrm_credentials, read_entry, read_token,
  rotate_entry, rotate_credentials,
}

module _ (json : Json) (old new : Fernet)
    (undone : (t : Text) → new.decrypt (new.encrypt t) ≡ some t)
    (solid : (t : Text) → nonempty (new.encrypt t) ≡ true) (unread : old.decrypt [] ≡ none)
    (same : (t : Text) → json.loads (json.reprint t) ≡ json.loads t) where
  -- one entry reads the same before and after
  abbrev ReadsSame : Option Entry → Option Entry → Type 0
  ReadsSame a b = read_entry json (some new) b ≡ read_entry json (some old) a

  read-token_same :
      (t raw : Text)
      → old.decrypt t ≡ some raw
      → read_token json new (new.encrypt (json.reprint raw)) ≡ read_token json old t
  unfolding read_token
  read-token_same t raw h = rw (read_token, undone (json.reprint raw), same raw, h) refl

  rotate_token :
      (ref t raw : Text) (e' : Entry)
      → old.decrypt t ≡ some raw
      → rotate_entry json old new (record { ref = ref; token = some t }) ≡ some e'
      → e' ≡ record { ref = ref; token = some (new.encrypt (json.reprint raw)) }
  unfolding rotate_entry
  rotate_token ref t raw e' q h = ground arith

  rotate_entry_lem :
      (ref : Text) (token : Option Text) (e' : Entry)
      → rotate_entry json old new (record { ref = ref; token = token }) ≡ some e'
      → (e'.ref ≡ ref) × ReadsSame (some (record { ref = ref; token = token })) (some e')
  unfolding rotate_entry read_entry
  rotate_entry_lem ref none e' h = cc
  rotate_entry_lem ref (some []) e' h = ground (arith, unread)
  rotate_entry_lem ref (some (c ∷ t)) e' h = elim (Option-cases (old.decrypt (c ∷ t))) [
    | inl q ↦ ground arith
    | inr (raw, q) ↦
        subst
          (λ x.
            (x.ref ≡ ref) × ReadsSame (some (record { ref = ref; token = some (c ∷ t) })) (some x))
          (sym (rotate_token ref (c ∷ t) raw e' q h))
          (refl, rw (solid (json.reprint raw)) (read-token_same (c ∷ t) raw q))
  ]

  rotate-cons :
      (e e' : Entry) (es es' : Store)
      → rotate_credentials json old new (e ∷ es) ≡ some (e' ∷ es')
      → (rotate_entry json old new e ≡ some e') × (rotate_credentials json old new es ≡ some es')
  unfolding rotate_credentials
  rotate-cons e e' es es' h = ground arith

  find-rotate :
      (k : Text) (es es' : Store)
      → rotate_credentials json old new es ≡ some es'
      → ReadsSame (find entry_ref k es) (find entry_ref k es')
  unfolding rotate_credentials find read_entry
  find-rotate k [] [] h = refl
  find-rotate k [] (e' ∷ es') h = ground arith
  find-rotate k (e ∷ es) [] h = ground arith
  find-rotate k (e ∷ es) (e' ∷ es') h =
      let (one, rest) = rotate-cons e e' es es' h in
      let (r, s) = rotate_entry_lem e.ref e.token e' one in
      let later = find-rotate k es es' rest in
      elim (Bool-cases (text_eq e.ref k)) [ inl q ↦ rw (r, q) s | inr q ↦ rw (r, q) later ]

  -- A rotation that goes through changes no login: under the new key a load of any reference gives
  -- what it gave before under the old key. The hypotheses: the new key undoes its own encryption,
  -- whose tokens are not empty, the old key takes no empty token, and a JSON text that is printed
  -- again reads the same.
  pub load-rotate :
      (k : Value) (store after : Store)
      → rotate_credentials json old new store ≡ some after
      → load_winrm_credentials json (some new) k after
        ≡ load_winrm_credentials json (some old) k store
  unfolding load_winrm_credentials
  load-rotate k store after h =
      ap (λ x. if nonempty (clean_lower k) then x else some none)
        (find-rotate (clean_lower k) store after h)
