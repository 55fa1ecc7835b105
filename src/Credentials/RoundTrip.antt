-- ===== src/Credentials/RoundTrip.antt =====
-- What is saved is loaded.
use lab_gateway.Prelude.{
  ◌≡◌, refl, ap, Text, nonempty, strip, text_eq, text_eq_iff, Option, none, some, true, [], ◌∷◌,
  arith, if◌then◌else◌, false≢true, subst, Bool-cases, inl, inr,
}
use lab_gateway.Prelude.Strip.{strip-strip}
use lab_gateway.Prelude.Value.{Value, text, str_of, clean, clean_lower, or_else, truthy}
use lab_gateway.Prelude.Table.{find, text_key}
use lab_gateway.WinRm.{Login}
use lab_gateway.Credentials.{
  Fernet, Json, object, Entry, entry_ref, Store, put_entry, saved_login, save_winrm_credentials,
  load_winrm_credentials, read_entry, read_token, login_of,
}

find-put_entry :
    (e : Entry) (k : Text) (st : Store)
    → find entry_ref k (put_entry e st) ≡ (if text_eq e.ref k then some e else find entry_ref k st)
unfolding find put_entry
find-put_entry e k [] = refl
find-put_entry e k (x ∷ xs) = ground (
  arith,
  find-put_entry e k xs,
  text_eq_iff x.ref e.ref,
  text_eq_iff x.ref k,
  text_eq_iff e.ref k,
)

clean-text : (s : Text) → clean (text s) ≡ strip s
unfolding clean or_else str_of
clean-text [] = refl
clean-text (c ∷ s) = refl

or_else-text : (s : Text) → str_of (or_else (text s) (text [])) ≡ s
unfolding or_else str_of
or_else-text [] = refl
or_else-text (c ∷ s) = refl

login_of-saved :
    (u p : Text)
    → nonempty (strip u) ≡ true
    → nonempty p ≡ true
    → login_of (text (strip u)) (text p) ≡ some (record { user = strip u; password = p })
unfolding login_of
login_of-saved u p h k = rw (clean-text (strip u), strip-strip u, or_else-text p, h, k) refl

nonempty-clean : (v : Value) → nonempty (clean v) ≡ true → clean v ≡ strip (str_of v)
unfolding clean or_else strip
nonempty-clean v h = elim (Bool-cases (truthy v)) [
  | inl e ↦ rw (clean, or_else, e) refl
  | inr e ↦
      absurd
        (false≢true (subst (λ b. nonempty (strip (str_of (if b then v else text []))) ≡ true) e h))
]

strip-nonempty : (s : Text) → nonempty (strip s) ≡ true → nonempty s ≡ true
unfolding strip
strip-nonempty [] h = h
strip-nonempty (c ∷ s) h = refl

module _ (json : Json) (f : Fernet) (undone : (t : Text) → f.decrypt (f.encrypt t) ≡ some t)
    (solid : (t : Text) → nonempty (f.encrypt t) ≡ true)
    (parsed : (l : Login)
      → json.loads (json.dumps l) ≡ object (text l.user) (text l.password)) where
  read_token-dumps :
      (l : Login)
      → login_of (text l.user) (text l.password) ≡ some l
      → read_token json f (f.encrypt (json.dumps l)) ≡ some (some l)
  unfolding read_token
  read_token-dumps l h = rw (read_token, undone (json.dumps l), parsed l) (ap (λ x. some x) h)

  look_up : Text → Store → Option (Option Login)
  look_up k store =
      if nonempty k then read_entry json (some f) (find entry_ref k store) else some none

  look_up-put :
      (r k : Text) (l : Login) (store : Store)
      → login_of (text l.user) (text l.password) ≡ some l
      → nonempty r ≡ true
      → look_up k (put_entry (record { ref = r; token = some (f.encrypt (json.dumps l)) }) store)
        ≡ (if text_eq r k then some (some l) else look_up k store)
  unfolding look_up read_entry
  look_up-put r k l store h a =
      rw (find-put_entry (record { ref = r; token = some (f.encrypt (json.dumps l)) }) k store)
        (ground (arith, read_token-dumps l h, solid (json.dumps l), text_eq_iff r k))

  -- After a save of a reference, a user and a password that are not blank, a load under any spelling
  -- of the reference gives the user, trimmed, and the password, and a load under any other reference
  -- gives what it gave before. The hypotheses: a key undoes its own encryption, whose tokens
  -- are not empty, and JSON reads back
  -- the login that it printed.
  pub load-save :
      (ref user password k : Value) (store : Store)
      → nonempty (clean_lower ref) ≡ true
      → nonempty (clean user) ≡ true
      → nonempty (clean password) ≡ true
      → (after : Store) × (save_winrm_credentials json (some f) ref user password store
          ≡ some after)
        × (load_winrm_credentials json (some f) k after ≡ (
            if text_eq (clean_lower ref) (clean_lower k)
            then some (some (saved_login user password))
            else load_winrm_credentials json (some f) k store))
  unfolding save_winrm_credentials load_winrm_credentials look_up
  load-save ref user password k store a b c = (
    put_entry
        (record {
          ref = clean_lower ref;
          token = some (f.encrypt (json.dumps (saved_login user password)));
        })
        store,
    rw (save_winrm_credentials, a, b, c) refl,
    look_up-put (clean_lower ref) (clean_lower k) (saved_login user password) store
        (login_of-saved (str_of user) (str_of password)
          (subst (λ s. nonempty s ≡ true) (nonempty-clean user b) b)
          (strip-nonempty (str_of password)
            (subst (λ s. nonempty s ≡ true) (nonempty-clean password c) c)))
        a,
  )
