-- ===== src/Credentials.antt =====
-- The store of WinRM credentials: `save_winrm_credentials` and `load_winrm_credentials` of
-- ops-worker/worker.py, and `rotate_credentials` of ops-worker/rotate_secrets.py. Fernet and JSON
-- are arguments; reading and replacing the files is the passing of the store. A JSON object that
-- is decrypted shows its `user` and its `password`.
pub mod RoundTrip
pub mod Rotation
mod Tests
use lab_gateway.Prelude.{
  Text, nonempty, strip, Option, none, some, Bool, false, not, ◌&&◌, ◌||◌, List, [], ◌∷◌,
  if◌then◌else◌,
}
use lab_gateway.Prelude.Value.{Value, text, str_of, clean, clean_lower, or_else, truthy}
use lab_gateway.Prelude.Table.{find, text_key}
use lab_gateway.WinRm.{Login}

-- a key's `encrypt` and `decrypt`; `none` is InvalidToken
pub record Fernet : Type 0 where
  pub encrypt : Text → Text
  pub decrypt : Text → Option Text

-- what `json.loads` makes of a text
pub data Parsed : Type 0 where
  no_json : Parsed
  no_object : Parsed
  object : Value → Value → Parsed

pub record Json : Type 0 where
  pub loads : Text → Parsed
  -- `json.dumps` of the object with a login
  pub dumps : Login → Text
  -- `json.dumps` of what `json.loads` made of the text, without spaces
  pub reprint : Text → Text

-- an entry of the store: its token, which is a text, or `none` where it has none or is no object
pub record Entry : Type 0 where
  pub ref : Text
  pub token : Option Text

abbrev pub entry_ref : Entry → Text
entry_ref e = e.ref

abbrev pub Store : Type 0
Store = List Entry

-- `data["credentials"][ref] = entry`: a key that is there keeps its place
unfoldable pub put_entry : Entry → Store → Store
put_entry e [] = e ∷ []
put_entry e (x ∷ xs) =
    let rest = put_entry e xs in if text_key.beq x.ref e.ref then e ∷ xs else x ∷ rest

-- the login that is encrypted: `str(user).strip()` and `str(password)`
abbrev pub saved_login : Value → Value → Login
saved_login user password = record { user = strip (str_of user); password = str_of password }

-- `save_winrm_credentials`; `none` is an exception, also for a missing key
unfoldable pub save_winrm_credentials :
    Json → Option Fernet → Value → Value → Value → Store → Option Store
unfolding clean_lower clean strip str_of put_entry or_else
save_winrm_credentials json key ref user password store =
    if not (nonempty (clean_lower ref))
      || not (nonempty (clean user))
      || not (nonempty (clean password))
    then none
    else elim key [
      | none ↦ none
      | some f ↦ some (
          put_entry
            (record {
              ref = clean_lower ref;
              token = some (f.encrypt (json.dumps (saved_login user password)));
            })
            store)
    ]

-- the last lines of `load_winrm_credentials`
unfoldable pub login_of : Value → Value → Option Login
unfolding clean str_of or_else
login_of user password =
    let u = clean user in
    let p = str_of (or_else password (text [])) in
    if not (nonempty u) || not (nonempty p) then none else some (record { user = u; password = p })

-- decryption and parsing; the outer `none` is an exception that is not caught
unfoldable pub read_token : Json → Fernet → Text → Option (Option Login)
unfolding login_of
read_token json f token = elim (f.decrypt token) [
  | none ↦ some none
  | some raw ↦ elim (json.loads raw) [
    | no_json ↦ some none
    | no_object ↦ none
    | object user password ↦ some (login_of user password)
  ]
]

-- a token that is there and not empty is read
unfoldable pub read_entry : Json → Option Fernet → Option Entry → Option (Option Login)
unfolding read_token
read_entry json key none = some none
read_entry json key (some e) = elim e.token [
  | none ↦ some none
  | some t ↦
      if nonempty t then elim key [ none ↦ none | some f ↦ read_token json f t ] else some none
]

-- `load_winrm_credentials`
unfoldable pub load_winrm_credentials : Json → Option Fernet → Value → Store → Option (Option Login)
unfolding clean_lower read_entry
load_winrm_credentials json key ref store =
    if nonempty (clean_lower ref)
    then read_entry json key (find entry_ref (clean_lower ref) store)
    else some none

-- `not payload.get("user") or not payload.get("password")` of an object
unfoldable pub is_complete : Parsed → Bool
unfolding truthy
is_complete no_json = false
is_complete no_object = false
is_complete (object user password) = truthy user && truthy password

-- one entry of the loop of `rotate_credentials`; `none` is its RuntimeError
unfoldable pub rotate_entry : Json → Fernet → Fernet → Entry → Option Entry
unfolding is_complete
rotate_entry json old new e = elim e.token [
  | none ↦ none
  | some t ↦ elim (old.decrypt t) [
    | none ↦ none
    | some raw ↦
        if is_complete (json.loads raw)
        then some (record e { token = some (new.encrypt (json.reprint raw)) })
        else none
  ]
]

-- `rotate_credentials` on the store: nothing is written unless every entry was rotated
unfoldable pub rotate_credentials : Json → Fernet → Fernet → Store → Option Store
unfolding rotate_entry
rotate_credentials json old new [] = some []
rotate_credentials json old new (e ∷ es) = elim (rotate_entry json old new e) [
  | none ↦ none
  | some e' ↦ elim (rotate_credentials json old new es) [ none ↦ none | some es' ↦ some (e' ∷ es') ]
]
