-- ===== src/Guacamole.antt =====
-- Temporary Guacamole accounts of ops-worker/worker.py: `parse_guacamole_selector`,
-- `resolve_guacamole_connection`, `provision_guacamole_temporary_user`,
-- `delete_guacamole_temporary_user` and `cleanup_expired_guacamole_temp_users`, over the tables of
-- Guacamole as lists of rows, with what mysql/001-create-schema.sql says of a name: at most 128
-- characters, compared without regard to case. What the schema cascades to other tables is left out.
pub mod RoundTrip
mod Tests
use lab_gateway.Prelude.{
  ℕ, ◌+◌, ◌-◌, ◌*◌, Text, codes, nonempty, starts_with, text_eq, lower, Option, none, some, Bool,
  true, false, not, ◌&&◌, ◌||◌, List, [], ◌∷◌, ◌++◌, keep, map, any_of, drop, length, leb, ltb,
  ◌==◌, if◌then◌else◌,
}
use lab_gateway.Prelude.Int.{ℤ}
use lab_gateway.Prelude.Value.{Value, clean, str_of, truthy, is_blank, int_of}
use lab_gateway.Access.Files.{is_ascii_alnum}

pub record Entity : Type 0 where
  pub entity_id : ℕ
  pub name : Text
  pub is_user : Bool

pub record User : Type 0 where
  pub entity_id : ℕ
  pub disabled : Bool
  -- a day
  pub valid_until : Option ℕ

pub record Permission : Type 0 where
  pub entity_id : ℕ
  pub connection_id : ℕ

pub record Accounts : Type 0 where
  pub entities : List Entity
  pub users : List User
  pub permissions : List Permission
  -- the next number of the column entity_id
  pub next_id : ℕ

abbrev digits : ℕ → Text → Option ℕ
digits n [] = some n
digits n (c ∷ s) =
    let rest = digits (n * 10 + (c - 48)) s in if leb 48 c && leb c 57 then rest else none

-- `[1-9][0-9]*`
abbrev number : Text → Option ℕ
number [] = none
number (c ∷ s) = if leb 49 c && leb c 57 then digits (c - 48) s else none

-- `none` is the ValueError
unfoldable pub parse_guacamole_selector : Value → Option ℕ
unfolding clean starts_with
parse_guacamole_selector v =
    if starts_with (clean v) (codes "guac:id:") then number (drop 8 (clean v)) else none

abbrev is_session_char : ℕ → Bool
is_session_char c = is_ascii_alnum c || c == b'_' || c == b'.' || c == b'-'

-- `$` of `re.match` also stands before a newline at the end
abbrev without_newline : Text → Text
without_newline [] = []
without_newline (c ∷ []) = if c == 10 then [] else c ∷ []
without_newline (c ∷ d ∷ s) = c ∷ without_newline (d ∷ s)

-- `re.match(r"^[A-Za-z0-9_.-]{1,128}$", s)`
unfoldable pub is_session_id : Text → Bool
unfolding is_ascii_alnum
is_session_id s =
    let t = without_newline s in
    nonempty t && leb (length t) 128 && not (any_of (λ c. not (is_session_char c)) t)

unfoldable pub username : Value → Text
unfolding str_of
username session = codes "dlabs-res-" ++ str_of session

abbrev pub find_entity : Text → List Entity → Option ℕ
find_entity name [] = none
find_entity name (e ∷ es) =
    let rest = find_entity name es in
    if e.is_user && text_eq (lower e.name) (lower name) then some e.entity_id else rest

-- a row for a user of a new name, where the column takes it
abbrev pub append_entity : Text → Accounts → Option (ℕ × Accounts)
append_entity name a =
    if leb (length name) 128
    then some (
      a.next_id,
      record a {
        entities =
            a.entities ++ (record { entity_id = a.next_id; name = name; is_user = true } ∷ []);
        next_id = a.next_id + 1;
      },
    )
    else none

-- `ON DUPLICATE KEY UPDATE name`: the name takes on the letters of the new one; the number that
-- MySQL may use up for it is not counted
abbrev rename : ℕ → Text → Entity → Entity
rename id name e = if e.entity_id == id then record e { name = name } else e

-- the entity's id, and the table with it, `none` where the INSERT raises
unfoldable pub insert_entity : Text → Accounts → Option (ℕ × Accounts)
unfolding lower text_eq
insert_entity name a = elim (find_entity name a.entities) [
  | some id ↦ some (id, record a { entities = map (rename id name) a.entities })
  | none ↦ append_entity name a
]

abbrev pub other_user : ℕ → User → Bool
other_user id u = not (u.entity_id == id)

abbrev pub other_entity : ℕ → Entity → Bool
other_entity id e = not (e.entity_id == id)

abbrev pub other_permission : ℕ → Permission → Bool
other_permission id p = not (p.entity_id == id)

abbrev pub other_grant : ℕ → ℕ → Permission → Bool
other_grant id c p = not (p.entity_id == id && p.connection_id == c)

-- the statements after the entity
unfoldable pub write_account : Bool → Option ℕ → ℕ → ℕ × Accounts → Accounts
write_account activate until c (id, a) = record {
  entities = a.entities;
  users =
      record { entity_id = id; disabled = not activate; valid_until = until }
      ∷ keep (other_user id) a.users;
  permissions =
      if activate
      then record { entity_id = id; connection_id = c } ∷ keep (other_grant id c) a.permissions
      else keep (other_permission id) a.permissions;
  next_id = a.next_id;
}

pub data Provisioned : Type 0 where
  -- the tables and the connection of the answer
  done : Accounts → ℕ → Provisioned
  -- a ValueError, or another exception
  raised : Provisioned

-- `valid_until_epoch`; `date_of` is the day of a time, `none` where it raises
abbrev pub until_of : (ℤ → Option ℕ) → Value → Option (Option ℕ)
until_of date_of v = if is_blank v then some none else elim (int_of v) [
  | none ↦ none
  | some n ↦ elim (date_of n) [ none ↦ none | some day ↦ some (some day) ]
]

-- `resolve_guacamole_connection`, whose result is used as found or not
unfoldable pub resolve_guacamole_connection : ℕ → List ℕ → Bool
resolve_guacamole_connection wanted ids = any_of (λ id. id == wanted) ids

-- after the entity, or its exception; the transaction is rolled back
abbrev pub provisioned : Bool → Option ℕ → ℕ → Option (ℕ × Accounts) → Provisioned
provisioned activate until c none = raised
provisioned activate until c (some x) = done (write_account activate until c x) c

abbrev provision_checked :
    Value → Bool → List ℕ → Accounts → Option ℕ → Option (Option ℕ) → Provisioned
provision_checked session activate ids a (some c) (some until) =
    if not (truthy session && is_session_id (str_of session))
      || not (resolve_guacamole_connection c ids)
    then raised
    else provisioned activate until c (insert_entity (username session) a)
provision_checked session activate ids a _ _ = raised

-- `provision_guacamole_temporary_user`
unfoldable pub provision_guacamole_temporary_user :
    (ℤ → Option ℕ) → List ℕ → Value → Value → Value → Bool → Accounts → Provisioned
unfolding parse_guacamole_selector is_session_id str_of truthy int_of resolve_guacamole_connection
    write_account insert_entity
provision_guacamole_temporary_user date_of ids selector session valid_until activate a =
    provision_checked session activate ids a (parse_guacamole_selector selector)
      (until_of date_of valid_until)

abbrev pub delete_found : Accounts → Option ℕ → Bool × Accounts
delete_found a none = (false, a)
delete_found a (some id) = (
  true,
  record {
    entities = keep (other_entity id) a.entities;
    users = keep (other_user id) a.users;
    permissions = keep (other_permission id) a.permissions;
    next_id = a.next_id;
  },
)

-- `delete_guacamole_temporary_user`; `none` is the ValueError
unfoldable pub delete_guacamole_temporary_user : Value → Accounts → Option (Bool × Accounts)
unfolding is_session_id str_of truthy username lower text_eq
delete_guacamole_temporary_user session a =
    if not (truthy session && is_session_id (str_of session))
    then none
    else some (delete_found a (find_entity (username session) a.entities))

-- a user of this id is no longer valid
abbrev is_past : ℕ → ℕ → User → Bool
is_past today id u =
    u.entity_id == id && elim u.valid_until [ none ↦ false | some day ↦ ltb day today ]

abbrev pub is_expired : ℕ → List User → Entity → Bool
is_expired today users e =
    e.is_user
    && starts_with (lower e.name) (codes "dlabs-res-")
    && any_of (is_past today e.entity_id) users

-- `cleanup_expired_guacamole_temp_users`: the number of rows deleted, and the tables
unfoldable pub cleanup_expired_guacamole_temp_users : ℕ → Accounts → ℕ × Accounts
unfolding starts_with lower
cleanup_expired_guacamole_temp_users today a =
    let kept = keep (λ e. not (is_expired today a.users e)) a.entities in
    (length a.entities - length kept, record a { entities = kept })
