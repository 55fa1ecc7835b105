-- ===== src/Guacamole/Tests.antt =====
-- A table with the administrator, and an account for session s1.
use lab_gateway.Prelude.{
  ℕ, ◌+◌, codes, strip, text_eq, lower, length, leb, ◌≡◌, refl, Option, none, some, true, false, [],
  ◌∷◌, ◌&&◌,
}
use lab_gateway.Prelude.Int.{ℤ, pos}
use lab_gateway.Prelude.Value.{Value, int, text, truthy, str_of, int_of}
use lab_gateway.Guacamole.{
  Accounts, parse_guacamole_selector, until_of, is_session_id, resolve_guacamole_connection,
  username, find_entity, done, provision_guacamole_temporary_user, delete_guacamole_temporary_user,
  cleanup_expired_guacamole_temp_users,
}
use lab_gateway.Guacamole.RoundTrip.{IsFresh, delete-provision}

abbrev tables : Accounts
tables = record {
  entities = record { entity_id = 1; name = codes "guacadmin"; is_user = true } ∷ [];
  users = record { entity_id = 1; disabled = false; valid_until = none } ∷ [];
  permissions = record { entity_id = 1; connection_id = 3 } ∷ [];
  next_id = 2;
}

abbrev selector : Value
selector = text (codes "guac:id:3")

abbrev session : Value
session = text (codes "s1")

abbrev until_day : ℤ → Option ℕ
until_day n = some 20

selector_read : parse_guacamole_selector selector ≡ some 3
unfolding parse_guacamole_selector strip
selector_read = refl

until_read : until_of until_day (int (pos 5)) ≡ some (some 20)
unfolding int_of
until_read = refl

session_accepted : (truthy session && is_session_id (str_of session)) ≡ true
unfolding truthy is_session_id str_of
session_accepted = refl

connection_found : resolve_guacamole_connection 3 (3 ∷ []) ≡ true
unfolding resolve_guacamole_connection
connection_found = refl

name_fits : leb (length (username session)) 128 ≡ true
unfolding username
name_fits = refl

entity_missing : find_entity (username session) tables.entities ≡ none
unfolding username text_eq lower
entity_missing = refl

tables-IsFresh : IsFresh 2 tables
tables-IsFresh = record { entities = (refl, tt); users = (refl, tt); permissions = (refl, tt) }

delete-provision_example :
    (after : Accounts) × (provision_guacamole_temporary_user until_day
        (3 ∷ [])
        selector
        session
        (int (pos 5))
        true
        tables
      ≡ done after 3)
    × (delete_guacamole_temporary_user session after
        ≡ some (true, record tables { next_id = tables.next_id + 1 }))
delete-provision_example =
    delete-provision until_day (3 ∷ []) selector session (int (pos 5)) true tables 3 (some 20)
      selector_read until_read session_accepted connection_found name_fits entity_missing
      tables-IsFresh

-- the account of `S1` is the one that `s1` deletes
others_account :
    find_entity
      (username session)
      (record { entity_id = 5; name = codes "dlabs-res-S1"; is_user = true } ∷ [])
    ≡ some 5
unfolding username text_eq lower
others_account = refl

administrator_stays : (cleanup_expired_guacamole_temp_users 21 tables).0 ≡ 0
unfolding cleanup_expired_guacamole_temp_users
administrator_stays = refl
