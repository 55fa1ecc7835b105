-- ===== src/Guacamole/RoundTrip.antt =====
-- An account that is provisioned and deleted again.
use lab_gateway.Prelude.{
  ℕ, ◌+◌, Text, text_eq, text_eq_refl, lower, length, leb, ◌≡◌, refl, sym, ap, Option, none, some,
  Bool, true, false, false≢true, not, ◌&&◌, List, [], ◌∷◌, ◌++◌, keep, All, ◌==◌, if◌then◌else◌,
  Bool-cases, inl, inr, arith,
}
use lab_gateway.Prelude.Int.{ℤ}
use lab_gateway.Prelude.Value.{Value, truthy, str_of}
use lab_gateway.Guacamole.{
  parse_guacamole_selector, until_of, is_session_id, resolve_guacamole_connection, username, done,
  provision_guacamole_temporary_user, delete_guacamole_temporary_user, Entity, Permission, Accounts,
  find_entity, insert_entity, provisioned, other_user, other_entity, other_permission, other_grant,
  write_account, delete_found,
}

keep-All : {A : Type 0} → (p : A → Bool) (xs : List A) → All (λ x. p x ≡ true) xs → keep p xs ≡ xs
keep-All p [] h = refl
keep-All p (x ∷ xs) (q, h) = rw (q, keep-All p xs h) refl

keep-append-one :
    {A : Type 0}
    → (p : A → Bool) (xs : List A) (y : A) → p y ≡ false
    → keep p (xs ++ (y ∷ [])) ≡ keep p xs
keep-append-one p [] y q = rw q refl
keep-append-one p (x ∷ xs) y q = rw (keep-append-one p xs y q) refl

-- rows with this id are in no table
pub record IsFresh (id : ℕ) (a : Accounts) : Type 0 where
  pub entities : All (λ e. other_entity id e ≡ true) a.entities
  pub users : All (λ u. other_user id u ≡ true) a.users
  pub permissions : All (λ p. other_permission id p ≡ true) a.permissions

is_given : Option ℕ → Bool
is_given none = false
is_given (some n) = true

skip-some :
    (b : Bool) (n : ℕ) (o : Option ℕ) → b ≡ true → (if b then some n else o) ≡ none → false ≡ true
unfolding is_given
skip-some true n o q h = sym (ap is_given h)
skip-some false n o q h = q

skip-none :
    (b : Bool) (n : ℕ) (o : Option ℕ) → b ≡ false → (if b then some n else o) ≡ none → o ≡ none
skip-none true n o q h = absurd (false≢true (sym q))
skip-none false n o q h = h

find-append :
    (name : Text) (id : ℕ) (es : List Entity)
    → find_entity name es ≡ none
    → find_entity name (es ++ (record { entity_id = id; name = name; is_user = true } ∷ []))
      ≡ some id
find-append name id [] h = rw (text_eq_refl (lower name)) refl
find-append name id (e ∷ es) h =
    elim (Bool-cases (e.is_user && text_eq (lower e.name) (lower name))) [
      | inl q ↦ absurd (
          false≢true (
            skip-some (e.is_user && text_eq (lower e.name) (lower name)) e.entity_id
              (find_entity name es) q h))
      | inr q ↦ rw q (
          find-append name id es (
            skip-none (e.is_user && text_eq (lower e.name) (lower name)) e.entity_id
              (find_entity name es) q h))
    ]

eq_self : (n : ℕ) → (n == n) ≡ true
eq_self n = ground arith

self-other : (n : ℕ) → not (n == n) ≡ false
self-other n = ap not (eq_self n)

both-not : (b d : Bool) → not b ≡ true → not (b && d) ≡ true
both-not true d h = absurd (false≢true h)
both-not false d h = refl

All-grant :
    (id c : ℕ) (ps : List Permission)
    → All (λ p. other_permission id p ≡ true) ps
    → All (λ p. other_grant id c p ≡ true) ps
All-grant id c [] h = tt
All-grant id c (p ∷ ps) (q, h) =
    (both-not (p.entity_id == id) (p.connection_id == c) q, All-grant id c ps h)

-- the tables with the account of a new entity, and without it
with_account : Text → Bool → Option ℕ → ℕ → Accounts → Accounts
unfolding write_account
with_account name activate until c a = write_account activate until c (
  a.next_id,
  record a {
    entities = a.entities ++ (record { entity_id = a.next_id; name = name; is_user = true } ∷ []);
    next_id = a.next_id + 1;
  },
)

insert-with_account :
    (name : Text) (activate : Bool) (until : Option ℕ) (c : ℕ) (a : Accounts)
    → find_entity name a.entities ≡ none
    → leb (length name) 128 ≡ true
    → provisioned activate until c (insert_entity name a)
      ≡ done (with_account name activate until c a) c
unfolding insert_entity with_account
insert-with_account name activate until c a n l = rw (insert_entity, n, l) refl

delete-write :
    (name : Text) (activate : Bool) (until : Option ℕ) (c : ℕ) (a : Accounts)
    → find_entity name a.entities ≡ none
    → IsFresh a.next_id a
    → delete_found
        (with_account name activate until c a)
        (find_entity name (with_account name activate until c a).entities)
      ≡ (true, record a { next_id = a.next_id + 1 })
unfolding with_account write_account
delete-write name true until c a n f =
    rw
      (
        with_account,
        find-append name a.next_id a.entities n,
        eq_self a.next_id,
        keep-append-one (other_entity a.next_id) a.entities
            (record { entity_id = a.next_id; name = name; is_user = true }) (self-other a.next_id),
        keep-All (other_entity a.next_id) a.entities f.entities,
        keep-All (other_user a.next_id) a.users f.users,
        keep-All (other_user a.next_id) a.users f.users,
        keep-All (other_grant a.next_id c) a.permissions
            (All-grant a.next_id c a.permissions f.permissions),
        keep-All (other_permission a.next_id) a.permissions f.permissions,
      )
      refl
delete-write name false until c a n f =
    rw
      (
        with_account,
        find-append name a.next_id a.entities n,
        eq_self a.next_id,
        keep-append-one (other_entity a.next_id) a.entities
            (record { entity_id = a.next_id; name = name; is_user = true }) (self-other a.next_id),
        keep-All (other_entity a.next_id) a.entities f.entities,
        keep-All (other_user a.next_id) a.users f.users,
        keep-All (other_user a.next_id) a.users f.users,
        keep-All (other_permission a.next_id) a.permissions f.permissions,
        keep-All (other_permission a.next_id) a.permissions f.permissions,
      )
      refl

-- Where the selector names a connection of Guacamole, the session id is one that the code accepts,
-- its name fits the column of 128 characters and the time can be read, where no account has this
-- session's name in any case of its letters and no row the id that comes next, the account is provisioned, whatever `activate` is, and deleting the session then answers true and
-- leaves all tables as they were before, but for the next id.
pub delete-provision :
    (date_of : ℤ → Option ℕ) (ids : List ℕ) (selector session valid_until : Value) (activate : Bool)
    (a : Accounts) (c : ℕ) (until : Option ℕ)
    → parse_guacamole_selector selector ≡ some c
    → until_of date_of valid_until ≡ some until
    → (truthy session && is_session_id (str_of session)) ≡ true
    → resolve_guacamole_connection c ids ≡ true
    → leb (length (username session)) 128 ≡ true
    → find_entity (username session) a.entities ≡ none
    → IsFresh a.next_id a
    → (after : Accounts) × (provision_guacamole_temporary_user date_of ids selector session
          valid_until activate a
        ≡ done after c)
      × (delete_guacamole_temporary_user session after
          ≡ some (true, record a { next_id = a.next_id + 1 }))
unfolding provision_guacamole_temporary_user delete_guacamole_temporary_user with_account
delete-provision date_of ids selector session valid_until activate a c until s u k r l n f = (
  with_account (username session) activate until c a,
  rw (provision_guacamole_temporary_user, s, u, k, r)
      (insert-with_account (username session) activate until c a n l),
  rw (delete_guacamole_temporary_user, k)
      (ap some (delete-write (username session) activate until c a n f)),
)
