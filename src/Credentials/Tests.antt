-- ===== src/Credentials/Tests.antt =====
-- A store with one login, saved and rotated. The keys put a byte before the text.
use lab_gateway.Prelude.{
  ℕ, zero, suc, nonempty, ap, ◌≡◌, refl, Text, codes, strip, text_eq, Option, none, some, true, [],
  ◌∷◌, if◌then◌else◌,
}
use lab_gateway.Prelude.Value.{text, clean, clean_lower}
use lab_gateway.WinRm.{Login}
use lab_gateway.Credentials.{
  Fernet, Json, Parsed, no_json, object, Store, saved_login, save_winrm_credentials,
  load_winrm_credentials, rotate_credentials,
}
use lab_gateway.Credentials.RoundTrip.{load-save}
use lab_gateway.Credentials.Rotation.{load-rotate}

abbrev drop_first : Text → Option Text
drop_first [] = none
drop_first (c ∷ s) = some s

abbrev shift_key : ℕ → Fernet
shift_key b = record { encrypt = λ t. b ∷ t; decrypt = drop_first }

-- the user with a one before each character, a zero, and the password
abbrev print : Text → Text → Text
print [] p = 0 ∷ p
print (c ∷ u) p = 1 ∷ c ∷ print u p

abbrev parse_after : ℕ → Option (Text × Text) → Option (Text × Text)
parse_after c none = none
parse_after c (some (u, p)) = some (c ∷ u, p)

abbrev parse : Text → Option (Text × Text)
parse (zero ∷ p) = some ([], p)
parse (suc _ ∷ c ∷ s) = parse_after c (parse s)
parse _ = none

parse-print : (u p : Text) → parse (print u p) ≡ some (u, p)
parse-print [] p = refl
parse-print (c ∷ u) p = ap (parse_after c) (parse-print u p)

abbrev as_parsed : Option (Text × Text) → Parsed
as_parsed none = no_json
as_parsed (some (u, p)) = object (text u) (text p)

abbrev json : Json
json = record {
  loads = λ s. as_parsed (parse s);
  dumps = λ l. print l.user l.password;
  reprint = λ s. s;
}

loads-dumps : (l : Login) → json.loads (json.dumps l) ≡ object (text l.user) (text l.password)
loads-dumps l = ap as_parsed (parse-print l.user l.password)

ref_given : nonempty (clean_lower (text (codes "PC1"))) ≡ true
unfolding clean_lower lab_gateway.Prelude.lower strip
ref_given = refl

user_given : nonempty (clean (text (codes " u "))) ≡ true
unfolding clean strip
user_given = refl

password_given : nonempty (clean (text (codes "p"))) ≡ true
unfolding clean strip
password_given = refl

load-save_example :
    (after : Store) × (save_winrm_credentials json
        (some (shift_key 7))
        (text (codes "PC1"))
        (text (codes " u "))
        (text (codes "p"))
        []
      ≡ some after)
    × (load_winrm_credentials json (some (shift_key 7)) (text (codes "pc1 ")) after ≡ (
        if text_eq (clean_lower (text (codes "PC1"))) (clean_lower (text (codes "pc1 ")))
        then some (some (saved_login (text (codes " u ")) (text (codes "p"))))
        else load_winrm_credentials json (some (shift_key 7)) (text (codes "pc1 ")) []))
load-save_example =
    load-save json (shift_key 7) (λ t. refl) (λ t. refl) loads-dumps (text (codes "PC1"))
      (text (codes " u ")) (text (codes "p")) (text (codes "pc1 ")) [] ref_given user_given
      password_given

abbrev store : Store
store = record { ref = codes "pc1"; token = some (7 ∷ print (codes "u") (codes "p")) } ∷ []

abbrev rotated : Store
rotated = record { ref = codes "pc1"; token = some (9 ∷ print (codes "u") (codes "p")) } ∷ []

rotation_done : rotate_credentials json (shift_key 7) (shift_key 9) store ≡ some rotated
unfolding rotate_credentials
rotation_done = refl

load-rotate_example :
    load_winrm_credentials json (some (shift_key 9)) (text (codes "pc1")) rotated
    ≡ load_winrm_credentials json (some (shift_key 7)) (text (codes "pc1")) store
load-rotate_example =
    load-rotate json (shift_key 7) (shift_key 9) (λ t. refl) (λ t. refl) refl (λ t. refl)
      (text (codes "pc1")) store rotated rotation_done
