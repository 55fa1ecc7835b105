-- ===== src/Auth/Named.antt =====
-- Verdicts and keys that a predicate holds of.
use lab_gateway.Prelude.{
  Text, nonempty, text_eq, text_eq_iff, arith, ◌≡◌, refl, ap, Option, none, some, Bool, true, false,
  List, [], ◌∷◌, ◌∈◌, inl, inr, if◌then◌else◌, Bool-cases,
}
use lab_gateway.Auth.Verify.{
  Try, returned, expired, invalid, crashed, Verdict, accepted, refused, raised, SigningKey,
  is_match, then_try, find_signing_key,
}

abbrev pub OnAccepted : {A : Type 0} → (A → Type 0) → Verdict A → Type 0
OnAccepted P (accepted a) = P a
OnAccepted P (refused n) = Unit
OnAccepted P raised = Unit

pub OnAccepted-imp :
    {A : Type 0} (P Q : A → Type 0) (v : Verdict A)
    → ((a : A) → P a → Q a)
    → OnAccepted P v
    → OnAccepted Q v
OnAccepted-imp P Q (accepted a) f h = f a h
OnAccepted-imp P Q (refused n) f h = tt
OnAccepted-imp P Q raised f h = tt

abbrev pub OnFound : {A : Type 0} → (A → Type 0) → Option A → Type 0
OnFound P none = Unit
OnFound P (some a) = P a

if-OnFound :
    {A : Type 0} (P : A → Type 0) (b : Bool) (a : A) (rest : Option A)
    → ((b ≡ true) → P a)
    → OnFound P rest
    → OnFound P (if b then some a else rest)
if-OnFound P true a rest h k = h refl
if-OnFound P false a rest h k = k

imp-OnFound :
    {A : Type 0} (P Q : A → Type 0) (o : Option A)
    → ((a : A) → P a → Q a)
    → OnFound P o
    → OnFound Q o
imp-OnFound P Q none f h = tt
imp-OnFound P Q (some a) f h = f a h

pub then_try-OnAccepted :
    {A B : Type 0} (Q : B → Type 0) (t : Try A) (f : A → Verdict B)
    → ((a : A) → t ≡ returned a → OnAccepted Q (f a))
    → OnAccepted Q (then_try t f)
unfolding then_try
then_try-OnAccepted Q (returned a) f h = h a refl
then_try-OnAccepted Q expired f h = tt
then_try-OnAccepted Q invalid f h = tt
then_try-OnAccepted Q crashed f h = tt

is_match-same :
    (o key_id : Option Text)
    → is_match o key_id ≡ true
    → (kid : Text) × (o ≡ some kid) × (nonempty kid ≡ true) × (key_id ≡ some kid)
is_match-same none key_id e = cc
is_match-same (some kid) none e = cc
is_match-same (some kid) (some i) e = elim (Bool-cases (text_eq i kid)) [
  | inl q ↦ (kid, refl, ground arith, ap (λ t. some t) ((text_eq_iff i kid).0 q))
  | inr q ↦ ground arith
]

module _ {S : Type 0} where
  -- a key of the list with the id that the header names
  abbrev pub IsNamed : Option Text → List (SigningKey S) → SigningKey S → Type 0
  IsNamed o ks k =
      (kid : Text) × (o ≡ some kid) × (nonempty kid ≡ true) × (k.key_id ≡ some kid) × (k ∈ ks)

  IsNamed-later :
      (o : Option Text) (x : SigningKey S) (ks : List (SigningKey S)) (k : SigningKey S)
      → IsNamed o ks k
      → IsNamed o (x ∷ ks) k
  IsNamed-later o x ks k (kid, e, n, i, m) = (kid, e, n, i, inr m)

  pub find_signing_key-IsNamed :
      (o : Option Text) (ks : List (SigningKey S)) → OnFound (IsNamed o ks) (find_signing_key o ks)
  unfolding find_signing_key
  find_signing_key-IsNamed o [] = tt
  find_signing_key-IsNamed o (x ∷ ks) =
      if-OnFound (IsNamed o (x ∷ ks)) (is_match o x.key_id) x (find_signing_key o ks)
        (λ q. let (kid, e, n, i) = is_match-same o x.key_id q in (kid, e, n, i, inl refl))
        (imp-OnFound (IsNamed o ks) (IsNamed o (x ∷ ks)) (find_signing_key o ks)
          (IsNamed-later o x ks) (find_signing_key-IsNamed o ks))
