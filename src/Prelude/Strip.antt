-- ===== src/Prelude/Strip.antt =====
-- `str.strip` and `str.lower` applied twice.
use mathlib.Core.Path.{◌≡◌, refl, ap, ◌∙◌, subst}
use mathlib.Core.Logic.{inl, inr}
use mathlib.Core.Bool.{Bool, true, not}
use mathlib.Core.List.{[], ◌∷◌, ◌++◌, reverse, reverse-append, reverse-reverse}
use native.Mathlib.Omega.{arith}
use lab_gateway.Prelude.Tests.{Bool-cases}
use lab_gateway.Prelude.Str.{Text, is_space, lstrip, strip}

abbrev starts_solid : Text → Bool
starts_solid [] = true
starts_solid (c ∷ _) = not (is_space c)

lstrip_solid : (s : Text) → starts_solid (lstrip s) ≡ true
unfolding lstrip
lstrip_solid [] = refl
lstrip_solid (c ∷ s) = elim (Bool-cases (is_space c)) [
  | inl e ↦ rw e (lstrip_solid s)
  | inr e ↦ rw e (rw e refl)
]

lstrip_fixed : (s : Text) → starts_solid s ≡ true → lstrip s ≡ s
unfolding lstrip
lstrip_fixed [] h = refl
lstrip_fixed (c ∷ s) h = ground arith

lstrip_split : (s : Text) → (w : Text) × (s ≡ w ++ lstrip s)
unfolding lstrip
lstrip_split [] = ([], refl)
lstrip_split (c ∷ s) = elim (Bool-cases (is_space c)) [
  | inl e ↦ (let (w, q) = lstrip_split s in (c ∷ w, rw e (ap (λ t. c ∷ t) q)))
  | inr e ↦ ([], rw e refl)
]

solid_prefix : (v w : Text) → starts_solid (v ++ w) ≡ true → starts_solid v ≡ true
solid_prefix [] w h = refl
solid_prefix (c ∷ v) w h = h

strip_core : (t : Text) → starts_solid (reverse t) ≡ true → starts_solid (reverse (lstrip t)) ≡ true
strip_core t h =
    let (w, q) = lstrip_split t in
    solid_prefix (reverse (lstrip t)) (reverse w)
      (subst (λ x. starts_solid x ≡ true) (ap reverse q ∙ reverse-append w (lstrip t)) h)

pub strip-strip : (s : Text) → strip (strip s) ≡ strip s
unfolding strip
strip-strip s =
    let u = lstrip s in
    let v = lstrip (reverse u) in
    let solid = strip_core (reverse u) (rw (reverse-reverse u) (lstrip_solid s)) in
    rw
      (lstrip_fixed (reverse v) solid, reverse-reverse v, lstrip_fixed v (lstrip_solid (reverse u)))
      refl
