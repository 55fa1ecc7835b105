-- ===== src/Prelude/Table.antt =====
-- A database table as the list of its rows in order of insertion, keyed by one column.
-- `UPDATE … WHERE key = k` rewrites every row with that key; a key column has distinct keys.
use mathlib.Core.Option
use lab_gateway.Prelude.Tests.{if◌then◌else◌}
use lab_gateway.Prelude.Tests.{◌==◌}
use lab_gateway.Prelude.Lists.{count_if}
use lab_gateway.Prelude.Str.{Text, text_eq, text_eq_iff}
use Prim.Native.Nat.{ℕ, ◌+◌}
use mathlib.Core.Path.{◌≡◌, refl}
use mathlib.Core.Logic.{◌↔◌}
use mathlib.Core.Bool.{Bool, true, false}
use mathlib.Core.Option.{Option, none, some}
use mathlib.Core.List.{List, [], ◌∷◌, ◌++◌, map}
use native.Mathlib.Omega.{arith}

pub record Eq (K : Type 0) : Type 0 where
  pub beq : K → K → Bool
  pub beq_iff : (a b : K) → (beq a b ≡ true) ↔ (a ≡ b)

pub nat_eq_iff : (a b : ℕ) → ((a == b) ≡ true) ↔ (a ≡ b)
nat_eq_iff a b = ground arith

instance abbrev pub nat_eq : Eq ℕ
nat_eq = record { beq = λ a b. a == b; beq_iff = nat_eq_iff }

instance abbrev pub text_key : Eq Text
text_key = record { beq = text_eq; beq_iff = text_eq_iff }

abbrev pub as_nat : Bool → ℕ
as_nat true = 1
as_nat false = 0

module _ {A K : Type 0} ⦃e : Eq K⦄ (key : A → K) where
  unfoldable pub find : K → List A → Option A
  find k [] = none
  find k (x ∷ xs) = if e.beq (key x) k then some x else find k xs

  abbrev pub Distinct : List A → Type 0
  Distinct [] = Unit
  Distinct (x ∷ xs) = (find (key x) xs ≡ none) × Distinct xs

  unfoldable pub update : K → (A → A) → List A → List A
  update k f = map (λ x. if e.beq (key x) k then f x else x)

  pub find-map :
      (f : A → A) (keeps : (x : A) → key (f x) ≡ key x) (k : K) (xs : List A)
      → find k (map f xs) ≡ Option.map f (find k xs)
  unfolding find
  find-map f keeps k [] = refl
  find-map f keeps k (x ∷ xs) = rw (keeps x) (ground (arith, find-map f keeps k xs))

  pub Distinct-map :
      (f : A → A) (keeps : (x : A) → key (f x) ≡ key x) (xs : List A)
      → Distinct xs
      → Distinct (map f xs)
  Distinct-map f keeps [] h = tt
  Distinct-map f keeps (x ∷ xs) (fresh, h) =
      (rw (keeps x, find-map f keeps (key x) xs, fresh) refl, Distinct-map f keeps xs h)

  pub find-append :
      (k : K) (xs ys : List A)
      → find k (xs ++ ys) ≡ (elim (find k xs) [ none ↦ find k ys | some x ↦ some x ])
  unfolding find
  find-append k [] ys = refl
  find-append k (x ∷ xs) ys = ground (arith, find-append k xs ys)

  pub find-append_none : (k : K) (xs ys : List A) → find k xs ≡ none → find k (xs ++ ys) ≡ find k ys
  unfolding find
  find-append_none k [] ys h = refl
  find-append_none k (x ∷ xs) ys h = ground (arith, find-append_none k xs ys)

  module _ (k : K) (f : A → A) (keeps : (x : A) → key (f x) ≡ key x) where
    abbrev touch : A → A
    touch x = if e.beq (key x) k then f x else x

    key-touch : (x : A) → key (touch x) ≡ key x
    key-touch x = ground (arith, keeps x)

    pub find-update :
        (j : K) (xs : List A)
        → find j (update k f xs) ≡ (if e.beq k j then Option.map f (find j xs) else find j xs)
    unfolding find update
    find-update j [] = ground arith
    find-update j (x ∷ xs) = ground (
      arith,
      keeps x,
      find-update j xs,
      e.beq_iff (key x) k,
      e.beq_iff (key x) j,
      e.beq_iff (key (f x)) j,
      e.beq_iff k j,
    )

    pub Distinct-update : (xs : List A) → Distinct xs → Distinct (update k f xs)
    unfolding update
    Distinct-update xs h = Distinct-map touch key-touch xs h

    -- where no row has the key, nothing changes
    pub update_missing : (xs : List A) → find k xs ≡ none → update k f xs ≡ xs
    unfolding find update
    update_missing [] h = refl
    update_missing (x ∷ xs) h = ground (arith, update_missing xs)

    -- one row changes, so a count moves by what the test says of that row before and after
    pub count_if-update :
        (p : A → Bool) (xs : List A) (r : A)
        → Distinct xs
        → find k xs ≡ some r
        → count_if p (update k f xs) + as_nat (p r) ≡ count_if p xs + as_nat (p (f r))
    unfolding find update
    count_if-update p [] r d h = cc
    count_if-update p (x ∷ xs) r (fresh, d) h =
        ground (arith, e.beq_iff (key x) k, update_missing xs, count_if-update p xs r d)

  pub Distinct-append :
      (x : A) (xs : List A) → Distinct xs → find (key x) xs ≡ none → Distinct (xs ++ x ∷ [])
  unfolding find
  Distinct-append x [] d h = ground arith
  Distinct-append x (y ∷ ys) (fresh, d) h = ground (
    arith,
    Distinct-append x ys d,
    find-append_none (key y) ys (x ∷ []) fresh,
    e.beq_iff (key x) (key y),
    e.beq_iff (key y) (key x),
  )

  -- `DELETE … WHERE key = k`, `d.pop(k, None)`
  unfoldable pub erase : K → List A → List A
  erase k [] = []
  erase k (x ∷ xs) = let rest = erase k xs in if e.beq (key x) k then rest else x ∷ rest

  pub find-erase :
      (k j : K) (xs : List A) → find j (erase k xs) ≡ (if e.beq k j then none else find j xs)
  unfolding find erase
  find-erase k j [] = ground arith
  find-erase k j (x ∷ xs) =
      ground (arith, find-erase k j xs, e.beq_iff (key x) k, e.beq_iff (key x) j, e.beq_iff k j)

  pub Distinct-erase : (k : K) (xs : List A) → Distinct xs → Distinct (erase k xs)
  unfolding erase
  Distinct-erase k [] d = d
  Distinct-erase k (x ∷ xs) (fresh, d) =
      ground (arith, Distinct-erase k xs d, find-erase k (key x) xs)

  pub erase_missing : (k : K) (xs : List A) → find k xs ≡ none → erase k xs ≡ xs
  unfolding find erase
  erase_missing k [] h = refl
  erase_missing k (x ∷ xs) h = ground (arith, erase_missing k xs)

  -- one row goes, so a count falls by what the test says of that row
  pub count_if-erase :
      (k : K) (p : A → Bool) (xs : List A) (r : A)
      → Distinct xs
      → find k xs ≡ some r
      → count_if p (erase k xs) + as_nat (p r) ≡ count_if p xs
  unfolding find erase
  count_if-erase k p [] r d h = cc
  count_if-erase k p (x ∷ xs) r (fresh, d) h =
      ground (arith, e.beq_iff (key x) k, erase_missing k xs, count_if-erase k p xs r d)

  pub find_key : (k : K) (xs : List A) (r : A) → find k xs ≡ some r → key r ≡ k
  unfolding find
  find_key k [] r h = cc
  find_key k (x ∷ xs) r h = ground (arith, e.beq_iff (key x) k, find_key k xs r)
