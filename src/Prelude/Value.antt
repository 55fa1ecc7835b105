-- ===== src/Prelude/Value.antt =====
-- Values that reach the program from JSON, and what `bool`, `str` and `int` make of them.
-- A list or any other object carries its `str` with it; `other` also carries its truth and the
-- integer that `int` makes of it, if it makes one.
use Prim.Native.Nat.{ℕ, zero, suc, ◌+◌, ◌-◌, ◌*◌, ◌/◌, ◌%◌}
use mathlib.Core.Bool.{Bool, true, false, ◌&&◌}
use mathlib.Core.Option.{Option, none, some}
use mathlib.Core.List.{List, [], ◌∷◌}
use lab_gateway.Prelude.Tests.{ltb, leb, ◌==◌, if◌then◌else◌}
use lab_gateway.Prelude.Int.{ℤ, pos, negsuc}
use lab_gateway.Prelude.Str.{Text, codes, strip, lower, nonempty, text_eq}

mutual
  pub data Value : Type 0 where
    null : Value
    bool : Bool → Value
    int : ℤ → Value
    text : Text → Value
    list : Text → Items → Value
    other : Bool → Text → Option ℤ → Value

  pub data Items : Type 0 where
    nil : Items
    cons : Value → Items → Items

abbrev digit : ℕ → ℕ
digit n = 48 + n % 10

-- the decimal digits of `n` before `out`; `n < fuel` is enough
show_from : ℕ → ℕ → Text → Text
show_from zero n out = out
show_from (suc fuel) n out =
    let more = show_from fuel (n / 10) (digit n ∷ out) in if ltb n 10 then digit n ∷ out else more

unfoldable pub show_ℕ : ℕ → Text
unfolding show_from
show_ℕ n = show_from (suc n) n []

unfoldable pub show_ℤ : ℤ → Text
unfolding show_ℕ
show_ℤ (pos n) = show_ℕ n
show_ℤ (negsuc n) = b'-' ∷ show_ℕ (suc n)

-- digits, with one `_` allowed between two of them; `after` tells whether a digit came before
digits_from : Bool → ℕ → Text → Option ℕ
digits_from after n [] = if after then some n else none
digits_from after n (c ∷ s) =
    let next = digits_from true (n * 10 + (c - 48)) s in
    let joined = digits_from false n s in
    if leb 48 c && leb c 57 then next else if c == b'_' && after then joined else none

abbrev signed : (ℕ → ℤ) → Option ℕ → Option ℤ
signed sign none = none
signed sign (some n) = some (sign n)

abbrev negate : ℕ → ℤ
negate zero = pos 0
negate (suc n) = negsuc n

parse_signed : Text → Option ℤ
unfolding digits_from
parse_signed [] = none
parse_signed (c ∷ s) =
    if c == b'-'
    then signed negate (digits_from false 0 s)
    else if c == b'+'
    then signed pos (digits_from false 0 s)
    else signed pos (digits_from false 0 (c ∷ s))

-- `int(s)` of a text; `none` is ValueError
unfoldable pub parse_int : Text → Option ℤ
unfolding parse_signed
parse_int s = parse_signed (strip s)

unfoldable pub truthy : Value → Bool
truthy null = false
truthy (bool b) = b
truthy (int (pos zero)) = false
truthy (int _) = true
truthy (text s) = nonempty s
truthy (list _ nil) = false
truthy (list _ (cons _ _)) = true
truthy (other b _ _) = b

unfoldable pub str_of : Value → Text
unfolding show_ℤ
str_of null = codes "None"
str_of (bool true) = codes "True"
str_of (bool false) = codes "False"
str_of (int n) = show_ℤ n
str_of (text s) = s
str_of (list s _) = s
str_of (other _ s _) = s

-- `int(v)`; `none` is TypeError, ValueError or OverflowError
unfoldable pub int_of : Value → Option ℤ
unfolding parse_int
int_of null = none
int_of (bool true) = some (pos 1)
int_of (bool false) = some (pos 0)
int_of (int n) = some n
int_of (text s) = parse_int s
int_of (list _ _) = none
int_of (other _ _ i) = i

-- `a or b`
unfoldable pub or_else : Value → Value → Value
unfolding truthy
or_else a b = if truthy a then a else b

-- `str(v or "").strip()`
unfoldable pub clean : Value → Text
unfolding str_of or_else
clean v = strip (str_of (or_else v (text [])))

-- `str(v or "").strip().lower()`
unfoldable pub clean_lower : Value → Text
unfolding clean
clean_lower v = lower (clean v)

-- `v is None`
abbrev pub is_null : Value → Bool
is_null null = true
is_null _ = false

-- `v in (None, "")`
abbrev pub is_blank : Value → Bool
is_blank null = true
is_blank (text []) = true
is_blank _ = false

-- `str(v).strip().lower() in words`, for a value that is neither a bool nor missing
unfoldable pub text_in : Text → List Text → Bool
text_in s [] = false
text_in s (w ∷ ws) = let rest = text_in s ws in if text_eq s w then true else rest

abbrev pub values : Items → List Value
values nil = []
values (cons v vs) = v ∷ values vs

-- `d.get(k, default)`; `none` is a missing key
abbrev pub get_default : Option Value → Value → Value
get_default none d = d
get_default (some v) d = v

-- `d.get(k)`
abbrev pub get_value : Option Value → Value
get_value o = get_default o null

-- `k in d`
abbrev pub has : Option Value → Bool
has none = false
has (some _) = true
