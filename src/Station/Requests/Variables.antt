-- ===== src/Station/Requests/Variables.antt =====
-- `_normalize_variable` and the loop over the variables of `_normalize_model_metadata` in
-- fmu-runner/fmu_backend.py.
use lab_gateway.Prelude.{ℕ, suc, Text, codes, Option, none, some, List, [], ◌∷◌, if◌then◌else◌}
use lab_gateway.Prelude.Int.{ℤ, pos}
use lab_gateway.Prelude.Value.{Value, null, text, str_of, or_else, int_of, is_null}
use lab_gateway.Station.Message.{Dict, get}
use lab_gateway.Station.Answer.{Element, entry, stray, Answer, reply, raised, then_answer, fail}

pub record Variable : Type 0 where
  pub name : Text
  pub kind : Text
  pub causality : Text
  pub variability : Text
  pub value_reference : ℤ
  pub unit : Option Value
  pub start : Option Value
  pub min : Option Value
  pub max : Option Value

abbrev pub value_at : Text → Dict Value → Value
value_at key d = elim (get key d) [ none ↦ null | some v ↦ v ]

-- `str(raw.get(key) or default)`
unfoldable pub text_at : Text → Text → Dict Value → Text
unfolding get str_of or_else
text_at key default d = str_of (or_else (value_at key d) (text default))

-- a value that is not None
abbrev kept : Value → Option Value
kept v = if is_null v then none else some v

-- `value_reference`
abbrev reference_of : Value → ℕ → Value
reference_of v fallback = if is_null v then Value.int (pos fallback) else v

-- `_normalize_variable`; an `int` that raises is not caught
unfoldable pub normalize_variable : Dict Value → ℕ → Answer Variable
unfolding text_at get int_of
normalize_variable raw fallback =
    elim (int_of (reference_of (value_at (codes "valueReference") raw) fallback)) [
      | none ↦ raised
      | some n ↦ reply (record {
        name = text_at (codes "name") [] raw;
        kind = text_at (codes "type") (codes "Real") raw;
        causality = text_at (codes "causality") (codes "local") raw;
        variability = text_at (codes "variability") (codes "continuous") raw;
        value_reference = n;
        unit = kept (value_at (codes "unit") raw);
        start = kept (value_at (codes "start") raw);
        min = kept (value_at (codes "min") raw);
        max = kept (value_at (codes "max") raw);
      })
    ]

abbrev prepend : Variable → List Variable → Answer (List Variable)
prepend v vs = reply (v ∷ vs)

-- the loop over the variables, `index` being that of `enumerate`
unfoldable pub normalize_variables : ℕ → List Element → Answer (List Variable)
unfolding then_answer normalize_variable
normalize_variables index [] = reply []
normalize_variables index (stray ∷ es) =
    fail 502 (codes "Station backend returned an invalid model variable entry")
normalize_variables index (entry raw ∷ es) =
    then_answer (normalize_variable raw index)
      (λ v. then_answer (normalize_variables (suc index) es) (prepend v))
