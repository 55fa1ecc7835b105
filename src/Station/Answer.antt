-- ===== src/Station/Answer.antt =====
-- What the backend of fmu-runner/fmu_backend.py sends to Station, and how its functions end.
use lab_gateway.Prelude.{ℕ, Text, Option, none, some, Bool, true, false, not, List, [], ◌∷◌}
use lab_gateway.Prelude.Value.{Value, null, text, other}
use lab_gateway.Access.{Claims}
use lab_gateway.Station.{Permit, allowed, denied, Reason}
use lab_gateway.Station.Message.{Dict}

-- what the code looks at in a JSON object: lists keep their objects apart
pub data Element : Type 0 where
  entry : Dict Value → Element
  stray : Element

pub data Json : Type 0 where
  leaf : Value → Json
  -- a list, with its `str`
  array : Text → List Element → Json

abbrev is_empty : List Element → Bool
is_empty [] = true
is_empty (_ ∷ _) = false

abbrev pub json_value : Option Json → Value
json_value none = null
json_value (some (leaf v)) = v
json_value (some (array s es)) = other (not (is_empty es)) s none

pub data Body : Type 0 where
  object : Dict Json → Body
  no_object : Body
  no_json : Body

pub record Response : Type 0 where
  pub status : ℕ
  pub text_of : Text
  pub body : Body

-- the JSON of a simulation
pub record Job : Type 0 where
  pub access_key : Text
  pub claims : Claims
  pub parameters : Value
  pub options : Value
  pub sim_id : Option Value
  pub lab_id : Option Text
  pub reservation_key : Option Text

pub record Request : Type 0 where
  pub path : Text
  pub headers : Dict Text
  pub job : Option Job

pub data Answer (A : Type 0) : Type 0 where
  reply : A → Answer A
  -- an HTTPException with this status and detail
  failure : ℕ → Value → Answer A
  -- an exception that is not caught
  raised : Answer A

unfoldable pub then_answer : {A B : Type 0} → Answer A → (A → Answer B) → Answer B
then_answer (reply a) f = f a
then_answer (failure status detail) f = failure status detail
then_answer raised f = raised

abbrev pub fail : {A : Type 0} → ℕ → Text → Answer A
fail status s = failure status (text s)

abbrev pub reason_status : Reason → ℕ
reason_status Reason.invalid_key = 400
reason_status _ = 403

-- a permit as an answer; the texts of its details are left out
abbrev pub of_permit : {A : Type 0} → Permit A → Answer A
of_permit (allowed a) = reply a
of_permit (denied r) = failure (reason_status r) null
