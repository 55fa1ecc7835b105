-- ===== src/Access/Run.antt =====
-- `run_simulation` of fmu-runner/main.py on the local backend, from the claims to the bounds of the
-- options. The floats of the options are an argument, with the tests that the code makes of them.
use lab_gateway.Prelude.{
  ℕ, Text, codes, text_eq, Option, none, some, Bool, false, not, ◌||◌, leb, if◌then◌else◌,
}
use lab_gateway.Prelude.Int.{ℤ, pos, negsuc}
use lab_gateway.Prelude.Value.{Value, int, or_else, truthy, get_default, int_of}
use lab_gateway.Access.{
  Claims, normalize_lab_id, enforce_fmu_claim, enforce_requested_reservation,
  effective_timeout_seconds,
}
use lab_gateway.Access.Files.{Resolved, refused, raised, found}

-- `float` and the comparisons of the checks
pub record Floats : Type 1 where
  pub Time : Type 0
  -- `float(v)`, `none` where it raises
  pub of_value : Value → Option Time
  pub le : Time → Time → Bool
  pub lt : Time → Time → Bool
  pub zero : Time
  pub max_stop_time : Time
  pub min_step_size : Time

-- the body of the request: the options that the code reads, with the defaults of `get` filled in
-- where `float` takes them
pub record Request : Type 0 where
  pub lab_id : Value
  pub reservation_key : Value
  pub start_time : Value
  pub stop_time : Value
  pub step_size : Value
  pub timeout : Option Value

pub data Checked (P : Type 0) : Type 0 where
  -- an HTTPException with this status
  rejected : ℕ → Checked P
  -- an exception that is not caught
  failed : Checked P
  -- the lab whose slot is taken, the file and the timeout
  accepted : Text → P → ℕ → Checked P

-- both ids are there and differ
abbrev pub labs_differ : Option Text → Option Text → Bool
labs_differ (some a) (some b) = not (text_eq a b)
labs_differ _ _ = false

-- `request_lab_id or claims_lab_id or "unknown"`
abbrev pub chosen_lab : Option Text → Option Text → Text
chosen_lab (some r) _ = r
chosen_lab none (some c) = c
chosen_lab none none = codes "unknown"

abbrev pub is_positive : ℤ → Bool
is_positive (pos n) = not (leb n 0)
is_positive (negsuc _) = false

abbrev pub to_nat : ℤ → ℕ
to_nat (pos n) = n
to_nat (negsuc _) = 0

-- `options.get("timeout", MAX_SIMULATION_TIMEOUT)`
abbrev pub timeout_of : ℕ → Request → Option ℤ
timeout_of max_timeout r = int_of (get_default r.timeout (int (pos max_timeout)))

module _ {P : Type 0} (floats : Floats) (float_text : Text → Option ℤ) (max_timeout now : ℕ)
    (c : Claims) where
  -- the bounds that come after the timeout
  unfoldable pub check_bounds : Text → P → floats.Time → floats.Time → Option ℕ → Checked P
  check_bounds lab file stop step none = rejected 401
  check_bounds lab file stop step (some timeout) =
      if floats.lt floats.max_stop_time stop || floats.lt step floats.min_step_size
      then rejected 400
      else accepted lab file timeout

  unfoldable pub check_options :
      Text → P → Option floats.Time → Option floats.Time → Option floats.Time → Option ℤ → Checked P
  unfolding check_bounds effective_timeout_seconds
  check_options lab file (some start) (some stop) (some step) (some timeout) =
      if floats.le stop start || floats.le step floats.zero || not (is_positive timeout)
      then rejected 400
      else check_bounds lab file stop step
          (effective_timeout_seconds float_text max_timeout now (to_nat timeout) c.exp)
  check_options lab file _ _ _ _ = failed

  unfoldable pub check_file : Text → Resolved P → Request → Checked P
  unfolding check_options
  check_file lab (refused code) r = rejected code
  check_file lab raised r = failed
  check_file lab (found p) r =
      check_options lab p (floats.of_value r.start_time) (floats.of_value r.stop_time)
        (floats.of_value r.step_size) (timeout_of max_timeout r)

  -- `resolve` is `_resolve_fmu_path`
  unfoldable pub check_run : (Value → Resolved P) → Request → Checked P
  unfolding enforce_fmu_claim normalize_lab_id enforce_requested_reservation check_file or_else
      truthy
  check_run resolve r =
      let claims_lab = normalize_lab_id c.lab_id in
      let request_lab = normalize_lab_id r.lab_id in
      let file = or_else c.access_key c.fmu_file_name in
      if not (enforce_fmu_claim false c)
      then rejected 403
      else if labs_differ claims_lab request_lab
      then rejected 403
      else elim (enforce_requested_reservation c r.reservation_key) [
        | none ↦ rejected 403
        | some _ ↦
            if not (truthy file)
            then rejected 400
            else check_file (chosen_lab request_lab claims_lab) (resolve file) r
      ]
