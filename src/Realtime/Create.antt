-- ===== src/Realtime/Create.antt =====
-- "session.create" of `handle_websocket` in fmu-runner/realtime_ws.py. The calls that leave the
-- process (`issue_session_ticket`, `redeem_session_ticket`, `confirm_session_started`) are
-- arguments, with what they answer.
pub mod Stages
pub mod Open
pub mod Backed
pub mod Vouched
use lab_gateway.Prelude.{
  ℕ, ◌+◌, Text, codes, nonempty, Option, none, some, Bool, not, ◌&&◌, ◌||◌, [], ◌∷◌, ◌==◌, ◌++◌,
  if◌then◌else◌, take, drop, starts_with, strip,
}
use lab_gateway.Prelude.Value.{Value, str_of}
use lab_gateway.Access.{Claims}

-- claims with those that only a session reads
pub record Bearer : Type 0 where
  pub claims : Claims
  pub sub : Value
  pub nbf : Value

-- what a call that leaves the process answers
pub data Fetch (A : Type 0) : Type 0 where
  fetched : A → Fetch A
  -- an HTTPException, and the "code" of its detail
  http_error : ℕ → Option Text → Fetch A
  broken : Fetch A

-- `none` where the call is not configured
pub record Backend : Type 0 where
  pub issue : Option (Fetch Value)
  pub redeem : Option (Fetch Bearer)
  pub confirm : Option (Fetch Unit)

pub record Message : Type 0 where
  pub lab_id : Value
  pub reservation_key : Value
  pub session_ticket : Value

pub data Code : Type 0 where
  rate_limited : Code
  unauthorized : Code
  lab_mismatch : Code
  forbidden : Code
  reservation_not_active : Code
  session_expired : Code
  session_ticket_invalid : Code
  internal_error : Code
  -- the "code" of an exception's detail
  given : Text → Code

-- `detail.get("code") or default`
abbrev pub given_or : Option Text → Code → Code
given_or none c = c
given_or (some s) c = if nonempty s then given s else c

-- a stage goes on, or it answers an error and whether to retry, or it raises what nobody catches
pub data Stage (A : Type 0) : Type 0 where
  go : A → Stage A
  refuse : Code → Bool → Stage A
  raise : Stage A

unfoldable pub then_stage : {A B : Type 0} → Stage A → (A → Stage B) → Stage B
then_stage (go a) f = f a
then_stage (refuse c r) f = refuse c r
then_stage raise f = raise

-- `_normalize_ticket_id`
unfoldable pub normalize_ticket_id : Text → Option Text
unfolding starts_with strip
normalize_ticket_id s =
    let token = strip s in
    let short = if starts_with token (codes "st_") then drop 3 token else token in
    if not (nonempty s) then none else if nonempty short then some (take 10 short) else none

abbrev or_dash : Option Text → Text
or_dash none = codes "-"
or_dash (some s) = s

-- `create_key`
unfoldable pub create_key : Option Bearer → Option Text → Text → Text → Text
unfolding normalize_ticket_id str_of
create_key (some b) lab ticket host = codes "sub:" ++ (str_of b.sub ++ (codes ":" ++ or_dash lab))
create_key none lab ticket host =
    codes "ticket:" ++ (or_dash (normalize_ticket_id ticket) ++ (codes ":" ++ host))
