-- ===== src/Station/Requests/Health.antt =====
-- `health` of `StationFmuBackend` in fmu-runner/fmu_backend.py.
use lab_gateway.Prelude.{
  Text, codes, text_eq, lower, Option, none, some, Bool, true, false, ◌&&◌, [], if◌then◌else◌,
}
use lab_gateway.Prelude.Int.{ℤ, pos}
use lab_gateway.Prelude.Value.{Value, text, str_of, or_else, int_of}
use lab_gateway.Auth.{rstrip_slashes}
use lab_gateway.Station.Message.{Dict, get}
use lab_gateway.Station.Requests.{health, is_configured, request_json}
use lab_gateway.Station.Answer.{Json, json_value, Request, Response, Answer, reply, failure, raised}

pub record Report : Type 0 where
  pub is_up : Bool
  pub station_configured : Bool
  pub station_health : Bool
  pub fmu_count : ℤ

abbrev count_of : Option ℤ → ℤ
count_of none = pos 0
count_of (some n) = n

abbrev report : Bool → Bool → ℤ → Answer Report
report configured healthy count = reply (record {
  is_up = configured && healthy;
  station_configured = configured;
  station_health = healthy;
  fmu_count = count;
})

-- `str(payload.get("status") or "").upper() == "UP"`: of ASCII letters
unfoldable pub is_up_text : Value → Bool
unfolding text_eq lower str_of or_else
is_up_text v = text_eq (lower (str_of (or_else v (text [])))) (codes "up")

unfoldable pub read_health : Answer (Dict Json) → Answer Report
unfolding is_up_text get int_of or_else
read_health (reply d) =
    report true (is_up_text (json_value (get (codes "status") d)))
      (count_of (int_of (or_else (json_value (get (codes "fmuCount") d)) (Value.int (pos 0)))))
read_health (failure status detail) = report true false (pos 0)
read_health raised = raised

-- `health`
unfoldable pub health_report : Text → Text → (Request → Option Response) → Answer Report
unfolding read_health request_json rstrip_slashes
health_report base_url internal_token station =
    if is_configured base_url internal_token
    then read_health (request_json base_url internal_token station health)
    else report false false (pos 0)
