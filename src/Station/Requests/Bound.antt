-- ===== src/Station/Requests/Bound.antt =====
-- The simulations that are asked of Station.
use lab_gateway.Prelude.{
  Text, codes, ◌≡◌, refl, Option, none, some, Bool, true, false, if◌then◌else◌,
}
use lab_gateway.Access.{Claims}
use lab_gateway.Station.{Permit, allowed, denied, Authorised, build_authorized_context}
use lab_gateway.Station.Context.{
  OnAllowed, IsPermitted, named_file, build_authorized_context-IsPermitted,
}
use lab_gateway.Station.Requests.{
  Wish, is_station_key, job_request, json_payload_for_station, context_of, is_configured,
  run_request, stream_request, json_type,
}
use lab_gateway.Station.Answer.{
  Answer, reply, failure, raised, then_answer, of_permit, Request, Job,
}

abbrev pub OnReply : {A : Type 0} → (A → Type 0) → Answer A → Type 0
OnReply P (reply a) = P a
OnReply P (failure status detail) = Unit
OnReply P raised = Unit

then_answer-OnReply :
    {A B : Type 0} (P : A → Type 0) (Q : B → Type 0) (a : Answer A) (f : A → Answer B)
    → OnReply P a
    → ((x : A) → P x → OnReply Q (f x))
    → OnReply Q (then_answer a f)
unfolding then_answer
then_answer-OnReply P Q (reply x) f h k = k x h
then_answer-OnReply P Q (failure status detail) f h k = tt
then_answer-OnReply P Q raised f h k = tt

of_permit-OnReply :
    {A : Type 0} (P : A → Type 0) (p : Permit A) → OnAllowed P p → OnReply P (of_permit p)
of_permit-OnReply P (allowed a) h = h
of_permit-OnReply P (denied r) h = tt

if-OnReply :
    {A : Type 0} (P : A → Type 0) (b : Bool) (a a' : Answer A)
    → ((b ≡ true) → OnReply P a)
    → ((b ≡ false) → OnReply P a')
    → OnReply P (if b then a else a')
if-OnReply P true a a' h k = h refl
if-OnReply P false a a' h k = k refl

-- a request that asks for the simulation of the token's FMU with the token's claims
abbrev pub IsBound : Claims → Request → Type 0
IsBound c r =
    (j : Job) × (r.job ≡ some j)
    × (j.claims ≡ c)
    × (j.access_key ≡ named_file c)
    × (is_station_key j.access_key ≡ true)

module _ (base_url internal_token : Text) (c : Claims) (w : Wish)
    (authorization : Option Text) where
  context_of-IsPermitted : OnReply (IsPermitted c) (context_of base_url internal_token c w)
  context_of-IsPermitted =
      of_permit-OnReply (IsPermitted c) (build_authorized_context c none w.lab_id w.reservation_key)
        (build_authorized_context-IsPermitted c w.lab_id w.reservation_key)

  job_request-IsBound :
      (path accept : Text) (a : Authorised)
      → IsPermitted c a
      → OnReply (IsBound c) (
          job_request base_url internal_token path accept authorization
            (json_payload_for_station base_url internal_token a w))
  unfolding json_payload_for_station
  job_request-IsBound path accept a (same, key, _, _, _) =
      if-OnReply (IsBound c) (is_station_key a.access_key) _ _
        (λ q. (json_payload_for_station base_url internal_token a w, refl, same, key, q)) (λ _. tt)

  -- A request for a simulation, run or streamed, carries the claims of the token and, as its access
  -- key, the file that the token names, which has the pattern of Station's keys.
  simulation-IsBound :
      OnReply (IsBound c) (run_request base_url internal_token c w authorization)
      × OnReply (IsBound c) (stream_request base_url internal_token c w authorization)
  unfolding run_request stream_request
  simulation-IsBound = (
    then_answer-OnReply (IsPermitted c) (IsBound c) (context_of base_url internal_token c w) _
        context_of-IsPermitted
        (λ a (h : IsPermitted c a).
          if-OnReply (IsBound c) (is_configured base_url internal_token) _ _
            (λ _.
              job_request-IsBound (codes "/internal/fmu/simulations/run")
                (json_type base_url internal_token) a h)
            (λ _. tt)),
    then_answer-OnReply (IsPermitted c) (IsBound c) (context_of base_url internal_token c w) _
        context_of-IsPermitted
        (λ a (h : IsPermitted c a).
          job_request-IsBound (codes "/internal/fmu/simulations/stream")
            (codes "application/x-ndjson") a h),
  )
