-- ===== src/Realtime/Create/Backed.antt =====
-- The ticket and the claims that "session.create" opens a session with.
use lab_gateway.Prelude.{
  ℕ, Text, nonempty, ◌≡◌, refl, Option, none, some, Bool, true, false, not, ◌||◌, if◌then◌else◌,
  Bool-cases, inl, inr, ◌==◌,
}
use lab_gateway.Prelude.Int.{ℤ}
use lab_gateway.Prelude.Value.{Value, clean, or_else, truthy}
use lab_gateway.Access.{normalize_lab_id, enforce_fmu_claim, coerce_epoch_seconds}
use lab_gateway.Access.Run.{labs_differ}
use lab_gateway.Realtime.Session.{window_error}
use lab_gateway.Realtime.Create.{
  Bearer, Fetch, fetched, http_error, broken, Backend, Message, Stage, go, refuse, raise,
  then_stage,
}
use lab_gateway.Realtime.Create.Stages.{
  take_issued, issue_ticket, after_window, keys_differ, find_ticket, take_redeemed, find_claims,
  check_claims,
}

-- what a stage goes on with
abbrev pub OnGo : {A : Type 0} → (A → Type 0) → Stage A → Type 0
OnGo P (go a) = P a
OnGo P (refuse c r) = Unit
OnGo P raise = Unit

pub then_stage-OnGo :
    {A B : Type 0}
    → (P : A → Type 0) (Q : B → Type 0) (s : Stage A) (f : A → Stage B) → OnGo P s
    → ((a : A) → P a → OnGo Q (f a))
    → OnGo Q (then_stage s f)
unfolding then_stage
then_stage-OnGo P Q (go a) f p h = h a p
then_stage-OnGo P Q (refuse c r) f p h = tt
then_stage-OnGo P Q raise f p h = tt

pub imp-OnGo :
    {A : Type 0} → (P Q : A → Type 0) (s : Stage A) → OnGo P s → ((a : A) → P a → Q a) → OnGo Q s
imp-OnGo P Q (go a) p h = h a p
imp-OnGo P Q (refuse c r) p h = tt
imp-OnGo P Q raise p h = tt

-- the claims that the WebSocket came with have passed `_enforce_fmu_claim`
abbrev pub IsEnforced : Option Bearer → Type 0
IsEnforced none = Unit
IsEnforced (some b) = enforce_fmu_claim false b.claims ≡ true

-- an external session has the claims that the redeemed ticket stands for
abbrev pub IsRedeemed : Bool → Backend → Bearer → Type 0
IsRedeemed true backend b = Unit
IsRedeemed false backend b = backend.redeem ≡ some (fetched b)

abbrev pub IsConfirmed : Bool → Backend → Text → Type 0
IsConfirmed true backend ticket = Unit
IsConfirmed false backend ticket = (nonempty ticket ≡ true) × (backend.confirm ≡ some (fetched tt))

or-true : (a : Bool) → (a || true) ≡ true
or-true true = refl
or-true false = refl

module _ (float_text : Text → Option ℤ) (now : ℕ) (backend : Backend) (m : Message) where
  take_issued-nonempty :
      (o : Option (Fetch Value))
      → OnGo (λ t. nonempty t ≡ true) (take_issued float_text now backend m o)
  unfolding take_issued
  take_issued-nonempty none = tt
  take_issued-nonempty (some (fetched v)) = elim (Bool-cases (nonempty (clean v))) [
    | inl q ↦ rw (take_issued, q) q
    | inr q ↦ rw (take_issued, q) tt
  ]
  take_issued-nonempty (some (http_error status code)) = tt
  take_issued-nonempty (some broken) = tt

  after_window-nonempty :
      (o : Option ℕ) → OnGo (λ t. nonempty t ≡ true) (after_window float_text now backend m o)
  after_window-nonempty none = take_issued-nonempty backend.issue
  after_window-nonempty (some code) = elim (Bool-cases (code == 403)) [
    | inl q ↦ rw q tt
    | inr q ↦ rw q tt
  ]

  refused-or :
      {A : Type 0}
      → (P : A → Type 0) (b : Bool) (c : Stage A) (s : Stage A) → OnGo P c
      → OnGo P s
      → OnGo P (if b then c else s)
  refused-or P true c s p h = p
  refused-or P false c s p h = h

  issue_ticket-nonempty :
      (b : Bearer) → OnGo (λ t. nonempty t ≡ true) (issue_ticket float_text now backend m b)
  unfolding issue_ticket
  issue_ticket-nonempty b =
      refused-or _ (labs_differ (normalize_lab_id b.claims.lab_id) (normalize_lab_id m.lab_id)) _ _
        tt
        (refused-or _
          (keys_differ float_text now backend m (normalize_lab_id m.reservation_key)
            (clean b.claims.reservation_key))
          _ _ tt
          (refused-or _ (not (truthy (or_else b.claims.access_key b.claims.fmu_file_name))) _ _ tt (
            after_window-nonempty (
              window_error (coerce_epoch_seconds float_text b.nbf)
                (coerce_epoch_seconds float_text b.claims.exp) now))))

  pub find_ticket-nonempty :
      (internal : Bool) (bearer : Option Bearer)
      → OnGo
          (λ t. (internal || nonempty t) ≡ true)
          (find_ticket float_text now backend m internal bearer)
  unfolding find_ticket
  find_ticket-nonempty internal none =
      elim (Bool-cases (internal || nonempty (clean m.session_ticket))) [
        | inl q ↦ rw (find_ticket, q) q
        | inr q ↦ rw (find_ticket, q) tt
      ]
  find_ticket-nonempty internal (some b) =
      elim (Bool-cases (internal || nonempty (clean m.session_ticket))) [
        | inl q ↦ rw (find_ticket, q) q
        | inr q ↦
            rw (find_ticket, q)
              (imp-OnGo _ _ (issue_ticket float_text now backend m b) (issue_ticket-nonempty b)
                (λ t h. rw h (or-true internal)))
      ]

  take_redeemed-IsRedeemed :
      (o : Option (Fetch Bearer))
      → backend.redeem ≡ o
      → OnGo
          (λ b. (enforce_fmu_claim false b.claims ≡ true) × (backend.redeem ≡ some (fetched b)))
          (take_redeemed float_text now backend m o)
  unfolding take_redeemed
  take_redeemed-IsRedeemed none r = tt
  take_redeemed-IsRedeemed (some (fetched b)) r =
      elim (Bool-cases (enforce_fmu_claim false b.claims)) [
        | inl q ↦ rw (take_redeemed, q) (q, r)
        | inr q ↦ rw (take_redeemed, q) tt
      ]
  take_redeemed-IsRedeemed (some (http_error status code)) r = tt
  take_redeemed-IsRedeemed (some broken) r = tt

  pub find_claims-IsRedeemed :
      (internal : Bool) (bearer : Option Bearer) (ticket : Text)
      → IsEnforced bearer
      → (internal || nonempty ticket) ≡ true
      → OnGo
          (λ b. (enforce_fmu_claim false b.claims ≡ true) × IsRedeemed internal backend b)
          (find_claims float_text now backend m internal bearer ticket)
  unfolding find_claims
  find_claims-IsRedeemed true none ticket e q = tt
  find_claims-IsRedeemed true (some b) ticket e q = (e, tt)
  find_claims-IsRedeemed false bearer ticket e q =
      rw (find_claims, q) (take_redeemed-IsRedeemed backend.redeem refl)

  pub check_claims-same :
      (b : Bearer)
      → OnGo
          (λ c.
            (c ≡ b)
            × (labs_differ (normalize_lab_id b.claims.lab_id) (normalize_lab_id m.lab_id) ≡ false))
          (check_claims float_text now backend m b)
  unfolding check_claims
  check_claims-same b =
      elim (Bool-cases
        (labs_differ (normalize_lab_id b.claims.lab_id) (normalize_lab_id m.lab_id))) [
          | inl q ↦ rw (check_claims, q) tt
          | inr q ↦
              rw (check_claims, q)
                (refused-or _ (not (truthy (or_else b.claims.access_key b.claims.fmu_file_name))) _
                  _ tt (refl, refl))
        ]
