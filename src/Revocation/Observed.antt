-- ===== src/Revocation/Observed.antt =====
-- What the reconciliation leaves of the rows of the queue.
use lab_gateway.Prelude.{
  ℕ, Text, text_eq, ◌≡◌, refl, ap, ◌∙◌, ◌⊎◌, inl, inr, Option, none, some, Bool, true, false, List,
  [], ◌∷◌, keep, length, arith, if◌then◌else◌, Bool-cases,
}
use lab_gateway.Prelude.Table.{find, find-update, Distinct, Distinct-update, update, text_key}
use lab_gateway.Outbox.{Table}
use lab_gateway.Outbox.Ingest.{enqueue_session_observation}
use lab_gateway.Revocation.{Row, row_hash, is_due}
use lab_gateway.Revocation.Observe.{
  Look, Scene, Queues, is_given, is_proved, observation, mark_observed, settle_observed, started_at,
  observe, observe_next, observe_rows, observe_active, unobserved_rows,
  reconcile_guacamole_observations,
}

-- the row is the same, or it was marked, for the first time, as observed
abbrev pub Stays : Row → Row → Type 0
Stays a b =
    (b ≡ a)
    ⊎ ((t : ℕ) × (is_given a.observed_at ≡ false)
        × (b ≡ record a { observed_at = some t; updated_at = t }))

-- the rows keep a property that no mark takes away
module _ (P : List Row → Type 0)
    (marks : (hash : Text) (now : ℕ) (rows : List Row)
      → P rows
      → P (update row_hash hash (mark_observed now) rows)) where
  if-Keeps :
      (b : Bool) (x y : Bool × Queues) → P x.1.rows → P y.1.rows → P (if b then x else y).1.rows
  if-Keeps true x y h k = h
  if-Keeps false x y h k = k

  settle_observed-keeps :
      (w : Look) (r : Row) (rows : List Row) (y : Bool × Table)
      → P rows
      → P (settle_observed w r rows y).1.rows
  unfolding settle_observed
  settle_observed-keeps w r rows (false, outbox) h = h
  settle_observed-keeps w r rows (true, outbox) h =
      if-Keeps w.mark_up _ (false, record { rows = rows; outbox = outbox })
        (marks r.token_hash w.clock rows h) h

  module _ (s : Scene) (active_users : List Text) where
    observe-keeps : (r : Row) (q : Queues) → P q.rows → P (observe s active_users r q).1.rows
    unfolding observe
    observe-keeps r q h =
        if-Keeps (is_proved active_users (started_at s active_users r) (s.looks r).token_answer r) _
          (true, q)
          (settle_observed-keeps (s.looks r) r q.rows
            (enqueue_session_observation
              (observation (started_at s active_users r) (s.looks r).clock r) (s.looks r).clock
              (s.looks r).insert_up (s.looks r).update_up true q.outbox)
            h)
          h

    next-keeps :
        (next : Queues → Queues) (x : Bool × Queues)
        → ((q : Queues) → P q.rows → P (next q).rows)
        → P x.1.rows
        → P (observe_next s active_users next x).rows
    next-keeps next (false, q) step h = h
    next-keeps next (true, q) step h = step q h

    observe_rows-keeps :
        (rs : List Row) (q : Queues) → P q.rows → P (observe_rows s active_users rs q).rows
    unfolding observe_rows
    observe_rows-keeps [] q h = h
    observe_rows-keeps (r ∷ rs) q h =
        next-keeps (observe_rows s active_users rs) (observe s active_users r q)
          (observe_rows-keeps rs) (observe-keeps r q h)

  pick-keeps : (b : Bool) (x y : Queues) → P x.rows → P y.rows → P (if b then x else y).rows
  pick-keeps true x y h k = h
  pick-keeps false x y h k = k

  observe_active-keeps :
      (s : Scene) (q : Queues) (o : Option (List Text)) → P q.rows → P (observe_active s q o).rows
  observe_active-keeps s q none h = h
  observe_active-keeps s q (some active_users) h =
      pick-keeps s.fetch_up
        (observe_rows s active_users (unobserved_rows s.evidence_cutoff q.rows) q) q
        (observe_rows-keeps s active_users (unobserved_rows s.evidence_cutoff q.rows) q h) h

  pub reconcile-keeps :
      (s : Scene) (q : Queues) → P q.rows → P (reconcile_guacamole_observations s q).rows
  unfolding reconcile_guacamole_observations
  reconcile-keeps s q h = observe_active-keeps s q s.active_users h

pub mark_observed-hash : (t : ℕ) (r : Row) → row_hash (mark_observed t r) ≡ row_hash r
unfolding mark_observed
mark_observed-hash t r = ground arith

mark_observed-Stays : (t : ℕ) (r : Row) → Stays r (mark_observed t r)
unfolding mark_observed
mark_observed-Stays t r = elim (Bool-cases (is_given r.observed_at)) [
  | inl e ↦ rw e (inl refl)
  | inr e ↦ rw e (inr (t, refl, refl))
]

-- a second mark changes nothing
marked-Stays : (t : ℕ) (a b : Row) → Stays a b → Stays a (mark_observed t b)
unfolding mark_observed
marked-Stays t a b (inl e) = rw e (mark_observed-Stays t a)
marked-Stays t a b (inr (u, n, e)) = rw e (inr (u, n, refl))

pub Stays-is_due : (now : ℕ) (a b : Row) → Stays a b → is_due now b ≡ is_due now a
unfolding is_due
Stays-is_due now a b (inl e) = ap (is_due now) e
Stays-is_due now a b (inr (t, n, e)) = ap (is_due now) e

keep-update :
    (now t : ℕ) (hash : Text) (rows : List Row)
    → length (keep (is_due now) (update row_hash hash (mark_observed t) rows))
      ≡ length (keep (is_due now) rows)
unfolding update
keep-update now t hash [] = refl
keep-update now t hash (r ∷ rs) = ground (
  arith,
  keep-update now t hash rs,
  Stays-is_due now r (mark_observed t r) (mark_observed-Stays t r),
)

module _ (s : Scene) (q : Queues) where
  pub reconcile-length :
      (now : ℕ)
      → length (keep (is_due now) (reconcile_guacamole_observations s q).rows)
        ≡ length (keep (is_due now) q.rows)
  reconcile-length now =
      reconcile-keeps (λ rows. length (keep (is_due now) rows) ≡ length (keep (is_due now) q.rows))
        (λ hash t rows h. keep-update now t hash rows ∙ h) s q refl

  pub reconcile-Distinct :
      Distinct row_hash q.rows → Distinct row_hash (reconcile_guacamole_observations s q).rows
  reconcile-Distinct =
      reconcile-keeps (Distinct row_hash)
        (λ hash t rows. Distinct-update row_hash hash (mark_observed t) (mark_observed-hash t) rows)
        s q

-- a row with this hash that stays what `r` was
abbrev pub HasKept : Text → Row → List Row → Type 0
HasKept k r rows = (b : Row) × (find row_hash k rows ≡ some b) × Stays r b

update-HasKept :
    (k : Text) (r : Row) (hash : Text) (t : ℕ) (rows : List Row)
    → HasKept k r rows
    → HasKept k r (update row_hash hash (mark_observed t) rows)
update-HasKept k r hash t rows (b, e, h) = elim (Bool-cases (text_eq hash k)) [
  | inl i ↦ (
    mark_observed t b,
    find-update row_hash hash (mark_observed t) (mark_observed-hash t) k rows ∙ rw (i, e) refl,
    marked-Stays t r b h,
  )
  | inr i ↦ (
    b,
    find-update row_hash hash (mark_observed t) (mark_observed-hash t) k rows ∙ rw (i, e) refl,
    h,
  )
]

pub reconcile-HasKept :
    (s : Scene) (q : Queues) (k : Text) (r : Row)
    → find row_hash k q.rows ≡ some r
    → HasKept k r (reconcile_guacamole_observations s q).rows
reconcile-HasKept s q k r h =
    reconcile-keeps (HasKept k r) (update-HasKept k r) s q (r, h, inl refl)
