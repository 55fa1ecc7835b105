-- ===== src/Revocation/Reported.antt =====
-- What a session that the queue marks as observed rests on.
use lab_gateway.Prelude.{
  Text, not, ◌&&◌, ◌||◌, ltb_ℤ, text_eq, text_eq_iff, text_eq_refl, ◌≡◌, refl, subst, ◌∙◌, ◌⊎◌, inl,
  inr, Option, none, some, Bool, true, false, List, [], ◌∷◌, keep, All, All-imp, All-keep,
  All-keep_self, All-take, if◌then◌else◌, Bool-cases,
}
use lab_gateway.Prelude.Value.{text}
use lab_gateway.Prelude.Sort.{sort_by, sort_by-All}
use lab_gateway.Prelude.Table.{find, find-update, Distinct, update, text_key}
use lab_gateway.Outbox.{Table}
use lab_gateway.Outbox.Ingest.{column, enqueue_session_observation}
use lab_gateway.Outbox.Ingest.Accepted.{IsThere, enqueue-IsThere, enqueue-told}
use lab_gateway.Revocation.{Row, row_hash, is_open, is_revoked}
use lab_gateway.Revocation.Observe.{
  Look, Scene, Queues, is_given, is_unobserved, is_proved, observation, mark_observed,
  settle_observed, started_at, observe, observe_next, observe_rows, observe_active, unobserved_rows,
  created_before, reconcile_guacamole_observations,
}
use lab_gateway.Revocation.Evidence.{IsProof, is_proved-IsProof, both}
use lab_gateway.Revocation.Observed.{mark_observed-hash}

-- every row is the one that is found under its hash
rows_found :
    (xs : List Row) → Distinct row_hash xs → All (λ x. find row_hash x.token_hash xs ≡ some x) xs
unfolding find
rows_found [] d = tt
rows_found (x ∷ xs) (fresh, d) = (
  rw (text_eq_refl x.token_hash) refl,
  All-imp (λ y. find row_hash y.token_hash xs ≡ some y) _ xs
      (λ y h. elim (Bool-cases (text_eq x.token_hash y.token_hash)) [
        | inl e ↦ absurd (cc (h, fresh, (text_eq_iff x.token_hash y.token_hash).0 e))
        | inr e ↦ rw e h
      ])
      (rows_found xs d),
)

All-both :
    {A : Type 0} (P Q : A → Type 0) (xs : List A) → All P xs → All Q xs → All (λ x. P x × Q x) xs
All-both P Q [] h k = tt
All-both P Q (x ∷ xs) (p, h) (q, k) = ((p, q), All-both P Q xs h k)

-- the key of the observation of a token
abbrev pub outbox_key : Text → Text
outbox_key k = column (text k)

module _ (s : Scene) (k : Text) (r : Row) where
  -- the connection was seen and proved
  abbrev pub Evidence : Type 0
  Evidence =
      (users : List Text) × (s.active_users ≡ some users)
      × (ltb_ℤ s.evidence_cutoff r.expires_at ≡ true)
      × IsProof users (started_at s users r) (s.looks r).token_answer r

  unexpired :
      (x : Row)
      → is_unobserved s.evidence_cutoff x ≡ true
      → ltb_ℤ s.evidence_cutoff x.expires_at ≡ true
  unfolding is_unobserved
  unexpired x h =
      (both ((is_open x.status || is_revoked x.status) && not (is_given x.observed_at))
        (ltb_ℤ s.evidence_cutoff x.expires_at) h).1

  abbrev pub Rests : Queues → Type 0
  Rests q =
      (b : Row) × (find row_hash k q.rows ≡ some b)
      × ((is_given b.observed_at ≡ false) ⊎ (IsThere (outbox_key k) q.outbox × Evidence))

  if-Rests :
      (c : Bool) (x y : Bool × Queues)
      → (c ≡ true → Rests x.1)
      → Rests y.1
      → Rests (if c then x else y).1
  if-Rests true x y h j = h refl
  if-Rests false x y h j = j

  outbox-Rests :
      (rows : List Row) (outbox later : Table)
      → (IsThere (outbox_key k) outbox → IsThere (outbox_key k) later)
      → Rests (record { rows = rows; outbox = outbox })
      → Rests (record { rows = rows; outbox = later })
  outbox-Rests rows outbox later there (b, e, inl n) = (b, e, inl n)
  outbox-Rests rows outbox later there (b, e, inr (t, v)) = (b, e, inr (there t, v))

  mark-Rests :
      (w : Look) (x : Row) (rows : List Row) (outbox : Table)
      → (text_eq x.token_hash k ≡ true → IsThere (outbox_key k) outbox × Evidence)
      → Rests (record { rows = rows; outbox = outbox })
      → Rests (record {
        rows = update row_hash x.token_hash (mark_observed w.clock) rows;
        outbox = outbox;
      })
  mark-Rests w x rows outbox told (b, e, h) =
      let found =
        find-update row_hash x.token_hash (mark_observed w.clock) (mark_observed-hash w.clock) k
          rows in
      elim (Bool-cases (text_eq x.token_hash k)) [
        | inl i ↦ (mark_observed w.clock b, found ∙ rw (i, e) refl, inr (told i))
        | inr i ↦ (b, found ∙ rw (i, e) refl, h)
      ]

  settle-Rests :
      (w : Look) (x : Row) (rows : List Row) (outbox : Table) (y : Bool × Table)
      → (IsThere (outbox_key k) outbox → IsThere (outbox_key k) y.1)
      → (text_eq x.token_hash k ≡ true → y.0 ≡ true → IsThere (outbox_key k) y.1 × Evidence)
      → Rests (record { rows = rows; outbox = outbox })
      → Rests (settle_observed w x rows y).1
  unfolding settle_observed
  settle-Rests w x rows outbox (false, later) there told h = outbox-Rests rows outbox later there h
  settle-Rests w x rows outbox (true, later) there told h =
      let moved = outbox-Rests rows outbox later there h in
      if-Rests w.mark_up _ (false, record { rows = rows; outbox = later })
        (λ _. mark-Rests w x rows later (λ e. told e refl) moved) moved

  -- a selected row
  abbrev IsPicked : List Row → Row → Type 0
  IsPicked rows x =
      (is_unobserved s.evidence_cutoff x ≡ true) × (find row_hash x.token_hash rows ≡ some x)

  module _ (users : List Text) (active : s.active_users ≡ some users) (rows : List Row)
      (there : find row_hash k rows ≡ some r) where
    picked-same : (x : Row) → IsPicked rows x → text_eq x.token_hash k ≡ true → x ≡ r
    picked-same x (u, f) e = cc (f, there, (text_eq_iff x.token_hash k).0 e)

    observe-Rests :
        (x : Row) (q : Queues) → IsPicked rows x → Rests q → Rests (observe s users x q).1
    unfolding observe observation
    observe-Rests x q picked h =
        let w = s.looks x in
        let p = observation (started_at s users x) w.clock x in
        if-Rests (is_proved users (started_at s users x) w.token_answer x) _ (true, q)
          (λ proved.
            settle-Rests w x q.rows q.outbox
              (enqueue_session_observation p w.clock w.insert_up w.update_up true q.outbox)
              (enqueue-IsThere p w.clock w.insert_up w.update_up q.outbox true (outbox_key k))
              (λ e accepted. (
                subst
                    (λ hash.
                      IsThere (outbox_key hash)
                        (enqueue_session_observation p w.clock w.insert_up w.update_up true
                          q.outbox).1)
                    ((text_eq_iff x.token_hash k).0 e)
                    (enqueue-told p w.clock w.insert_up w.update_up q.outbox true accepted),
                (
                  users,
                  active,
                  subst (λ z. ltb_ℤ s.evidence_cutoff z.expires_at ≡ true) (picked-same x picked e)
                      (unexpired x picked.0),
                  subst (λ z. IsProof users (started_at s users z) (s.looks z).token_answer z)
                      (picked-same x picked e)
                      (is_proved-IsProof users (started_at s users x) w.token_answer x proved),
                ),
              ))
              h)
          h

    next-Rests :
        (next : Queues → Queues) (x : Bool × Queues)
        → ((q : Queues) → Rests q → Rests (next q))
        → Rests x.1
        → Rests (observe_next s users next x)
    next-Rests next (false, q) step h = h
    next-Rests next (true, q) step h = step q h

    observe_rows-Rests :
        (xs : List Row) (q : Queues)
        → All (IsPicked rows) xs
        → Rests q
        → Rests (observe_rows s users xs q)
    unfolding observe_rows
    observe_rows-Rests [] q a h = h
    observe_rows-Rests (x ∷ xs) q (p, a) h =
        next-Rests (observe_rows s users xs) (observe s users x q)
          (λ q' h'. observe_rows-Rests xs q' a h') (observe-Rests x q p h)

  picked :
      (rows : List Row)
      → Distinct row_hash rows
      → All (IsPicked rows) (unobserved_rows s.evidence_cutoff rows)
  unfolding unobserved_rows
  picked rows d =
      let kept = keep (is_unobserved s.evidence_cutoff) rows in
      let Found = λ (x : Row). find row_hash x.token_hash rows ≡ some x in
      All-take (IsPicked rows) 100 (sort_by created_before kept) (
        sort_by-All created_before (IsPicked rows) kept (
          All-both _ Found kept (All-keep_self (is_unobserved s.evidence_cutoff) rows)
            (All-keep Found (is_unobserved s.evidence_cutoff) rows (rows_found rows d))))

  pick : (c : Bool) (x y : Queues) → Rests x → Rests y → Rests (if c then x else y)
  pick true x y h j = h
  pick false x y h j = j

  active-Rests :
      (q : Queues) (o : Option (List Text))
      → s.active_users ≡ o
      → Distinct row_hash q.rows
      → find row_hash k q.rows ≡ some r
      → Rests q
      → Rests (observe_active s q o)
  active-Rests q none e d f h = h
  active-Rests q (some users) e d f h =
      pick s.fetch_up (observe_rows s users (unobserved_rows s.evidence_cutoff q.rows) q) q
        (observe_rows-Rests users e q.rows f (unobserved_rows s.evidence_cutoff q.rows) q
          (picked q.rows d) h)
        h

  -- A row that is not marked as observed is marked after the reconciliation only if the outbox holds
  -- an observation under its hash, its token expires after the cutoff, Guacamole answered with its
  -- active users, the row's user is among them or has a connection in the history, and Guacamole
  -- accepted the token or, for a REVOKED row, the token was once validated and the history has a
  -- connection.
  pub reconcile-Rests :
      (q : Queues)
      → Distinct row_hash q.rows
      → find row_hash k q.rows ≡ some r
      → is_given r.observed_at ≡ false
      → Rests (reconcile_guacamole_observations s q)
  unfolding reconcile_guacamole_observations
  reconcile-Rests q d f n = active-Rests q s.active_users refl d f (r, f, inl n)
