-- ===== src/Outbox/Ingest/Laws.antt =====
-- What an ingested observation does to the outbox.
use mathlib.Core.Option
use lab_gateway.Prelude.{
  ℕ, suc, ◌<◌, ◌≡◌, refl, Text, none, some, Bool, true, false, List, [], ◌∷◌, ◌++◌, All, All-append,
  All-map, All-imp, arith, if◌then◌else◌, length, Option-cases, Bool-cases, inl, inr, ◌&&◌, ◌||◌,
  not, text_eq, text_eq_iff, text_eq_refl, map, ap,
}
use lab_gateway.Prelude.Table.{
  find, find-update, Distinct, Distinct-map, Distinct-update, Distinct-append, update, nat_eq,
  text_key,
}
use lab_gateway.Prelude.Int.{ℤ}
use lab_gateway.Outbox.{Row, Table, row_id, Status, retry, failed}
use lab_gateway.Outbox.Ingest.{
  is_incomplete, observed_time, Payload, column, reopen, store, enqueue_session_observation,
}

abbrev pub row_key : Row → Text
row_key r = r.dedup_key

-- ids and keys are distinct, and every id is below the next one
pub record IsValid (t : Table) : Type 0 where
  pub ids : Distinct row_id t.rows
  pub keys : Distinct row_key t.rows
  pub below : All (λ r. r.id < t.next_id) t.rows

reopen_id : (now : ℕ) (r : Row) → (reopen now r).id ≡ r.id
unfolding reopen
reopen_id now r = refl

pub reopen_key : (now : ℕ) (r : Row) → (reopen now r).dedup_key ≡ r.dedup_key
unfolding reopen
reopen_key now r = refl

-- an id that no row has reached is not there
find_above : (n : ℕ) (rows : List Row) → All (λ r. r.id < n) rows → find row_id n rows ≡ none
unfolding find
find_above n [] h = refl
find_above n (x ∷ xs) (lt, h) = ground (arith, find_above n xs h)

append-IsValid :
    (t : Table) (r : Row)
    → IsValid t
    → r.id ≡ t.next_id
    → find row_key r.dedup_key t.rows ≡ none
    → IsValid (record { rows = t.rows ++ r ∷ []; next_id = suc t.next_id })
append-IsValid t r v e fresh = record {
  ids = Distinct-append row_id r t.rows v.ids (rw e (find_above t.next_id t.rows v.below));
  keys = Distinct-append row_key r t.rows v.keys fresh;
  below =
      All-append (λ x. x.id < suc t.next_id) t.rows (r ∷ [])
        (All-imp _ _ t.rows (λ x h. omega arith) v.below) (omega arith, tt);
}

reopen-IsValid :
    (t : Table) (k : Text) (now : ℕ)
    → IsValid t
    → IsValid (record { rows = update row_key k (reopen now) t.rows; next_id = t.next_id })
unfolding update
reopen-IsValid t k now v = record {
  ids = Distinct-map row_id _ (λ x. ground (arith, reopen_id now x)) t.rows v.ids;
  keys = Distinct-update row_key k (reopen now) (reopen_key now) t.rows v.keys;
  below =
      All-map (λ (x : Row). x.id < t.next_id) _ t.rows
        (All-imp _ _ t.rows (λ x h. ground (arith, reopen_id now x)) v.below);
}

-- the state of a row after its observation has come again
abbrev pub reopened : Status → Status
reopened failed = retry
reopened s = s

reopen_status : (now : ℕ) (r : Row) → (reopen now r).status ≡ reopened r.status
unfolding reopen
reopen_status now r = ground arith

-- the key of a payload, as the table holds it
abbrev pub payload_key : Payload → Text
payload_key p = column p.dedup_key

module _ (p : Payload) (now : ℕ) (insert_up update_up : Bool) where
  abbrev stored : ℤ → Table → Bool × Table
  stored = store p now insert_up update_up

  store-IsValid : (observed : ℤ) (t : Table) → IsValid t → IsValid (stored observed t).1
  unfolding store
  store-IsValid observed t v = elim (Option-cases (find row_key (column p.dedup_key) t.rows)) [
    | inl fresh ↦
        rw (fresh, store)
          (elim (Bool-cases insert_up) [
            | inl up ↦ rw up (append-IsValid t _ v refl fresh)
            | inr down ↦ rw down v
          ])
    | inr (r, e) ↦
        rw (e, store)
          (elim (Bool-cases (insert_up && update_up)) [
            | inl up ↦ rw up (reopen-IsValid t (column p.dedup_key) now v)
            | inr down ↦ rw down v
          ])
  ]

  pub enqueue-cases {ℓ} :
      (P : Bool × Table → Type ℓ) (db_engine : Bool) (t : Table)
      → P (false, t)
      → ((observed : ℤ) → P (stored observed t))
      → P (enqueue_session_observation p now insert_up update_up db_engine t)
  unfolding enqueue_session_observation
  enqueue-cases P db_engine t refused done = elim (Bool-cases (not db_engine || is_incomplete p)) [
    | inl bad ↦ rw bad refused
    | inr fine ↦ rw fine (elim (Option-cases (observed_time p.observed_at)) [
      | inl unread ↦ rw unread refused
      | inr (n, e) ↦ rw e (done n)
    ])
  ]

  -- Whatever is ingested, and whether the database takes it or not, ids and keys stay distinct and
  -- every id stays below the next one.
  enqueue-IsValid :
      (db_engine : Bool) (t : Table)
      → IsValid t
      → IsValid (enqueue_session_observation p now insert_up update_up db_engine t).1
  enqueue-IsValid db_engine t v =
      enqueue-cases (λ r. IsValid r.1) db_engine t v (λ n. store-IsValid n t v)

-- What is left of a row and of the table after an observation whose key was there already.
abbrev pub Again : Row → Text → Table → Bool × Table → Type 0
Again r key t (accepted, t') =
    (length t'.rows ≡ length t.rows)
    × ((s : Row) × (find row_key key t'.rows ≡ some s)
        × (s.status ≡ (if accepted then reopened r.status else r.status))
        × (s.delivered_at ≡ r.delivered_at))
    × ((k : Text)
        → find row_key k t'.rows
          ≡ (if text_eq key k then find row_key key t'.rows else find row_key k t.rows))

length-map-rows : (f : Row → Row) (xs : List Row) → length (map f xs) ≡ length xs
length-map-rows f [] = refl
length-map-rows f (x ∷ xs) = ap suc (length-map-rows f xs)

Again-refl :
    (r : Row) (key : Text) (t : Table) → find row_key key t.rows ≡ some r → Again r key t (false, t)
Again-refl r key t e = (refl, (r, e, refl, refl), λ k. ground (arith, text_eq_iff key k))

Again-reopen :
    (r : Row) (key : Text) (now : ℕ) (t : Table)
    → find row_key key t.rows ≡ some r
    → Again r key t
        (true, record { rows = update row_key key (reopen now) t.rows; next_id = t.next_id })
Again-reopen r key now t e = (
  unfold update in length-map-rows _ t.rows,
  (
    reopen now r,
    ground (arith, e, at key, text_eq_refl key),
    reopen_status now r,
    unfold reopen in refl,
  ),
  λ k. ground (arith, at k, at key, text_eq_iff key k, text_eq_refl key),
)
  where
    at :
        (k : Text)
        → find row_key k (update row_key key (reopen now) t.rows) ≡ (
            if text_eq key k
            then Option.map (reopen now) (find row_key k t.rows)
            else find row_key k t.rows)
    at k = find-update row_key key (reopen now) (reopen_key now) k t.rows

store_again :
    (p : Payload) (now : ℕ) (insert_up update_up : Bool) (observed : ℤ) (r : Row) (t : Table)
    → find row_key (payload_key p) t.rows ≡ some r
    → store p now insert_up update_up observed t ≡ (
        if insert_up && update_up
        then (
          true,
          record { rows = update row_key (payload_key p) (reopen now) t.rows; next_id = t.next_id },
        )
        else (false, t))
unfolding store
store_again p now insert_up update_up observed r t e = ground arith

-- An observation whose key is in the table adds no row and touches no other row. Where it is
-- accepted a FAILED row becomes a RETRY and a row in any other state stays in it, so a SENT row is
-- not sent again; where it is refused every state stays. The time of delivery is kept.
pub enqueue-Again :
    (p : Payload) (now : ℕ) (insert_up update_up db_engine : Bool) (r : Row) (t : Table)
    → find row_key (payload_key p) t.rows ≡ some r
    → Again r (payload_key p) t (enqueue_session_observation p now insert_up update_up db_engine t)
enqueue-Again p now insert_up update_up db_engine r t e =
    enqueue-cases p now insert_up update_up (Again r (payload_key p) t) db_engine t same λ n.
      rw (store_again p now insert_up update_up n r t e)
        (elim (Bool-cases (insert_up && update_up)) [
          | inl up ↦ rw up (Again-reopen r (payload_key p) now t e)
          | inr down ↦ rw down same
        ])
  where
    same : Again r (payload_key p) t (false, t)
    same = Again-refl r (payload_key p) t e
