-- ===== src/Outbox/Ingest/Accepted.antt =====
-- What is found in the outbox after an observation.
use lab_gateway.Prelude.{
  ℕ, Text, text_eq, text_eq_refl, ◌≡◌, refl, ◌∙◌, false≢true, some, Bool, true, false, ◌&&◌, ◌++◌,
  [], ◌∷◌, if◌then◌else◌, Bool-cases, Option-cases, inl, inr,
}
use lab_gateway.Prelude.Int.{ℤ}
use lab_gateway.Prelude.Table.{find, find-append, find-append_none, find-update, update, text_key}
use lab_gateway.Outbox.{Row, Table}
use lab_gateway.Outbox.Ingest.{Payload, column, reopen, new_row, store, enqueue_session_observation}
use lab_gateway.Outbox.Ingest.Laws.{row_key, payload_key, reopen_key, enqueue-cases}

-- a row with this key
abbrev pub IsThere : Text → Table → Type 0
IsThere key t = (o : Row) × (find row_key key t.rows ≡ some o)

pick :
    (P : Bool × Table → Type 0) (b : Bool) (x y : Bool × Table) → P x → P y → P (if b then x else y)
pick P true x y h k = h
pick P false x y h k = k

module _ (p : Payload) (now : ℕ) (insert_up update_up : Bool) (t : Table) where
  after_append :
      (key : Text) (r : Row)
      → IsThere key t
      → IsThere key (record { rows = t.rows ++ r ∷ []; next_id = t.next_id })
  after_append key r (o, e) = (o, find-append row_key key t.rows (r ∷ []) ∙ rw e refl)

  after_update :
      (key hash : Text)
      → IsThere key t
      → IsThere key (record t { rows = update row_key hash (reopen now) t.rows })
  after_update key hash (o, e) = elim (Bool-cases (text_eq hash key)) [
    | inl i ↦ (
      reopen now o,
      find-update row_key hash (reopen now) (reopen_key now) key t.rows ∙ rw (i, e) refl,
    )
    | inr i ↦
        (o, find-update row_key hash (reopen now) (reopen_key now) key t.rows ∙ rw (i, e) refl)
  ]

  store-IsThere :
      (observed : ℤ) (key : Text)
      → IsThere key t
      → IsThere key (store p now insert_up update_up observed t).1
  unfolding store
  store-IsThere observed key there =
      elim (Option-cases (find row_key (column p.dedup_key) t.rows)) [
        | inl fresh ↦
            rw (store, fresh)
              (pick (λ y. IsThere key y.1) insert_up _ (false, t) (after_append key _ there) there)
        | inr (r, e) ↦
            rw (store, e)
              (pick (λ y. IsThere key y.1) (insert_up && update_up) _ (false, t)
                (after_update key (column p.dedup_key) there) there)
      ]

  -- What was there stays there.
  pub enqueue-IsThere :
      (db_engine : Bool) (key : Text)
      → IsThere key t
      → IsThere key (enqueue_session_observation p now insert_up update_up db_engine t).1
  enqueue-IsThere db_engine key there =
      enqueue-cases p now insert_up update_up (λ y. IsThere key y.1) db_engine t there
        (λ n. store-IsThere n key there)

  -- an accepted observation is there
  abbrev Told : Bool × Table → Type 0
  Told y = y.0 ≡ true → IsThere (payload_key p) y.1

  store-Told : (observed : ℤ) → Told (store p now insert_up update_up observed t)
  unfolding store new_row find
  store-Told observed = elim (Option-cases (find row_key (column p.dedup_key) t.rows)) [
    | inl fresh ↦
        rw (store, fresh)
          (pick Told insert_up _ (false, t)
            (λ _. (
              new_row p observed now t.next_id,
              find-append_none row_key (column p.dedup_key) t.rows _ fresh
                  ∙ rw (find, text_eq_refl (column p.dedup_key)) refl,
            ))
            (λ h. absurd (false≢true h)))
    | inr (r, e) ↦
        rw (store, e)
          (pick Told (insert_up && update_up) _ (false, t)
            (λ _. after_update (column p.dedup_key) (column p.dedup_key) (r, e))
            (λ h. absurd (false≢true h)))
  ]

  pub enqueue-told :
      (db_engine : Bool)
      → (enqueue_session_observation p now insert_up update_up db_engine t).0 ≡ true
      → IsThere
          (payload_key p)
          (enqueue_session_observation p now insert_up update_up db_engine t).1
  enqueue-told db_engine =
      enqueue-cases p now insert_up update_up Told db_engine t (λ h. absurd (false≢true h))
        store-Told
