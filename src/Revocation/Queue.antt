-- ===== src/Revocation/Queue.antt =====
-- What the ingest of a revocation keeps.
use lab_gateway.Prelude.{
  ℕ, Text, ◌≡◌, refl, Option, some, Bool, true, not, ◌||◌, List, [], ◌∷◌, arith, ltb, length,
  Bool-cases, Option-cases, inl, inr,
}
use lab_gateway.Prelude.Int.{ℤ}
use lab_gateway.Prelude.Table.{
  find, find-update, find-append, Distinct, Distinct-update, Distinct-append, text_key,
}
use lab_gateway.Outbox.Ingest.{column, observed_time}
use lab_gateway.Revocation.{
  Row, row_hash, Payload, is_incomplete, is_revoked, refresh, new_row, store,
  enqueue_guacamole_token_revocation,
}

module _ (hash : Text → Text) (p : Payload) (now : ℕ) where
  refresh-hash :
      (expires : ℤ) (ciphertext : Text) (r : Row)
      → row_hash (refresh hash p now expires ciphertext r) ≡ row_hash r
  unfolding refresh
  refresh-hash expires ciphertext r = ground arith

  refresh-revoked :
      (expires : ℤ) (ciphertext : Text) (r : Row)
      → is_revoked r.status ≡ true
      → refresh hash p now expires ciphertext r ≡ r
  unfolding refresh
  refresh-revoked expires ciphertext r h = rw h refl

  store-Distinct :
      (insert_up update_up : Bool) (expires : ℤ) (ciphertext : Text) (rows : List Row)
      → Distinct row_hash rows
      → Distinct row_hash (store hash p now insert_up update_up expires ciphertext rows).1
  unfolding store new_row
  store-Distinct insert_up update_up expires ciphertext rows d = ground (
    arith,
    Distinct-append row_hash (new_row hash p now expires ciphertext) rows d,
    Distinct-update row_hash (hash (column p.auth_token)) (refresh hash p now expires ciphertext)
        (refresh-hash expires ciphertext) rows d,
  )

  store-revoked :
      (insert_up update_up : Bool) (expires : ℤ) (ciphertext : Text) (rows : List Row) (k : Text)
      (r : Row)
      → find row_hash k rows ≡ some r
      → is_revoked r.status ≡ true
      → find row_hash k (store hash p now insert_up update_up expires ciphertext rows).1 ≡ some r
  unfolding store
  store-revoked insert_up update_up expires ciphertext rows k r h q = ground (
    arith,
    refresh-revoked expires ciphertext r q,
    find-append row_hash k rows (new_row hash p now expires ciphertext ∷ []),
    find-update row_hash (hash (column p.auth_token)) (refresh hash p now expires ciphertext)
        (refresh-hash expires ciphertext) k rows,
  )

  module _ (encrypt : Text → Option Text) (db_engine insert_up update_up : Bool)
      (rows : List Row) where
    -- the guards and failures leave the rows alone
    enqueue-keeps :
        (P : List Row → Type 0)
        → P rows
        → ((expires : ℤ) (ciphertext : Text)
            → P (store hash p now insert_up update_up expires ciphertext rows).1)
        → P
            (enqueue_guacamole_token_revocation hash p now encrypt db_engine insert_up update_up
              rows).1
    unfolding enqueue_guacamole_token_revocation
    enqueue-keeps P same stored =
        elim (Bool-cases
          (not db_engine || is_incomplete p || ltb 512 (length (column p.auth_token)))) [
            | inl e ↦ rw e same
            | inr e ↦ rw e (elim (Option-cases (observed_time p.expires_at)) [
              | inl q ↦ rw q same
              | inr (expires, q) ↦ rw q (elim (Option-cases (encrypt (column p.auth_token))) [
                | inl u ↦ rw u same
                | inr (ciphertext, u) ↦ rw u (stored expires ciphertext)
              ])
            ])
          ]

    -- The queue keeps one row for each token hash, whatever payload comes in.
    enqueue-Distinct :
        Distinct row_hash rows
        → Distinct row_hash
            (enqueue_guacamole_token_revocation hash p now encrypt db_engine insert_up update_up
              rows).1
    enqueue-Distinct d =
        enqueue-keeps (Distinct row_hash) d
          (λ expires ciphertext. store-Distinct insert_up update_up expires ciphertext rows d)

    -- A revocation that was carried out is never reopened: its row stays as it is when the same
    -- token, or any other, is reported again.
    revoked_stays :
        (k : Text) (r : Row)
        → find row_hash k rows ≡ some r
        → is_revoked r.status ≡ true
        → find row_hash k
            (enqueue_guacamole_token_revocation hash p now encrypt db_engine insert_up update_up
              rows).1
          ≡ some r
    revoked_stays k r h q =
        enqueue-keeps (λ xs. find row_hash k xs ≡ some r) h
          (λ expires ciphertext. store-revoked insert_up update_up expires ciphertext rows k r h q)
