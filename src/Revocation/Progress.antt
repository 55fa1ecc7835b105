-- ===== src/Revocation/Progress.antt =====
-- A token that is due and that Guacamole drops is revoked in the round.
use lab_gateway.Prelude.{
  ℕ, zero, suc, ◌≤◌, Text, text_eq, text_eq_iff, ◌≡◌, sym, subst, false≢true, ◌+◌, ◌∙◌, ap, refl,
  Option, none, some, Bool, true, false, ◌&&◌, List, [], ◌∷◌, keep, take, length, any_of,
  if◌then◌else◌, arith, Bool-cases, inl, inr,
}
use lab_gateway.Prelude.Sort.{sort_by, insert_by}
use lab_gateway.Prelude.Table.{find, find-update, update, text_key}
use lab_gateway.Revocation.Expiry.{found_first, found_later, revoke_other}
use lab_gateway.Revocation.{
  Row, row_hash, Weather, revoked, is_due, is_gone, due_rows, mark_revoked, revoke, go_on,
  revoke_rows, expires_before,
}
use lab_gateway.Revocation.Observe.{Scene, Queues, reconcile_guacamole_observations}
use lab_gateway.Revocation.Round.{process_guacamole_token_revocations}
use lab_gateway.Revocation.Observed.{Stays-is_due, reconcile-HasKept, reconcile-length}

module _ {A : Type 0} (before : A → A → Bool) (p : A → Bool) where
  any_of-insert : (x : A) (xs : List A) → any_of p (insert_by before x xs) ≡ any_of p (x ∷ xs)
  unfolding insert_by
  any_of-insert x [] = refl
  any_of-insert x (y ∷ ys) = ground (arith, any_of-insert x ys)

  any_of-sort : (xs : List A) → any_of p (sort_by before xs) ≡ any_of p xs
  unfolding sort_by
  any_of-sort [] = refl
  any_of-sort (x ∷ xs) =
      any_of-insert x (sort_by before xs) ∙ ap (λ b. if p x then true else b) (any_of-sort xs)

module _ {A : Type 0} (before : A → A → Bool) where
  length-insert : (x : A) (xs : List A) → length (insert_by before x xs) ≡ suc (length xs)
  unfolding insert_by
  length-insert x [] = refl
  length-insert x (y ∷ ys) = ground (arith, length-insert x ys)

  length-sort : (xs : List A) → length (sort_by before xs) ≡ length xs
  unfolding sort_by
  length-sort [] = refl
  length-sort (x ∷ xs) = length-insert x (sort_by before xs) ∙ ap suc (length-sort xs)

no_room : {A : Type 0} (x : A) (xs : List A) → ¬ (length (x ∷ xs) ≤ 0)
no_room x xs h = omega (arith, h)

take_all : {A : Type 0} → (n : ℕ) (xs : List A) → length xs ≤ n → take n xs ≡ xs
take_all zero [] h = refl
take_all zero (x ∷ xs) h = absurd (no_room x xs h)
take_all (suc n) [] h = refl
take_all (suc n) (x ∷ xs) h = ap (λ ys. x ∷ ys) (take_all n xs (omega (arith, h)))

module _ (k : Text) where
  abbrev has_hash : Row → Bool
  has_hash x = text_eq x.token_hash k

  kept_later :
      (now : ℕ) (x : Row) (xs : List Row)
      → text_eq x.token_hash k ≡ false
      → any_of has_hash (keep (is_due now) xs) ≡ true
      → any_of has_hash (keep (is_due now) (x ∷ xs)) ≡ true
  kept_later now x xs e h = elim (Bool-cases (is_due now x)) [
    | inl q ↦ rw (q, e) h
    | inr q ↦ rw q h
  ]

  -- the row that is found is among the due ones
  due_is_kept :
      (now : ℕ) (xs : List Row) (r : Row)
      → find row_hash k xs ≡ some r
      → is_due now r ≡ true
      → any_of has_hash (keep (is_due now) xs) ≡ true
  unfolding find
  due_is_kept now [] r h due = ground arith
  due_is_kept now (x ∷ xs) r h due = elim (Bool-cases (text_eq x.token_hash k)) [
    | inl e ↦
        (let same : is_due now x ≡ true = ap (is_due now) (found_first k x xs r e h) ∙ due in
          rw (same, e) refl)
    | inr e ↦ kept_later now x xs e (due_is_kept now xs r (found_later k x xs r e h) due)
  ]

  -- the token is there, and it is REVOKED
  abbrev IsThere : List Row → Type 0
  IsThere rows = (r : Row) × (find row_hash k rows ≡ some r)

  abbrev pub IsRevoked : List Row → Type 0
  IsRevoked rows = (r : Row) × (find row_hash k rows ≡ some r) × (r.status ≡ revoked)

  abbrev pub is_dropped : Weather → Bool
  is_dropped w = w.decrypted && is_gone w.answer && w.mark_up

  any_of_later :
      (x : Row) (xs : List Row)
      → text_eq x.token_hash k ≡ false
      → any_of has_hash (x ∷ xs) ≡ true
      → any_of has_hash xs ≡ true
  any_of_later x xs e m = ground (arith, e, m)

  -- what one round of the loop leaves of the token
  abbrev HasPassed : (List Row → Type 0) → Option Bool × List Row → Type 0
  HasPassed P y = (d : Bool) × (y.0 ≡ some d) × P y.1

  marked :
      (f : Row → Row) (keeps : (y : Row) → row_hash (f y) ≡ row_hash y) (x : Row) (rows : List Row)
      (r : Row)
      → text_eq x.token_hash k ≡ true
      → find row_hash k rows ≡ some r
      → find row_hash k (update row_hash x.token_hash f rows) ≡ some (f r)
  marked f keeps x rows r e h = find-update row_hash x.token_hash f keeps k rows ∙ rw (e, h) refl

  revoke_own :
      (max_attempts : ℕ) (w : Weather) (x : Row) (rows : List Row)
      → text_eq x.token_hash k ≡ true
      → is_dropped w ≡ true
      → IsThere rows
      → HasPassed IsRevoked (revoke max_attempts w x rows)
  unfolding revoke mark_revoked
  revoke_own max_attempts w x rows e good (r, h) =
      let mark = mark_revoked w.clock (x.attempts + 1) in
      rw (revoke, good) (true, refl, (mark r, marked mark (λ y. refl) x rows r e h, refl))

  revoke_goes_on :
      (max_attempts : ℕ) (w : Weather) (x : Row) (rows : List Row)
      → w.recover_up ≡ true
      → (d : Bool) × ((revoke max_attempts w x rows).0 ≡ some d)
  unfolding revoke
  revoke_goes_on max_attempts w x rows up = elim (Bool-cases (is_dropped w)) [
    | inl q ↦ (true, rw q refl)
    | inr q ↦ (false, rw (q, up) refl)
  ]

  revoke_foreign :
      (P : Option Row → Type 0) (max_attempts : ℕ) (w : Weather) (x : Row) (rows : List Row)
      → text_eq x.token_hash k ≡ false
      → w.recover_up ≡ true
      → P (find row_hash k rows)
      → HasPassed (λ rows'. P (find row_hash k rows')) (revoke max_attempts w x rows)
  revoke_foreign P max_attempts w x rows e up h =
      let (d, q) = revoke_goes_on max_attempts w x rows up in
      (d, q, subst P (sym (revoke_other k max_attempts w x rows e)) h)

  module _ (max_attempts : ℕ) (weather : Row → Weather)
      (up : (x : Row) → (weather x).recover_up ≡ true)
      (good : (x : Row) → row_hash x ≡ k → is_dropped (weather x) ≡ true) where
    go_on-after :
        (P Q : List Row → Type 0) (next : ℕ → List Row → Option ℕ × List Row)
        → ((n : ℕ) (rows : List Row) → P rows → Q (next n rows).1)
        → (n : ℕ) (y : Option Bool × List Row) → HasPassed P y
        → Q (go_on next n y).1
    go_on-after P Q next step n (none, rows) (d, q, h) = cc
    go_on-after P Q next step n (some d', rows) (d, q, h) = step (if d' then suc n else n) rows h

    own_is_dropped : (x : Row) → text_eq x.token_hash k ≡ true → is_dropped (weather x) ≡ true
    own_is_dropped x e = good x ((text_eq_iff x.token_hash k).0 e)

    revoke_rows-IsRevoked :
        (xs : List Row) (n : ℕ) (rows : List Row)
        → IsRevoked rows
        → IsRevoked (revoke_rows max_attempts weather xs n rows).1
    unfolding revoke_rows
    revoke_rows-IsRevoked [] n rows h = h
    revoke_rows-IsRevoked (x ∷ xs) n rows (r, h, s) =
        go_on-after IsRevoked IsRevoked (revoke_rows max_attempts weather xs)
          (revoke_rows-IsRevoked xs) n (revoke max_attempts (weather x) x rows)
          (elim (Bool-cases (text_eq x.token_hash k)) [
            | inl e ↦ revoke_own max_attempts (weather x) x rows e (own_is_dropped x e) (r, h)
            | inr e ↦
                revoke_foreign (λ o. (r' : Row) × (o ≡ some r') × (r'.status ≡ revoked))
                  max_attempts (weather x) x rows e (up x) (r, h, s)
          ])

    selected-IsRevoked :
        (xs : List Row) (n : ℕ) (rows : List Row)
        → any_of has_hash xs ≡ true
        → IsThere rows
        → IsRevoked (revoke_rows max_attempts weather xs n rows).1
    unfolding revoke_rows
    selected-IsRevoked [] n rows m h = absurd (false≢true m)
    selected-IsRevoked (x ∷ xs) n rows m (r, h) = elim (Bool-cases (text_eq x.token_hash k)) [
      | inl e ↦
          go_on-after IsRevoked IsRevoked (revoke_rows max_attempts weather xs)
            (revoke_rows-IsRevoked xs) n (revoke max_attempts (weather x) x rows)
            (revoke_own max_attempts (weather x) x rows e (own_is_dropped x e) (r, h))
      | inr e ↦
          go_on-after IsThere IsRevoked (revoke_rows max_attempts weather xs)
            (λ n' rows'. selected-IsRevoked xs n' rows' (any_of_later x xs e m)) n
            (revoke max_attempts (weather x) x rows)
            (revoke_foreign (λ o. (r' : Row) × (o ≡ some r')) max_attempts (weather x) x rows e
              (up x) (r, h))
    ]

    due_rows-IsRevoked :
        (now : ℕ) (rows : List Row) (r : Row)
        → find row_hash k rows ≡ some r
        → is_due now r ≡ true
        → length (keep (is_due now) rows) ≤ 100
        → IsRevoked (revoke_rows max_attempts weather (due_rows now rows) 0 rows).1
    unfolding due_rows
    due_rows-IsRevoked now rows r h due few =
        let due_ones = keep (is_due now) rows in
        let sorted = sort_by expires_before due_ones in
        let all_taken = take_all 100 sorted (rw (length-sort expires_before due_ones) few) in
        let selected : any_of has_hash (take 100 sorted) ≡ true =
          ap (any_of has_hash) all_taken
          ∙ any_of-sort expires_before has_hash due_ones
          ∙ due_is_kept now rows r h due in
        selected-IsRevoked (due_rows now rows) 0 rows selected (r, h)

    -- A queued token that is due, among at most 100 due ones, is REVOKED after the round, if the
    -- database and the admin session are there, its decryption, its DELETE (204 or 404) and the
    -- mark of its row succeed, and the handler of failures can write.
    pub due-IsRevoked :
        (scene : Scene) (now : ℕ) (q : Queues) (r : Row)
        → find row_hash k q.rows ≡ some r
        → is_due now r ≡ true
        → length (keep (is_due now) q.rows) ≤ 100
        → IsRevoked
            (process_guacamole_token_revocations max_attempts weather scene true true true now
              q).1.rows
    unfolding process_guacamole_token_revocations
    due-IsRevoked scene now q r h due few =
        let seen = reconcile_guacamole_observations scene q in
        let (b, e, stays) = reconcile-HasKept scene q k r h in
        due_rows-IsRevoked now seen.rows b e (Stays-is_due now r b stays ∙ due)
          (rw (reconcile-length scene q now) few)
