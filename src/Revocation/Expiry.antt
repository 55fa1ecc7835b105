-- ===== src/Revocation/Expiry.antt =====
-- No token is revoked before it expires, or again before its next attempt.
use lab_gateway.Prelude.{
  ℕ, suc, Text, text_eq, text_eq_iff, ◌≡◌, subst, ◌+◌, ◌∙◌, ap, refl, Option, none, some, Bool,
  true, false, not, ◌||◌, List, [], ◌∷◌, All, All-take, keep, if◌then◌else◌, arith, Bool-cases, inl,
  inr,
}
use lab_gateway.Prelude.Sort.{sort_by, sort_by-All}
use lab_gateway.Prelude.Table.{find, find-update, Distinct, update, text_key}
use lab_gateway.Revocation.{
  Row, row_hash, Weather, is_due, due_rows, mark_revoked, mark_failed, revoke, go_on, revoke_rows,
  expires_before,
}
use lab_gateway.Revocation.Observe.{Scene, Queues, reconcile_guacamole_observations}
use lab_gateway.Revocation.Round.{revoke_due, process_guacamole_token_revocations}
use lab_gateway.Revocation.Observed.{HasKept, Stays-is_due, reconcile-HasKept, reconcile-Distinct}

module _ (k : Text) where
  abbrev pub Avoids : Row → Type 0
  Avoids x = text_eq x.token_hash k ≡ false

  missing-Avoids : (xs : List Row) → find row_hash k xs ≡ none → All Avoids xs
  unfolding find
  missing-Avoids [] h = tt
  missing-Avoids (x ∷ xs) h = elim (Bool-cases (text_eq x.token_hash k)) [
    | inl e ↦ ground arith
    | inr e ↦ (e, missing-Avoids xs (ground arith))
  ]

  keep-Avoids : (p : Row → Bool) (xs : List Row) → All Avoids xs → All Avoids (keep p xs)
  keep-Avoids p [] h = tt
  keep-Avoids p (x ∷ xs) (a, h) = elim (Bool-cases (p x)) [
    | inl e ↦ rw e (a, keep-Avoids p xs h)
    | inr e ↦ rw e (keep-Avoids p xs h)
  ]

  pub found_first :
      (x : Row) (xs : List Row) (r : Row)
      → text_eq x.token_hash k ≡ true
      → find row_hash k (x ∷ xs) ≡ some r
      → x ≡ r
  unfolding find
  found_first x xs r e h = ground arith

  pub found_later :
      (x : Row) (xs : List Row) (r : Row)
      → text_eq x.token_hash k ≡ false
      → find row_hash k (x ∷ xs) ≡ some r
      → find row_hash k xs ≡ some r
  unfolding find
  found_later x xs r e h = ground arith

  kept :
      (p : Row → Bool) (x : Row) (xs : List Row)
      → Avoids x
      → All Avoids (keep p xs)
      → All Avoids (keep p (x ∷ xs))
  kept p x xs a h = elim (Bool-cases (p x)) [ inl e ↦ rw e (a, h) | inr e ↦ rw e h ]

  due-Avoids :
      (now : ℕ) (xs : List Row) (r : Row)
      → Distinct row_hash xs
      → find row_hash k xs ≡ some r
      → is_due now r ≡ false
      → All Avoids (keep (is_due now) xs)
  unfolding find
  due-Avoids now [] r d h late = tt
  due-Avoids now (x ∷ xs) r (fresh, d) h late = elim (Bool-cases (text_eq x.token_hash k)) [
    | inl e ↦ rw (ap (is_due now) (found_first x xs r e h) ∙ late) (
        keep-Avoids (is_due now) xs (
          missing-Avoids xs
            (subst (λ j. find row_hash j xs ≡ none) ((text_eq_iff x.token_hash k).0 e) fresh)))
    | inr e ↦ kept (is_due now) x xs e (due-Avoids now xs r d (found_later x xs r e h) late)
  ]

  pub update_other :
      (x : Row) (f : Row → Row) (keeps : (y : Row) → row_hash (f y) ≡ row_hash y) (rows : List Row)
      → Avoids x
      → find row_hash k (update row_hash x.token_hash f rows) ≡ find row_hash k rows
  update_other x f keeps rows a = find-update row_hash x.token_hash f keeps k rows ∙ rw a refl

  pub revoke_other :
      (max_attempts : ℕ) (w : Weather) (x : Row) (rows : List Row)
      → Avoids x
      → find row_hash k (revoke max_attempts w x rows).1 ≡ find row_hash k rows
  unfolding revoke mark_revoked mark_failed
  revoke_other max_attempts w x rows a = ground (
    arith,
    update_other x (mark_revoked w.clock (x.attempts + 1)) (λ y. refl) rows a,
    update_other x (mark_failed max_attempts w.clock (x.attempts + 1)) (λ y. refl) rows a,
  )

  after_one :
      (next : ℕ → List Row → Option ℕ × List Row)
      → ((n : ℕ) (rows : List Row) → find row_hash k (next n rows).1 ≡ find row_hash k rows)
      → (n : ℕ) (rows : List Row) (y : Option Bool × List Row)
      → find row_hash k y.1 ≡ find row_hash k rows
      → find row_hash k (go_on next n y).1 ≡ find row_hash k rows
  after_one next same n rows (none, rows') e = e
  after_one next same n rows (some d, rows') e = same (if d then suc n else n) rows' ∙ e

  revoke_rows_other :
      (max_attempts : ℕ) (weather : Row → Weather) (xs : List Row)
      → All Avoids xs
      → (n : ℕ) (rows : List Row)
      → find row_hash k (revoke_rows max_attempts weather xs n rows).1 ≡ find row_hash k rows
  unfolding revoke_rows
  revoke_rows_other max_attempts weather [] h n rows = refl
  revoke_rows_other max_attempts weather (x ∷ xs) (a, h) n rows =
      after_one (revoke_rows max_attempts weather xs) (revoke_rows_other max_attempts weather xs h)
        n rows (revoke max_attempts (weather x) x rows)
        (revoke_other max_attempts (weather x) x rows a)

  revoke_due_other :
      (max_attempts : ℕ) (weather : Row → Weather) (fetch_up : Bool) (now : ℕ) (q : Queues)
      (r : Row)
      → Distinct row_hash q.rows
      → find row_hash k q.rows ≡ some r
      → is_due now r ≡ false
      → find row_hash k (revoke_due max_attempts weather fetch_up now q).1.rows ≡ some r
  unfolding due_rows
  revoke_due_other max_attempts weather false now q r d h late = h
  revoke_due_other max_attempts weather true now q r d h late =
      let selected = All-take Avoids 100 (sort_by expires_before (keep (is_due now) q.rows)) (
        sort_by-All expires_before Avoids (keep (is_due now) q.rows)
          (due-Avoids now q.rows r d h late)) in
      revoke_rows_other max_attempts weather (due_rows now q.rows) selected 0 q.rows ∙ h

  pick-HasKept :
      (r : Row) (b : Bool) (x y : Option ℕ × Queues)
      → HasKept k r x.1.rows
      → HasKept k r y.1.rows
      → HasKept k r (if b then x else y).1.rows
  pick-HasKept r true x y h j = h
  pick-HasKept r false x y h j = j

  -- A row of the queue that is not due, because its token has not expired, because its next attempt
  -- lies ahead, or because it is REVOKED or FAILED, stays as it is, whatever the round meets, but
  -- that the reconciliation may set its observed_at, where that was NULL, and updated_at with it.
  pub undue_untouched :
      (max_attempts : ℕ) (weather : Row → Weather) (scene : Scene)
      (db_engine admin_session fetch_up : Bool) (now : ℕ) (q : Queues) (r : Row)
      → Distinct row_hash q.rows
      → find row_hash k q.rows ≡ some r
      → is_due now r ≡ false
      → HasKept k r
          (process_guacamole_token_revocations max_attempts weather scene db_engine admin_session
            fetch_up now q).1.rows
  unfolding process_guacamole_token_revocations
  undue_untouched max_attempts weather scene db_engine admin_session fetch_up now q r d h late =
      let seen = reconcile_guacamole_observations scene q in
      let (b, e, stays) = reconcile-HasKept scene q k r h in
      let still_late = Stays-is_due now r b stays ∙ late in
      pick-HasKept r (not db_engine || not admin_session) (some 0, q)
        (revoke_due max_attempts weather fetch_up now seen) (r, h, inl refl)
        (
          b,
          revoke_due_other max_attempts weather fetch_up now seen b (reconcile-Distinct scene q d) e
              still_late,
          stays,
        )
