-- ===== src/Outbox/Deliver/Laws.antt =====
-- What one delivery run does to the outbox.
use lab_gateway.Prelude.{
  ℕ, ◌+◌, ◌≡◌, refl, sym, ◌∙◌, ◌≢◌, Text, codes, Option, none, some, Bool, true, false, List, [],
  ◌∷◌, ◌&&◌, map, All, All-imp, count_if, arith, if◌then◌else◌, Bool-cases, nonempty, Option-cases,
  inl, inr,
}
use lab_gateway.Prelude.Table.{
  find, find-update, Distinct, Distinct-update, count_if-update, update, nat_eq, as_nat,
}
use lab_gateway.Outbox.{Row, Table, row_id, Status, sending, sent, is_sent}
use lab_gateway.Outbox.Claim.{claim_rows, due_rows, lock, lock_rows, take_back}
use lab_gateway.Outbox.Claim.Laws.{InState, NoRepeat, claim_rows_sound}
use lab_gateway.Outbox.Deliver.{
  Config, Weather, mark_delivered, mark_failure, failure_status, refusal, attempt, deliver_rows,
  deliver_session_observation_outbox, as_count,
}

abbrev pub sent_rows : List Row → ℕ
sent_rows = count_if (λ r. is_sent r.status)

-- the state that a record ends in, delivered or not
abbrev pub settled : ℕ → Row → Bool → Status
settled max_attempts r true = sent
settled max_attempts r false = failure_status max_attempts (r.attempts + 1)

-- what a mark does: the row of the record settles, and nothing else changes
record Marked (max_attempts : ℕ) (d : Bool) (r : Row) (rows rows' : List Row) : Type 0 where
  others : (j : ℕ) → r.id ≢ j → find row_id j rows' ≡ find row_id j rows
  distinct : Distinct row_id rows'
  count : sent_rows rows' ≡ sent_rows rows + as_nat d
  settles : InState (settled max_attempts r d) r.id rows'

module _ (m : ℕ) (r : Row) (now : ℕ) (rows : List Row) (d : Distinct row_id rows) where
  module _ (f : Row → Row) (b : Bool) (keeps : (x : Row) → (f x).id ≡ x.id) where
    update-Marked :
        ((x : Row) → x.status ≡ sending → (f x).status ≡ settled m r b)
        → is_sent (settled m r b) ≡ b
        → InState sending r.id rows
        → Marked m b r rows (update row_id r.id f rows)
    unfolding is_sent
    update-Marked goes same (x, e, s) = record {
      others = λ j ne. ground (arith, find-update row_id r.id f keeps j rows);
      distinct = Distinct-update row_id r.id f keeps rows d;
      count =
          ground (
            arith,
            goes x s,
            count_if-update row_id r.id f keeps (λ y. is_sent y.status) rows x d e,
          );
      settles = (f x, ground (arith, e, find-update row_id r.id f keeps r.id rows), goes x s);
    }

  mark_delivered-Marked :
      InState sending r.id rows → Marked m true r rows (mark_delivered r.id now rows)
  unfolding mark_delivered is_sent
  mark_delivered-Marked h = update-Marked _ true (λ x. ground arith) (λ x s. ground arith) refl h

  mark_failure-Marked :
      (error : Text)
      → InState sending r.id rows
      → Marked m false r rows (mark_failure m r error now rows)
  unfolding mark_failure is_sent
  mark_failure-Marked error h =
      update-Marked _ false (λ x. ground arith) (λ x s. ground arith) (ground arith) h

-- the error that is written when the record is not delivered
abbrev reported_error : Weather → Text
reported_error w =
    if w.authorized
    then (elim w.reply [
      | none ↦ codes "Audit delivery failed"
      | some reply ↦ if w.mark_up then refusal reply else codes "Audit delivery failed"
    ])
    else codes "Observer authorization failed"

attempt_marks :
    (m : ℕ) (w : Weather) (r : Row) (rows : List Row) (d : Bool)
    → (attempt m w r rows).0 ≡ some d
    → (attempt m w r rows).1 ≡ (
        if d
        then mark_delivered r.id w.clock rows
        else mark_failure m r (reported_error w) w.clock rows)
attempt_marks m w r rows d h = unfold attempt in ground arith

attempt-Marked :
    (m : ℕ) (w : Weather) (r : Row) (rows : List Row) (d : Bool)
    → Distinct row_id rows
    → InState sending r.id rows
    → (attempt m w r rows).0 ≡ some d
    → Marked m d r rows (attempt m w r rows).1
attempt-Marked m w r rows true distinct h e =
    rw (attempt_marks m w r rows true e) (mark_delivered-Marked m r w.clock rows distinct h)
attempt-Marked m w r rows false distinct h e =
    rw (attempt_marks m w r rows false e)
      (mark_failure-Marked m r w.clock rows distinct (reported_error w) h)

-- What a run of the loop leaves: `n` more rows are SENT (from a count that began at `acc`), and
-- each record that it went over is SENT, waits for a RETRY, or has FAILED at its last attempt.
pub record RunIsSound (m acc n : ℕ) (rs rows rows' : List Row) : Type 0 where
  pub counted : sent_rows rows' + acc ≡ sent_rows rows + n
  pub settles : All (λ (r : Row). (d : Bool) × InState (settled m r d) r.id rows') rs
  pub others : (j : ℕ) → All (λ (r : Row). r.id ≢ j) rs → find row_id j rows' ≡ find row_id j rows
  pub distinct : Distinct row_id rows'

moved :
    (s : Status) (j : ℕ) (rows rows' : List Row)
    → find row_id j rows' ≡ find row_id j rows
    → InState s j rows
    → InState s j rows'
moved s j rows rows' e (r, f, st) = (r, e ∙ f, st)

ne_sym : {a b : ℕ} → a ≢ b → b ≢ a
ne_sym h e = h (sym e)

module _ (m : ℕ) (weather : Row → Weather) where
  RunIsSound-cons :
      (r : Row) (rs : List Row) (acc n : ℕ) (d : Bool) (rows rows' rows'' : List Row)
      → All (λ x. r.id ≢ x.id) rs
      → Marked m d r rows rows'
      → RunIsSound m (as_count d acc) n rs rows' rows''
      → RunIsSound m acc n (r ∷ rs) rows rows''
  RunIsSound-cons r rs acc n d rows rows' rows'' fresh k ih = record {
    counted = ground (arith, k.count, ih.counted);
    settles = (
      (
        d,
        moved _ r.id rows' rows'' (ih.others r.id (All-imp _ _ rs (λ x h. ne_sym h) fresh))
            k.settles,
      ),
      ih.settles,
    );
    others = λ j h. ih.others j h.1 ∙ k.others j h.0;
    distinct = ih.distinct;
  }

  still :
      {r : Row} {b : Bool} {rows rows' : List Row} (rs : List Row)
      → All (λ x. r.id ≢ x.id) rs
      → All (λ (x : Row). InState sending x.id rows) rs
      → Marked m b r rows rows'
      → All (λ (x : Row). InState sending x.id rows') rs
  still [] fresh h k = tt
  still {rows = rows} {rows' = rows'} (x ∷ rs) (ne, fresh) (here, h) k =
      (moved sending x.id rows rows' (k.others x.id ne) here, still rs fresh h k)

  deliver_rows-RunIsSound :
      (rs : List Row) (acc n : ℕ) (rows : List Row)
      → Distinct row_id rows
      → All (λ (r : Row). InState sending r.id rows) rs
      → NoRepeat rs
      → (deliver_rows m weather rs acc rows).0 ≡ some n
      → RunIsSound m acc n rs rows (deliver_rows m weather rs acc rows).1
  unfolding deliver_rows
  deliver_rows-RunIsSound [] acc n rows d h u e = record {
    counted = ground arith;
    settles = tt;
    others = λ j _. refl;
    distinct = d;
  }
  deliver_rows-RunIsSound (r ∷ rs) acc n rows d (h, hs) (fresh, u) e =
      elim (Option-cases (attempt m (weather r) r rows).0) [
        | inl raised ↦ absurd (cc)
        | inr (b, done) ↦
            let rows' = (attempt m (weather r) r rows).1 in
            let k = attempt-Marked m (weather r) r rows b d h done in
            rw (done, deliver_rows)
              (RunIsSound-cons r rs acc n b rows rows' _ fresh k (
                deliver_rows-RunIsSound rs (as_count b acc) n rows' k.distinct (still rs fresh hs k)
                  u (rw (done, deliver_rows) at e)))
      ]

sent_rows-map :
    (f : Row → Row) (rows : List Row)
    → ((x : Row) → is_sent (f x).status ≡ is_sent x.status)
    → sent_rows (map f rows) ≡ sent_rows rows
sent_rows-map f [] same = refl
sent_rows-map f (x ∷ xs) same = ground (arith, same x, sent_rows-map f xs same)

sent_rows-update-lock :
    (now id : ℕ) (rows : List Row) → sent_rows (update row_id id (lock now) rows) ≡ sent_rows rows
unfolding update lock is_sent
sent_rows-update-lock now id rows = sent_rows-map _ rows (λ x. ground arith)

sent_rows-lock_rows :
    (now : ℕ) (rs rows : List Row) → sent_rows (lock_rows now rs rows).1 ≡ sent_rows rows
unfolding lock_rows
sent_rows-lock_rows now [] rows = refl
sent_rows-lock_rows now (r ∷ rs) rows =
    sent_rows-lock_rows now rs (update row_id r.id (lock now) rows)
    ∙ sent_rows-update-lock now r.id rows

-- a claim delivers nothing
sent_rows-claim_rows :
    (db_engine up : Bool) (limit now : ℕ) (t : Table)
    → sent_rows (claim_rows db_engine up limit now t).1.rows ≡ sent_rows t.rows
unfolding claim_rows take_back is_sent
sent_rows-claim_rows db_engine up limit now t = elim (Bool-cases (db_engine && up)) [
  | inl e ↦ rw e (
      sent_rows-lock_rows now (due_rows limit now (map (take_back now) t.rows))
        (map (take_back now) t.rows)
      ∙ sent_rows-map (take_back now) t.rows (λ x. ground arith))
  | inr e ↦ rw e
]

-- the run is switched on and configured
abbrev pub runs : Config → Bool → Bool
runs c db_engine =
    c.outbox_enabled
    && db_engine
    && nonempty c.access_audit_url
    && nonempty c.gateway_id
    && nonempty c.signing_secret

-- the records that the run claims
abbrev pub served : Config → Bool → Bool → ℕ → Table → List Row
served c db_engine up now t =
    if runs c db_engine then (claim_rows db_engine up c.batch_size now t).0 else []

module _ (c : Config) (db_engine up : Bool) (now : ℕ) (weather : Row → Weather) (t : Table) where
  abbrev run : Option ℕ × Table
  run = deliver_session_observation_outbox c db_engine up now weather t

  abbrev claim : List Row × Table
  claim = claim_rows db_engine up c.batch_size now t

  run_off : runs c db_engine ≡ false → run ≡ (some 0, t)
  run_off off = unfold deliver_session_observation_outbox in ground arith

  run_on :
      runs c db_engine ≡ true
      → run ≡ (
          let (n, rows) = deliver_rows c.max_attempts weather claim.0 0 claim.1.rows in
          (n, record { rows = rows; next_id = claim.1.next_id }))
  run_on on = unfold deliver_session_observation_outbox in ground arith

-- Over a table with distinct ids, a run that returns `n` has made exactly `n` more rows SENT, and
-- each row that it claimed is SENT, or waits for a RETRY with attempts left, or has FAILED because
-- its attempts reached the maximum: none stays SENDING.
pub deliver_accounts :
    (c : Config) (db_engine up : Bool) (now n : ℕ) (weather : Row → Weather) (t : Table)
    → Distinct row_id t.rows
    → (deliver_session_observation_outbox c db_engine up now weather t).0 ≡ some n
    → let rows = (deliver_session_observation_outbox c db_engine up now weather t).1.rows in
      (sent_rows rows ≡ sent_rows t.rows + n)
      × All
          (λ (r : Row). (d : Bool) × InState (settled c.max_attempts r d) r.id rows)
          (served c db_engine up now t)
deliver_accounts c db_engine up now n weather t d e = elim (Bool-cases (runs c db_engine)) [
  | inl on ↦
      let k = claim_rows_sound db_engine up c.batch_size now t d in
      let shape = run_on c db_engine up now weather t on in
      let s =
        deliver_rows-RunIsSound c.max_attempts weather
          (claim_rows db_engine up c.batch_size now t).0 0 n
          (claim_rows db_engine up c.batch_size now t).1.rows k.distinct k.locked k.unrepeated
          (rw shape at e) in
      rw (shape, on)
        (omega (arith, s.counted, sent_rows-claim_rows db_engine up c.batch_size now t), s.settles)
  | inr off ↦
      let shape = run_off c db_engine up now weather t off in
      rw (shape, off) (ground (arith, shape), tt)
]
