-- ===== src/Outbox/Claim/Laws.antt =====
-- What a claim returns, and what it leaves in the table.
use lab_gateway.Prelude.{
  ℕ, ◌≤◌, ◌≡◌, refl, ◌≢◌, inl, inr, none, some, Bool, true, false, ◌&&◌, List, [], ◌∷◌, map, keep,
  length, All, All-keep_self, All-take, All-imp, length-take, arith, ◌==◌, if◌then◌else◌,
  Bool-cases, Option-cases,
}
use lab_gateway.Prelude.Sort.{sort_by, sort_by-All}
use lab_gateway.Prelude.Table.{
  find, find-update, Distinct, Distinct-map, Distinct-update, update, nat_eq,
}
use lab_gateway.Outbox.{Row, Table, row_id, Status, sending, is_open}
use lab_gateway.Outbox.Claim.{
  take_back, due_rows, is_due, lock, lockable, lock_rows, claim_rows, earlier,
}

-- the row with this id is there, in this state
abbrev pub InState : Status → ℕ → List Row → Type 0
InState s id rows = (r : Row) × (find row_id id rows ≡ some r) × (r.status ≡ s)

pub id-take_back : (now : ℕ) (r : Row) → (take_back now r).id ≡ r.id
unfolding take_back
id-take_back now r = ground arith

pub id-lock : (now : ℕ) (r : Row) → (lock now r).id ≡ r.id
unfolding lock
id-lock now r = ground arith

-- no two of the rows have one id
abbrev pub NoRepeat : List Row → Type 0
NoRepeat [] = Unit
NoRepeat (r ∷ rs) = All (λ x. r.id ≢ x.id) rs × NoRepeat rs

lock-sending : (now : ℕ) (r : Row) → r.status ≡ sending → lock now r ≡ r
unfolding lock
lock-sending now r h = ground arith

-- a locked row stays locked
update-lock-InState :
    (now j k : ℕ) (rows : List Row)
    → InState sending j rows
    → InState sending j (update row_id k (lock now) rows)
update-lock-InState now j k rows (r, e, s) = (
  r,
  rw (find-update row_id k (lock now) (id-lock now) j rows, e)
      (ground (arith, lock-sending now r s)),
  s,
)

lock_rows-InState :
    (now j : ℕ) (rs rows : List Row)
    → InState sending j rows
    → InState sending j (lock_rows now rs rows).1
unfolding lock_rows
lock_rows-InState now j [] rows h = h
lock_rows-InState now j (r ∷ rs) rows h =
    lock_rows-InState now j rs _ (update-lock-InState now j r.id rows h)

lockable_missing : (id : ℕ) (rows : List Row) → find row_id id rows ≡ none → lockable id rows ≡ 0
unfolding lockable find
lockable_missing id [] h = refl
lockable_missing id (x ∷ xs) h = ground (arith, lockable_missing id xs)

-- some row with the id could be locked
find-lockable :
    (id : ℕ) (rows : List Row)
    → Distinct row_id rows
    → lockable id rows ≡ 1
    → (r : Row) × (find row_id id rows ≡ some r) × (is_open r.status ≡ true)
unfolding lockable find
find-lockable id [] d h = absurd (omega arith)
find-lockable id (x ∷ xs) d h = elim (Bool-cases (x.id == id)) [
  | inl hit ↦ (x, rw hit refl, ground (arith, lockable_missing id xs))
  | inr miss ↦ let (r, e, o) = find-lockable id xs d.1 (ground arith) in (r, rw miss e, o)
]

lock_open : (now : ℕ) (r : Row) → is_open r.status ≡ true → (lock now r).status ≡ sending
unfolding lock
lock_open now r h = ground arith

-- a claimed row was open when it was locked
abbrev WasOpen : ℕ → List Row → Type 0
WasOpen id rows = (r : Row) × (find row_id id rows ≡ some r) × (is_open r.status ≡ true)

lock_shut : (now : ℕ) (r : Row) → is_open (lock now r).status ≡ false
unfolding lock
lock_shut now r = ground arith

-- locking opens no row
WasOpen-update :
    (now k id : ℕ) (rows : List Row)
    → WasOpen id (update row_id k (lock now) rows)
    → WasOpen id rows × (k ≢ id)
WasOpen-update now k id rows (r, e, o) =
    let law = find-update row_id k (lock now) (id-lock now) id rows in
    elim (Option-cases (find row_id id rows)) [
      | inl miss ↦ ground (arith, law)
      | inr (r', e') ↦
          ((r', e', ground (arith, law, lock_shut now r')), ground (arith, law, lock_shut now r'))
    ]

record Claimed (rows left claimed : List Row) : Type 0 where
  was_open : All (λ x. WasOpen x.id rows) claimed
  locked : All (λ x. InState sending x.id left) claimed
  unrepeated : NoRepeat claimed

-- one turn of the loop, over what the later turns have claimed and left
Claimed-cons :
    (now : ℕ) (r : Row) (rows left claimed : List Row)
    → Distinct row_id rows
    → (InState sending r.id (update row_id r.id (lock now) rows) → InState sending r.id left)
    → Claimed (update row_id r.id (lock now) rows) left claimed
    → Claimed rows left (if lockable r.id rows == 1 then r ∷ claimed else claimed)
Claimed-cons now r rows left claimed d stays ih = elim (Bool-cases (lockable r.id rows == 1)) [
  | inl e ↦ rw e (record {
    was_open = (find-lockable r.id rows d (ground arith), earlier_opens);
    locked = (stays (locked_now (ground arith)), ih.locked);
    unrepeated = (others, ih.unrepeated);
  })
  | inr e ↦
      rw e (record { was_open = earlier_opens; locked = ih.locked; unrepeated = ih.unrepeated })
]
  where
    opens : All (λ (x : Row). WasOpen x.id rows × (r.id ≢ x.id)) claimed
    opens = All-imp _ _ claimed (λ x. WasOpen-update now r.id x.id rows) ih.was_open

    earlier_opens : All (λ (x : Row). WasOpen x.id rows) claimed
    earlier_opens = All-imp _ _ claimed (λ x h. h.0) opens

    others : All (λ (x : Row). r.id ≢ x.id) claimed
    others = All-imp _ _ claimed (λ x h. h.1) opens

    locked_now : lockable r.id rows ≡ 1 → InState sending r.id (update row_id r.id (lock now) rows)
    locked_now one =
        let (x, e, o) = find-lockable r.id rows d one in
        (
          lock now x,
          ground (arith, e, find-update row_id r.id (lock now) (id-lock now) r.id rows),
          lock_open now x o,
        )

lock_rows-Claimed :
    (now : ℕ) (rs rows : List Row)
    → Distinct row_id rows
    → Claimed rows (lock_rows now rs rows).1 (lock_rows now rs rows).0
unfolding lock_rows
lock_rows-Claimed now [] rows d = record { was_open = tt; locked = tt; unrepeated = tt }
lock_rows-Claimed now (r ∷ rs) rows d =
    let rows' = update row_id r.id (lock now) rows in
    Claimed-cons now r rows (lock_rows now rs rows').1 (lock_rows now rs rows').0 d
      (lock_rows-InState now r.id rs rows')
      (lock_rows-Claimed now rs rows' (Distinct-update row_id r.id (lock now) (id-lock now) rows d))

lock_rows-Distinct :
    (now : ℕ) (rs rows : List Row)
    → Distinct row_id rows
    → Distinct row_id (lock_rows now rs rows).1
unfolding lock_rows
lock_rows-Distinct now [] rows d = d
lock_rows-Distinct now (r ∷ rs) rows d =
    lock_rows-Distinct now rs _ (Distinct-update row_id r.id (lock now) (id-lock now) rows d)

-- a claimed row is one of the selected rows
lock_rows-All :
    (P : Row → Type 0) (now : ℕ) (rs rows : List Row) → All P rs → All P (lock_rows now rs rows).0
unfolding lock_rows
lock_rows-All P now [] rows h = h
lock_rows-All P now (r ∷ rs) rows (p, h) =
    let rest = lock_rows-All P now rs (update row_id r.id (lock now) rows) h in
    elim (Bool-cases (lockable r.id rows == 1)) [ inl e ↦ rw e (p, rest) | inr e ↦ rw e rest ]

length-lock_rows : (now : ℕ) (rs rows : List Row) → length (lock_rows now rs rows).0 ≤ length rs
unfolding lock_rows
length-lock_rows now [] rows = omega arith
length-lock_rows now (r ∷ rs) rows =
    let rest = length-lock_rows now rs (update row_id r.id (lock now) rows) in ground (arith, rest)

due_rows-All :
    (limit now : ℕ) (rows : List Row) → All (λ r. is_due now r ≡ true) (due_rows limit now rows)
unfolding due_rows
due_rows-All limit now rows =
    All-take _ limit _ (sort_by-All earlier _ _ (All-keep_self (is_due now) rows))

length-due_rows : (limit now : ℕ) (rows : List Row) → length (due_rows limit now rows) ≤ limit
unfolding due_rows
length-due_rows limit now rows =
    omega (arith, length-take limit (sort_by earlier (keep (is_due now) rows)))

-- What is claimed: at most a batch, each row due, each SENDING in the table afterwards, no row twice.
pub record ClaimIsSound (limit now : ℕ) (claimed rows : List Row) : Type 0 where
  pub few : length claimed ≤ limit
  pub due : All (λ r. is_due now r ≡ true) claimed
  pub locked : All (λ (r : Row). InState sending r.id rows) claimed
  pub unrepeated : NoRepeat claimed
  pub distinct : Distinct row_id rows

-- A claim over a table with distinct ids returns at most `limit` rows, each due for delivery and
-- each left SENDING in the table, none of them twice; ids stay distinct.
pub claim_rows_sound :
    (db_engine up : Bool) (limit now : ℕ) (t : Table)
    → Distinct row_id t.rows
    → let (claimed, t') = claim_rows db_engine up limit now t in
      ClaimIsSound limit now claimed t'.rows
unfolding claim_rows
claim_rows_sound db_engine up limit now t d = elim (Bool-cases (db_engine && up)) [
  | inl e ↦ rw e (record {
    few = omega (arith, length-lock_rows now rs rows, length-due_rows limit now rows);
    due = lock_rows-All _ now rs rows (due_rows-All limit now rows);
    locked = (lock_rows-Claimed now rs rows d').locked;
    unrepeated = (lock_rows-Claimed now rs rows d').unrepeated;
    distinct = lock_rows-Distinct now rs rows d';
  })
  | inr e ↦
      rw e (record { few = omega arith; due = tt; locked = tt; unrepeated = tt; distinct = d })
]
  where
    rows : List Row
    rows = map (take_back now) t.rows

    rs : List Row
    rs = due_rows limit now rows

    d' : Distinct row_id rows
    d' = Distinct-map row_id (take_back now) (id-take_back now) t.rows d
