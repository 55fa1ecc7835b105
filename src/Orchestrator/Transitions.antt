-- ===== src/Orchestrator/Transitions.antt =====
-- Which changes of a reservation's status a scan can make.
use lab_gateway.Prelude.{
  ℕ, Text, codes, text_eq, ◌≡◌, ◌⊎◌, inl, inr, refl, sym, ap, ◌∙◌, subst, Option, none, some, Bool,
  true, false, not, ◌&&◌, ◌||◌, List, [], ◌∷◌, if◌then◌else◌, arith, Bool-cases, Option-cases,
}
use lab_gateway.Prelude.Table.{update, text_key}
use lab_gateway.Hosts.{Registry, get_by_lab}
use lab_gateway.Operations.{Settings, Log}
use lab_gateway.Reservations.{Payload, Reply}
use lab_gateway.Orchestrator.{
  settle, dispatch, dispatch_start, dispatch_end, dispatch_all, scan_once, dispatch_payload,
  is_success, mapped_name,
}
use lab_gateway.Orchestrator.Rows.{
  Status, active, completed, Reservation, reservation_key, Tables, Options, Scene, same_status,
  is_allowed, set_status, update_status, start_candidates, end_candidates, start_action, end_action,
}
use lab_gateway.Reservations.{handle_reservation_start, handle_reservation_end}
use lab_gateway.Orchestrator.Moves.{same_status_eq, allowed_trans}

-- the row is the same, or only its status, along an allowed transition, and updated_at changed
abbrev pub MovesTo : Reservation → Reservation → Type 0
MovesTo a b =
    (b ≡ a)
    ⊎ ((b ≡ record a { status = b.status; updated_at = b.updated_at })
        × (is_allowed a.status b.status ≡ true))

abbrev pub Advances : List Reservation → List Reservation → Type 0
Advances [] [] = Unit
Advances (a ∷ xs) (b ∷ ys) = MovesTo a b × Advances xs ys
Advances [] (_ ∷ _) = false ≡ true
Advances (_ ∷ _) [] = false ≡ true

abbrev with_status : Status → ℕ → Reservation → Reservation
with_status new time x = record x { status = new; updated_at = time }

MovesTo-trans : (a b c : Reservation) → MovesTo a b → MovesTo b c → MovesTo a c
MovesTo-trans a b c (inl p) k = subst (λ x. MovesTo x c) p k
MovesTo-trans a b c (inr (p, h)) (inl q) = subst (MovesTo a) (sym q) (inr (p, h))
MovesTo-trans a b c (inr (p, h)) (inr (q, k)) =
    inr (q ∙ ap (with_status c.status c.updated_at) p, allowed_trans a.status b.status c.status h k)

Advances-refl : (xs : List Reservation) → Advances xs xs
Advances-refl [] = tt
Advances-refl (x ∷ xs) = (inl refl, Advances-refl xs)

Advances-trans : (xs ys zs : List Reservation) → Advances xs ys → Advances ys zs → Advances xs zs
Advances-trans [] [] [] h k = tt
Advances-trans [] [] (_ ∷ _) h k = k
Advances-trans [] (_ ∷ _) zs h k = cc
Advances-trans (_ ∷ _) [] zs h k = cc
Advances-trans (_ ∷ _) (_ ∷ _) [] h k = k
Advances-trans (x ∷ xs) (y ∷ ys) (z ∷ zs) (h, hs) (k, ks) =
    (MovesTo-trans x y z h k, Advances-trans xs ys zs hs ks)

set_status-moves :
    (time : ℕ) (current new : Status) (r : Reservation)
    → is_allowed current new ≡ true
    → MovesTo r (set_status time current new r)
set_status-moves time current new r h = elim (Bool-cases (same_status r.status current)) [
  | inl e ↦ rw e (inr (refl, rw (same_status_eq r.status current e) h))
  | inr e ↦ rw e (inl refl)
]

update-Advances :
    (time : ℕ) (id : Text) (current new : Status) (rows : List Reservation)
    → is_allowed current new ≡ true
    → Advances rows (update reservation_key id (set_status time current new) rows)
unfolding update
update-Advances time id current new [] h = tt
update-Advances time id current new (r ∷ rs) h = (
  elim (Bool-cases (text_eq r.transaction_hash id)) [
    | inl e ↦ rw e (set_status-moves time current new r h)
    | inr e ↦ rw e (inl refl)
  ],
  update-Advances time id current new rs h,
)

update_status-Advances :
    (up : Bool) (time : ℕ) (id : Text) (current new : Status) (rows : List Reservation)
    → Advances rows (update_status up time id current new rows)
unfolding update_status
update_status-Advances up time id current new rows =
    elim (Bool-cases (is_allowed current new && up)) [
      | inl e ↦ rw e (update-Advances time id current new rows (both (is_allowed current new) up e))
      | inr e ↦ rw e (Advances-refl rows)
    ]
  where
    both : (a b : Bool) → (a && b) ≡ true → a ≡ true
    both a b h = ground arith

either :
    (g : Bool) (rows : List Reservation) (x y : Bool × Tables)
    → Advances rows x.1.reservations
    → Advances rows y.1.reservations
    → Advances rows (if g then x else y).1.reservations
either true rows x y h k = h
either false rows x y h k = k

both_loops :
    (x y : Bool × Tables) (rows : List Reservation)
    → Advances rows x.1.reservations
    → Advances x.1.reservations y.1.reservations
    → Advances rows (if x.0 then y else (false, x.1)).1.reservations
both_loops (true, u) y rows h k = Advances-trans rows u.reservations y.1.reservations h k
both_loops (false, u) y rows h k = h

module _ (c : Settings) (is_alnum : ℕ → Bool) (registry : Registry) where
  settle-Advances :
      (action failure : Text) (new : Status) (s : Scene) (row : Reservation) (name : Text)
      (rows : List Reservation) (x : Option Reply × Log)
      → Advances rows
          (settle c is_alnum registry action failure new s row name rows x).1.reservations
  unfolding settle
  settle-Advances action failure new s row name rows (none, log) = Advances-refl rows
  settle-Advances action failure new s row name rows (some r, log) =
      elim (Bool-cases (is_success r)) [
        | inl e ↦ rw e (
            update_status-Advances s.update_up s.update_time row.transaction_hash row.status new
              rows)
        | inr e ↦ rw e (Advances-refl rows)
      ]

  dispatch-Advances :
      (handle : Payload → Log → Option Reply × Log) (action failure : Text) (new : Status)
      (s : Scene) (row : Reservation) (t : Tables)
      → Advances t.reservations
          (dispatch c is_alnum registry handle action failure new s row t).1.reservations
  unfolding dispatch
  dispatch-Advances handle action failure new s row t =
      elim (Option-cases (get_by_lab registry row.lab_id)) [
        | inl e ↦ rw (dispatch, e) (Advances-refl t.reservations)
        | inr (h, e) ↦
            rw (dispatch, e)
              (settle-Advances action failure new s row
                (mapped_name (get_by_lab registry row.lab_id)) t.reservations
                (handle
                  (dispatch_payload row.transaction_hash
                    (mapped_name (get_by_lab registry row.lab_id)) row.lab_id)
                  t.log))
      ]

  dispatch_all-Advances :
      (one : Reservation → Tables → Bool × Tables)
      → ((r : Reservation) (t : Tables) → Advances t.reservations (one r t).1.reservations)
      → (rs : List Reservation) (t : Tables)
      → Advances t.reservations (dispatch_all c is_alnum registry one rs t).1.reservations
  unfolding dispatch_all
  dispatch_all-Advances one step [] t = Advances-refl t.reservations
  dispatch_all-Advances one step (r ∷ rs) t = elim (Bool-cases (one r t).0) [
    | inl e ↦ rw e (
        Advances-trans t.reservations (one r t).1.reservations
          (dispatch_all c is_alnum registry one rs (one r t).1).1.reservations (step r t)
          (dispatch_all-Advances one step rs (one r t).1))
    | inr e ↦ rw e (step r t)
  ]

  dispatch_start-Advances :
      (s : Scene) (row : Reservation) (t : Tables)
      → Advances t.reservations (dispatch_start c is_alnum registry s row t).1.reservations
  unfolding dispatch_start
  dispatch_start-Advances s =
      dispatch-Advances (handle_reservation_start c is_alnum s.worlds registry) start_action
        (codes "Reservation start failed") active s

  dispatch_end-Advances :
      (s : Scene) (row : Reservation) (t : Tables)
      → Advances t.reservations (dispatch_end c is_alnum registry s row t).1.reservations
  unfolding dispatch_end
  dispatch_end-Advances s =
      dispatch-Advances (handle_reservation_end c is_alnum s.worlds registry) end_action
        (codes "Reservation end failed") completed s

  abbrev starting : (Reservation → Scene) → List Reservation → Tables → Bool × Tables
  starting scene =
      dispatch_all c is_alnum registry (λ r. dispatch_start c is_alnum registry (scene r) r)

  abbrev ending : (Reservation → Scene) → List Reservation → Tables → Bool × Tables
  ending scene =
      dispatch_all c is_alnum registry (λ r. dispatch_end c is_alnum registry (scene r) r)

  starting-Advances :
      (scene : Reservation → Scene) (rs : List Reservation) (t : Tables)
      → Advances t.reservations (starting scene rs t).1.reservations
  starting-Advances scene =
      dispatch_all-Advances (λ r. dispatch_start c is_alnum registry (scene r) r)
        (λ r. dispatch_start-Advances (scene r) r)

  ending-Advances :
      (scene : Reservation → Scene) (rs : List Reservation) (t : Tables)
      → Advances t.reservations (ending scene rs t).1.reservations
  ending-Advances scene =
      dispatch_all-Advances (λ r. dispatch_end c is_alnum registry (scene r) r)
        (λ r. dispatch_end-Advances (scene r) r)

  -- However the steps, the mails and the database turn out, a scan changes a reservation in nothing
  -- but its status and updated_at, and the status only along the allowed transitions: from CONFIRMED to ACTIVE,
  -- COMPLETED or CANCELLED and from ACTIVE to COMPLETED or CANCELLED.
  pub scan-Advances :
      (o : Options) (fetch_up : Bool) (now : ℕ) (start_scene end_scene : Reservation → Scene)
      (t : Tables)
      → Advances t.reservations
          (scan_once c is_alnum registry o fetch_up now start_scene end_scene t).1.reservations
  unfolding scan_once dispatch_start dispatch_end
  scan-Advances o fetch_up now start_scene end_scene t =
      let begun = starting start_scene (start_candidates o now t) t in
      let ended = ending end_scene (end_candidates o now t) begun.1 in
      either (not o.enabled || not o.engine || not fetch_up) t.reservations (true, t)
        (if begun.0 then ended else (false, begun.1)) (Advances-refl t.reservations)
        (both_loops begun ended t.reservations
          (starting-Advances start_scene (start_candidates o now t) t)
          (ending-Advances end_scene (end_candidates o now t) begun.1))
