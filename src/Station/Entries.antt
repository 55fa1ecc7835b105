-- ===== src/Station/Entries.antt =====
-- Entries of a dict after they are set, and those of the gateway's context.
use lab_gateway.Prelude.{
  Text, codes, text_eq, text_eq_refl, text_eq_iff, ◌≡◌, refl, ap, ◌∙◌, Option, none, some, false,
  [], ◌∷◌, if◌then◌else◌, All, Bool-cases, inl, inr,
}
use lab_gateway.Prelude.Value.{text}
use lab_gateway.Station.{Authorised}
use lab_gateway.Station.Message.{
  Held, sent, claims_of, Item, plain, object, Dict, get, set_item, pop, update_with, with_text,
  context_entries, merge_context,
}

module _ {A : Type 0} where
  pub get-set_item : (k : Text) (a : A) (d : Dict A) → get k (set_item k a d) ≡ some a
  unfolding get set_item
  get-set_item k a [] = rw (text_eq_refl k) refl
  get-set_item k a (e ∷ d) = elim (Bool-cases (text_eq e.0 k)) [
    | inl q ↦ rw (q, q) refl
    | inr q ↦ rw (q, q) (get-set_item k a d)
  ]

  pub get-set_other :
      (k k' : Text) (a : A) (d : Dict A) → text_eq k' k ≡ false → get k (set_item k' a d) ≡ get k d
  unfolding get set_item
  get-set_other k k' a [] h = rw h refl
  get-set_other k k' a (e ∷ d) h = elim (Bool-cases (text_eq e.0 k')) [
    | inl q ↦
        (let other : text_eq e.0 k ≡ false = ap (λ t. text_eq t k) ((text_eq_iff e.0 k').0 q) ∙ h in
          rw (q, other) refl)
    | inr q ↦ rw q (ap (λ r. if text_eq e.0 k then some e.1 else r) (get-set_other k k' a d h))
  ]

  pub get-pop_other : (k k' : Text) (d : Dict A) → text_eq k' k ≡ false → get k (pop k' d) ≡ get k d
  unfolding get pop
  get-pop_other k k' [] h = refl
  get-pop_other k k' (e ∷ d) h = elim (Bool-cases (text_eq e.0 k')) [
    | inl q ↦
        (let other : text_eq e.0 k ≡ false = ap (λ t. text_eq t k) ((text_eq_iff e.0 k').0 q) ∙ h in
          rw (q, other) (get-pop_other k k' d h))
    | inr q ↦ rw q (ap (λ r. if text_eq e.0 k then some e.1 else r) (get-pop_other k k' d h))
  ]

  pub pop-set_item : (k : Text) (a : A) (d : Dict A) → pop k (set_item k a d) ≡ pop k d
  unfolding pop set_item
  pop-set_item k a [] = rw (text_eq_refl k) refl
  pop-set_item k a (e ∷ d) = elim (Bool-cases (text_eq e.0 k)) [
    | inl q ↦ rw (q, q) refl
    | inr q ↦ rw (q, q) (ap (λ r. e ∷ r) (pop-set_item k a d))
  ]

  -- no entry of the list has the key
  abbrev IsOther : Text → Dict A → Type 0
  IsOther k changes = All (λ e. text_eq e.0 k ≡ false) changes

  get-update_others :
      (k : Text) (d changes : Dict A) → IsOther k changes → get k (update_with d changes) ≡ get k d
  unfolding update_with
  get-update_others k d [] h = refl
  get-update_others k d (e ∷ changes) (q, h) =
      get-update_others k (set_item e.0 e.1 d) changes h ∙ get-set_other k e.0 e.1 d q

  -- an entry that no later one replaces
  get-update_one :
      (k : Text) (a : A) (d changes : Dict A)
      → IsOther k changes
      → get k (update_with d ((k, a) ∷ changes)) ≡ some a
  unfolding update_with
  get-update_one k a d changes h =
      get-update_others k (set_item k a d) changes h ∙ get-set_item k a d

with_text-IsOther :
    (k key : Text) (o : Option Text) (rest : Dict Held)
    → text_eq key k ≡ false
    → IsOther k rest
    → IsOther k (with_text key o rest)
with_text-IsOther k key none rest q h = h
with_text-IsOther k key (some s) rest q h = (q, h)

abbrev optional_entries : Authorised → Dict Held
optional_entries a =
    with_text (codes "labId") a.lab_id (with_text (codes "reservationKey") a.reservation_key [])

optional_entries-IsOther :
    (k : Text) (a : Authorised)
    → text_eq (codes "labId") k ≡ false
    → text_eq (codes "reservationKey") k ≡ false
    → IsOther k (optional_entries a)
optional_entries-IsOther k a q r =
    with_text-IsOther k (codes "labId") a.lab_id _ q
      (with_text-IsOther k (codes "reservationKey") a.reservation_key [] r tt)

abbrev HasText : Text → Option Text → Dict Held → Type 0
HasText key none d = Unit
HasText key (some v) d = get key d ≡ some (sent (text v))

-- the context says what the gateway vouches for
abbrev pub Says : Dict Held → Authorised → Type 0
Says d a =
    (get (codes "claims") d ≡ some (claims_of a.claims))
    × (get (codes "accessKey") d ≡ some (sent (text a.access_key)))
    × HasText (codes "labId") a.lab_id d
    × HasText (codes "reservationKey") a.reservation_key d

update_with-HasText :
    (key : Text) (o : Option Text) (d rest : Dict Held)
    → IsOther key rest
    → HasText key o (update_with d (with_text key o rest))
update_with-HasText key none d rest h = tt
update_with-HasText key (some v) d rest h = get-update_one key (sent (text v)) d rest h

update_with-HasLast :
    (key : Text) (o : Option Text) (d : Dict Held) (first : Text) (o' : Option Text)
    → HasText key o (update_with d (with_text first o' (with_text key o [])))
unfolding update_with
update_with-HasLast key o d first none = update_with-HasText key o d [] tt
update_with-HasLast key o d first (some v) =
    update_with-HasText key o (set_item first (sent (text v)) d) [] tt

get-HasText :
    (key : Text) (o : Option Text) (rest : Dict Held) → HasText key o (with_text key o rest)
unfolding get
get-HasText key none rest = tt
get-HasText key (some v) rest = rw (text_eq_refl key) refl

get-HasLast :
    (key : Text) (o : Option Text) (first : Text) (o' : Option Text)
    → text_eq first key ≡ false
    → HasText key o (with_text first o' (with_text key o []))
unfolding get
get-HasLast key o first none h = get-HasText key o []
get-HasLast key none first (some v) h = tt
get-HasLast key (some w) first (some v) h = rw (h, text_eq_refl key) refl

HasText-later :
    (key : Text) (o : Option Text) (e : Text × Held) (d : Dict Held)
    → text_eq e.0 key ≡ false
    → HasText key o d
    → HasText key o (e ∷ d)
unfolding get
HasText-later key none e d q h = tt
HasText-later key (some v) e d q h = rw q h

abbrev lab_key : Text
lab_key = codes "labId"

abbrev reservation_name : Text
reservation_name = codes "reservationKey"

context_entries-HasText :
    (key : Text) (o : Option Text) (a : Authorised)
    → text_eq (codes "mode") key ≡ false
    → text_eq (codes "accessKey") key ≡ false
    → text_eq (codes "claims") key ≡ false
    → HasText key o (optional_entries a)
    → HasText key o (context_entries a)
context_entries-HasText key o a m k c h =
    HasText-later key o _ _ m (HasText-later key o _ _ k (HasText-later key o _ _ c h))

fresh-Says : (a : Authorised) → Says (context_entries a) a
unfolding get text_eq
fresh-Says a = (
  refl,
  refl,
  context_entries-HasText lab_key a.lab_id a refl refl refl (get-HasText lab_key a.lab_id _),
  context_entries-HasText reservation_name a.reservation_key a refl refl refl
      (get-HasLast reservation_name a.reservation_key lab_key a.lab_id refl),
)

update_with-Says : (d : Dict Held) (a : Authorised) → Says (update_with d (context_entries a)) a
unfolding update_with text_eq
update_with-Says d a =
    let moded = set_item (codes "mode") (sent (text (codes "station"))) d in
    let keyed = set_item (codes "accessKey") (sent (text a.access_key)) moded in
    let claimed = set_item (codes "claims") (claims_of a.claims) keyed in
    (
      get-update_one (codes "claims") (claims_of a.claims) keyed (optional_entries a)
          (optional_entries-IsOther (codes "claims") a refl refl),
      get-update_one (codes "accessKey") (sent (text a.access_key)) moded
          ((codes "claims", claims_of a.claims) ∷ optional_entries a)
          (refl, optional_entries-IsOther (codes "accessKey") a refl refl),
      update_with-HasText lab_key a.lab_id claimed (with_text reservation_name a.reservation_key [])
          (with_text-IsOther lab_key reservation_name a.reservation_key [] refl tt),
      update_with-HasLast reservation_name a.reservation_key claimed lab_key a.lab_id,
    )

pub merge_context-Says :
    (o : Option Item) (a : Authorised) → Says (merge_context o (context_entries a)) a
merge_context-Says none a = fresh-Says a
merge_context-Says (some (plain v)) a = fresh-Says a
merge_context-Says (some (object s d)) a = update_with-Says d a
