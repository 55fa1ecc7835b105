-- ===== src/Station/Message.antt =====
-- `build_internal_session_message` of fmu-runner/fmu_backend.py. A dict is the list of its
-- entries; an object inside a message carries its `str`.
use lab_gateway.Prelude.{
  Text, codes, text_eq, Option, none, some, Bool, true, false, List, [], ◌∷◌, if◌then◌else◌, keep,
  not,
}
use lab_gateway.Prelude.Value.{Value, null, text, other}
use lab_gateway.Access.{Claims}
use lab_gateway.Station.{Permit, allowed, then_permit, Authorised, build_authorized_context}

-- what an entry of the gateway's context holds: what the client sent, or the claims
pub data Held : Type 0 where
  sent : Value → Held
  claims_of : Claims → Held

pub data Item : Type 0 where
  plain : Value → Item
  object : Text → List (Text × Held) → Item

abbrev pub Dict : Type 0 → Type 0
Dict A = List (Text × A)

module _ {A : Type 0} where
  -- `d.get(key)`
  unfoldable pub get : Text → Dict A → Option A
  unfolding text_eq
  get key [] = none
  get key (e ∷ d) = let rest = get key d in if text_eq e.0 key then some e.1 else rest

  -- `d[key] = a`
  unfoldable pub set_item : Text → A → Dict A → Dict A
  unfolding text_eq
  set_item key a [] = (key, a) ∷ []
  set_item key a (e ∷ d) =
      let rest = set_item key a d in if text_eq e.0 key then (e.0, a) ∷ d else e ∷ rest

  -- `d.pop(key, None)`
  unfoldable pub pop : Text → Dict A → Dict A
  unfolding text_eq
  pop key d = keep (λ e. not (text_eq e.0 key)) d

  -- `d.update(changes)`
  unfoldable pub update_with : Dict A → Dict A → Dict A
  unfolding set_item
  update_with d [] = d
  update_with d (e ∷ changes) = update_with (set_item e.0 e.1 d) changes

abbrev is_empty : {A : Type 0} → List A → Bool
is_empty [] = true
is_empty (_ ∷ _) = false

-- `message.get(key)`
abbrev pub item_value : Option Item → Value
item_value none = null
item_value (some (plain v)) = v
item_value (some (object s d)) = other (not (is_empty d)) s none

abbrev pub with_text : Text → Option Text → Dict Held → Dict Held
with_text key o rest = elim o [ none ↦ rest | some s ↦ (key, sent (text s)) ∷ rest ]

-- `gateway_context`
abbrev pub context_entries : Authorised → Dict Held
context_entries a =
    (codes "mode", sent (text (codes "station")))
    ∷ (codes "accessKey", sent (text a.access_key))
    ∷ (codes "claims", claims_of a.claims)
    ∷ with_text (codes "labId") a.lab_id (with_text (codes "reservationKey") a.reservation_key [])

-- what the client sent under "gatewayContext", updated
abbrev pub merge_context : Option Item → Dict Held → Dict Held
merge_context (some (object s d)) context = update_with d context
merge_context _ context = context

abbrev pub context_key : Text
context_key = codes "gatewayContext"

-- the text of the merged object is the one that `str` makes of it, `render`
module _ (render : Dict Held → Text) where
  unfoldable pub enrich : Dict Item → Authorised → Dict Item
  unfolding get set_item update_with
  enrich message a =
      let merged = merge_context (get context_key message) (context_entries a) in
      set_item context_key (object (render merged) merged) message

  -- `build_internal_session_message`
  unfoldable pub build_internal_session_message :
      Dict Item → Claims → Value → Value → Permit (Dict Item)
  unfolding enrich build_authorized_context then_permit
  build_internal_session_message message c requested_lab requested_reservation =
      then_permit (build_authorized_context c none requested_lab requested_reservation)
        (λ a. allowed (enrich message a))
