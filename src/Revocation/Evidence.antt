-- ===== src/Revocation/Evidence.antt =====
-- What the reconciliation asks of a session before it reports it.
use lab_gateway.Prelude.{
  ℕ, Text, lower, any_of, ◌&&◌, ◌||◌, text_eq, ◌≡◌, refl, ap, ◌⊎◌, inl, inr, false≢true, Option,
  none, some, Bool, true, false, List, arith,
}
use lab_gateway.Prelude.Table.{text_key}
use lab_gateway.Revocation.{Row, is_revoked}
use lab_gateway.Revocation.Observe.{is_given, is_proved, is_answered}

-- the token of a REVOKED row was validated, and a connection is in the history
abbrev pub WasRevoked : Option ℕ → Row → Type 0
WasRevoked started r =
    (is_revoked r.status ≡ true)
    × (is_given started ≡ true)
    × (is_given r.token_validated_at ≡ true)

abbrev pub IsProof : List Text → Option ℕ → Option ℕ → Row → Type 0
IsProof users started answer r =
    ((any_of (λ u. text_eq u (lower r.username)) users ≡ true) ⊎ (is_given started ≡ true))
    × (WasRevoked started r ⊎ (answer ≡ some 200))

either : (a b : Bool) → (a || b) ≡ true → (a ≡ true) ⊎ (b ≡ true)
either true b h = inl refl
either false b h = inr h

pub both : (a b : Bool) → (a && b) ≡ true → (a ≡ true) × (b ≡ true)
both true b h = (refl, h)
both false b h = absurd (false≢true h)

answered_ok : (answer : Option ℕ) → is_answered answer ≡ true → answer ≡ some 200
answered_ok none h = absurd (false≢true h)
answered_ok (some code) h = ap some (ground (arith, h))

pub is_proved-IsProof :
    (users : List Text) (started answer : Option ℕ) (r : Row)
    → is_proved users started answer r ≡ true
    → IsProof users started answer r
unfolding is_proved
is_proved-IsProof users started answer r h =
    let seen = any_of (λ u. text_eq u (lower r.username)) users in
    let revoked = is_revoked r.status && is_given started && is_given r.token_validated_at in
    let (a, b) = both (seen || is_given started) (revoked || is_answered answer) h in
    (either seen (is_given started) a, accepted (either revoked (is_answered answer) b))
  where
    accepted :
        ((is_revoked r.status && is_given started && is_given r.token_validated_at) ≡ true)
          ⊎ (is_answered answer ≡ true)
        → WasRevoked started r ⊎ (answer ≡ some 200)
    accepted (inl e) =
        let (cd, v) =
          both (is_revoked r.status && is_given started) (is_given r.token_validated_at) e in
        let (c, d) = both (is_revoked r.status) (is_given started) cd in inl (c, d, v)
    accepted (inr e) = inr (answered_ok answer e)
