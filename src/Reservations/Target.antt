-- ===== src/Reservations/Target.antt =====
-- `_is_valid_ping_target` of ops-worker/worker.py: a DNS name or an IPv4 address. `is_alnum` is
-- `str.isalnum` of one character.
use lab_gateway.Prelude.{
  ℕ, Text, nonempty, Bool, false, not, ◌&&◌, ◌||◌, List, [], ◌∷◌, reverse, any_of, length, leb,
  ◌==◌, if◌then◌else◌,
}

-- `target.rstrip(".")`, on the reversed text
drop_dots : Text → Text
drop_dots [] = []
drop_dots (c ∷ s) = let rest = drop_dots s in if c == b'.' then rest else c ∷ s

-- `split(".")`: `label` is the current label, reversed
split_dots : Text → Text → List Text
split_dots label [] = reverse label ∷ []
split_dots label (c ∷ s) =
    let next = split_dots [] s in
    let more = split_dots (c ∷ label) s in if c == b'.' then reverse label ∷ next else more

module _ (is_alnum : ℕ → Bool) where
  abbrev starts_alnum : Text → Bool
  starts_alnum [] = false
  starts_alnum (c ∷ _) = is_alnum c

  is_valid_label : Text → Bool
  is_valid_label l =
      leb (length l) 63
      && starts_alnum l
      && starts_alnum (reverse l)
      && not (any_of (λ c. not (is_alnum c || c == b'-')) l)

  unfoldable pub is_valid_ping_target : Text → Bool
  unfolding drop_dots split_dots is_valid_label
  is_valid_ping_target target =
      nonempty target
      && leb (length target) 253
      && not (
          any_of (λ l. not (is_valid_label l))
            (split_dots [] (reverse (drop_dots (reverse target)))))
