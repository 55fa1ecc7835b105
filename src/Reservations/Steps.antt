-- ===== src/Reservations/Steps.antt =====
-- How `wol_and_wait` ends.
use lab_gateway.Prelude.{
  ℕ, zero, suc, ◌+◌, ◌-◌, ◌≤◌, ◌<◌, ◌≡◌, ◌⊎◌, refl, Option, none, some, Bool, true, false, not,
  ◌&&◌, ◌||◌, arith, Bool-cases, inl, inr,
}
use lab_gateway.Prelude.Int.{ℤ, pos, negsuc, pos_part}
use lab_gateway.Reservations.Perform.{
  Round, send_fails, probed, host_is_up, wake_rounds, wol_and_wait,
}

sub_step : (j k : ℕ) → suc k ≤ j → j - k ≡ suc (j - suc k)
sub_step j k h = omega arith

sub_self : (k : ℕ) → k - k ≡ 0
sub_self k = omega arith

Round-cases : (r : Round) → (r ≡ send_fails) ⊎ ((up : Bool) × (r ≡ probed up))
Round-cases send_fails = inl refl
Round-cases (probed up) = inr (up, refl)

module _ (valid : Bool) (probe_port : Option ℤ) (rounds : ℕ → Round) where
  abbrev pub answers : Round → Bool
  answers send_fails = false
  answers (probed up) = host_is_up valid probe_port up

  abbrev pub is_silent : Round → Bool
  is_silent send_fails = false
  is_silent (probed up) = not (host_is_up valid probe_port up)

  abbrev pub breaks : Round → Bool
  breaks send_fails = true
  breaks (probed _) = false

  -- the `n` rounds from the `k`-th on were sent and stayed without an answer
  abbrev pub silent : ℕ → ℕ → Bool
  silent zero k = true
  silent (suc n) k = let rest = silent n (suc k) in is_silent (rounds k) && rest

  -- a packet that could not be sent, after silent rounds
  abbrev pub broken_off : ℕ → ℕ → Bool
  broken_off zero k = false
  broken_off (suc n) k =
      let rest = broken_off n (suc k) in breaks (rounds k) || (is_silent (rounds k) && rest)

  -- how `n` rounds from the `k`-th on end
  abbrev pub WakeIsRight : ℤ → ℕ → ℕ → Option (Bool × ℤ) → Type 0
  WakeIsRight attempts n k none = broken_off n k ≡ true
  WakeIsRight attempts n k (some (true, pos j)) =
      (k ≤ j) × (j < k + n) × (answers (rounds j) ≡ true) × (silent (j - k) k ≡ true)
  WakeIsRight attempts n k (some (true, negsuc j)) = false ≡ true
  WakeIsRight attempts n k (some (false, a)) = (a ≡ attempts) × (silent n k ≡ true)

  silent-later :
      (attempts : ℤ) (n k : ℕ) (t : Option (Bool × ℤ))
      → is_silent (rounds k) ≡ true
      → WakeIsRight attempts n (suc k) t
      → WakeIsRight attempts (suc n) k t
  silent-later attempts n k none q h = ground arith
  silent-later attempts n k (some (true, pos j)) q (a, b, c, d) =
      (ground arith, ground arith, c, rw (sub_step j k a, q) d)
  silent-later attempts n k (some (true, negsuc j)) q h = h
  silent-later attempts n k (some (false, a)) q (e, d) = (e, rw q d)

  wake_rounds_lem :
      (attempts : ℤ) (n k : ℕ)
      → WakeIsRight attempts n k (wake_rounds valid probe_port rounds attempts n k)
  unfolding wake_rounds
  wake_rounds_lem attempts zero k = (refl, refl)
  wake_rounds_lem attempts (suc n) k = elim (Round-cases (rounds k)) [
    | inl e ↦ rw (wake_rounds, e) (ground (arith, e))
    | inr (up, e) ↦ elim (Bool-cases (host_is_up valid probe_port up)) [
      | inl q ↦ rw (wake_rounds, e, q) (omega arith, omega arith, rw e q, rw (sub_self k) refl)
      | inr q ↦
          rw (wake_rounds, e, q)
            (silent-later attempts n k (wake_rounds valid probe_port rounds attempts n (suc k))
              (rw e (rw q refl)) (wake_rounds_lem attempts n (suc k)))
    ]
  ]

  -- `wol_and_wait` tells the first round whose probe answered, having waited in vain in every round
  -- before it; it gives up only after all rounds stayed silent, and it raises only where a packet
  -- could not be sent after silent rounds.
  pub wol_and_wait_lem :
      (attempts : ℤ)
      → WakeIsRight attempts (pos_part attempts) 1 (wol_and_wait valid probe_port rounds attempts)
  unfolding wol_and_wait
  wol_and_wait_lem attempts = wake_rounds_lem attempts (pos_part attempts) 1
