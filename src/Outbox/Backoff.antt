-- ===== src/Outbox/Backoff.antt =====
-- The delay between attempts, shared by the outbox and the token revocations.
use lab_gateway.Prelude.{ℕ, zero, suc, ◌-◌, ◌^◌, ◌≤◌, arith, min}
use lab_gateway.Outbox.{retry_delay_seconds}
use native.Mathlib.Nat.{pow-suc}

one-le-pow : (n : ℕ) → 1 ≤ 2 ^ n
one-le-pow zero = omega arith
one-le-pow (suc n) = rw pow-suc (omega (arith, one-le-pow n))

pow_mono : (m n : ℕ) → m ≤ n → 2 ^ m ≤ 2 ^ n
pow_mono zero n h = one-le-pow n
pow_mono (suc m) zero h = absurd (omega arith)
pow_mono (suc m) (suc n) h = rw (pow-suc, pow-suc) (omega (arith, pow_mono m n (omega arith)))

-- The delay is at least 5 and at most 300 seconds, and never falls from one attempt to a later one.
retry_delay_bounds :
    (a b : ℕ)
    → a ≤ b
    → (5 ≤ retry_delay_seconds a)
      × (retry_delay_seconds a ≤ retry_delay_seconds b)
      × (retry_delay_seconds b ≤ 300)
unfolding retry_delay_seconds
retry_delay_bounds a b h =
    let one = one-le-pow (min (a - 1) 6) in
    let mono = pow_mono (min (a - 1) 6) (min (b - 1) 6) (omega arith) in omega (arith, one, mono)
