-- ===== src/Operations/Posting.antt =====
-- How often a mail is posted.
use lab_gateway.Prelude.{
  ℕ, zero, suc, ◌+◌, ◌-◌, ◌*◌, ◌≤◌, ◌<◌, ◌≡◌, refl, ◌∙◌, ◌⊎◌, none, true, false, ltb, arith,
  Bool-cases, inl, inr,
}
use lab_gateway.Operations.{
  Answer, raised, answered, Posted, heard, is_accepted, post_loop, post_mail, was_sent,
}

-- the first `n` attempts were turned down
abbrev pub Refused : (ℕ → Answer) → ℕ → Type 0
Refused answers zero = Unit
Refused answers (suc n) = (is_accepted (answers (suc n)) ≡ false) × Refused answers n

-- What the loop has done when it stops.
pub record Outcome (retries backoff : ℕ) (answers : ℕ → Answer) (p : Posted) : Type 0 where
  pub some_try : 1 ≤ p.attempts
  pub few : p.attempts ≤ retries + 1
  pub refused : Refused answers (p.attempts - 1)
  pub sent : was_sent p ≡ is_accepted (answers p.attempts)
  pub last : (was_sent p ≡ true) ⊎ (p.attempts ≡ retries + 1)
  pub waits : 2 * p.slept ≡ backoff * (p.attempts * (p.attempts - 1))

was_sent-heard :
    (a : Answer) (p q : Posted)
    → was_sent p ≡ false
    → q.response ≡ heard a p.response
    → was_sent q ≡ is_accepted a
was_sent-heard raised p q h e = ground arith
was_sent-heard (answered code ok) p q h e = ground arith

more_wait :
    (backoff a s : ℕ)
    → 2 * s ≡ backoff * (a * (a + 1))
    → 2 * (s + backoff * (a + 1)) ≡ backoff * ((a + 1) * (a + 1 + 1))
more_wait backoff a s h = omega arith

same_wait :
    (backoff a s : ℕ) → 2 * s ≡ backoff * (a * (a + 1)) → 2 * s ≡ backoff * ((a + 1) * (a + 1 - 1))
same_wait backoff a s h = let e : a + 1 - 1 ≡ a = omega arith in rw e (omega arith)

Refused-next :
    (answers : ℕ → Answer) (a : ℕ)
    → is_accepted (answers (a + 1)) ≡ false
    → Refused answers a
    → Refused answers (a + 1)
Refused-next answers a h r = let e : a + 1 ≡ suc a = omega arith in rw e (rw e at h, r)

module _ (retries backoff : ℕ) (answers : ℕ → Answer) where
  abbrev tried : Posted → Posted
  tried p = record {
    attempts = p.attempts + 1;
    response = heard (answers (p.attempts + 1)) p.response;
    slept = p.slept;
  }

  abbrev again : Posted → Posted
  again p = record {
    attempts = p.attempts + 1;
    response = heard (answers (p.attempts + 1)) p.response;
    slept = p.slept + backoff * (p.attempts + 1);
  }

  tried-Outcome :
      (p : Posted)
      → p.attempts ≤ retries
      → Refused answers p.attempts
      → was_sent p ≡ false
      → 2 * p.slept ≡ backoff * (p.attempts * (p.attempts + 1))
      → (is_accepted (answers (p.attempts + 1)) ≡ true) ⊎ (p.attempts ≡ retries)
      → Outcome retries backoff answers (tried p)
  tried-Outcome p room r unsent w why = record {
    some_try = omega arith;
    few = omega arith;
    refused = let e : p.attempts + 1 - 1 ≡ p.attempts = omega arith in rw e r;
    sent = sent;
    last = why_last why;
    waits = same_wait backoff p.attempts p.slept w;
  }
    where
      sent : was_sent (tried p) ≡ is_accepted (answers (p.attempts + 1))
      sent = was_sent-heard (answers (p.attempts + 1)) p (tried p) unsent refl

      why_last :
          (is_accepted (answers (p.attempts + 1)) ≡ true) ⊎ (p.attempts ≡ retries)
          → (was_sent (tried p) ≡ true) ⊎ (p.attempts + 1 ≡ retries + 1)
      why_last (inl ok) = inl (sent ∙ ok)
      why_last (inr e) = inr (omega arith)

  post_loop-Outcome :
      (left : ℕ) (p : Posted)
      → left + p.attempts ≡ retries + 1
      → 0 < left
      → Refused answers p.attempts
      → was_sent p ≡ false
      → 2 * p.slept ≡ backoff * (p.attempts * (p.attempts + 1))
      → Outcome retries backoff answers (post_loop retries backoff answers left p)
  unfolding post_loop
  post_loop-Outcome zero p room pos r unsent w = absurd (omega arith)
  post_loop-Outcome (suc left) p room pos r unsent w =
      elim (Bool-cases (is_accepted (answers (p.attempts + 1)))) [
        | inl ok ↦ rw ok (tried-Outcome p (omega arith) r unsent w (inl ok))
        | inr bad ↦ elim (Bool-cases (ltb retries (p.attempts + 1))) [
          | inl stop ↦
              rw (bad, stop) (tried-Outcome p (omega arith) r unsent w (inr (ground arith)))
          | inr go ↦
              rw (bad, go)
                (post_loop-Outcome left (again p) (omega arith) (ground arith)
                  (Refused-next answers p.attempts bad r)
                  (was_sent-heard (answers (p.attempts + 1)) p (again p) unsent refl ∙ bad)
                  (more_wait backoff p.attempts p.slept w))
        ]
      ]

-- A mail is posted at least once and at most once more than the retries allow. It counts as sent
-- exactly when its last attempt was accepted; every attempt before was not, and unless it was sent
-- all attempts were used. The pauses between `k` attempts add up to `backoff` times 1 + … + (k - 1).
pub post_mail_outcome :
    (retries backoff : ℕ) (answers : ℕ → Answer)
    → Outcome retries backoff answers (post_mail retries backoff answers)
unfolding post_mail
post_mail_outcome retries backoff answers =
    post_loop-Outcome retries backoff answers (retries + 1)
      (record { attempts = 0; response = none; slept = 0 }) (omega arith) (omega arith) tt refl
      (omega arith)
