-- ===== src/Timeline/Paging.antt =====
-- The bounds of a page, and what a phase shows.
use lab_gateway.Prelude.{
  ℕ, ◌≤◌, ◌≡◌, refl, Text, codes, Option, none, some, List, [], ◌∷◌, ◌++◌, arith, if◌then◌else◌,
  Option-cases, inl, inr,
}
use lab_gateway.Prelude.Int.{ℤ, pos, negsuc}
use lab_gateway.Prelude.Value.{parse_int}
use lab_gateway.Operations.{Op}
use lab_gateway.Timeline.{clamp, sanitize_limit, pick, has_prefix, summarize_phases}

clamp_bounds : (limit : ℕ) (n : ℤ) → 1 ≤ limit → (1 ≤ clamp limit n) × (clamp limit n ≤ limit)
clamp_bounds limit (pos n) h = (omega arith, omega arith)
clamp_bounds limit (negsuc n) h = (omega arith, h)

-- Whatever text a client sends as `limit`, or none, a page has at least one entry and at most as many
-- as the limit of the service allows, where the default does.
limit_bounds :
    (default limit : ℕ) (s : Option Text)
    → 1 ≤ default
    → default ≤ limit
    → (1 ≤ sanitize_limit default limit s) × (sanitize_limit default limit s ≤ limit)
unfolding sanitize_limit
limit_bounds default limit none h k = (h, k)
limit_bounds default limit (some s) h k = elim (Option-cases (parse_int s)) [
  | inl e ↦ rw (sanitize_limit, e) (h, k)
  | inr (n, e) ↦ rw (sanitize_limit, e) (clamp_bounds limit n (omega arith))
]

pick-last :
    (prefixes : List Text) (os : List Op) (o : Op)
    → pick prefixes (os ++ o ∷ []) ≡ (if has_prefix prefixes o then some o else pick prefixes os)
unfolding pick
pick-last prefixes [] o = refl
pick-last prefixes (p ∷ os) o = rw (pick-last prefixes os o) (ground arith)

-- The entry of a phase after one more operation.
abbrev pub step_phase : List Text → Op → Option Op → Option Op
step_phase prefixes o before = if has_prefix prefixes o then some o else before

-- One more operation at the end of the log becomes the entry of each phase that its action belongs
-- to, and leaves every other phase as it was.
phases_follow :
    (os : List Op) (o : Op)
    → summarize_phases (os ++ o ∷ []) ≡ record {
      wake = step_phase (codes "wake" ∷ codes "scheduler:start" ∷ []) o (summarize_phases os).wake;
      prepare = step_phase (codes "prepare" ∷ []) o (summarize_phases os).prepare;
      release = step_phase (codes "release" ∷ []) o (summarize_phases os).release;
      power = step_phase (codes "power:" ∷ []) o (summarize_phases os).power;
      scheduler_end = step_phase (codes "scheduler:end" ∷ []) o (summarize_phases os).scheduler_end;
    }
unfolding summarize_phases
phases_follow os o =
    rw
      (
        pick-last (codes "wake" ∷ codes "scheduler:start" ∷ []) os o,
        pick-last (codes "prepare" ∷ []) os o,
        pick-last (codes "release" ∷ []) os o,
        pick-last (codes "power:" ∷ []) os o,
        pick-last (codes "scheduler:end" ∷ []) os o,
      )
      refl
