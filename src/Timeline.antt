-- ===== src/Timeline.antt =====
-- The paging and the phases of a reservation's timeline in ops-worker/worker.py: `_sanitize_limit`,
-- `_sanitize_offset` and `_summarize_phases`.
pub mod Paging
mod Tests
use lab_gateway.Prelude.{
  ℕ, Text, codes, starts_with, Option, none, some, Bool, ◌&&◌, ◌||◌, List, [], ◌∷◌, any_of, min,
  max, if◌then◌else◌,
}
use lab_gateway.Prelude.Int.{ℤ, pos, negsuc}
use lab_gateway.Prelude.Value.{parse_int}
use lab_gateway.Operations.{Op}

-- `max(1, min(n, limit))`, where the limit is at least 1
abbrev clamp : ℕ → ℤ → ℕ
clamp limit (pos n) = max 1 (min n limit)
clamp limit (negsuc n) = 1

-- `max(0, n)`
abbrev at_least_zero : ℤ → ℕ
at_least_zero (pos n) = n
at_least_zero (negsuc n) = 0

-- `_sanitize_limit` of a query parameter, which may be missing
unfoldable pub sanitize_limit : ℕ → ℕ → Option Text → ℕ
unfolding parse_int
sanitize_limit default limit none = default
sanitize_limit default limit (some s) = elim (parse_int s) [
  | none ↦ default
  | some n ↦ clamp limit n
]

-- `_sanitize_offset`
unfoldable pub sanitize_offset : Option Text → ℕ
unfolding parse_int
sanitize_offset none = 0
sanitize_offset (some s) = elim (parse_int s) [ none ↦ 0 | some n ↦ at_least_zero n ]

unfoldable pub has_prefix : List Text → Op → Bool
unfolding starts_with
has_prefix prefixes o = any_of (starts_with o.action) prefixes

-- `picker`: the last operation whose action starts with one of the prefixes
unfoldable pub pick : List Text → List Op → Option Op
unfolding has_prefix
pick prefixes [] = none
pick prefixes (o ∷ os) =
    let later = pick prefixes os in
    elim later [ some p ↦ some p | none ↦ if has_prefix prefixes o then some o else none ]

pub record Phases : Type 0 where
  pub wake : Option Op
  pub prepare : Option Op
  pub release : Option Op
  pub power : Option Op
  pub scheduler_end : Option Op

-- `_summarize_phases`
unfoldable pub summarize_phases : List Op → Phases
unfolding pick
summarize_phases os = record {
  wake = pick (codes "wake" ∷ codes "scheduler:start" ∷ []) os;
  prepare = pick (codes "prepare" ∷ []) os;
  release = pick (codes "release" ∷ []) os;
  power = pick (codes "power:" ∷ []) os;
  scheduler_end = pick (codes "scheduler:end" ∷ []) os;
}
