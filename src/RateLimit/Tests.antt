-- ===== src/RateLimit/Tests.antt =====
-- A limiter on concrete calls.
use lab_gateway.Prelude.{ℕ, ◌≤◌, Text, codes, List, [], ◌∷◌, arith}
use lab_gateway.RateLimit.Window.{Rising, recent, serve, at_most_limit_per_window}

abbrev calls : List (Text × ℕ)
calls = (codes "a", 1) ∷ (codes "a", 2) ∷ (codes "b", 2) ∷ (codes "a", 59) ∷ (codes "a", 61) ∷ []

calls-Rising : Rising 0 calls 62
calls-Rising =
    (omega arith, (omega arith, (omega arith, (omega arith, (omega arith, omega arith)))))

at_most_limit_per_window_example : recent 60 62 (serve 60 2 (codes "a") calls ((λ _. []), [])).1 ≤ 2
at_most_limit_per_window_example = at_most_limit_per_window 60 2 62 (codes "a") calls calls-Rising
