-- ===== src/RateLimit.antt =====
-- The sliding-window limiters of the FMU runner: `_allow_proxy_download` (fmu-runner/main.py) and
-- `_allow_session_create` (fmu-runner/realtime_ws.py and fmu-runner/station_ws_proxy.py), which
-- are the same code over three dicts of deques. `time.time()` is a number of ticks, and `window`
-- is a minute in ticks; a dict of deques is a function.
pub mod Window
mod Tests
use lab_gateway.Prelude.{
  ℕ, ◌+◌, Text, text_eq, Bool, true, false, List, [], ◌∷◌, ◌++◌, length, leb, if◌then◌else◌,
}

abbrev pub Hits : Type 0
Hits = Text → List ℕ

-- `now - t >= 60`
abbrev pub is_old : ℕ → ℕ → ℕ → Bool
is_old window now t = leb (t + window) now

-- the `popleft` loop
unfoldable pub pop_old : ℕ → ℕ → List ℕ → List ℕ
pop_old window now [] = []
pop_old window now (t ∷ ts) =
    let rest = pop_old window now ts in if is_old window now t then rest else t ∷ ts

-- one bucket: the verdict, and what is left of the deque
unfoldable pub hit : ℕ → ℕ → ℕ → List ℕ → Bool × List ℕ
unfolding pop_old
hit window limit now bucket =
    let live = pop_old window now bucket in
    if leb limit (length live) then (false, live) else (true, live ++ now ∷ [])

abbrev set_bucket : Text → List ℕ → Hits → Hits
set_bucket key bucket hits k = if text_eq key k then bucket else hits k

module _ (window limit : ℕ) (key : Text) (now : ℕ) (hits : Hits) where
  unfoldable pub allow : Bool × Hits
  unfolding hit
  allow =
      let (verdict, bucket) = hit window limit now (hits key) in
      if leb limit 0 then (false, hits) else (verdict, set_bucket key bucket hits)

  unfoldable pub allow_proxy_download : Bool × Hits
  unfolding allow
  allow_proxy_download = allow

  unfoldable pub allow_session_create : Bool × Hits
  unfolding allow
  allow_session_create = allow

  unfoldable pub allow_station_session_create : Bool × Hits
  unfolding allow
  allow_station_session_create = allow
