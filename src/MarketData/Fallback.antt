-- ===== src/MarketData/Fallback.antt =====
-- services/market-data/src/core/fetchers/base.py: several sources asked in order. A source is its
-- `fetch` at the query's arguments, and may raise.
pub mod Sources
mod Tests
use market_app.Prelude.{Bool, true, false, List, [], ◌∷◌, if◌then◌else◌}
use market_app.Prelude.Act.{Outcome, done, raised, Act}

abbrev pub Fetcher : Type 0 → Type 0 → Type 0
Fetcher S Bar = Act S (List Bar)

module _ {S Bar : Type 0} where
  -- What one answer does: go on with a noted error, go on, or return the bars.
  abbrev pub asked : Outcome (List Bar) → (Bool → Act S (List Bar)) → Bool → Act S (List Bar)
  asked raised next failed s = next true s
  asked (done []) next failed s = next failed s
  asked (done (bar ∷ bars)) next failed s = (done (bar ∷ bars), s)

  abbrev pub try_each : List (Fetcher S Bar) → Bool → Act S (List Bar)
  try_each [] failed s = (if failed then raised else done [], s)
  try_each (fetcher ∷ fetchers) failed s =
      let (r, s') = fetcher s in asked r (try_each fetchers) failed s'

  unfoldable pub fetch : List (Fetcher S Bar) → Act S (List Bar)
  fetch fetchers = try_each fetchers false
