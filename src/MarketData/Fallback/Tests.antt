-- ===== src/MarketData/Fallback/Tests.antt =====
-- The fallback of services/market-data/src/core/fetchers/base.py over three concrete sources. The
-- state counts the calls, a bar is its close.
use market_app.Prelude.{ℕ, suc, ◌≡◌, refl, [], ◌∷◌, ◌++◌}
use market_app.Prelude.Act.{done, raised}
use market_app.MarketData.Fallback.{Fetcher, fetch}
use market_app.MarketData.Fallback.Sources.{first_bars_win}

abbrev broken : Fetcher ℕ ℕ
broken calls = (raised, suc calls)

abbrev silent : Fetcher ℕ ℕ
silent calls = (done [], suc calls)

abbrev working : Fetcher ℕ ℕ
working calls = (done (101 ∷ 102 ∷ []), suc calls)

one_failure : fetch (broken ∷ silent ∷ []) 0 ≡ (raised, 2)
unfolding fetch
one_failure = refl

first_bars_win_example :
    (fetch ((broken ∷ silent ∷ []) ++ working ∷ broken ∷ []) 0 ≡ (done (101 ∷ 102 ∷ []), 3))
    × (fetch (broken ∷ silent ∷ []) 0 ≡ (raised, 2))
first_bars_win_example =
    first_bars_win (broken ∷ silent ∷ []) (broken ∷ []) working 0 3 101 (102 ∷ []) (tt, (tt, tt))
      refl
