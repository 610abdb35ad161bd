-- ===== src/MarketData/Service/Tests.antt =====
-- services/market-data/src/core at concrete inputs, in fixed-point numbers.
use market_app.Prelude.{
  ℕ, ◌≡◌, ◌+◌, refl, true, some, List, [], ◌∷◌, length, if◌then◌else◌, ◌==◌, String_eq,
}
use market_app.Prelude.Int.{ℤ, pos}
use market_app.Prelude.Act.{done, raised}
use market_app.Prelude.Dict.{get, put}
use market_app.Float.Fixed.{Fixed, fixed_float}
use market_app.MarketData.Incremental.{
  Bar, adjustment_drifted, any_moved, moved, by_timestamp, factor,
}
use market_app.MarketData.Catchup.{Moment, Pulls}
use market_app.MarketData.Service.{Stores, SyncSettings}

abbrev bar_of : ℤ → ℤ → Bar Fixed
bar_of t adjusted = record {
  symbol = "AAA";
  timestamp = t;
  close = pos 1_000_000;
  adj_close = some adjusted;
}

abbrev stored_bars : List (Bar Fixed)
stored_bars = bar_of (pos 100) (pos 1_000_000) ∷ []

abbrev fetched_bars : List (Bar Fixed)
fetched_bars = bar_of (pos 100) (pos 500_000) ∷ bar_of (pos 200) (pos 500_000) ∷ []

-- The state counts the calls of the provider; the symbol BAD is one it does not know.
abbrev stores : Stores ℕ Fixed
stores = record {
  fetch = λ symbol i a b n. if symbol == "BAD" then (raised, n + 1) else (done fetched_bars, n + 1);
  latest_timestamp = λ s i n. (done (some (pos 100)), n);
  earliest_timestamp = λ s i n. (done (some (pos 50)), n);
  get_bars = λ s i a b l n. (done stored_bars, n);
  save_bars = λ bars n. (done (length bars), n);
  cached_bars = λ s i n. (done (some fetched_bars), n);
  set_bars = λ s i bars n. (done tt, n);
  invalidate = λ s i n. (done tt, n);
  publish = λ e n. (done tt, n);
}

abbrev settings : SyncSettings
settings = record {
  interval = "1d";
  now = pos 1_000_000;
  overlap_days = pos 5;
  initial_history_days = 2_190;
}

split_found : adjustment_drifted stored_bars fetched_bars (pos 1) ≡ true
unfolding adjustment_drifted any_moved moved by_timestamp factor get put
split_found = refl

abbrev at_hour : ℕ → Moment
at_hour h = record { date = pos 20_000; hour = h; weekday = 2 }

abbrev morning : Pulls ℕ
morning = record { marker = some (pos 19_998); store = 0 }
