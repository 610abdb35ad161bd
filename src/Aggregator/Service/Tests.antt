-- ===== src/Aggregator/Service/Tests.antt =====
-- services/signal-aggregator/src/core at concrete inputs, in fixed-point numbers.
use market_app.Prelude.{String, ◌≡◌, ◌∷◌, [], true, false, ◌||◌, none, some, refl, String_eq}
use market_app.Prelude.Act.{done}
use market_app.Prelude.Dict.{get, put, keep_values}
use market_app.Prelude.Int.{pos, ◌-ℤ◌}
use market_app.Float.Fixed.{Fixed, fixed_float}
use market_app.Gates.Cost.{cap_tier_multiplier, is_profitable_after_costs, total_roundtrip_bps}
use market_app.Aggregator.Service.{
  AggregationResult, BufferedSignal, Env, Service, aggregate_entries, aggregate_symbol, decide,
  gate, live_entries, live_ml, prune_symbol, publish, select_levels, sorted_entries, insert_entry,
  weights_for,
}
use market_app.Aggregator.Service.Live.{IsLive}
use market_app.Aggregator.Service.Levels.{HasLevels, aggregate_levels}
use market_app.Aggregator.Vote.{combine, signed, votes}
use market_app.Aggregator.Weights.{Elementary, build, compute_weights, map_values}
use market_app.Aggregator.Window.{MlSignalGenerated, SignalGenerated, Window, is_pending}
use market_app.Aggregator.Window.Coalesce.{components_wait, concerns, handle_components, strategy}

-- No test computes an exponential or a root.
instance abbrev elementary : Elementary Fixed
elementary = record { exp_op = λ x. pos 10_000; sqrt_op = λ x. x; square_op = λ x. some x }

abbrev entry : BufferedSignal Fixed
entry = record {
  component = record { source = "strategy:momentum"; signal = "BUY"; confidence = pos 8_000 };
  price = some (pos 1_000_000);
  stop_loss = some (pos 960_000);
  take_profit = none;
  strategy_name = "momentum";
  at = pos 1_000_000;
}

abbrev service : Service Fixed
service = record {
  optimizer = record {
    sources = [];
    lookback_days = 60;
    smoothing_lambda = pos 20_000;
    min_weight = pos 500;
    max_weight = pos 6_000;
    performance = [];
  };
  cost = record {
    costs = record {
      spread_bps = pos 50_000;
      slippage_bps = pos 50_000;
      market_impact_bps = pos 20_000;
    };
    min_edge_multiple = pos 20_000;
  };
  buy_threshold = pos 2_000;
  base_edge_bps = pos 2_000_000;
  ttl_s = pos 864_000_000;
  buffer = ("AAPL", ("momentum", entry) ∷ []) ∷ [];
  ml_buffer = [];
  macro_bias = none;
  published = [];
}

abbrev env : Env Fixed
env = record {
  publishes = λ r. true;
  get_sector = λ symbol. done (some "Energy");
  now = pos 2_000_000;
}

abbrev result : AggregationResult Fixed
result = record {
  symbol = "AAPL";
  decision = record {
    signal = "BUY";
    confidence = pos 8_000;
    score = pos 8_000;
    weights = ("strategy:momentum", pos 10_000) ∷ [];
    cost_filtered = false;
  };
  components_present = "strategy:momentum" ∷ [];
  price = some (pos 1_000_000);
  stop_loss = some (pos 960_000);
  take_profit = none;
  strategy_name = some "momentum";
  sector = some "Energy";
}

abbrev after : Service Fixed
after = record service { published = result ∷ [] }

symbol_aggregated : aggregate_symbol env "AAPL" service ≡ (done (some result), after)
unfolding aggregate_symbol aggregate_entries live_entries prune_symbol sorted_entries insert_entry
    live_ml publish decide gate weights_for build map_values compute_weights combine votes signed
    select_levels is_profitable_after_costs total_roundtrip_bps cap_tier_multiplier get put
    keep_values ◌-ℤ◌
symbol_aggregated = refl

aggregate_levels_example :
    HasLevels (IsLive (pos 2_000_000) "AAPL" service) result × (after.published ≡ result ∷ [])
aggregate_levels_example = aggregate_levels env "AAPL" service after result symbol_aggregated

abbrev window : Window Fixed
window = record { service = service; join_window_s = pos 50_000; pending = [] }

abbrev arrived : SignalGenerated Fixed
arrived = record {
  symbol = "AAPL";
  strategy_name = "trend";
  signal = "SELL";
  confidence = pos 6_000;
  price = pos 1_000_000;
  stop_loss = none;
  take_profit = none;
  timestamp = pos 1_500_000;
}

components_wait_example :
    let w' = handle_components env (strategy arrived ∷ strategy arrived ∷ []) window in
    (w'.service.published ≡ [])
    × ((symbol : String)
        → is_pending symbol w'.pending ≡ (
            is_pending symbol []
            || concerns {F = Fixed} symbol (strategy arrived ∷ strategy arrived ∷ [])))
components_wait_example = components_wait env (strategy arrived ∷ strategy arrived ∷ []) window refl

abbrev vote : MlSignalGenerated Fixed
vote = record { symbol = "MSFT"; signal = "BUY"; confidence = pos 9_000; timestamp = pos 1_500_000 }
