-- ===== src/Strategy/Service/Tests.antt =====
-- services/strategy/src/core and the shared gates at concrete inputs, in fixed-point numbers.
use market_app.Prelude.{◌==◌, String, ◌≡◌, ◌∷◌, [], true, false, none, some, refl, arith, String_eq}
use market_app.Prelude.Act.{done, raised}
use market_app.Prelude.Dict.{Dict, get, put}
use market_app.Prelude.Int.{pos, negsuc}
use market_app.Float.Fixed.{Fixed, fixed_float}
use market_app.Gates.Cost.{cap_tier_multiplier, is_profitable_after_costs, total_roundtrip_bps}
use market_app.Gates.Envelope.{RiskLimits, approved, buy, check_signal}
use market_app.Strategy.Events.{
  Env, PortfolioSnapshot, Revalidated, RuleOutput, Service, SignalGenerated, StrategyRule,
  generated,
}
use market_app.Strategy.Health.{
  HealthMetrics, Tracker, active, deactivated, apply_status, status_of,
}
use market_app.Strategy.Service.{
  revalidate, announce_change, announce_signal, apply_revalidation, current_portfolio,
  evaluate_active, evaluate_at, evaluate_rule, evaluate_rules, evaluate_symbol, evaluate_vectors,
  gate_signal, insert_name, names, publish, protective_levels,
}
use market_app.Strategy.Service.Revalidation.{revalidated_silent}
use market_app.Strategy.Service.Signals.{IsGated, IsNamed, evaluate_rule_lem}

abbrev limits : RiskLimits Fixed
limits = record {
  max_position_pct = pos 500;
  max_portfolio_exposure_pct = pos 8_000;
  max_single_loss_pct = pos 200;
  max_daily_loss_pct = pos 500;
  max_drawdown_pct = pos 1_500;
  max_correlated_positions = 3;
  min_confidence = pos 5_500;
}

abbrev decision : RuleOutput Fixed
decision = record {
  signal = buy;
  confidence = pos 8_000;
  stop_atr_mult = pos 20_000;
  take_profit_rr = pos 20_000;
  reason = "breakout";
  metadata = [];
}

abbrev momentum : StrategyRule Fixed
momentum = record { name = "momentum"; generate = λ ranked raw params. decision }

abbrev portfolio : PortfolioSnapshot Fixed
portfolio = record {
  value = pos 1_000_000_000;
  exposure_pct = pos 0;
  drawdown_pct = pos 0;
  daily_loss_pct = pos 0;
}

abbrev tracker : Tracker Fixed
tracker = record { name = "momentum"; status = active; health = none }

abbrev service : Service Fixed
service = record {
  rules = ("momentum", momentum) ∷ [];
  health = ("momentum", tracker) ∷ [];
  limits = limits;
  cost = record {
    costs = record {
      spread_bps = pos 50_000;
      slippage_bps = pos 50_000;
      market_impact_bps = pos 20_000;
    };
    min_edge_multiple = pos 20_000;
  };
  portfolio = portfolio;
  rule_params = [];
  fallback_stop_pct = pos 500;
  edge_bps = pos 2_000_000;
  cap_tier = "large";
  published = [];
}

abbrev vector : Dict String Fixed
vector = ("close", pos 1_000_000) ∷ ("atr_pct_14", pos 200) ∷ []

abbrev env : Env Fixed
env = record {
  publishes = λ event. true;
  get_ranked = λ symbol. done (some []);
  get_features = λ symbol. done (some vector);
  has_portfolio_client = false;
  get_portfolio = raised;
}

-- A stop of two ATRs of 2 % below the price of 100, and a target of twice that above it.
abbrev signal : SignalGenerated Fixed
signal = record {
  symbol = "AAPL";
  strategy_name = "momentum";
  signal = buy;
  confidence = pos 8_000;
  price = pos 1_000_000;
  stop_loss = pos 960_000;
  take_profit = pos 1_080_000;
  metadata = [];
  rule_reason = "breakout";
  risk_reason = approved;
}

abbrev sent : Service Fixed
sent = record service { published = generated signal ∷ [] }

evaluate_rule_lem_example :
    IsGated service momentum (pos 1_000_000) portfolio signal × (sent ≡ sent)
unfolding evaluate_rule gate_signal announce_signal publish protective_levels get check_signal
    is_profitable_after_costs total_roundtrip_bps cap_tier_multiplier
evaluate_rule_lem_example =
    evaluate_rule_lem env momentum "AAPL" [] vector (pos 1_000_000) portfolio service sent signal
      refl

service-IsNamed : IsNamed service
unfolding get
service-IsNamed name rule h = ground (arith, String_eq.beq_iff "momentum" name)

symbol_evaluated : evaluate_symbol env "AAPL" service ≡ (done (signal ∷ []), sent)
unfolding evaluate_symbol evaluate_active evaluate_vectors evaluate_at evaluate_rules
    current_portfolio names insert_name evaluate_rule gate_signal announce_signal publish
    protective_levels get check_signal is_profitable_after_costs total_roundtrip_bps
    cap_tier_multiplier
symbol_evaluated = refl

abbrev revalidated : Revalidated Fixed
revalidated = record {
  strategy_name = "momentum";
  recommended_status = "deactivate";
  current_oos_sharpe = negsuc 999;
  degradation_pct = pos 9_000;
}

abbrev decayed : HealthMetrics Fixed
decayed = record {
  sharpe_30d = pos 3_000;
  sharpe_90d = pos 6_000;
  sharpe_180d = pos 8_000;
  win_rate_30d = pos 4_500;
  profit_factor_30d = pos 13_000;
  excess_return_vs_spy_30d = pos 0;
  days_in_probation = pos 3;
}

abbrev trend : StrategyRule Fixed
trend = record { name = "trend"; generate = λ ranked raw params. decision }

abbrev both : Service Fixed
both = record service {
  rules = ("trend", trend) ∷ ("momentum", momentum) ∷ [];
  health = ("trend", record tracker { name = "trend" }) ∷ ("momentum", tracker) ∷ [];
}

both-IsNamed : IsNamed both
unfolding get
both-IsNamed name rule h =
    ground (arith, String_eq.beq_iff "trend" name, String_eq.beq_iff "momentum" name)

abbrev demoted : Service Fixed
demoted = (apply_revalidation env revalidated both).1

abbrev trend_signal : SignalGenerated Fixed
trend_signal = record signal { strategy_name = "trend" }

abbrev after : Service Fixed
after = (evaluate_symbol env "AAPL" demoted).1

trend_evaluated : evaluate_symbol env "AAPL" demoted ≡ (done (trend_signal ∷ []), after)
unfolding evaluate_symbol evaluate_active evaluate_vectors evaluate_at evaluate_rules
    current_portfolio names insert_name evaluate_rule gate_signal announce_signal publish
    protective_levels get put check_signal is_profitable_after_costs total_roundtrip_bps
    cap_tier_multiplier apply_revalidation revalidate apply_status status_of announce_change
trend_evaluated = refl

revalidated_silent_example :
    ((revalidated.strategy_name == trend_signal.strategy_name) ≡ false) × Unit {0}
unfolding get status_of
revalidated_silent_example =
    revalidated_silent env env revalidated tracker "deactivated" deactivated both after "AAPL"
      (trend_signal ∷ []) (λ event. refl) both-IsNamed refl refl refl refl trend_evaluated
