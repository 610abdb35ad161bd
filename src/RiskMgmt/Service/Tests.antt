-- ===== src/RiskMgmt/Service/Tests.antt =====
-- services/risk-mgmt/src/core/service.py at concrete inputs, in fixed-point numbers.
use market_app.Prelude.{arith, ◌≡◌, ◌∷◌, [], true, false, none, some, refl}
use market_app.Prelude.Int.{pos}
use market_app.Prelude.Act.{done}
use market_app.Prelude.Dict.{get, put}
use market_app.Float.Fixed.{Fixed, fixed_float}
use market_app.RiskMgmt.Breaker.{black, is_tripped}
use market_app.RiskMgmt.Ledger.{Key_eq, already_placed, record_order, prune, sessions_desc}
use market_app.RiskMgmt.Portfolio.{PortfolioUpdate}
use market_app.RiskMgmt.Regime.{max_exposure, is_sector_allowed}
use market_app.RiskMgmt.Sizing.{size, position_size}
use market_app.RiskMgmt.Events.{
  Service, Env, SignalAggregated, SignalGenerated, OrderRequested, new, requested,
}
use market_app.RiskMgmt.Service.{key_of, risk_check_and_order, process_aggregated, restore}
use market_app.RiskMgmt.Service.Orders.{decide_each, one_order_per_session}
use market_app.RiskMgmt.Service.Restart.{IsFresh, redelivery_after_restart}

abbrev service : Service Fixed
service = record {
  portfolio = record {
    value = pos 1_000_000_000;
    exposure_pct = pos 2_000;
    drawdown_pct = pos 0;
    daily_loss_pct = pos 0;
    regime = "expansion";
    sector_positions = [];
  };
  breaker = record {
    warn_dd = pos 800;
    halt_daily = pos 500;
    flatten_dd = pos 1_500;
    level = none;
    latched_black = false;
    halted_session = none;
  };
  ledger = record { placed = []; keep_sessions = 5 };
  sizer = record {
    base_risk = pos 200;
    dd_start = pos 500;
    dd_end = pos 1_500;
    max_position_pct = pos 500;
  };
  published = [];
  persisted = none;
}

abbrev latched : Service Fixed
latched = record service {
  breaker = record service.breaker { level = some black; latched_black = true };
}

abbrev env : Env Fixed
env = record { publishes = λ event. true; saves = λ snap. true; today = 20_000 }

abbrev read_only : Env Fixed
read_only = record env { saves = λ snap. false }

-- A decision of day 20,000 to buy at 100 with a stop at 95.
abbrev decision : SignalAggregated Fixed
decision = record {
  symbol = "AAPL";
  final_signal = "BUY";
  price = some (pos 1_000_000);
  stop_loss = some (pos 950_000);
  take_profit = none;
  strategy_name = none;
  sector = some "Tech";
  timestamp = record { local_s = 1_728_000_000; utc_offset_s = some (pos 0) };
}

abbrev generated : SignalGenerated Fixed
generated = record {
  symbol = "AAPL";
  signal = "SELL";
  price = pos 1_000_000;
  stop_loss = some (pos 1_050_000);
  take_profit = none;
  strategy_name = "momentum";
}

abbrev order : OrderRequested Fixed
order = record {
  symbol = "AAPL";
  side = "BUY";
  quantity = pos 500_000;
  price = pos 1_000_000;
  strategy_name = "aggregated";
  stop_loss = pos 950_000;
  take_profit = none;
  intent = new;
}

abbrev after : Service Fixed
after = (process_aggregated env decision service).1

order_placed : process_aggregated env decision service ≡ (done (some order), after)
unfolding process_aggregated risk_check_and_order size position_size max_exposure is_sector_allowed
    is_tripped already_placed get
order_placed = refl

-- A SELL of the same symbol on the same day.
abbrev sale : SignalAggregated Fixed
sale = record decision { final_signal = "SELL" }

one_order_per_session_example :
    let s = decide_each ((env, sale) ∷ (env, decision) ∷ []) after in
    process_aggregated env decision s ≡ (done none, s)
unfolding key_of
one_order_per_session_example =
    one_order_per_session env env decision decision service after order
      ((env, sale) ∷ (env, decision) ∷ []) tt (omega arith) tt order_placed
      (omega arith, (omega arith, tt)) refl

abbrev published_only : Service Fixed
published_only = record service { published = requested order ∷ [] }

service-IsFresh : IsFresh service after
unfolding process_aggregated risk_check_and_order size position_size max_exposure is_sector_allowed
    is_tripped already_placed get record_order prune put
service-IsFresh = record { no_orders = refl; same_depth = refl }

redelivery_after_restart_example :
    let restarted = restore env after.persisted service in
    process_aggregated env decision restarted ≡ (done none, restarted)
unfolding sessions_desc put key_of
redelivery_after_restart_example =
    redelivery_after_restart env env env decision decision service after service order tt
      order_placed service-IsFresh refl refl

abbrev crash : PortfolioUpdate Fixed
crash = record {
  value = none;
  exposure_pct = none;
  drawdown_pct = some (pos 1_600);
  daily_loss_pct = none;
  regime = none;
}
