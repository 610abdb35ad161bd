-- ===== src/Strategy/Events.antt =====
-- services/strategy/src/core/service.py: the state of the service, what it is given and what it
-- publishes; `RuleOutput` and the rules of trading_common/strategies/base.py.
use market_app.Prelude.{String, Bool, Option, List}
use market_app.Prelude.Act.{Outcome}
use market_app.Prelude.Dict.{Dict}
use market_app.Gates.Cost.{CostAwareFilter}
use market_app.Gates.Envelope.{Signal, RiskLimits, GateReason}
use market_app.Strategy.Health.{Status, HealthReason, Tracker}

-- `RuleOutput` of strategies/base.py.
pub record RuleOutput (F : Type 0) : Type 0 where
  pub signal : Signal
  pub confidence : F
  pub stop_atr_mult : F
  pub take_profit_rr : F
  pub reason : String
  pub metadata : Dict String F

pub record StrategyRule (F : Type 0) : Type 0 where
  pub name : String
  pub generate : Dict String F → Dict String F → Option (Dict String F) → RuleOutput F

pub record PortfolioSnapshot (F : Type 0) : Type 0 where
  pub value : F
  pub exposure_pct : F
  pub drawdown_pct : F
  pub daily_loss_pct : F

-- What risk-mgmt answers; a key may be missing.
pub record PortfolioAnswer (F : Type 0) : Type 0 where
  pub value : Option F
  pub exposure_pct : Option F
  pub drawdown_pct : Option F
  pub daily_loss_pct : Option F

-- The metadata of the event is that of the rule, its reason and the reason of the gate.
pub record SignalGenerated (F : Type 0) : Type 0 where
  pub symbol : String
  pub strategy_name : String
  pub signal : Signal
  pub confidence : F
  pub price : F
  pub stop_loss : F
  pub take_profit : F
  pub metadata : Dict String F
  pub rule_reason : String
  pub risk_reason : GateReason

-- The reason of a status change: a backtest's recommendation and degradation, or the metrics.
pub data ChangeReason (F : Type 0) : Type 0 where
  backtest_revalidation : String → F → ChangeReason F
  decay : HealthReason → ChangeReason F

pub record StatusChanged (F : Type 0) : Type 0 where
  pub strategy_name : String
  pub old_status : Status
  pub new_status : Status
  pub reason : ChangeReason F
  pub sharpe_90d : F
  pub profit_factor_30d : Option F

pub record Revalidated (F : Type 0) : Type 0 where
  pub strategy_name : String
  pub recommended_status : String
  pub current_oos_sharpe : F
  pub degradation_pct : F

pub data Published (F : Type 0) : Type 0 where
  generated : SignalGenerated F → Published F
  changed : StatusChanged F → Published F

pub record Service (F : Type 0) : Type 0 where
  pub rules : Dict String (StrategyRule F)
  pub health : Dict String (Tracker F)
  pub limits : RiskLimits F
  pub cost : CostAwareFilter F
  pub portfolio : PortfolioSnapshot F
  pub rule_params : Dict String (Dict String F)
  pub fallback_stop_pct : F
  pub edge_bps : F
  pub cap_tier : String
  pub published : List (Published F)

pub record Env (F : Type 0) : Type 0 where
  pub publishes : Published F → Bool
  pub get_ranked : String → Outcome (Option (Dict String F))
  pub get_features : String → Outcome (Option (Dict String F))
  pub has_portfolio_client : Bool
  pub get_portfolio : Outcome (Option (PortfolioAnswer F))
