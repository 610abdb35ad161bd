-- ===== src/RiskMgmt/Events.antt =====
-- services/risk-mgmt/src/core/service.py: the state of the service and what its handlers take; the
-- events of shared/trading-common/src/trading_common/events.py that it reads and publishes.
use market_app.Prelude.{ℕ, String, Bool, Option, List}
use market_app.Prelude.Dict.{Dict}
use market_app.RiskMgmt.Breaker.{Breaker, BreakerSnapshot, Level, Metric, Action}
use market_app.RiskMgmt.Ledger.{Ledger, Key, Timestamp}
use market_app.RiskMgmt.Portfolio.{Portfolio, PortfolioDict}
use market_app.RiskMgmt.Sizing.{Sizer}

-- `OrderIntent` of events.py.
pub data OrderIntent : Type 0 where
  new reduce liquidate : OrderIntent

-- `OrderRequestedEvent` and `CircuitBreakerTriggeredEvent`, less the fields of `BaseEvent`.
pub record OrderRequested (F : Type 0) : Type 0 where
  pub symbol : String
  pub side : String
  pub quantity : F
  pub price : F
  pub strategy_name : String
  pub stop_loss : F
  pub take_profit : Option F
  pub intent : OrderIntent

pub record BreakerTriggered (F : Type 0) : Type 0 where
  pub level : Level
  pub trigger_metric : Metric
  pub current_value : F
  pub threshold_value : F
  pub action_taken : Action

pub data Published (F : Type 0) : Type 0 where
  requested : OrderRequested F → Published F
  triggered : BreakerTriggered F → Published F

-- `_snapshot`.
pub record Snapshot (F : Type 0) : Type 0 where
  pub portfolio : PortfolioDict F
  pub orders : Dict Key ℕ
  pub breaker : BreakerSnapshot

-- The fields of `SignalAggregatedEvent` and of `SignalGeneratedEvent` that the service reads.
pub record SignalAggregated (F : Type 0) : Type 0 where
  pub symbol : String
  pub final_signal : String
  pub price : Option F
  pub stop_loss : Option F
  pub take_profit : Option F
  pub strategy_name : Option String
  pub sector : Option String
  pub timestamp : Timestamp

pub record SignalGenerated (F : Type 0) : Type 0 where
  pub symbol : String
  pub signal : String
  pub price : F
  pub stop_loss : Option F
  pub take_profit : Option F
  pub strategy_name : String

pub record Service (F : Type 0) : Type 0 where
  pub portfolio : Portfolio F
  pub breaker : Breaker F
  pub ledger : Ledger
  pub sizer : Sizer F
  pub published : List (Published F)
  pub persisted : Option (Snapshot F)

-- Which publications and writes go through, and the date of the clock.
pub record Env (F : Type 0) : Type 0 where
  pub publishes : Published F → Bool
  pub saves : Snapshot F → Bool
  pub today : ℕ

-- The arguments of `_risk_check_and_order`.
pub record Request (F : Type 0) : Type 0 where
  pub symbol : String
  pub side : String
  pub price : Option F
  pub stop_loss : Option F
  pub take_profit : Option F
  pub strategy_name : String
  pub sector : Option String
  pub intent : OrderIntent
