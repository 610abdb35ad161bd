-- ===== src/Lib.antt =====
-- The order path of the trading system, and the services that feed it and judge its models. The
-- strategy service publishes signals that pass the risk
-- envelope and the cost filter; signal-aggregator buffers them, joins them with the ML vote and the
-- macro bias and publishes one decision; risk-mgmt turns decisions into sized orders behind a circuit
-- breaker and keeps a ledger of them; execution fills the orders in a paper broker, watches the
-- protective levels and closes the book on a flatten event. Messages between the services may be
-- redelivered, writes and publications may fail, and containers restart from what is persisted.
-- market-data pulls the bars; macro-data, company-classifier and fundamental-data grade what they
-- read; ml-pipeline splits and labels the sessions that models are trained on and gates the models;
-- backtest replays the rules that the strategy service runs and recommends their status.
--
-- Parts and files. All paths are from the root of the repository.
-- - Sectors: shared/trading-common/src/trading_common/sectors.py.
-- - RiskMgmt: services/risk-mgmt/src/core. Breaker is circuit_breaker.py, Ledger is order_ledger.py
--   (`record_order` is `record`), Portfolio is portfolio.py, Regime is regime_allocator.py, Sizing is
--   adaptive_sizing.py with `PositionSizer.size` of sizing.py, Events the state and the events, and
--   Service the handlers of service.py.
-- - Execution: services/execution/src/core. Book, Broker and Reports are paper_broker.py
--   (`open_positions` is `positions`, `equity_points` is `equity_curve`), Service is service.py.
-- - Gates: shared/trading-common/src/trading_common/risk_envelope.py and cost_filter.py.
-- - Strategy: services/strategy/src/core. Health is decay_monitor.py and health.py, Events and
--   Service are service.py (`evaluate_rule` is `_evaluate_rule`).
-- - Aggregator: services/signal-aggregator/src/core. Vote is aggregator.py, Weights is
--   adaptive_weights.py, Service and Window are service.py (Window has the handlers and the tasks).
-- - Rules: shared/trading-common/src/trading_common/strategies, base.py, reversion.py and trend.py
--   (`reversion`, `crossover`, `macd` and `breakout` are the `generate` of the four rules).
-- - MarketData: services/market-data/src/core. Incremental is incremental.py, Catchup is catchup.py
--   and the heartbeat of services/market-data/src/main.py (`maybe_sync` is `_maybe_sync`), Fallback
--   is the FallbackFetcher of fetchers/base.py, Service is service.py (`sync_each` is the loop of
--   `sync_universe`).
-- - MacroData: services/macro-data/src/core/regime.py.
-- - Company: services/company-classifier/src/core/classifier.py.
-- - Fundamental: services/fundamental-data/src/core/piotroski.py.
-- - MlPipeline: services/ml-pipeline/src/core. Splits is splits.py, Labels is labels.py, Gate is
--   gate.py, Cpcv is cpcv.py, Outcomes is outcomes.py with the records of inference_log.py
--   (`resolve_one` is `_resolve_one`); Numpy is an interface to the numpy functions they call.
-- - Prices: shared/trading-common/src/trading_common/prices.py.
-- - Backtest: services/backtest/src/core. Positions is rule_engine.py and engine.py, Revalidation is
--   continuous_validation.py and walk_forward.py.
-- - Scheduler: shared/trading-common/src/trading_common/scheduler.py (`until_hour` is
--   `seconds_until_hour`, both in microseconds).
-- - Notification: services/notification/src/core, alerts.py and service.py (`handle` is the five
--   handlers).
-- - Float: Python's float, as an interface with the laws of IEEE 754 that the theorems use;
--   Float.Fixed is an executable instance of it. Prelude: shared helpers, dictionaries, and
--   code that may raise (Prelude.Act).
--
-- How the model corresponds to the code. A handler is a function from the state of its service to
-- an outcome, a value or an exception, and the state it leaves; what was written before an
-- exception stays written. What a service publishes and persists is recorded in its state. The
-- publisher, the repository, the market client and uuid4 are parameters: the record `Env` of each
-- service says which of their calls raise and what they return. Handlers start from the parsed
-- event and run one after the other. A handler reads the clock once; the
-- market-data heartbeat takes its three readings as arguments. Dates are ordinals, sessions
-- those of the UTC date. A dictionary is an association list in the order of insertion; a set is a
-- list of which only membership is used. Loops are structural recursion; the one on fuel is the
-- while loop of the walk-forward splits, whose fuel is one more than the number of sessions.
--
-- Not modelled: parsing and printing of events, logging, the metrics endpoints, the HTTP routes and
-- clients, the databases, feature computation and model training, which are numpy, pandas and
-- lightgbm, the dashboard, the notification channels and the operational scripts.
pub mod Company
pub mod Rules
pub mod Scheduler
pub mod Notification
pub mod Prices
pub mod Backtest
pub mod Fundamental
pub mod MlPipeline
pub mod MacroData
pub mod MarketData
pub mod Prelude
pub mod Float
pub mod Sectors
pub mod Gates
pub mod RiskMgmt
pub mod Execution
pub mod Strategy
pub mod Aggregator
