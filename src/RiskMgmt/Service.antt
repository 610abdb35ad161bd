-- ===== src/RiskMgmt/Service.antt =====
-- services/risk-mgmt/src/core/service.py. A handler runs to its end before the next one starts. The
-- publisher and the repository are not code of the service: `Env` says which of their calls raise.
-- What they are given is recorded in `published` and `persisted`.
pub mod Orders
pub mod Restart
pub mod Updates
mod Tests
use market_app.Prelude.{
  ℕ, String, Bool, true, false, not, ◌&&◌, ◌||◌, Option, none, some, List, [], ◌∷◌, ◌++◌,
  if◌then◌else◌, ◌==◌, String_eq,
}
use market_app.Prelude.Int.{ℤ, pos, leb_ℤ}
use market_app.Prelude.Dict.{Dict}
use market_app.Prelude.Act.{Outcome, done, raised, Act, ◌>>=◌, ◌>>◌, pure, lift_option, modify}
use market_app.Float.{Float, of_int}
use market_app.RiskMgmt.Breaker
use market_app.RiskMgmt.Breaker.{
  Breaker, BreakerResult, BreakerSnapshot, Level, Metric, Action, ResetResult, is_tripped,
}
use market_app.RiskMgmt.Ledger
use market_app.RiskMgmt.Ledger.{Ledger, Key, Timestamp, session_of, already_placed, record_order}
use market_app.RiskMgmt.Portfolio.{Portfolio, PortfolioDict, PortfolioUpdate, update, as_dict}
use market_app.RiskMgmt.Events.{
  OrderIntent, new, OrderRequested, BreakerTriggered, Published, requested, triggered, Snapshot,
  SignalAggregated, SignalGenerated, Service, Env, Request,
}
use market_app.RiskMgmt.Sizing.{Sizer, SizeReason, size}

abbrev pub is_actionable : String → Bool
is_actionable signal = signal == "BUY" || signal == "SELL"

-- `name or "aggregated"`; an empty name counts as none.
abbrev pub name_or : Option String → String → String
name_or none default = default
name_or (some name) default = if name == "" then default else name

pub key_of : {F : Type 0} → SignalAggregated F → Key
unfolding session_of
key_of e = record { symbol = e.symbol; side = e.final_signal; session = session_of e.timestamp }

module _ {F : Type 0} where
  pub snapshot : Service F → Snapshot F
  unfolding as_dict Breaker.snapshot Ledger.snapshot
  snapshot s = record {
    portfolio = as_dict s.portfolio;
    orders = Ledger.snapshot s.ledger;
    breaker = Breaker.snapshot s.breaker;
  }

  save : Env F → Act (Service F) (Unit {0})
  unfolding snapshot
  save env s =
      if env.saves (snapshot s)
      then (done tt, record s { persisted = some (snapshot s) })
      else (raised, s)

  publish : Env F → Published F → Act (Service F) (Unit {0})
  publish env event s =
      if env.publishes event
      then (done tt, record s { published = s.published ++ event ∷ [] })
      else (raised, s)

abbrev pub is_new : OrderIntent → Bool
is_new new = true
is_new _ = false

module _ {F : Type 0} ⦃fl : Float F⦄ where
  abbrev pub order_of : Request F → F → F → ℤ → OrderRequested F
  order_of r price stop_loss shares = record {
    symbol = r.symbol;
    side = r.side;
    quantity = of_int shares;
    price = price;
    strategy_name = r.strategy_name;
    stop_loss = stop_loss;
    take_profit = r.take_profit;
    intent = r.intent;
  }

  -- From the sized share count on.
  place : Env F → Request F → F → F → ℤ → Act (Service F) (Option (OrderRequested F))
  unfolding publish
  place env r price stop_loss shares = if leb_ℤ shares (pos 0) then pure none else do
    publish env (requested (order_of r price stop_loss shares))
    pure (some (order_of r price stop_loss shares))

  size_and_place :
      Env F → Request F → Option F → Option F → Act (Service F) (Option (OrderRequested F))
  unfolding place
  size_and_place env r (some price) (some stop_loss) s =
      (do
        sized ← lift_option (size s.sizer price stop_loss s.portfolio r.sector)
        place env r price stop_loss sized.0)
        s
  size_and_place env r _ _ s = (done none, s)

  pub risk_check_and_order : Env F → Request F → Act (Service F) (Option (OrderRequested F))
  unfolding size_and_place is_tripped
  risk_check_and_order env r s =
      if is_tripped s.breaker && is_new r.intent
      then (done none, s)
      else size_and_place env r r.price r.stop_loss s

  abbrev pub request_of : SignalAggregated F → Request F
  request_of e = record {
    symbol = e.symbol;
    side = e.final_signal;
    price = e.price;
    stop_loss = e.stop_loss;
    take_profit = e.take_profit;
    strategy_name = name_or e.strategy_name "aggregated";
    sector = e.sector;
    intent = new;
  }

  -- Only a placed order is recorded and persisted.
  record_placed :
      Env F → Key → Option (OrderRequested F) → Act (Service F) (Option (OrderRequested F))
  unfolding save
  record_placed env key none = pure none
  record_placed env key (some placed) = do
    modify (λ s. record s { ledger = record_order s.ledger key })
    save env
    pure (some placed)

  pub process_aggregated : Env F → SignalAggregated F → Act (Service F) (Option (OrderRequested F))
  unfolding record_placed key_of
  process_aggregated env e s =
      if not (is_actionable e.final_signal)
      then (done none, s)
      else if already_placed s.ledger (key_of e)
      then (done none, s)
      else (do
        placed ← risk_check_and_order env (request_of e)
        record_placed env (key_of e) placed)
          s

  pub process_signal : Env F → SignalGenerated F → Act (Service F) (Option (OrderRequested F))
  process_signal env g s =
      if not (is_actionable g.signal)
      then (done none, s)
      else risk_check_and_order env
          (record {
            symbol = g.symbol;
            side = g.signal;
            price = some g.price;
            stop_loss = g.stop_loss;
            take_profit = g.take_profit;
            strategy_name = g.strategy_name;
            sector = none;
            intent = new;
          })
          s

  abbrev triggered_of : BreakerResult F → Level → BreakerTriggered F
  triggered_of result level = record {
    level = level;
    trigger_metric = result.trigger_metric;
    current_value = result.current_value;
    threshold_value = result.threshold;
    action_taken = result.action;
  }

  announce :
      Env F → BreakerResult F → Bool → Option Level → Act (Service F) (Option (BreakerTriggered F))
  unfolding publish
  announce env result true (some level) = do
    publish env (triggered (triggered_of result level))
    pure (some (triggered_of result level))
  announce env result _ _ = pure none

  pub update_portfolio : Env F → PortfolioUpdate F → Act (Service F) (Option (BreakerTriggered F))
  unfolding announce save update
  update_portfolio env u s =
      let p = update s.portfolio u in
      let (b, result) = Breaker.evaluate s.breaker p.drawdown_pct p.daily_loss_pct env.today in
      (do save env; announce env result result.changed result.level)
        (record s { portfolio = p; breaker = b })

  -- `handle_regime_changed_event`, once the event is parsed.
  pub handle_regime_changed : Env F → String → Act (Service F) (Option (BreakerTriggered F))
  unfolding update_portfolio
  handle_regime_changed env new_regime = update_portfolio env (record {
    value = none;
    exposure_pct = none;
    drawdown_pct = none;
    daily_loss_pct = none;
    regime = some new_regime;
  })

  pub reset_breaker : Env F → Act (Service F) ResetResult
  unfolding save
  reset_breaker env s =
      let (b, result) =
        Breaker.reset s.breaker s.portfolio.drawdown_pct s.portfolio.daily_loss_pct env.today in
      let s' = record s { breaker = b } in
      if result.cleared then (do save env; pure result) s' else (done result, s')

  -- `restore`: what `load` returns is applied to a service that has just been constructed.
  pub restore : Env F → Option (Snapshot F) → Service F → Service F
  unfolding update
  restore env none s = s
  restore env (some snap) s =
      let p = update s.portfolio (record {
        value = some snap.portfolio.value;
        exposure_pct = some snap.portfolio.exposure_pct;
        drawdown_pct = some snap.portfolio.drawdown_pct;
        daily_loss_pct = some snap.portfolio.daily_loss_pct;
        regime = some snap.portfolio.regime;
      }) in
      let b = Breaker.restore s.breaker (some snap.breaker) in
      record s {
        portfolio = p;
        ledger = Ledger.restore s.ledger snap.orders;
        breaker = (Breaker.evaluate b p.drawdown_pct p.daily_loss_pct env.today).0;
      }
