-- ===== src/Execution/Reports.antt =====
-- services/execution/src/core/paper_broker.py: what the broker reports, and its persisted form.
use market_app.Prelude.{
  ℕ, ◌-◌, String, not, Option, none, some, List, if◌then◌else◌, length, drop, ◌==◌, ℕ_eq, String_eq,
}
use market_app.Prelude.Dict.{Dict, keep_values}
use market_app.Float.{Float, lt, feq, sub, quot, max, nought}
use market_app.Execution.Book.{Broker, Position, equity, gross_exposure_value}

pub record Metrics (F : Type 0) : Type 0 where
  pub value : F
  pub exposure_pct : F
  pub drawdown_pct : F
  pub daily_loss_pct : F

-- `day_start_date` and the protective levels may be missing in an older snapshot.
pub record BrokerSnapshot (F : Type 0) : Type 0 where
  pub cash : F
  pub peak_equity : F
  pub day_start_equity : F
  pub day_start_date : Option ℕ
  pub processed_orders : List String
  pub equity_curve : List (ℕ × F)
  pub positions : Dict String (Position F)

abbrev date_or : Option ℕ → ℕ → ℕ
date_or none today = today
date_or (some day) today = day

module _ {F : Type 0} ⦃fl : Float F⦄ where
  unfoldable pub metrics : Broker F → Metrics F
  unfolding equity
  metrics b =
      let value = equity b in
      let drawdown =
        if lt nought b.peak_equity then quot (sub b.peak_equity value) b.peak_equity else nought in
      let daily_loss =
        if lt nought b.day_start_equity
        then quot (sub b.day_start_equity value) b.day_start_equity
        else nought in
      record {
        value = value;
        exposure_pct = if lt nought value then quot (gross_exposure_value b) value else nought;
        drawdown_pct = max nought drawdown;
        daily_loss_pct = max nought daily_loss;
      }

  -- `positions()`.
  unfoldable pub open_positions : Broker F → Dict String (Position F)
  open_positions b = keep_values (λ p. not (feq p.quantity nought)) b.positions

  -- `equity_curve()`; `[-0:]` is the whole list.
  unfoldable pub equity_points : Broker F → Option ℕ → List (ℕ × F)
  equity_points b none = b.equity_curve
  equity_points b (some limit) =
      if limit == 0 then b.equity_curve else drop (length b.equity_curve - limit) b.equity_curve

  unfoldable pub snapshot : Broker F → BrokerSnapshot F
  snapshot b = record {
    cash = b.cash;
    peak_equity = b.peak_equity;
    day_start_equity = b.day_start_equity;
    day_start_date = some b.day_start_date;
    processed_orders = b.processed_orders;
    equity_curve = b.equity_curve;
    positions = b.positions;
  }

  unfoldable pub restore : ℕ → BrokerSnapshot F → Broker F → Broker F
  restore today s b = record b {
    cash = s.cash;
    peak_equity = s.peak_equity;
    day_start_equity = s.day_start_equity;
    day_start_date = date_or s.day_start_date today;
    processed_orders = s.processed_orders;
    equity_curve = s.equity_curve;
    positions = s.positions;
  }
