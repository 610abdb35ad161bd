-- ===== src/Gates/Approval.antt =====
-- shared/trading-common/src/trading_common/risk_envelope.py: what an approval says.
use market_app.Prelude.{ℕ, String, ◌≡◌, ◌↔◌, true, false, not, ◌&&◌, Option, arith}
use market_app.Prelude.Dict.{Dict, is_some}
use market_app.Float.{Float, lt, le, abs}
use market_app.Gates.Envelope.{TradingSignal, RiskLimits, check_signal, sector_full, places_order}

module _ {F : Type 0} ⦃fl : Float F⦄ where
  -- The gate approves a signal exactly if the drawdown and the daily loss are not at their limits,
  -- the confidence is not below its minimum, the exposure is not at its limit, the sector, where it
  -- is known, has room, and a BUY or SELL carries a stop.
  pub check_signal_approves_iff :
      (l : RiskLimits F) (signal : TradingSignal F) (exposure drawdown daily_loss : F)
      (counts : Dict String ℕ) (sector : Option String)
      → ((check_signal l signal exposure drawdown daily_loss counts sector).0 ≡ true) ↔ (
          (le l.max_drawdown_pct (abs drawdown) ≡ false)
          × (le l.max_daily_loss_pct (abs daily_loss) ≡ false)
          × (lt signal.confidence l.min_confidence ≡ false)
          × (le l.max_portfolio_exposure_pct exposure ≡ false)
          × (sector_full l.max_correlated_positions counts sector ≡ false)
          × ((places_order signal.signal && not (is_some signal.stop_loss)) ≡ false))
  unfolding check_signal
  check_signal_approves_iff l signal exposure drawdown daily_loss counts sector = ground arith
