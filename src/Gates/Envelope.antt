-- ===== src/Gates/Envelope.antt =====
-- shared/trading-common/src/trading_common/risk_envelope.py. The text of a reason is a constructor.
use market_app.Prelude.{
  ℕ, String, Bool, true, false, not, ◌&&◌, Option, none, some, leb, ltb, if◌then◌else◌, String_eq,
}
use market_app.Prelude.Dict.{Dict, get, is_some}
use market_app.Float.{Float, lt, le, abs, nought, one}

-- `Signal` of schemas.py.
pub data Signal : Type 0 where
  buy sell hold : Signal

-- The fields of `TradingSignal` that the gate reads.
pub record TradingSignal (F : Type 0) : Type 0 where
  pub signal : Signal
  pub confidence : F
  pub stop_loss : Option F

pub record RiskLimits (F : Type 0) : Type 0 where
  pub max_position_pct : F
  pub max_portfolio_exposure_pct : F
  pub max_single_loss_pct : F
  pub max_daily_loss_pct : F
  pub max_drawdown_pct : F
  pub max_correlated_positions : ℕ
  pub min_confidence : F

pub data GateReason : Type 0 where
  drawdown_exceeds daily_loss_exceeds confidence_below exposure_exceeds : GateReason
  sector_limit missing_stop_loss approved : GateReason

-- `sector_positions.get(sector, 0)`
abbrev pub count_of : String → Dict String ℕ → ℕ
count_of sector counts = elim (get sector counts) [ none ↦ 0 | some n ↦ n ]

abbrev pub sector_full : ℕ → Dict String ℕ → Option String → Bool
sector_full limit counts none = false
sector_full limit counts (some sector) = leb limit (count_of sector counts)

abbrev pub places_order : Signal → Bool
places_order hold = false
places_order _ = true

module _ {F : Type 0} ⦃fl : Float F⦄ where
  abbrev pub in_unit : F → Bool
  in_unit x = lt nought x && le x one

  -- `__post_init__`: `none` is ValueError.
  unfoldable pub new_limits : RiskLimits F → Option (RiskLimits F)
  new_limits l =
      if not (
        in_unit l.max_position_pct
        && in_unit l.max_portfolio_exposure_pct
        && in_unit l.max_single_loss_pct
        && in_unit l.max_daily_loss_pct
        && in_unit l.max_drawdown_pct
        && in_unit l.min_confidence)
      then none
      else if ltb l.max_correlated_positions 1
      then none
      else some l

  unfoldable pub check_signal :
      RiskLimits F → TradingSignal F → F → F → F → Dict String ℕ → Option String → Bool × GateReason
  check_signal l signal exposure_pct drawdown_pct daily_loss_pct sector_positions sector =
      if le l.max_drawdown_pct (abs drawdown_pct)
      then (false, drawdown_exceeds)
      else if le l.max_daily_loss_pct (abs daily_loss_pct)
      then (false, daily_loss_exceeds)
      else if lt signal.confidence l.min_confidence
      then (false, confidence_below)
      else if le l.max_portfolio_exposure_pct exposure_pct
      then (false, exposure_exceeds)
      else if sector_full l.max_correlated_positions sector_positions sector
      then (false, sector_limit)
      else if places_order signal.signal && not (is_some signal.stop_loss)
      then (false, missing_stop_loss)
      else (true, approved)
