-- ===== src/RiskMgmt/Sizing.antt =====
-- services/risk-mgmt/src/core/adaptive_sizing.py and sizing.py. `none` is an exception: ValueError
-- of the constructor, ZeroDivisionError of a division, and that of `int` at NaN and infinities.
pub mod Bounds
use market_app.Prelude.{
  ℕ, String, Bool, true, false, not, ◌&&◌, ◌||◌, Option, none, some, if◌then◌else◌,
}
use market_app.Prelude.Int.{ℤ, pos, leb_ℤ, ltb_ℤ}
use market_app.Prelude.Act.{bind_option}
use market_app.Float.{Float, le, lt, sub, mul, div, abs, int, literal, nought, one}
use market_app.RiskMgmt.Portfolio.{Portfolio}
use market_app.RiskMgmt.Regime.{max_exposure, is_sector_allowed}

pub record Sizer (F : Type 0) : Type 0 where
  pub base_risk : F
  pub dd_start : F
  pub dd_end : F
  pub max_position_pct : F

pub data SizeReason : Type 0 where
  exposure_cap sector_blocked zero_size sized : SizeReason

-- `min` of two Python integers.
abbrev pub min_ℤ : ℤ → ℤ → ℤ
min_ℤ a b = if ltb_ℤ b a then b else a

abbrev pub blocks_sector : String → Option String → Bool
blocks_sector regime none = false
blocks_sector regime (some sector) = not (is_sector_allowed regime sector)

module _ {F : Type 0} ⦃fl : Float F⦄ where
  -- The constructor.
  unfoldable pub new_sizer : F → F → F → F → Option (Sizer F)
  new_sizer base_risk_per_trade dd_scaling_start dd_scaling_end max_position_pct =
      if le base_risk_per_trade nought
      then none
      else if lt dd_scaling_start nought
      then none
      else if le dd_scaling_end dd_scaling_start
      then none
      else if le max_position_pct nought
      then none
      else some (record {
        base_risk = base_risk_per_trade;
        dd_start = dd_scaling_start;
        dd_end = dd_scaling_end;
        max_position_pct = max_position_pct;
      })

  unfoldable pub compute_risk_budget : Sizer F → F → Option F
  compute_risk_budget s current_drawdown_pct =
      let dd = abs current_drawdown_pct in
      if le dd s.dd_start
      then some s.base_risk
      else if le s.dd_end dd
      then some nought
      else bind_option (div (sub dd s.dd_start) (sub s.dd_end s.dd_start))
          λ progress. some (mul s.base_risk (sub one progress))

  -- The share count once the budget and the risk of a share are known to be positive.
  shares_within : Sizer F → F → F → F → F → Option ℤ
  shares_within s portfolio_value entry_price risk_budget risk_per_share =
      bind_option (div (mul portfolio_value risk_budget) risk_per_share) λ by_risk.
        bind_option (int by_risk) λ shares.
          bind_option (div (mul portfolio_value s.max_position_pct) entry_price) λ by_position.
            bind_option (int by_position) λ max_shares. some (min_ℤ shares max_shares)

  unfoldable pub position_size : Sizer F → F → F → F → F → Option ℤ
  unfolding compute_risk_budget shares_within
  position_size s portfolio_value entry_price stop_loss_price current_drawdown_pct =
      bind_option (compute_risk_budget s current_drawdown_pct) λ risk_budget.
        if le risk_budget nought
        then some (pos 0)
        else let risk_per_share = abs (sub entry_price stop_loss_price) in
          if le risk_per_share nought
          then some (pos 0)
          else shares_within s portfolio_value entry_price risk_budget risk_per_share

  -- `PositionSizer.size`.
  unfoldable pub size : Sizer F → F → F → Portfolio F → Option String → Option (ℤ × SizeReason)
  size s price stop_loss portfolio sector =
      if le (max_exposure portfolio.regime) portfolio.exposure_pct
      then some (pos 0, exposure_cap)
      else if blocks_sector portfolio.regime sector
      then some (pos 0, sector_blocked)
      else bind_option (position_size s portfolio.value price stop_loss portfolio.drawdown_pct)
          λ shares. if leb_ℤ shares (pos 0) then some (pos 0, zero_size) else some (shares, sized)
