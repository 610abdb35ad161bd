-- ===== src/Fundamental/Piotroski.antt =====
-- services/fundamental-data/src/core/piotroski.py.
mod Scores
mod Tests
use market_app.Prelude.{ℕ, ◌+◌, Bool, true, false, Option, none, some, if◌then◌else◌}
use market_app.Float.{Float, lt, le, feq, quot, nought}

-- The fields of `FinancialStatements` that the score reads.
pub record FinancialStatements (F : Type 0) : Type 0 where
  pub revenue : Option F
  pub net_income : Option F
  pub operating_cash_flow : Option F
  pub total_assets : Option F
  pub total_liabilities : Option F
  pub current_assets : Option F
  pub current_liabilities : Option F
  pub shares_outstanding : Option F

pub record FScoreBreakdown : Type 0 where
  pub positive_net_income : Bool
  pub positive_operating_cash_flow : Bool
  pub quality_of_earnings : Bool
  pub improving_roa : Bool
  pub decreasing_leverage : Bool
  pub improving_current_ratio : Bool
  pub no_dilution : Bool
  pub improving_net_margin : Bool
  pub improving_asset_turnover : Bool

abbrev pub as_int : Bool → ℕ
as_int true = 1
as_int false = 0

unfoldable pub score : FScoreBreakdown → ℕ
score b =
    as_int b.positive_net_income
    + as_int b.positive_operating_cash_flow
    + as_int b.quality_of_earnings
    + as_int b.improving_roa
    + as_int b.decreasing_leverage
    + as_int b.improving_current_ratio
    + as_int b.no_dilution
    + as_int b.improving_net_margin
    + as_int b.improving_asset_turnover

module _ {F : Type 0} where
  -- A test of two values that fails where one of them is missing.
  abbrev pub both : (F → F → Bool) → Option F → Option F → Bool
  both test none y = false
  both test (some x) none = false
  both test (some x) (some y) = test x y

module _ {F : Type 0} ⦃fl : Float F⦄ where
  unfoldable pub ratio : Option F → Option F → Option F
  ratio none y = none
  ratio (some x) none = none
  ratio (some x) (some y) = if feq y nought then none else some (quot x y)

  abbrev pub above : F → F → Bool
  above x y = lt y x

  -- The three signals of the current period, the others at their default.
  unfoldable pub current_signals : FinancialStatements F → FScoreBreakdown
  current_signals current = record {
    positive_net_income = both above current.net_income (some nought);
    positive_operating_cash_flow = both above current.operating_cash_flow (some nought);
    quality_of_earnings = both above current.operating_cash_flow current.net_income;
    improving_roa = false;
    decreasing_leverage = false;
    improving_current_ratio = false;
    no_dilution = false;
    improving_net_margin = false;
    improving_asset_turnover = false;
  }

  unfoldable pub compute_f_score :
      FinancialStatements F → Option (FinancialStatements F) → FScoreBreakdown
  compute_f_score current none = current_signals current
  compute_f_score current (some prior) = record (current_signals current) {
    improving_roa =
        both above (ratio current.net_income current.total_assets)
          (ratio prior.net_income prior.total_assets);
    decreasing_leverage =
        both lt (ratio current.total_liabilities current.total_assets)
          (ratio prior.total_liabilities prior.total_assets);
    improving_current_ratio =
        both above (ratio current.current_assets current.current_liabilities)
          (ratio prior.current_assets prior.current_liabilities);
    no_dilution = both le current.shares_outstanding prior.shares_outstanding;
    improving_net_margin =
        both above (ratio current.net_income current.revenue)
          (ratio prior.net_income prior.revenue);
    improving_asset_turnover =
        both above (ratio current.revenue current.total_assets)
          (ratio prior.revenue prior.total_assets);
  }
