-- ===== src/RiskMgmt/Portfolio.antt =====
-- services/risk-mgmt/src/core/portfolio.py.
use market_app.Prelude.{ℕ, String, Option, none, some}
use market_app.Prelude.Dict.{Dict}

pub record Portfolio (F : Type 0) : Type 0 where
  pub value : F
  pub exposure_pct : F
  pub drawdown_pct : F
  pub daily_loss_pct : F
  pub regime : String
  pub sector_positions : Dict String ℕ

abbrev pub get_or : {A : Type 0} → Option A → A → A
get_or none default = default
get_or (some a) default = a

-- The arguments of `update`, each of them None where it is left out.
pub record PortfolioUpdate (F : Type 0) : Type 0 where
  pub value : Option F
  pub exposure_pct : Option F
  pub drawdown_pct : Option F
  pub daily_loss_pct : Option F
  pub regime : Option String

unfoldable pub update : {F : Type 0} → Portfolio F → PortfolioUpdate F → Portfolio F
update p u = record p {
  value = get_or u.value p.value;
  exposure_pct = get_or u.exposure_pct p.exposure_pct;
  drawdown_pct = get_or u.drawdown_pct p.drawdown_pct;
  daily_loss_pct = get_or u.daily_loss_pct p.daily_loss_pct;
  regime = get_or u.regime p.regime;
}

-- `as_dict`: what is persisted of a portfolio.
pub record PortfolioDict (F : Type 0) : Type 0 where
  pub value : F
  pub exposure_pct : F
  pub drawdown_pct : F
  pub daily_loss_pct : F
  pub regime : String

unfoldable pub as_dict : {F : Type 0} → Portfolio F → PortfolioDict F
as_dict p = record {
  value = p.value;
  exposure_pct = p.exposure_pct;
  drawdown_pct = p.drawdown_pct;
  daily_loss_pct = p.daily_loss_pct;
  regime = p.regime;
}
