-- ===== src/Backtest/Revalidation.antt =====
-- services/backtest/src/core/continuous_validation.py and walk_forward.py.
use market_app.Prelude.{ℕ, ◌-◌, String, some, List, length, if◌then◌else◌}
use market_app.Prelude.Act.{Outcome, done, raised}
use market_app.Float.{Float, lt, le, sub, quot, neg, abs, nought}
use market_app.MlPipeline.Numpy.{Numpy}
use market_app.Backtest.Positions.{Rule, Arrays, BacktestResult, run_rule_backtest}

pub record WalkForwardResult (F : Type 0) : Type 0 where
  pub strategy_name : String
  pub original_oos_sharpe : F
  pub current_oos_sharpe : F
  pub degradation_pct : F
  pub recommended_status : String
  pub oos_window_days : ℕ
  pub is_window_days : ℕ

pub record WalkForward (F : Type 0) : Type 0 where
  pub cost_bps : F
  pub oos_window_days : ℕ
  pub is_window_days : ℕ
  pub degradation_threshold : F

module _ {F : Type 0} ⦃fl : Float F⦄ where
  unfoldable pub degradation : F → F → F
  degradation original current =
      if lt nought original
      then quot (sub original current) original
      else if lt original nought
      then quot (neg (sub current original)) (abs original)
      else nought

  unfoldable pub status_for : F → F → F → String
  status_for threshold degradation_pct current =
      if lt current nought
      then "deactivate"
      else if le threshold degradation_pct
      then "probation"
      else "active"

  abbrev pub verdict : WalkForward F → String → F → Outcome F → Outcome (WalkForwardResult F)
  verdict w strategy_name original raised = raised
  verdict w strategy_name original (done current) =
      let degradation_pct = degradation original current in
      done (record {
        strategy_name = strategy_name;
        original_oos_sharpe = original;
        current_oos_sharpe = current;
        degradation_pct = degradation_pct;
        recommended_status = status_for w.degradation_threshold degradation_pct current;
        oos_window_days = w.oos_window_days;
        is_window_days = w.is_window_days;
      })

  abbrev pub sharpe_result : Outcome (BacktestResult F) → Outcome F
  sharpe_result raised = raised
  sharpe_result (done r) = done r.sharpe_ratio

module _ {F : Type 0} ⦃fl : Float F⦄ ⦃np : Numpy F⦄ where
  -- `prices` stands for `adjusted_closes(bars)`.
  unfoldable pub run_backtest :
      {B : Type 0} → WalkForward F → Arrays F → Rule B F → List B → List F → Outcome F
  run_backtest w ar rule bars prices =
      sharpe_result
        (run_rule_backtest ar rule bars prices w.cost_bps (some (length bars - w.oos_window_days)))

  unfoldable pub revalidate :
      {B : Type 0}
      → WalkForward F
      → Arrays F
      → Rule B F
      → List B
      → List F
      → String
      → F
      → Outcome (WalkForwardResult F)
  revalidate w ar rule bars prices strategy_name original =
      verdict w strategy_name original (run_backtest w ar rule bars prices)
