-- ===== src/MlPipeline/Gate/Tests.antt =====
-- The gate of services/ml-pipeline/src/core/gate.py on one model, in fixed-point numbers.
use market_app.Prelude.{◌≤◌, ◌≡◌, refl, String_eq, true, some, List, [], ◌∷◌, All, length}
use market_app.Prelude.Dict.{get, HasDistinctKeys}
use market_app.Prelude.Int.{pos}
use market_app.Float.{◌≼◌, ◌≺◌}
use market_app.Float.Fixed.{Fixed, fixed_float, Fixed-IsIeee}
use market_app.MlPipeline.Numpy.{fixed_numpy}
use market_app.MlPipeline.Gate.{
  GateThresholds, GateCondition, RelativeMetrics, FoldReport, condition, sanity, rank_information,
  beats_baseline, economics, calibration, deflated_sharpe, passed, evaluate_gate, is_informative,
  is_sane, is_economic, is_calibrated, ic_tstat, baseline, best_feature, best_from, stitched,
  count_active, last_three,
}
use market_app.MlPipeline.Gate.Evidence.{passed_gate_has_evidence}

abbrev bars : GateThresholds Fixed
bars = record {
  sharpe = pos 5_000;
  active_sharpe = pos 0;
  ic_tstat = pos 20_000;
  dsr = pos 9_000;
  n_trials = 10;
  min_recent_folds = 1;
  min_portfolio_sessions = 20;
}

abbrev relative_metrics : RelativeMetrics Fixed
relative_metrics = record {
  ic_mean = pos 500;
  ic_std = pos 2_000;
  n_cross_sections = 60;
  sharpe_active = pos 8_000;
}

abbrev report : FoldReport Fixed
report = record {
  best_epoch = some (pos 120_000);
  pred_std = pos 300;
  lift = pos 100;
  n_sessions = 60;
  portfolio_sharpe = pos 15_000;
  returns = pos 10 ∷ [];
  auc = pos 5_600;
  brier_delta = pos 0;
  brier_delta_se = pos 10;
  relative = some relative_metrics;
  baseline_ic = ("momentum_20", pos 300) ∷ ("rsi_14", pos 400) ∷ [];
}

abbrev all_six : List GateCondition
all_six =
    condition sanity true
    ∷ condition rank_information true
    ∷ condition beats_baseline true
    ∷ condition economics true
    ∷ condition calibration true
    ∷ condition deflated_sharpe true
    ∷ []

gate_run : evaluate_gate (λ xs n. pos 9_500) bars report (report ∷ []) ≡ some all_six
unfolding evaluate_gate is_informative is_sane is_economic is_calibrated ic_tstat baseline
    best_feature best_from count_active get stitched
gate_run = refl

distinct : HasDistinctKeys report.baseline_ic
unfolding get
distinct = (refl, (refl, tt))

passed_gate_has_evidence_example :
    (rel : RelativeMetrics Fixed) × (report.relative ≡ some rel)
    × All (λ e. e.1 ≺ rel.ic_mean) report.baseline_ic
    × (bars.active_sharpe ≺ rel.sharpe_active)
    × (bars.sharpe ≺ report.portfolio_sharpe)
    × (1 ≤ count_active bars.active_sharpe (last_three (report ∷ [])))
    × (20 ≤ report.n_sessions)
    × (1 ≤ length (report ∷ []))
    × (bars.dsr ≼ pos 9_500)
unfolding passed
passed_gate_has_evidence_example =
    passed_gate_has_evidence ⦃ie = Fixed-IsIeee⦄ (λ xs n. pos 9_500) bars report (report ∷ [])
      all_six distinct (refl, (refl, tt)) gate_run refl
