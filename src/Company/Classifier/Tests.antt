-- ===== src/Company/Classifier/Tests.antt =====
-- services/company-classifier/src/core/classifier.py on two companies, in fixed-point numbers.
use market_app.Prelude.{◌≤◌, none, some}
use market_app.Prelude.Int.{pos}
use market_app.Float.Fixed.{Fixed, fixed_float}
use market_app.Company.Classifier.{StyleThresholds, ValuationMetrics, classify}
use market_app.Company.Classifier.Routes.{classify_by_scores}

abbrev defaults : StyleThresholds Fixed
defaults = record {
  growth_revenue = pos 1_500;
  growth_earnings = pos 1_500;
  growth_pe = pos 250_000;
  growth_max_dividend = pos 100;
  value_pe = pos 150_000;
  value_pb = pos 15_000;
  value_dividend = pos 300;
}

abbrev fast : ValuationMetrics Fixed
fast = record {
  pe_ratio = some (pos 400_000);
  pb_ratio = some (pos 10_000);
  revenue_growth = some (pos 3_000);
  earnings_growth = none;
  dividend_yield = none;
}

classify_by_scores_example : (classify (some "Energy") none (some fast) defaults).value_score ≤ 3
classify_by_scores_example =
    let (_, few, _, _, _) = classify_by_scores (some "Energy") none (some fast) defaults in few
