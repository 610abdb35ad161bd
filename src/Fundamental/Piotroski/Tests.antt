-- ===== src/Fundamental/Piotroski/Tests.antt =====
-- services/fundamental-data/src/core/piotroski.py on two periods, in fixed-point numbers.
use market_app.Prelude.{◌≤◌, ◌≡◌, refl, none, some, inl, inr}
use market_app.Prelude.Int.{pos}
use market_app.Float.Fixed.{Fixed, fixed_float}
use market_app.Fundamental.Piotroski.{
  FinancialStatements, score, ratio, current_signals, compute_f_score,
}
use market_app.Fundamental.Piotroski.Scores.{OmitsFrom, missing_figures_do_not_score}

abbrev last_year : FinancialStatements Fixed
last_year = record {
  revenue = some (pos 100);
  net_income = some (pos 10);
  operating_cash_flow = some (pos 12);
  total_assets = some (pos 200);
  total_liabilities = some (pos 120);
  current_assets = some (pos 50);
  current_liabilities = some (pos 40);
  shares_outstanding = some (pos 1_000);
}

abbrev this_year : FinancialStatements Fixed
this_year = record last_year {
  revenue = some (pos 130);
  net_income = some (pos 20);
  operating_cash_flow = some (pos 25);
  total_liabilities = some (pos 100);
  current_assets = some (pos 60);
}

full_marks : score (compute_f_score this_year (some last_year)) ≡ 9
unfolding score ratio current_signals compute_f_score
full_marks = refl

-- Without this year's shares and last year's assets.
abbrev partial_year : FinancialStatements Fixed
partial_year = record this_year { shares_outstanding = none }

abbrev partial_prior : FinancialStatements Fixed
partial_prior = record last_year { total_assets = none }

partial_year-OmitsFrom : OmitsFrom partial_year this_year
partial_year-OmitsFrom = record {
  revenue_of = inr refl;
  net_income_of = inr refl;
  operating_cash_flow_of = inr refl;
  total_assets_of = inr refl;
  total_liabilities_of = inr refl;
  current_assets_of = inr refl;
  current_liabilities_of = inr refl;
  shares_outstanding_of = inl refl;
}

partial_prior-OmitsFrom : OmitsFrom partial_prior last_year
partial_prior-OmitsFrom = record {
  revenue_of = inr refl;
  net_income_of = inr refl;
  operating_cash_flow_of = inr refl;
  total_assets_of = inl refl;
  total_liabilities_of = inr refl;
  current_assets_of = inr refl;
  current_liabilities_of = inr refl;
  shares_outstanding_of = inr refl;
}

missing_figures_do_not_score_example :
    score (compute_f_score partial_year (some partial_prior))
    ≤ score (compute_f_score this_year (some last_year))
missing_figures_do_not_score_example =
    missing_figures_do_not_score partial_year this_year (some partial_prior) (some last_year)
      partial_year-OmitsFrom partial_prior-OmitsFrom
