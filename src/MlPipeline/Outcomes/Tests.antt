-- ===== src/MlPipeline/Outcomes/Tests.antt =====
-- The resolution of votes by services/ml-pipeline/src/core/outcomes.py, in fixed-point numbers.
use market_app.Prelude.{ℕ, ◌≡◌, refl, String, String_eq, false, none, List, [], ◌∷◌}
use market_app.Prelude.Act.{done}
use market_app.Prelude.Int.{ℤ, pos}
use market_app.Float.Fixed.{Fixed, fixed_float}
use market_app.Prices.{PriceBar, adjustment_factor}
use market_app.MlPipeline.Numpy.{fixed_numpy}
use market_app.MlPipeline.Labels.{
  triple_barrier_label, label_with, trailing_sigma, label_window, scan, probe_bar,
}
use market_app.MlPipeline.Outcomes.{
  InferenceRecord, Resolver, resolve, entry_from, resolve_one, resolve_each, resolve_pending,
}

abbrev resolver : Resolver Fixed
resolver = record {
  params = record { sigma_window = 1; pt_mult = pos 10_000; sl_mult = pos 10_000; horizon = 2 };
  excess = false;
  drop_after_days = 9;
}

abbrev bar_on : ℕ → ℤ → PriceBar Fixed
bar_on day price = record {
  timestamp = day;
  open_price = price;
  high = price;
  low = price;
  close = price;
  adj_close = none;
}

abbrev bars : List (PriceBar Fixed)
bars =
    bar_on 0 (pos 1_000_000)
    ∷ bar_on 86_400 (pos 1_000_000)
    ∷ bar_on 172_800 (pos 1_010_000)
    ∷ bar_on 259_200 (pos 1_030_000)
    ∷ []

abbrev vote : String → ℕ → InferenceRecord Fixed
vote symbol at = record {
  symbol = symbol;
  at = at;
  signal = "BUY";
  resolved = false;
  label = none;
  signed_return = none;
  correct = none;
  resolved_at = none;
}

-- A matured vote pays its return.
matured_run :
    (resolve_pending resolver 300_000 (λ s. done bars) (λ s. []) (vote "AAA" 90_000 ∷ [])).0
    ≡ done (pos 300 ∷ [])
unfolding resolve_pending resolve_each resolve_one entry_from resolve triple_barrier_label
    label_with trailing_sigma label_window scan probe_bar adjustment_factor
matured_run = refl
