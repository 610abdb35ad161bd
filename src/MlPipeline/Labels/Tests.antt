-- ===== src/MlPipeline/Labels/Tests.antt =====
-- The labels of services/ml-pipeline/src/core/labels.py on a few bars, in fixed-point numbers.
use market_app.Prelude.{◌≡◌, refl, none, some, List, [], ◌∷◌, arith}
use market_app.Prelude.Act.{done}
use market_app.Prelude.Int.{pos}
use market_app.Float.Fixed.{Fixed, fixed_float}
use market_app.MlPipeline.Numpy.{fixed_numpy}
use market_app.MlPipeline.Labels.{
  LabelParams, BarrierOutcome, upper, triple_barrier_label, label_with, trailing_sigma,
  label_window, scan, probe_bar, get_elem?, lower_barrier, upper_barrier, excess_barrier_label,
  probe_excess, outcome_drop_after_days,
}
use market_app.MlPipeline.Labels.Bars.{Resolves}
use market_app.MlPipeline.Labels.FirstTouch.{label_is_first_touch}

abbrev params : LabelParams Fixed
params = record { sigma_window = 1; pt_mult = pos 10_000; sl_mult = pos 10_000; horizon = 2 }

abbrev closes : List Fixed
closes = pos 1_000_000 ∷ pos 1_000_000 ∷ pos 1_010_000 ∷ pos 1_030_000 ∷ []

abbrev market : List Fixed
market = pos 1_000_000 ∷ pos 1_000_000 ∷ pos 1_000_000 ∷ pos 1_000_000 ∷ []

abbrev up : BarrierOutcome
up = record { label = 1; touch_index = 3; barrier = upper }

label_run : triple_barrier_label closes closes closes 1 params ≡ done (some up)
unfolding triple_barrier_label label_with trailing_sigma label_window scan probe_bar
label_run = refl

truncated_run : triple_barrier_label closes closes closes 2 params ≡ done none
unfolding triple_barrier_label label_with trailing_sigma label_window scan probe_bar
truncated_run = refl

label_is_first_touch_example :
    (sigma : Fixed) × (start : Fixed) × (trailing_sigma closes 1 1 ≡ some sigma)
    × (get_elem? closes 1 ≡ some start)
    × Resolves closes closes
        (lower_barrier params sigma start)
        (upper_barrier params sigma start)
        4
        2
        1
        up
label_is_first_touch_example =
    label_is_first_touch closes closes closes 1 params up (omega arith) label_run

excess_run : excess_barrier_label closes market 1 params ≡ done (some up)
unfolding excess_barrier_label label_window scan probe_excess
excess_run = refl

-- The cutoffs that the comment of the function names.
drop_after : (outcome_drop_after_days 63 ≡ 274) × (outcome_drop_after_days 10 ≡ 44)
unfolding outcome_drop_after_days
drop_after = (refl, refl)
