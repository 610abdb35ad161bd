-- ===== src/MacroData/Regime/Tests.antt =====
-- services/macro-data/src/core/regime.py at concrete readings, in fixed-point numbers.
use market_app.Prelude.{◌≤◌, ◌≡◌, refl, none, some}
use market_app.Prelude.Int.{pos, negsuc}
use market_app.Float.Fixed.{Fixed, fixed_float, Fixed-IsIeee}
use market_app.MacroData.Regime.{RegimeThresholds, slowdown, contraction, classify_regime}
use market_app.MacroData.Regime.Severity.{severity_of, worse_readings_not_milder}

abbrev defaults : RegimeThresholds Fixed
defaults = record {
  crisis_spread = pos 30_000;
  stress_spread = pos 20_000;
  pmi_contraction = pos 480_000;
  pmi_slowdown = pos 520_000;
  pmi_expansion = pos 550_000;
  deep_inversion = negsuc 4_999;
}

worse_readings_not_milder_example :
    severity_of
      (classify_regime defaults (some (pos 1_000)) (some (pos 15_000)) (some (pos 530_000)))
    ≤ severity_of
        (classify_regime defaults (some (negsuc 0)) (some (pos 25_000)) (some (pos 500_000)))
worse_readings_not_milder_example =
    worse_readings_not_milder ⦃ie = Fixed-IsIeee⦄ defaults (some (pos 1_000)) (some (negsuc 0))
      (some (pos 15_000)) (some (pos 25_000)) (pos 530_000) (pos 500_000) refl refl refl refl refl

-- Without a PMI a flat curve is a contraction, and with a wider spread it is a slowdown.
flat_curve : classify_regime defaults (some (pos 0)) (some (pos 10_000)) none ≡ some contraction
unfolding classify_regime
flat_curve = refl

flat_curve_stressed :
    classify_regime defaults (some (pos 0)) (some (pos 25_000)) none ≡ some slowdown
unfolding classify_regime
flat_curve_stressed = refl
