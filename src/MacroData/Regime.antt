-- ===== src/MacroData/Regime.antt =====
-- services/macro-data/src/core/regime.py.
pub mod Severity
mod Tests
use market_app.Prelude.{ℕ, Bool, true, false, ◌&&◌, Option, none, some, if◌then◌else◌}
use market_app.Float.{Float, lt, le, nought}

pub data MacroRegime : Type 0 where
  expansion : MacroRegime
  recovery : MacroRegime
  slowdown : MacroRegime
  contraction : MacroRegime
  crisis : MacroRegime

pub record RegimeThresholds (F : Type 0) : Type 0 where
  pub crisis_spread : F
  pub stress_spread : F
  pub pmi_contraction : F
  pub pmi_slowdown : F
  pub pmi_expansion : F
  pub deep_inversion : F

module _ {F : Type 0} where
  -- `x is not None and test(x)`
  abbrev pub present : (F → Bool) → Option F → Bool
  present test none = false
  present test (some x) = test x

module _ {F : Type 0} ⦃fl : Float F⦄ where
  -- `above x y` is x > y, and `reaches x y` is x >= y
  abbrev pub above : F → F → Bool
  above x y = lt y x

  abbrev pub reaches : F → F → Bool
  reaches x y = le y x

  -- The last rules: without a PMI the curve is the only signal left.
  abbrev pub fallback : Option F → Option MacroRegime
  fallback none = none
  fallback (some curve) = if above curve nought then some expansion else some contraction

  abbrev pub growth : RegimeThresholds F → Option F → Option F → Option MacroRegime
  growth t none curve = fallback curve
  growth t (some pmi) curve = if reaches pmi t.pmi_expansion then some expansion else some recovery

  unfoldable pub classify_regime :
      RegimeThresholds F → Option F → Option F → Option F → Option MacroRegime
  classify_regime t curve spread pmi =
      if present (λ s. reaches s t.crisis_spread) spread
      then some crisis
      else if present (λ c. le c t.deep_inversion) curve
          && present (λ p. lt p t.pmi_contraction) pmi
      then some crisis
      else if present (λ p. lt p t.pmi_contraction) pmi
      then some contraction
      else if present (λ c. lt c nought) curve
      then some contraction
      else if present (λ p. lt p t.pmi_slowdown) pmi
      then some slowdown
      else if present (λ s. reaches s t.stress_spread) spread
      then some slowdown
      else growth t pmi curve
