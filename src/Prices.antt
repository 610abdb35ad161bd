-- ===== src/Prices.antt =====
-- shared/trading-common/src/trading_common/prices.py.
use market_app.Prelude.{Option, none, some, List, [], ◌∷◌, ℕ, if◌then◌else◌}
use market_app.Float.{Float, lt, mul, quot, nought, one}

-- The fields of `OHLCVBar` that are read here; `timestamp` is in seconds.
pub record PriceBar (F : Type 0) : Type 0 where
  pub timestamp : ℕ
  pub open_price : F
  pub high : F
  pub low : F
  pub close : F
  pub adj_close : Option F

module _ {F : Type 0} ⦃fl : Float F⦄ where
  unfoldable pub adjustment_factor : PriceBar F → F
  adjustment_factor bar = elim bar.adj_close [
    | none ↦ one
    | some adjusted ↦ if lt nought bar.close then quot adjusted bar.close else one
  ]

  abbrev pub adjusted_close : PriceBar F → F
  adjusted_close bar = elim bar.adj_close [ none ↦ bar.close | some adjusted ↦ adjusted ]

  abbrev pub adjusted_highs : List (PriceBar F) → List F
  adjusted_highs [] = []
  adjusted_highs (b ∷ bars) = mul b.high (adjustment_factor b) ∷ adjusted_highs bars

  abbrev pub adjusted_lows : List (PriceBar F) → List F
  adjusted_lows [] = []
  adjusted_lows (b ∷ bars) = mul b.low (adjustment_factor b) ∷ adjusted_lows bars

  abbrev pub adjusted_closes : List (PriceBar F) → List F
  adjusted_closes [] = []
  adjusted_closes (b ∷ bars) = adjusted_close b ∷ adjusted_closes bars
