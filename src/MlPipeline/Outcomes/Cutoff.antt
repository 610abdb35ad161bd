-- ===== src/MlPipeline/Outcomes/Cutoff.antt =====
-- No vote waits past the cutoff of services/ml-pipeline/src/core/outcomes.py.
use market_app.Prelude.{ℕ, ◌≡◌, ◌⊎◌, String, true, false, ◌&&◌, Option, List, [], ◌∷◌, All}
use market_app.Prelude.Act.{Outcome, done, raised}
use market_app.Float.{Float}
use market_app.Prices.{PriceBar}
use market_app.MlPipeline.Numpy.{Numpy}
use market_app.MlPipeline.Outcomes.{InferenceRecord, Resolver, is_pending, too_old}

module _ {F : Type 0} (s : Resolver F) (now : ℕ) where
  -- Not a vote that still waits though it is past the cutoff.
  abbrev pub IsTimely : InferenceRecord F → Type 0
  IsTimely r = is_pending r && too_old s now r ≡ false

  abbrev Handled : Outcome (Option F) × InferenceRecord F → Type 0
  Handled (raised, r) = Unit
  Handled (done o, r) = IsTimely r

  abbrev Sound : Outcome (List F) × List (InferenceRecord F) → Type 0
  Sound (raised, records) = Unit
  Sound (done returns, records) = All IsTimely records

module _ {F : Type 0} where
  -- A pending vote of the log for whose symbol the market client raises.
  abbrev pub Blocks : (String → Outcome (List (PriceBar F))) → List (InferenceRecord F) → Type 0
  Blocks get_ohlcv [] = ⊥
  Blocks get_ohlcv (r ∷ records) =
      (is_pending r ≡ true) × (get_ohlcv r.symbol ≡ raised) ⊎ Blocks get_ohlcv records

  -- The market client answers for the symbol of every pending vote of the log.
  abbrev pub AllAnswered :
      (String → Outcome (List (PriceBar F))) → List (InferenceRecord F) → Type 0
  AllAnswered get_ohlcv = All (λ r.
      (is_pending r ≡ false) ⊎ ((bars : List (PriceBar F)) × (get_ohlcv r.symbol ≡ done bars)))
