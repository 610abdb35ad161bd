-- ===== src/Aggregator/Vote.antt =====
-- services/signal-aggregator/src/core/aggregator.py. A HOLD stands for any signal but BUY and SELL.
use market_app.Prelude.{String, Option, none, some, List, [], ◌∷◌, if◌then◌else◌, ◌==◌, String_eq}
use market_app.Prelude.Dict.{Dict, get}
use market_app.Float.{Float, le, mul, neg, abs, min, sum, literal, nought, one}

pub record SignalComponent (F : Type 0) : Type 0 where
  pub source : String
  pub signal : String
  pub confidence : F

module _ {F : Type 0} ⦃fl : Float F⦄ where
  abbrev macro_component : String → F → SignalComponent F
  macro_component signal confidence = record {
    source = "macro";
    signal = signal;
    confidence = confidence;
  }

  -- None for an unknown regime and for slowdown.
  unfoldable pub regime_to_component : String → Option (SignalComponent F)
  regime_to_component regime =
      if regime == "expansion"
      then some (macro_component "BUY" (literal 5 1))
      else if regime == "recovery"
      then some (macro_component "BUY" (literal 3 1))
      else if regime == "contraction"
      then some (macro_component "SELL" (literal 3 1))
      else if regime == "crisis"
      then some (macro_component "SELL" (literal 6 1))
      else none

  unfoldable pub signed : SignalComponent F → F
  signed c =
      if c.signal == "BUY"
      then c.confidence
      else if c.signal == "SELL"
      then neg c.confidence
      else nought

  abbrev pub weight_of : Dict String F → String → F
  weight_of weights source = elim (get source weights) [ none ↦ nought | some w ↦ w ]

  unfoldable pub votes : Dict String F → List (SignalComponent F) → List F
  votes weights [] = []
  votes weights (c ∷ cs) = mul (weight_of weights c.source) (signed c) ∷ votes weights cs

  -- The signal, the confidence and the score.
  unfoldable pub combine : List (SignalComponent F) → Dict String F → F → String × F × F
  combine [] weights buy_threshold = ("HOLD", nought, nought)
  combine (c ∷ cs) weights buy_threshold =
      let score = sum (votes weights (c ∷ cs)) in
      let signal =
        if le buy_threshold score
        then "BUY"
        else if le score (neg buy_threshold)
        then "SELL"
        else "HOLD" in
      (signal, min (abs score) one, score)
