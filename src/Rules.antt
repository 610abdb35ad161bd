-- ===== src/Rules.antt =====
-- shared/trading-common/src/trading_common/strategies: the rules that read one feature vector, and
-- the helpers of base.py. An exception, the lookup of a parameter that is not there, is `raised`.
pub mod Confidence
mod Tests
use market_app.Prelude.{
  String, Bool, true, false, not, ◌&&◌, ◌||◌, Option, none, some, List, [], ◌∷◌, if◌then◌else◌,
  String_eq,
}
use market_app.Prelude.Act.{Outcome, done, raised, bind_option}
use market_app.Prelude.Dict.{Dict, get, put}
use market_app.Float.{Float, lt, le, add, sub, mul, quot, neg, abs, min, literal, nought, one}
use market_app.Gates.Envelope.{Signal, buy, sell, hold}
use market_app.Strategy.Events.{RuleOutput}

module _ {F : Type 0} where
  -- `{**defaults, **params}`
  unfoldable pub merge : Dict String F → Dict String F → Dict String F
  merge defaults [] = defaults
  merge defaults ((k, v) ∷ params) = merge (put k v defaults) params

  abbrev pub apply_params : Dict String F → Option (Dict String F) → Dict String F
  apply_params defaults none = defaults
  apply_params defaults (some params) = merge defaults params

  -- `p[key]`
  abbrev pub with_param : {A : Type 0} → Option F → (F → Outcome A) → Outcome A
  with_param none f = raised
  with_param (some v) f = f v

  -- `pick`, of one name and more
  abbrev pub pick_two : Dict String F → String → String → Option (F × F)
  pick_two source a b = bind_option (get a source) λ x. bind_option (get b source) λ y. some (x, y)

  abbrev pub pick_three : Dict String F → String → String → String → Option (F × F × F)
  pick_three source a b c =
      bind_option (get a source) λ x. bind_option (pick_two source b c) λ (y, z). some (x, y, z)

  abbrev pub pick_four : Dict String F → String → String → String → String → Option (F × F × F × F)
  pick_four source a b c d =
      bind_option (get a source)
        λ x. bind_option (pick_three source b c d) λ (y, z, w). some (x, y, z, w)

module _ {F : Type 0} ⦃fl : Float F⦄ where
  abbrev pub half : F
  half = literal 5 1

  abbrev pub hold_output : RuleOutput F
  hold_output = record {
    signal = hold;
    confidence = half;
    stop_atr_mult = literal 20 1;
    take_profit_rr = literal 20 1;
    reason = "no_setup";
    metadata = [];
  }

  -- HOLD where there is nothing to go by.
  abbrev pub if_some :
      {A : Type 0} → Option A → (A → Outcome (RuleOutput F)) → Outcome (RuleOutput F)
  if_some none f = done hold_output
  if_some (some a) f = f a

  unfoldable pub saturating_confidence : F → F → F
  saturating_confidence magnitude full_scale =
      if le full_scale nought
      then half
      else add half (mul half (min one (quot (abs magnitude) full_scale)))

  -- The output of a rule for a direction and the strength of its evidence.
  unfoldable pub decided :
      Dict String F → Signal → F → String → String → Dict String F → Outcome (RuleOutput F)
  decided p direction magnitude scale_key reason meta = with_param (get scale_key p) λ full_scale.
      with_param (get "stop_atr_mult" p) λ stop. with_param (get "take_profit_rr" p) λ reward.
        done (record {
          signal = direction;
          confidence = saturating_confidence magnitude full_scale;
          stop_atr_mult = stop;
          take_profit_rr = reward;
          reason = reason;
          metadata = meta;
        })

  -- strategies/reversion.py
  abbrev pub reversion_defaults : Dict String F
  reversion_defaults =
      ("rsi_oversold", literal 30 0)
      ∷ ("rsi_overbought", literal 70 0)
      ∷ ("band_lower", literal 5 2)
      ∷ ("band_upper", literal 95 2)
      ∷ ("full_confidence_rsi", literal 10 0)
      ∷ ("stop_atr_mult", literal 15 1)
      ∷ ("take_profit_rr", literal 15 1)
      ∷ []

  unfoldable pub reversion_on : Dict String F → F × F → Outcome (RuleOutput F)
  reversion_on p (rsi, pct_b) =
      let meta = ("rsi", rsi) ∷ ("bb_pct_b", pct_b) ∷ [] in
      with_param (get "rsi_oversold" p) λ oversold. with_param (get "band_lower" p) λ band_lower.
        if le rsi oversold && le pct_b band_lower
        then decided p buy (sub oversold rsi) "full_confidence_rsi" "oversold_at_lower_band" meta
        else with_param (get "rsi_overbought" p) λ overbought.
          with_param (get "band_upper" p) λ band_upper.
            if le overbought rsi && le band_upper pct_b
            then decided p sell (sub rsi overbought) "full_confidence_rsi"
                "overbought_at_upper_band" meta
            else done hold_output

  unfoldable pub reversion : Dict String F → Option (Dict String F) → Outcome (RuleOutput F)
  reversion raw params =
      if_some (pick_two raw "rsi_14" "bb_pct_b")
        (reversion_on (apply_params reversion_defaults params))

  -- strategies/trend.py
  abbrev pub crossover_defaults : Dict String F
  crossover_defaults =
      ("full_confidence_spread", literal 3 2)
      ∷ ("stop_atr_mult", literal 20 1)
      ∷ ("take_profit_rr", literal 20 1)
      ∷ []

  -- The direction on which two signed readings agree.
  abbrev pub agreed : F → F → Option Signal
  agreed x y =
      if lt nought x && lt nought y
      then some buy
      else if lt x nought && lt y nought
      then some sell
      else none

  unfoldable pub crossover_on : Dict String F → F × F × F × F → Outcome (RuleOutput F)
  crossover_on p (ema_12, ema_26, sma_20, sma_50) =
      let fast_spread = sub (quot ema_12 ema_26) one in
      let slow_spread = sub (quot sma_20 sma_50) one in
      if le ema_26 nought || le sma_50 nought
      then done hold_output
      else if_some (agreed fast_spread slow_spread) λ direction.
        decided p direction (min (abs fast_spread) (abs slow_spread)) "full_confidence_spread"
          "ema_and_sma_pairs_agree"
          (("fast_spread", fast_spread) ∷ ("slow_spread", slow_spread) ∷ [])

  unfoldable pub crossover : Dict String F → Option (Dict String F) → Outcome (RuleOutput F)
  crossover raw params =
      if_some (pick_four raw "ema_12" "ema_26" "sma_20" "sma_50")
        (crossover_on (apply_params crossover_defaults params))

  abbrev pub macd_defaults : Dict String F
  macd_defaults =
      ("full_confidence_hist", literal 1 2)
      ∷ ("stop_atr_mult", literal 20 1)
      ∷ ("take_profit_rr", literal 20 1)
      ∷ []

  unfoldable pub macd_on : Dict String F → F × F × F → Outcome (RuleOutput F)
  macd_on p (macd_hist, close, ret) =
      let hist = quot macd_hist close in
      if le close nought
      then done hold_output
      else if_some (agreed hist ret) λ direction.
        decided p direction hist "full_confidence_hist" "histogram_confirms_20d_return"
          (("macd_hist_pct", hist) ∷ ("return_20d", ret) ∷ [])

  unfoldable pub macd : Dict String F → Option (Dict String F) → Outcome (RuleOutput F)
  macd raw params =
      if_some (pick_three raw "macd_hist" "close" "return_20d")
        (macd_on (apply_params macd_defaults params))

  abbrev pub breakout_defaults : Dict String F
  breakout_defaults =
      ("full_confidence_excess", literal 10 2)
      ∷ ("stop_atr_mult", literal 25 1)
      ∷ ("take_profit_rr", literal 25 1)
      ∷ []

  unfoldable pub breakout_on : Dict String F → F → Outcome (RuleOutput F)
  breakout_on p position =
      let meta = ("donchian_pos_20", position) ∷ [] in
      if lt one position
      then decided p buy (sub position one) "full_confidence_excess"
          "closed_outside_prior_20d_channel" meta
      else if lt position nought
      then decided p sell (neg position) "full_confidence_excess" "closed_outside_prior_20d_channel"
          meta
      else done hold_output

  unfoldable pub breakout : Dict String F → Option (Dict String F) → Outcome (RuleOutput F)
  breakout raw params =
      if_some (get "donchian_pos_20" raw) (breakout_on (apply_params breakout_defaults params))
