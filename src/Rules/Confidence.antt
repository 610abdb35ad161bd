-- ===== src/Rules/Confidence.antt =====
-- The rules of shared/trading-common/src/trading_common/strategies never raise, and grade their
-- evidence between a half and one.
use market_app.Prelude.{
  ◌≡◌, inl, inr, refl, String, Bool, true, false, ◌&&◌, ◌||◌, Option, none, some, [], ◌∷◌,
  if◌then◌else◌, ◌==◌, String_eq, Bool-cases, arith,
}
use market_app.Prelude.Act.{Outcome, done, raised}
use market_app.Prelude.Dict.{Dict, get, put, get-put}
use market_app.Float.{
  Float, IsIeee, IsNumber, lt, le, add, sub, neg, mul, quot, abs, min, nought, one, ◌≼◌, ◌≺◌,
}
use market_app.Gates.Envelope.{Signal, buy, sell}
use market_app.Strategy.Events.{RuleOutput}
use market_app.Rules.{
  merge, apply_params, with_param, pick_two, pick_three, pick_four, half, saturating_confidence,
  decided, reversion_defaults, reversion_on, reversion, crossover_defaults, agreed, crossover_on,
  crossover, macd_defaults, macd_on, macd, breakout_defaults, breakout_on, breakout, if_some,
}

-- Of a quotient and of the scale from a half to one, as IEEE 754 has them.
pub record IsGraded (F : Type 0) ⦃fl : Float F⦄ : Type 0 where
  pub unit : (nought {F = F} ≼ one) × (IsNumber {F = F} one)
  pub half_between : (half {F = F} ≼ half) × (half {F = F} ≼ one)
  pub quot_number : (x y : F) → IsNumber (quot x y) → IsNumber x
  pub abs_is_number : (x : F) → IsNumber (abs x) → IsNumber x
  pub quot_nonneg :
      (x y : F) → nought ≼ x → le y nought ≡ false → IsNumber (quot x y) → nought ≼ quot x y
  pub scaled :
      (u : F)
      → nought ≼ u
      → u ≼ one
      → (half ≼ add half (mul half u)) × (add half (mul half u) ≼ one)

module _ {F : Type 0} where
  abbrev Has : String → Dict String F → Type 0
  Has k p = (v : F) × (get k p ≡ some v)

  merge-Has :
      (k : String) (defaults params : Dict String F)
      → Has k defaults
      → Has k (merge defaults params)
  unfolding merge
  merge-Has k defaults [] h = h
  merge-Has k defaults ((j, w) ∷ params) (v, e) =
      merge-Has k (put j w defaults) params (elim (Bool-cases (j == k)) [
        | inl b ↦ (w, ground (arith, get-put j k w defaults, b))
        | inr b ↦ (v, ground (arith, get-put j k w defaults, b, e))
      ])

  apply_params-Has :
      (k : String) (defaults : Dict String F) (params : Option (Dict String F)) (v : F)
      → get k defaults ≡ some v
      → Has k (apply_params defaults params)
  apply_params-Has k defaults none v e = (v, e)
  apply_params-Has k defaults (some params) v e = merge-Has k defaults params (v, e)

module _ {F : Type 0} ⦃fl : Float F⦄ where
  abbrev pub IsBounded : RuleOutput F → Type 0
  IsBounded o = (half ≼ o.confidence) × (o.confidence ≼ one)

  abbrev Good : Outcome (RuleOutput F) → Type 0
  Good (done o) = IsBounded o
  Good raised = ⊥

  Good-if : (b : Bool) (x y : Outcome (RuleOutput F)) → Good x → Good y → Good (if b then x else y)
  Good-if true x y h k = h
  Good-if false x y h k = k

  Good-result :
      (r : Outcome (RuleOutput F)) → Good r → (o : RuleOutput F) × (r ≡ done o) × IsBounded o
  Good-result (done o) h = (o, refl, h)
  Good-result raised h = elim h [ ]

  with_param-Good :
      (o : Option F) (f : F → Outcome (RuleOutput F))
      → (v : F) × (o ≡ some v)
      → ((v : F) → Good (f v))
      → Good (with_param o f)
  with_param-Good none f (v, e) h = ground (arith, e)
  with_param-Good (some v) f e h = h v

module _ {F : Type 0} ⦃fl : Float F⦄ ⦃ie : IsIeee F⦄ ⦃gr : IsGraded F⦄ where
  lt_le : (x y : F) → x ≺ y → x ≼ y
  lt_le x y h =
      let (n, m) = ie.lt_numbers x y h in
      ground (arith, h, ie.lt-not-le x y n m, ie.le_total x y n m)

  capped_unit :
      (magnitude scale : F)
      → le scale nought ≡ false
      → let u = min one (quot (abs magnitude) scale) in (nought ≼ u) × (u ≼ one)
  capped_unit magnitude scale h =
      let q = quot (abs magnitude) scale in
      elim (Bool-cases (lt q one)) [
        | inl e ↦
            let (n, _) = ie.lt_numbers q one e in
            let m =
              ie.abs_number magnitude
                (gr.abs_is_number magnitude (gr.quot_number (abs magnitude) scale n)) in
            rw e (gr.quot_nonneg (abs magnitude) scale m h n, lt_le q one e)
        | inr e ↦ rw e gr.unit
      ]

  confidence_bounds :
      (magnitude scale : F)
      → let c = saturating_confidence magnitude scale in (half ≼ c) × (c ≼ one)
  unfolding saturating_confidence
  confidence_bounds magnitude scale = elim (Bool-cases (le scale nought)) [
    | inl e ↦ rw e gr.half_between
    | inr e ↦
        let (low, high) = capped_unit magnitude scale e in
        rw e (gr.scaled (min one (quot (abs magnitude) scale)) low high)
  ]

  decided-Good :
      (p : Dict String F) (direction : Signal) (magnitude : F) (key reason : String)
      (meta : Dict String F)
      → Has key p
      → Has "stop_atr_mult" p
      → Has "take_profit_rr" p
      → Good (decided p direction magnitude key reason meta)
  unfolding decided
  decided-Good p direction magnitude key reason meta (scale, a) (stop, b) (reward, c) =
      rw (a, b, c) (confidence_bounds magnitude scale)

  if_some-Good :
      {A : Type 0}
      → (o : Option A) (f : A → Outcome (RuleOutput F)) → ((a : A) → Good (f a))
      → Good (if_some o f)
  if_some-Good none f h = gr.half_between
  if_some-Good (some a) f h = h a

  reversion_on-Good :
      (params : Option (Dict String F)) (f : F × F)
      → Good (reversion_on (apply_params reversion_defaults params) f)
  unfolding reversion_on get
  reversion_on-Good params (rsi, pct_b) =
      let p = apply_params reversion_defaults params in
      let meta = ("rsi", rsi) ∷ ("bb_pct_b", pct_b) ∷ [] in
      let scale = apply_params-Has "full_confidence_rsi" reversion_defaults params _ refl in
      let stop = apply_params-Has "stop_atr_mult" reversion_defaults params _ refl in
      let reward = apply_params-Has "take_profit_rr" reversion_defaults params _ refl in
      with_param-Good (get "rsi_oversold" p) _
        (apply_params-Has "rsi_oversold" reversion_defaults params _ refl)
        λ oversold.
          with_param-Good (get "band_lower" p) _
            (apply_params-Has "band_lower" reversion_defaults params _ refl)
            λ band_lower.
              Good-if (le rsi oversold && le pct_b band_lower) _ _
                (decided-Good p buy (sub oversold rsi) "full_confidence_rsi"
                  "oversold_at_lower_band" meta scale stop reward)
                (with_param-Good (get "rsi_overbought" p) _
                  (apply_params-Has "rsi_overbought" reversion_defaults params _ refl)
                  λ overbought.
                    with_param-Good (get "band_upper" p) _
                      (apply_params-Has "band_upper" reversion_defaults params _ refl)
                      λ band_upper.
                        Good-if (le overbought rsi && le band_upper pct_b) _ _
                          (decided-Good p sell (sub rsi overbought) "full_confidence_rsi"
                            "overbought_at_upper_band" meta scale stop reward)
                          gr.half_between)

  crossover_on-Good :
      (params : Option (Dict String F)) (f : F × F × F × F)
      → Good (crossover_on (apply_params crossover_defaults params) f)
  unfolding crossover_on get
  crossover_on-Good params (ema_12, ema_26, sma_20, sma_50) =
      let p = apply_params crossover_defaults params in
      let fast = sub (quot ema_12 ema_26) one in
      let slow = sub (quot sma_20 sma_50) one in
      Good-if (le ema_26 nought || le sma_50 nought) _ _ gr.half_between (
        if_some-Good (agreed fast slow) _ λ direction.
          decided-Good p direction (min (abs fast) (abs slow)) "full_confidence_spread"
            "ema_and_sma_pairs_agree" (("fast_spread", fast) ∷ ("slow_spread", slow) ∷ [])
            (apply_params-Has "full_confidence_spread" crossover_defaults params _ refl)
            (apply_params-Has "stop_atr_mult" crossover_defaults params _ refl)
            (apply_params-Has "take_profit_rr" crossover_defaults params _ refl))

  macd_on-Good :
      (params : Option (Dict String F)) (f : F × F × F)
      → Good (macd_on (apply_params macd_defaults params) f)
  unfolding macd_on get
  macd_on-Good params (macd_hist, close, ret) =
      let p = apply_params macd_defaults params in
      let hist = quot macd_hist close in
      Good-if (le close nought) _ _ gr.half_between (
        if_some-Good (agreed hist ret) _ λ direction.
          decided-Good p direction hist "full_confidence_hist" "histogram_confirms_20d_return"
            (("macd_hist_pct", hist) ∷ ("return_20d", ret) ∷ [])
            (apply_params-Has "full_confidence_hist" macd_defaults params _ refl)
            (apply_params-Has "stop_atr_mult" macd_defaults params _ refl)
            (apply_params-Has "take_profit_rr" macd_defaults params _ refl))

  breakout_on-Good :
      (params : Option (Dict String F)) (position : F)
      → Good (breakout_on (apply_params breakout_defaults params) position)
  unfolding breakout_on get
  breakout_on-Good params position =
      let p = apply_params breakout_defaults params in
      let decide = λ (direction : Signal) (excess : F).
        decided-Good p direction excess "full_confidence_excess" "closed_outside_prior_20d_channel"
          (("donchian_pos_20", position) ∷ [])
          (apply_params-Has "full_confidence_excess" breakout_defaults params _ refl)
          (apply_params-Has "stop_atr_mult" breakout_defaults params _ refl)
          (apply_params-Has "take_profit_rr" breakout_defaults params _ refl) in
      Good-if (lt one position) _ _ (decide buy (sub position one))
        (Good-if (lt position nought) _ _ (decide sell (neg position)) gr.half_between)

  -- The reversion, crossover, MACD and breakout rules answer on every feature vector and with every
  -- override of their parameters, however incomplete, and never raise; the confidence of each answer
  -- lies between a half and one.
  pub rules_answer_in_range :
      (raw : Dict String F) (params : Option (Dict String F))
      → ((o : RuleOutput F) × (reversion raw params ≡ done o) × IsBounded o)
        × ((o : RuleOutput F) × (crossover raw params ≡ done o) × IsBounded o)
        × ((o : RuleOutput F) × (macd raw params ≡ done o) × IsBounded o)
        × ((o : RuleOutput F) × (breakout raw params ≡ done o) × IsBounded o)
  unfolding reversion crossover macd breakout
  rules_answer_in_range raw params = (
    Good-result (reversion raw params)
        (if_some-Good (pick_two raw "rsi_14" "bb_pct_b") _ (reversion_on-Good params)),
    Good-result (crossover raw params) (
        if_some-Good (pick_four raw "ema_12" "ema_26" "sma_20" "sma_50") _
          (crossover_on-Good params)),
    Good-result (macd raw params)
        (if_some-Good (pick_three raw "macd_hist" "close" "return_20d") _ (macd_on-Good params)),
    Good-result (breakout raw params)
        (if_some-Good (get "donchian_pos_20" raw) _ (breakout_on-Good params)),
  )
