-- ===== src/Rules/Tests.antt =====
-- The rules of shared/trading-common/src/trading_common/strategies on a few vectors, in fixed-point
-- numbers.
use market_app.Prelude.{ℕ, ◌≡◌, ◌*◌, ◌/◌, ◌≤◌, refl, String, String_eq, none, [], ◌∷◌, arith, false}
use market_app.Prelude.Act.{done}
use market_app.Prelude.Dict.{Dict, get}
use market_app.Prelude.Int.{pos, negsuc}
use market_app.Float.{◌≼◌, le, quot, add, mul, nought, one}
use market_app.Float.Fixed.{Fixed, fixed_float, Fixed-IsIeee}
use market_app.Gates.Envelope.{buy}
use market_app.Strategy.Events.{RuleOutput}
use market_app.Rules.{
  half, reversion, reversion_on, crossover, macd, breakout, decided, saturating_confidence,
}
use market_app.Rules.Confidence.{IsBounded, IsGraded, rules_answer_in_range}

quot_nonneg : (x y : Fixed) → nought ≼ x → le y nought ≡ false → nought ≼ quot x y
quot_nonneg (pos a) (pos b) h k = ground arith
quot_nonneg x y h k = ground (arith, h, k)

half_le : (a : ℕ) → a ≤ 10_000 → 5_000 * a / 10_000 ≤ 5_000
half_le a h = grind arith

scaled :
    (u : Fixed)
    → nought ≼ u
    → u ≼ one
    → (half ≼ add half (mul half u)) × (add half (mul half u) ≼ one)
scaled (pos a) h k = ground (arith, half_le a)
scaled (negsuc a) h k = ground (arith, h)

Fixed-IsGraded : IsGraded Fixed
Fixed-IsGraded = record {
  unit = (refl, refl);
  half_between = (refl, refl);
  quot_number = λ x y h. ground arith;
  abs_is_number = λ x h. ground arith;
  quot_nonneg = λ x y h k n. quot_nonneg x y h k;
  scaled = scaled;
}

abbrev sold_off : Dict String Fixed
sold_off = ("rsi_14", pos 200_000) ∷ ("bb_pct_b", pos 100) ∷ []

rules_answer_in_range_example :
    ((o : RuleOutput Fixed) × (reversion sold_off none ≡ done o) × IsBounded o)
    × ((o : RuleOutput Fixed) × (crossover sold_off none ≡ done o) × IsBounded o)
    × ((o : RuleOutput Fixed) × (macd sold_off none ≡ done o) × IsBounded o)
    × ((o : RuleOutput Fixed) × (breakout sold_off none ≡ done o) × IsBounded o)
rules_answer_in_range_example =
    rules_answer_in_range ⦃ie = Fixed-IsIeee⦄ ⦃gr = Fixed-IsGraded⦄ sold_off none

oversold_buys :
    reversion sold_off none
    ≡ done (record {
      signal = buy;
      confidence = pos 10_000;
      stop_atr_mult = pos 15_000;
      take_profit_rr = pos 15_000;
      reason = "oversold_at_lower_band";
      metadata = ("rsi", pos 200_000) ∷ ("bb_pct_b", pos 100) ∷ [];
    })
unfolding reversion reversion_on decided saturating_confidence get
oversold_buys = refl
