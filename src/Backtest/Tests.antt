-- ===== src/Backtest/Tests.antt =====
-- services/backtest/src/core on a few bars, in fixed-point numbers.
use market_app.Prelude.{
  ℕ, ◌+◌, ◌≡◌, ◌≤◌, String, refl, List, [], ◌∷◌, ◌++◌, All, take, length, if◌then◌else◌,
}
use market_app.Prelude.Act.{done}
use market_app.Prelude.Dict.{Dict}
use market_app.Prelude.Int.{ℤ, pos, leb_ℤ}
use market_app.Float.Fixed.{Fixed, fixed_float}
use market_app.Gates.Envelope.{Signal, buy, sell, hold}
use market_app.Strategy.Events.{RuleOutput}
use market_app.Backtest.Positions.{
  Rule, rule_positions, positions_from, ensure_single_symbol_evaluable,
}
use market_app.Backtest.Positions.Causal.{positions_do_not_look_ahead}

abbrev answer : Signal → RuleOutput Fixed
answer s = record {
  signal = s;
  confidence = pos 5_000;
  stop_atr_mult = pos 20_000;
  take_profit_rr = pos 20_000;
  reason = "test";
  metadata = [];
}

-- A bar is 1 to buy, 2 to sell, and the vector of a window is its last bar.
abbrev last_bar : ℕ → List ℕ → ℕ
last_bar n [] = n
last_bar n (x ∷ xs) = last_bar x xs

abbrev of_entry : Dict String Fixed → ℤ
of_entry [] = pos 0
of_entry ((k, v) ∷ d) = v

abbrev signal_of : Dict String Fixed → Signal
signal_of d =
    if leb_ℤ (pos 2) (of_entry d) then sell else if leb_ℤ (pos 1) (of_entry d) then buy else hold

abbrev follow : Rule ℕ Fixed
follow = record {
  required_ranks = [];
  features = λ window. ("last", pos (last_bar 0 window)) ∷ [];
  evaluate = λ d. done (answer (signal_of d));
}

abbrev first_bars : List ℕ
first_bars = 0 ∷ 1 ∷ 0 ∷ []

abbrev held : List ℕ
held = 0 ∷ 1 ∷ 1 ∷ 0 ∷ 0 ∷ []

positions_run : rule_positions follow (first_bars ++ 2 ∷ 0 ∷ []) ≡ done held
unfolding rule_positions positions_from ensure_single_symbol_evaluable
positions_run = refl

positions_do_not_look_ahead_example :
    (length held ≡ 3 + 2)
    × All (λ p. p ≤ 1) held
    × (rule_positions follow first_bars ≡ done (take 3 held))
positions_do_not_look_ahead_example =
    positions_do_not_look_ahead follow first_bars (2 ∷ 0 ∷ []) held positions_run
