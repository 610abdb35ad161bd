-- ===== src/Backtest/Positions.antt =====
-- services/backtest/src/core/rule_engine.py and engine.py. `compute_feature_vector` of
-- trading_common/features.py is any function of a window of bars. Positions are 0 or 1; `raised` is
-- an exception of the rule.
pub mod Causal
use market_app.Prelude.{
  ℕ, zero, suc, ◌+◌, ◌-◌, ◌*◌, ◌^◌, String, Bool, true, false, not, ◌&&◌, ◌||◌, Option, none, some,
  List, [], ◌∷◌, ◌++◌, ltb, leb, nat_eq, length, take, drop, if◌then◌else◌, ◌≡◌, ◌==◌, ℕ_eq,
}
use market_app.Prelude.Act.{Outcome, done, raised}
use market_app.Prelude.Dict.{Dict}
use market_app.Prelude.Int.{pos}
use market_app.Float.{Float, lt, le, add, sub, mul, quot, of_int, literal, nought, one}
use market_app.Gates.Envelope.{Signal, buy, sell, hold}
use market_app.Strategy.Events.{RuleOutput}
use market_app.MlPipeline.Numpy.{Numpy}

-- `FEATURE_LOOKBACK`
abbrev pub feature_lookback : ℕ
feature_lookback = 300

-- What the engine uses of a rule: `evaluate` is `generate` on no ranks and one feature vector.
pub record Rule (B F : Type 0) : Type 0 where
  pub required_ranks : List String
  pub features : List B → Dict String F
  pub evaluate : Dict String F → Outcome (RuleOutput F)

abbrev pub after_signal : Signal → ℕ → ℕ
after_signal buy current = 1
after_signal sell current = 0
after_signal hold current = current

-- `bars[max(0, t - FEATURE_LOOKBACK + 1) : t + 1]`
abbrev pub window_at : {B : Type 0} → List B → ℕ → List B
window_at bars t = let first = suc t - feature_lookback in take (suc t - first) (drop first bars)

abbrev pub cons_outcome : ℕ → Outcome (List ℕ) → Outcome (List ℕ)
cons_outcome p raised = raised
cons_outcome p (done ps) = done (p ∷ ps)

abbrev pub then_current :
    {F : Type 0} → Outcome (RuleOutput F) → ℕ → (ℕ → Outcome (List ℕ)) → Outcome (List ℕ)
then_current raised current next = raised
then_current (done o) current next = next (after_signal o.signal current)

abbrev pub after_check : Outcome (Unit {0}) → Outcome (List ℕ) → Outcome (List ℕ)
after_check raised positions = raised
after_check (done u) positions = positions

module _ {B F : Type 0} where
  unfoldable pub ensure_single_symbol_evaluable : Rule B F → Outcome (Unit {0})
  ensure_single_symbol_evaluable rule = elim rule.required_ranks [
    | [] ↦ done tt
    | r ∷ rest ↦ raised
  ]

  -- The loop: `n` bars from `t` on, with the position held so far.
  unfoldable pub positions_from : Rule B F → List B → ℕ → ℕ → ℕ → Outcome (List ℕ)
  positions_from rule bars t zero current = done []
  positions_from rule bars t (suc n) current =
      then_current (rule.evaluate (rule.features (window_at bars t))) current
        λ position. cons_outcome position (positions_from rule bars (suc t) n position)

  unfoldable pub rule_positions : Rule B F → List B → Outcome (List ℕ)
  rule_positions rule bars =
      after_check (ensure_single_symbol_evaluable rule) (positions_from rule bars 0 (length bars) 0)

abbrev pub trade_size : ℕ → ℕ → ℕ
trade_size before now = (now - before) + (before - now)

-- `|position[i] - position[i - 1]|`, with 0 before the first one, aligned to what is held: the
-- last position is not held for any bar.
abbrev pub trades : ℕ → List ℕ → List ℕ
trades before [] = []
trades before (p ∷ []) = []
trades before (p ∷ q ∷ ps) = trade_size before p ∷ trades p (q ∷ ps)

abbrev pub count_trades : List ℕ → ℕ
count_trades [] = 0
count_trades (t ∷ ts) = (if ltb 0 t then 1 else 0) + count_trades ts

-- `1 if start_index is None else max(start_index, 1)`
abbrev pub first_scored : Option ℕ → ℕ
first_scored none = 1
first_scored (some start) = if leb start 1 then 1 else start

-- The arrays of numpy that the score uses.
pub record Arrays (F : Type 0) : Type 0 where
  pub cumprod : List F → List F
  pub max_accumulate : List F → List F
  pub max_of : List F → F

pub record BacktestResult (F : Type 0) : Type 0 where
  pub total_return : F
  pub sharpe_ratio : F
  pub max_drawdown : F
  pub n_trades : ℕ
  pub n_bars : ℕ
  pub equity_curve : List F

module _ {F : Type 0} ⦃fl : Float F⦄ where
  abbrev pub empty_result : BacktestResult F
  empty_result = record {
    total_return = nought;
    sharpe_ratio = nought;
    max_drawdown = nought;
    n_trades = 0;
    n_bars = 0;
    equity_curve = [];
  }

  -- The returns of the bars after the first.
  abbrev pub returns_of : List F → List F
  returns_of [] = []
  returns_of (p ∷ []) = []
  returns_of (p ∷ q ∷ prices) = sub (quot q p) one ∷ returns_of (q ∷ prices)

  -- The position decided at a bar earns the return of the next one, less the cost of its trade.
  abbrev pub strategy_returns : F → List ℕ → List ℕ → List F → List F
  strategy_returns cost_bps [] ts rs = []
  strategy_returns cost_bps (p ∷ ps) [] rs = []
  strategy_returns cost_bps (p ∷ ps) (t ∷ ts) [] = []
  strategy_returns cost_bps (p ∷ ps) (t ∷ ts) (r ∷ rs) =
      sub (mul (of_int (pos p)) r) (mul (of_int (pos t)) (quot cost_bps (literal 10_000 0)))
      ∷ strategy_returns cost_bps ps ts rs

  abbrev pub drawdowns : List F → List F → List F
  drawdowns [] ys = []
  drawdowns (m ∷ ms) [] = []
  drawdowns (m ∷ ms) (e ∷ es) = quot (sub m e) m ∷ drawdowns ms es

  abbrev pub plus_one : List F → List F
  plus_one [] = []
  plus_one (x ∷ xs) = add one x ∷ plus_one xs

  abbrev pub last_or : F → List F → F
  last_or x [] = x
  last_or x (y ∷ ys) = last_or y ys

module _ {F : Type 0} ⦃fl : Float F⦄ ⦃np : Numpy F⦄ where
  abbrev pub sharpe_of : List F → F
  sharpe_of scored =
      let std = if ltb 1 (length scored) then np.std_op scored else nought in
      if lt nought std
      then mul (quot (np.mean_op scored) std) (np.sqrt_op (literal 252 0))
      else nought

  abbrev pub result_of : Arrays F → List F → List ℕ → BacktestResult F
  result_of ar scored scored_trades =
      let equity = ar.cumprod (plus_one scored) in
      record {
        total_return = sub (last_or nought equity) one;
        sharpe_ratio = sharpe_of scored;
        max_drawdown =
            if ltb 0 (length equity)
            then ar.max_of (drawdowns (ar.max_accumulate equity) equity)
            else nought;
        n_trades = count_trades scored_trades;
        n_bars = length scored;
        equity_curve = equity;
      }

  -- The list of what the positions earn, bar by bar.
  abbrev pub earned : List F → List ℕ → F → List F
  earned prices position cost_bps =
      strategy_returns cost_bps position (trades 0 position) (returns_of prices)

  unfoldable pub score_positions : Arrays F → List F → List ℕ → F → ℕ → BacktestResult F
  score_positions ar prices position cost_bps first_bar =
      let skipped = (if leb first_bar 1 then 1 else first_bar) - 1 in
      let scored = drop skipped (earned prices position cost_bps) in
      if ltb (length prices) 2 || not (nat_eq (length position) (length prices))
      then empty_result
      else if length scored == 0
      then empty_result
      else result_of ar scored (drop skipped (trades 0 position))

  abbrev pub scored_with : Arrays F → List F → F → ℕ → Outcome (List ℕ) → Outcome (BacktestResult F)
  scored_with ar prices cost_bps first raised = raised
  scored_with ar prices cost_bps first (done position) =
      done (score_positions ar prices position cost_bps first)

  unfoldable pub run_rule_backtest :
      {B : Type 0}
      → Arrays F
      → Rule B F
      → List B
      → List F
      → F
      → Option ℕ
      → Outcome (BacktestResult F)
  run_rule_backtest ar rule bars prices cost_bps start_index =
      if ltb (length bars) 2
      then done empty_result
      else scored_with ar prices cost_bps (first_scored start_index) (rule_positions rule bars)
