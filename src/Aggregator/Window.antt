-- ===== src/Aggregator/Window.antt =====
-- services/signal-aggregator/src/core/service.py: the handlers, and the window in which the components
-- of one decision meet. `pending` holds the symbols whose window is open.
pub mod Coalesce
use Prim.Native.String
use market_app.Prelude.{
  ℕ, String, Bool, true, false, ◌||◌, Option, none, some, List, [], ◌∷◌, ◌++◌, if◌then◌else◌, ◌==◌,
  String_eq,
}
use market_app.Prelude.Act.{Outcome, done, raised, Act, ◌>>=◌, ◌>>◌, pure, modify}
use market_app.Prelude.Dict.{Dict, get, put}
use market_app.Prelude.Int.{ℤ}
use market_app.Float.{Float, le, nought}
use market_app.Aggregator.Vote.{SignalComponent, regime_to_component}
use market_app.Aggregator.Weights.{Elementary}
use market_app.Aggregator.Service.{
  BufferedSignal, BufferedMlSignal, AggregationResult, Service, Env, aggregate_symbol,
}

-- The service with its tasks.
pub record Window (F : Type 0) : Type 0 where
  pub service : Service F
  pub join_window_s : F
  pub pending : List String

-- `SignalGeneratedEvent`, of which `source_name` is the weighting source of the strategy.
pub record SignalGenerated (F : Type 0) : Type 0 where
  pub symbol : String
  pub strategy_name : String
  pub signal : String
  pub confidence : F
  pub price : F
  pub stop_loss : Option F
  pub take_profit : Option F
  pub timestamp : ℤ

pub record MlSignalGenerated (F : Type 0) : Type 0 where
  pub symbol : String
  pub signal : String
  pub confidence : F
  pub timestamp : ℤ

abbrev pub is_pending : String → List String → Bool
is_pending symbol [] = false
is_pending symbol (x ∷ xs) = x == symbol || is_pending symbol xs

abbrev pub without : String → List String → List String
without symbol [] = []
without symbol (x ∷ xs) = let rest = without symbol xs in if x == symbol then rest else x ∷ rest

abbrev pub strategy_source : String → String
strategy_source name = String.◌++◌ "strategy:" name

abbrev pub symbols_of : {V : Type 0} → Dict String V → List String
symbols_of [] = []
symbols_of ((symbol, v) ∷ d) = symbol ∷ symbols_of d

abbrev pub dropped : {A : Type 0} → Outcome A → Outcome (Unit {0})
dropped (done a) = done tt
dropped raised = raised

module _ {F : Type 0} where
  abbrev pub buffered : SignalGenerated F → BufferedSignal F
  buffered e = record {
    component = record {
      source = strategy_source e.strategy_name;
      signal = e.signal;
      confidence = e.confidence;
    };
    price = some e.price;
    stop_loss = e.stop_loss;
    take_profit = e.take_profit;
    strategy_name = e.strategy_name;
    at = e.timestamp;
  }

  abbrev pub entries_at : String → Service F → Dict String (BufferedSignal F)
  entries_at symbol s = elim (get symbol s.buffer) [ none ↦ [] | some d ↦ d ]

  unfoldable pub buffer_signal : SignalGenerated F → Service F → Service F
  buffer_signal e s = record s {
    buffer = put e.symbol (put e.strategy_name (buffered e) (entries_at e.symbol s)) s.buffer;
  }

  unfoldable pub buffer_ml : MlSignalGenerated F → Service F → Service F
  buffer_ml e s = record s {
    ml_buffer =
        put e.symbol
          (record {
            component = record { source = "ml"; signal = e.signal; confidence = e.confidence };
            at = e.timestamp;
          })
          s.ml_buffer;
  }

module _ {F : Type 0} ⦃fl : Float F⦄ ⦃el : Elementary F⦄ where
  unfoldable pub schedule_decision : Env F → String → Act (Window F) (Unit {0})
  schedule_decision env symbol w =
      let (result, s') = aggregate_symbol env symbol w.service in
      if le w.join_window_s nought
      then (dropped result, record w { service = s' })
      else if is_pending symbol w.pending
      then (done tt, w)
      else (done tt, record w { pending = w.pending ++ symbol ∷ [] })

  -- `_decide_after_window`, once the window is over; an exception is logged and dropped.
  unfoldable pub decide_after_window : Env F → String → Window F → Window F
  decide_after_window env symbol w = record w {
    service = (aggregate_symbol env symbol w.service).1;
    pending = without symbol w.pending;
  }

  unfoldable pub handle_signal_generated : Env F → SignalGenerated F → Act (Window F) (Unit {0})
  handle_signal_generated env e w =
      schedule_decision env e.symbol (record w { service = buffer_signal e w.service })

  unfoldable pub handle_ml_signal : Env F → MlSignalGenerated F → Act (Window F) (Unit {0})
  handle_ml_signal env e w =
      schedule_decision env e.symbol (record w { service = buffer_ml e w.service })

  unfoldable pub schedule_all : Env F → List String → Act (Window F) (Unit {0})
  schedule_all env [] = pure tt
  schedule_all env (symbol ∷ rest) = do schedule_decision env symbol; schedule_all env rest

  unfoldable pub handle_regime_changed : Env F → String → Act (Window F) (Unit {0})
  handle_regime_changed env new_regime w =
      schedule_all env (symbols_of w.service.buffer)
        (record w { service = record w.service { macro_bias = regime_to_component new_regime } })
