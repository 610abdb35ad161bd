-- ===== src/Aggregator/Service.antt =====
-- services/signal-aggregator/src/core/service.py. A time is in microseconds; a call reads the clock
-- once. A handler runs to its end, and so does the decision that a window of `join_window_s` ends in.
pub mod Live
pub mod Levels
mod Tests
use Prim.Native.Nat.{Ordering}
use Prim.Native.String.{compare}
use market_app.Prelude.{
  ℕ, String, Bool, true, false, not, ◌&&◌, ◌||◌, Option, none, some, List, [], ◌∷◌, ◌++◌, length,
  map, if◌then◌else◌, ◌==◌, String_eq, ℕ_eq,
}
use market_app.Prelude.Act.{
  Outcome, done, raised, Act, ◌>>=◌, ◌>>◌, pure, lift_option, modify, bind_option,
}
use market_app.Prelude.Dict.{Dict, get, put, remove, keep_values}
use market_app.Prelude.Int.{ℤ, pos, ◌-ℤ◌}
use market_app.Float.{Float, lt, le, feq, mul, neg, quot, div, sum, of_int, literal, nought, one}
use market_app.Gates.Cost.{CostAwareFilter, is_profitable_after_costs}
use market_app.Aggregator.Vote.{SignalComponent, combine, regime_to_component}
use market_app.Aggregator.Weights.{
  Elementary, Optimizer, compute_weights, build, map_values, values_of,
}

pub record BufferedSignal (F : Type 0) : Type 0 where
  pub component : SignalComponent F
  pub price : Option F
  pub stop_loss : Option F
  pub take_profit : Option F
  pub strategy_name : String
  pub at : ℤ

pub record BufferedMlSignal (F : Type 0) : Type 0 where
  pub component : SignalComponent F
  pub at : ℤ

pub record Decision (F : Type 0) : Type 0 where
  pub signal : String
  pub confidence : F
  pub score : F
  pub weights : Dict String F
  pub cost_filtered : Bool

-- `AggregationResult`; the published event has all of it but the score, the weights and the filter.
pub record AggregationResult (F : Type 0) : Type 0 where
  pub symbol : String
  pub decision : Decision F
  pub components_present : List String
  pub price : Option F
  pub stop_loss : Option F
  pub take_profit : Option F
  pub strategy_name : Option String
  pub sector : Option String

pub record Service (F : Type 0) : Type 0 where
  pub optimizer : Optimizer F
  pub cost : CostAwareFilter F
  pub buy_threshold : F
  pub base_edge_bps : F
  pub ttl_s : F
  pub buffer : Dict String (Dict String (BufferedSignal F))
  pub ml_buffer : Dict String (BufferedMlSignal F)
  pub macro_bias : Option (SignalComponent F)
  pub published : List (AggregationResult F)

-- `get_sector` is what the company client, if there is one, returns.
pub record Env (F : Type 0) : Type 0 where
  pub publishes : AggregationResult F → Bool
  pub get_sector : String → Outcome (Option String)
  pub now : ℤ

abbrev pub is_actionable : String → Bool
is_actionable signal = signal == "BUY" || signal == "SELL"

abbrev before : String → String → Bool
before a b = elim (compare a b) [ Ordering.lt ↦ true | _ ↦ false ]

module _ {F : Type 0} where
  insert_entry :
      String → BufferedSignal F → Dict String (BufferedSignal F) → Dict String (BufferedSignal F)
  insert_entry a e [] = (a, e) ∷ []
  insert_entry a e ((b, f) ∷ d) =
      let rest = insert_entry a e d in if before a b then (a, e) ∷ (b, f) ∷ d else (b, f) ∷ rest

  -- `[by_strategy[name] for name in sorted(by_strategy)]`
  sorted_entries : Dict String (BufferedSignal F) → Dict String (BufferedSignal F)
  unfolding insert_entry
  sorted_entries [] = []
  sorted_entries ((a, e) ∷ d) = insert_entry a e (sorted_entries d)

  abbrev pub entries_of : Dict String (BufferedSignal F) → List (BufferedSignal F)
  entries_of [] = []
  entries_of ((a, e) ∷ d) = e ∷ entries_of d

module _ {F : Type 0} ⦃fl : Float F⦄ where
  -- The order of the sort key (-confidence, strategy name).
  abbrev pub ahead_of : BufferedSignal F → BufferedSignal F → Bool
  ahead_of a b =
      let ka = neg a.component.confidence in
      let kb = neg b.component.confidence in
      if feq ka kb then before a.strategy_name b.strategy_name else lt ka kb

  -- The first of the sorted list, for confidences that are numbers.
  abbrev pub first_of : BufferedSignal F → List (BufferedSignal F) → BufferedSignal F
  first_of best [] = best
  first_of best (e ∷ es) = first_of (if ahead_of e best then e else best) es

  abbrev pub matching : String → List (BufferedSignal F) → List (BufferedSignal F)
  matching direction [] = []
  matching direction (e ∷ es) =
      let rest = matching direction es in if e.component.signal == direction then e ∷ rest else rest

  abbrev pub first_among : List (BufferedSignal F) → Option (BufferedSignal F)
  first_among [] = none
  first_among (e ∷ es) = some (first_of e es)

  unfoldable pub select_levels : List (BufferedSignal F) → String → Option (BufferedSignal F)
  select_levels entries direction = first_among (matching direction entries)

  -- `_expired`
  abbrev pub expired : ℤ → F → ℤ → Bool
  expired now ttl_s at = lt ttl_s (quot (of_int (now -ℤ at)) (literal 1_000_000 0))

  prune_symbol :
      String → Dict String (BufferedSignal F) → Service F → List (BufferedSignal F) × Service F
  unfolding sorted_entries
  prune_symbol symbol [] s = ([], record s { buffer = remove symbol s.buffer })
  prune_symbol symbol (entry ∷ rest) s = (
    entries_of (sorted_entries (entry ∷ rest)),
    record s { buffer = put symbol (entry ∷ rest) s.buffer },
  )

  -- `_live_entries`
  pub live_entries : ℤ → String → Service F → List (BufferedSignal F) × Service F
  unfolding prune_symbol
  live_entries now symbol s = elim (get symbol s.buffer) [
    | none ↦ ([], s)
    | some by_strategy ↦ elim by_strategy [
      | [] ↦ ([], s)
      | entry ∷ rest ↦
          prune_symbol symbol (keep_values (λ e. not (expired now s.ttl_s e.at)) (entry ∷ rest)) s
    ]
  ]

  -- `_publish`, up to the publication.
  abbrev pub result_of :
      String
      → List (SignalComponent F)
      → Decision F
      → Option (BufferedSignal F)
      → Option String
      → AggregationResult F
  result_of symbol components decision chosen sector =
      let levels = if is_actionable decision.signal then chosen else none in
      record {
        symbol = symbol;
        decision = decision;
        components_present = map (λ c. c.source) components;
        price = bind_option levels λ e. e.price;
        stop_loss = bind_option levels λ e. e.stop_loss;
        take_profit = bind_option levels λ e. e.take_profit;
        strategy_name = bind_option levels λ e. some e.strategy_name;
        sector = sector;
      }

  publish : Env F → AggregationResult F → Act (Service F) (Unit {0})
  publish env result s =
      if env.publishes result
      then (done tt, record s { published = s.published ++ result ∷ [] })
      else (raised, s)

  abbrev from_outcome : {A : Type 0} → Outcome A → Act (Service F) A
  from_outcome outcome s = (outcome, s)

  -- The unexpired ML vote; an expired one is dropped.
  live_ml : ℤ → String → Service F → Option (BufferedMlSignal F) × Service F
  live_ml now symbol s = elim (get symbol s.ml_buffer) [
    | none ↦ (none, s)
    | some e ↦
        if expired now s.ttl_s e.at
        then (none, record s { ml_buffer = remove symbol s.ml_buffer })
        else (some e, s)
  ]

  abbrev pub optional : Option (SignalComponent F) → List (SignalComponent F)
  optional none = []
  optional (some c) = c ∷ []

  abbrev pub components_of :
      List (BufferedSignal F)
      → Option (BufferedMlSignal F)
      → Option (SignalComponent F)
      → List (SignalComponent F)
  components_of entries ml bias =
      map (λ e. e.component) entries
      ++ optional (bind_option ml λ e. some e.component)
      ++ optional bias

module _ {F : Type 0} ⦃fl : Float F⦄ ⦃el : Elementary F⦄ where
  abbrev weight_or : Option F → F → F
  weight_or none default = default
  weight_or (some w) default = w

  -- `_weights_for`; a sum of zero counts as one.
  unfoldable pub weights_for : Optimizer F → List String → Option (Dict String F)
  weights_for o sources = bind_option (compute_weights o) λ full.
      let n = length o.sources in
      let default = if n == 0 then one else quot one (of_int (pos n)) in
      bind_option (build (λ s. some (weight_or (get s full) default)) sources []) λ raw.
        let total = sum (values_of raw) in
        map_values (λ w. div w (if feq total nought then one else total)) raw

  -- The vote behind the cost gate, for the default edge and the tier "large".
  unfoldable pub gate : Service F → Dict String F → String × F × F → Decision F
  gate s weights (signal, confidence, score) =
      let filtered =
        is_actionable signal
        && not (is_profitable_after_costs s.cost (mul confidence s.base_edge_bps) "large").0 in
      record {
        signal = if filtered then "HOLD" else signal;
        confidence = confidence;
        score = score;
        weights = weights;
        cost_filtered = filtered;
      }

  -- `_decide`
  unfoldable pub decide : Service F → List (SignalComponent F) → Option (Decision F)
  decide s components =
      bind_option (weights_for s.optimizer (map (λ c. c.source) components))
        λ weights. some (gate s weights (combine components weights s.buy_threshold))

  aggregate_entries :
      Env F → String → List (BufferedSignal F) → Act (Service F) (Option (AggregationResult F))
  unfolding publish live_ml
  aggregate_entries env symbol [] s = (done none, s)
  aggregate_entries env symbol (entry ∷ rest) s =
      let (ml, s') = live_ml env.now symbol s in
      let components = components_of (entry ∷ rest) ml s'.macro_bias in
      (do
        decision ← lift_option (decide s' components)
        sector ← from_outcome (env.get_sector symbol)
        publish env (
            result_of symbol components decision (select_levels (entry ∷ rest) decision.signal)
              sector)
        pure (
            some (
              result_of symbol components decision (select_levels (entry ∷ rest) decision.signal)
                sector)))
        s'

  pub aggregate_symbol : Env F → String → Act (Service F) (Option (AggregationResult F))
  unfolding aggregate_entries live_entries
  aggregate_symbol env symbol s =
      let (entries, s') = live_entries env.now symbol s in aggregate_entries env symbol entries s'
