-- ===== src/MlPipeline/Outcomes.antt =====
-- services/ml-pipeline/src/core/outcomes.py and the log of inference_log.py that it resolves votes
-- in. Moments are seconds; a date is a moment's day. `get_ohlcv` is the market client, which may raise
-- for a symbol; the market path of a symbol is what `project_levels` made of the bars.
mod Answers
mod Cutoff
mod Tests
use market_app.Prelude.{
  ℕ, zero, suc, ◌+◌, ◌*◌, ◌/◌, String, Bool, true, false, not, ◌&&◌, ◌||◌, Option, none, some, List,
  [], ◌∷◌, ltb, leb, if◌then◌else◌, ◌==◌, String_eq, ℕ_eq,
}
use market_app.Prelude.Act.{Outcome, done, raised}
use market_app.Float.{Float, sub, quot, neg, one}
use market_app.Prices.{PriceBar, adjusted_highs, adjusted_lows, adjusted_closes}
use market_app.MlPipeline.Numpy.{Numpy}
use market_app.MlPipeline.Labels.{
  LabelParams, BarrierOutcome, get_elem?, triple_barrier_label, excess_barrier_label,
}

-- The fields of a record that its resolution reads and writes.
pub record InferenceRecord (F : Type 0) : Type 0 where
  pub symbol : String
  pub at : ℕ
  pub signal : String
  pub resolved : Bool
  pub label : Option ℕ
  pub signed_return : Option F
  pub correct : Option Bool
  pub resolved_at : Option ℕ

-- `excess` is the flag of the label parameters.
pub record Resolver (F : Type 0) : Type 0 where
  pub params : LabelParams F
  pub excess : Bool
  pub drop_after_days : ℕ

abbrev pub day_of : ℕ → ℕ
day_of moment = moment / 86_400

abbrev pub same_truth : Bool → Bool → Bool
same_truth true b = b
same_truth false b = not b

module _ {F : Type 0} where
  -- `InferenceLog.pending`: actionable votes that are not resolved
  abbrev pub is_pending : InferenceRecord F → Bool
  is_pending r = not r.resolved && ((r.signal == "BUY") || (r.signal == "SELL"))

  -- `InferenceLog.resolve`
  unfoldable pub resolve :
      InferenceRecord F → Option ℕ → Option F → Option Bool → ℕ → InferenceRecord F
  resolve r label signed_return correct now = record r {
    resolved = true;
    label = label;
    signed_return = signed_return;
    correct = correct;
    resolved_at = some now;
  }

  abbrev pub too_old : Resolver F → ℕ → InferenceRecord F → Bool
  too_old s now r = ltb (r.at + s.drop_after_days * 86_400) now

  -- The index of the last bar before the first one that is later than the day.
  unfoldable pub entry_from : ℕ → ℕ → Option ℕ → List (PriceBar F) → Option ℕ
  entry_from day i found [] = found
  entry_from day i found (bar ∷ bars) =
      if leb (day_of bar.timestamp) day then entry_from day (suc i) (some i) bars else found

  -- A vote that cannot be labelled is given up where it is too old, and left as it is otherwise.
  abbrev pub drop_if : Bool → InferenceRecord F → ℕ → Outcome (Option F) × InferenceRecord F
  drop_if old r now = (done none, if old then resolve r none none none now else r)

module _ {F : Type 0} where
  abbrev pub answered : Outcome (List (PriceBar F)) → Bool
  answered raised = false
  answered (done bars) = true

  -- Whether the market client answers for the symbol of every pending vote.
  abbrev pub all_fetched : (String → Outcome (List (PriceBar F))) → List (InferenceRecord F) → Bool
  all_fetched get_ohlcv [] = true
  all_fetched get_ohlcv (r ∷ records) =
      (not (is_pending r) || answered (get_ohlcv r.symbol)) && all_fetched get_ohlcv records

  -- `bars_by_symbol.get(symbol, [])`
  abbrev pub bars_of : Outcome (List (PriceBar F)) → List (PriceBar F)
  bars_of raised = []
  bars_of (done bars) = bars

  abbrev pub cons_return : Option F → Outcome (List F) → Outcome (List F)
  cons_return o raised = raised
  cons_return none (done returns) = done returns
  cons_return (some x) (done returns) = done (x ∷ returns)

  -- An exception ends the loop: the records after it stay as they are.
  abbrev pub go_on :
      Outcome (Option F) × InferenceRecord F
      → List (InferenceRecord F)
      → Outcome (List F) × List (InferenceRecord F)
      → Outcome (List F) × List (InferenceRecord F)
  go_on (raised, r) later rest = (raised, r ∷ later)
  go_on (done o, r) later (returns, records) = (cons_return o returns, r ∷ records)

  abbrev pub keep :
      InferenceRecord F
      → Outcome (List F) × List (InferenceRecord F)
      → Outcome (List F) × List (InferenceRecord F)
  keep r (returns, records) = (returns, r ∷ records)

module _ {F : Type 0} ⦃fl : Float F⦄ where
  abbrev pub signed_by : String → F → F
  signed_by signal raw = if signal == "BUY" then raw else neg raw

  abbrev pub pay :
      InferenceRecord F → ℕ → ℕ → Option F → Option F → Outcome (Option F) × InferenceRecord F
  pay r now label none start = (raised, r)
  pay r now label (some close) none = (raised, r)
  pay r now label (some close) (some start) =
      let signed = signed_by r.signal (sub (quot close start) one) in
      let correct = same_truth (label == 1) (r.signal == "BUY") in
      (done (some signed), resolve r (some label) (some signed) (some correct) now)

  -- From the label on.
  abbrev pub settle :
      Bool
      → InferenceRecord F
      → ℕ
      → List F
      → ℕ
      → Outcome (Option BarrierOutcome)
      → Outcome (Option F) × InferenceRecord F
  settle old r now closes entry raised = (raised, r)
  settle old r now closes entry (done none) = drop_if old r now
  settle old r now closes entry (done (some o)) =
      pay r now o.label (get_elem? closes o.touch_index) (get_elem? closes entry)

module _ {F : Type 0} ⦃fl : Float F⦄ ⦃np : Numpy F⦄ where
  abbrev pub label_at :
      Resolver F → List (PriceBar F) → List F → ℕ → Outcome (Option BarrierOutcome)
  label_at s bars market entry =
      if s.excess
      then excess_barrier_label (adjusted_closes bars) market entry s.params
      else triple_barrier_label (adjusted_closes bars) (adjusted_highs bars) (adjusted_lows bars)
          entry s.params

  abbrev pub at_entry :
      Resolver F
      → InferenceRecord F
      → ℕ
      → List (PriceBar F)
      → List F
      → Option ℕ
      → Outcome (Option F) × InferenceRecord F
  at_entry s r now bars market none = drop_if (too_old s now r) r now
  at_entry s r now bars market (some entry) =
      if ltb entry s.params.sigma_window
      then drop_if (too_old s now r) r now
      else settle (too_old s now r) r now (adjusted_closes bars) entry
          (label_at s bars market entry)

  unfoldable pub resolve_one :
      Resolver F
      → ℕ
      → List (PriceBar F)
      → List F
      → InferenceRecord F
      → Outcome (Option F) × InferenceRecord F
  resolve_one s now bars market r =
      at_entry s r now bars market (entry_from (day_of r.at) 0 none bars)

  -- The loop over the votes. The pending records are those of the log itself, so each is changed in its place.
  unfoldable pub resolve_each :
      Resolver F
      → ℕ
      → (String → List (PriceBar F))
      → (String → List F)
      → List (InferenceRecord F)
      → Outcome (List F) × List (InferenceRecord F)
  resolve_each s now bars_by_symbol market_by_symbol [] = (done [], [])
  resolve_each s now bars_by_symbol market_by_symbol (r ∷ records) =
      let rest = resolve_each s now bars_by_symbol market_by_symbol records in
      if is_pending r
      then go_on (resolve_one s now (bars_by_symbol r.symbol) (market_by_symbol r.symbol) r) records
          rest
      else keep r rest

  -- All bars are fetched before the first vote is resolved: an exception of the market client ends
  -- the run with the log as it was.
  unfoldable pub resolve_pending :
      Resolver F
      → ℕ
      → (String → Outcome (List (PriceBar F)))
      → (String → List F)
      → List (InferenceRecord F)
      → Outcome (List F) × List (InferenceRecord F)
  resolve_pending s now get_ohlcv market_by_symbol records =
      if all_fetched get_ohlcv records
      then resolve_each s now (λ symbol. bars_of (get_ohlcv symbol)) market_by_symbol records
      else (raised, records)
