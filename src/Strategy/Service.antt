-- ===== src/Strategy/Service.antt =====
-- services/strategy/src/core/service.py. The rules, the feature client, the portfolio client and the
-- publisher are parameters; a rule is its name and its `generate`.
pub mod Signals
pub mod Revalidation
mod Tests
use Prim.Native.Nat.{Ordering}
use Prim.Native.String.{compare}
use market_app.Prelude.{
  ℕ, String, Bool, true, false, not, ◌&&◌, ◌||◌, Option, none, some, List, [], ◌∷◌, ◌++◌,
  if◌then◌else◌, ◌==◌, String_eq,
}
use market_app.Prelude.Act.{
  Outcome, done, raised, Act, ◌>>=◌, ◌>>◌, pure, lift_option, modify, gets,
}
use market_app.Prelude.Dict.{Dict, get, put}
use market_app.Float.{Float, lt, le, add, sub, mul, nought, one}
use market_app.Gates.Cost.{CostAwareFilter, is_profitable_after_costs}
use market_app.Gates.Envelope.{
  Signal, buy, sell, hold, TradingSignal, RiskLimits, GateReason, check_signal,
}
use market_app.Strategy.Events.{
  RuleOutput, StrategyRule, PortfolioSnapshot, PortfolioAnswer, SignalGenerated, ChangeReason,
  backtest_revalidation, decay, StatusChanged, Revalidated, Published, generated, changed, Service,
  Env,
}
use market_app.Strategy.Health.{
  Status, HealthMetrics, HealthReason, StrategyHealth, Tracker, is_active, apply_status, evaluate,
}

-- `sorted` of the keys.
abbrev before : String → String → Bool
before a b = elim (compare a b) [ Ordering.lt ↦ true | _ ↦ false ]

insert_name : String → List String → List String
insert_name a [] = a ∷ []
insert_name a (b ∷ bs) = let rest = insert_name a bs in if before a b then a ∷ b ∷ bs else b ∷ rest

pub names : {V : Type 0} → Dict String V → List String
unfolding insert_name
names [] = []
names ((name, v) ∷ d) = insert_name name (names d)

abbrev pub active_in : {F : Type 0} → Dict String (Tracker F) → String → Bool
active_in health name = elim (get name health) [ none ↦ false | some t ↦ is_active t ]

abbrev pub keep : (String → Bool) → List String → List String
keep p [] = []
keep p (x ∷ xs) = let rest = keep p xs in if p x then x ∷ rest else rest

abbrev pub or_default : {A : Type 0} → Option A → A → A
or_default none a = a
or_default (some b) a = b

abbrev pub recommended_to_status : String → Option String
recommended_to_status text =
    if text == "active"
    then some "active"
    else if text == "probation"
    then some "probation"
    else if text == "deactivate"
    then some "deactivated"
    else none

abbrev pub is_hold : Signal → Bool
is_hold hold = true
is_hold _ = false

abbrev pub append_some : {A : Type 0} → Option A → List A → List A
append_some none xs = xs
append_some (some x) xs = x ∷ xs

module _ {F : Type 0} where
  pub publish : Env F → Published F → Act (Service F) (Unit {0})
  publish env event s =
      if env.publishes event
      then (done tt, record s { published = s.published ++ event ∷ [] })
      else (raised, s)

  abbrev from_outcome : {A : Type 0} → Outcome A → Act (Service F) A
  from_outcome outcome s = (outcome, s)

  announce_change : Env F → Option (StatusChanged F) → Act (Service F) (Option (StatusChanged F))
  unfolding publish
  announce_change env none = pure none
  announce_change env (some event) = do publish env (changed event); pure (some event)

  abbrev pub revalidation_change : Revalidated F → Option Status → Status → Option (StatusChanged F)
  revalidation_change e none now = none
  revalidation_change e (some old) now = some (record {
    strategy_name = e.strategy_name;
    old_status = old;
    new_status = now;
    reason = backtest_revalidation e.recommended_status e.degradation_pct;
    sharpe_90d = e.current_oos_sharpe;
    profit_factor_30d = none;
  })

  revalidate : Env F → Revalidated F → Tracker F → Act (Service F) (Option (StatusChanged F))
  unfolding announce_change
  revalidate env e tracker = do
    status ← lift_option (recommended_to_status e.recommended_status)
    result ← lift_option (apply_status tracker status)
    modify (λ s. record s { health = put e.strategy_name result.1 s.health })
    announce_change env (revalidation_change e result.0 result.1.status)

  pub apply_revalidation : Env F → Revalidated F → Act (Service F) (Option (StatusChanged F))
  unfolding revalidate
  apply_revalidation env e s = elim (get e.strategy_name s.health) [
    | none ↦ (done none, s)
    | some tracker ↦ revalidate env e tracker s
  ]

module _ {F : Type 0} ⦃fl : Float F⦄ where
  abbrev pub stop_fraction : F → RuleOutput F → Option F → F
  stop_fraction fallback decision none = fallback
  stop_fraction fallback decision (some atr_pct) =
      if lt nought atr_pct then mul atr_pct decision.stop_atr_mult else fallback

  unfoldable pub protective_levels : F → RuleOutput F → F → Dict String F → F × F
  protective_levels fallback_stop_pct decision price raw =
      let distance = mul price (stop_fraction fallback_stop_pct decision (get "atr_pct_14" raw)) in
      elim decision.signal [
        | buy ↦ (sub price distance, add price (mul distance decision.take_profit_rr))
        | _ ↦ (add price distance, sub price (mul distance decision.take_profit_rr))
      ]

  -- The field constraints of `TradingSignal`; a violation raises.
  abbrev pub is_signal_valid : F → F → F → F → Bool
  is_signal_valid confidence price stop_loss take_profit =
      le nought confidence
      && le confidence one
      && lt nought price
      && lt nought stop_loss
      && lt nought take_profit

  announce_signal : Env F → SignalGenerated F → Act (Service F) (Option (SignalGenerated F))
  unfolding publish
  announce_signal env event = do publish env (generated event); pure (some event)

  -- The part of `_evaluate_rule` after the signal is built.
  gate_signal :
      Env F
      → StrategyRule F
      → RuleOutput F
      → String
      → F
      → F × F
      → PortfolioSnapshot F
      → Act (Service F) (Option (SignalGenerated F))
  unfolding announce_signal
  gate_signal env rule decision symbol price (stop_loss, take_profit) portfolio s =
      let (approved, reason) =
        check_signal s.limits
          (record {
            signal = decision.signal;
            confidence = decision.confidence;
            stop_loss = some stop_loss;
          })
          portfolio.exposure_pct portfolio.drawdown_pct portfolio.daily_loss_pct [] none in
      let (profitable, details) =
        is_profitable_after_costs s.cost (mul s.edge_bps decision.confidence) s.cap_tier in
      if not approved
      then (done none, s)
      else if not profitable
      then (done none, s)
      else announce_signal env
          (record {
            symbol = symbol;
            strategy_name = rule.name;
            signal = decision.signal;
            confidence = decision.confidence;
            price = price;
            stop_loss = stop_loss;
            take_profit = take_profit;
            metadata = decision.metadata;
            rule_reason = decision.reason;
            risk_reason = reason;
          })
          s

  pub evaluate_rule :
      Env F
      → StrategyRule F
      → String
      → Dict String F
      → Dict String F
      → F
      → PortfolioSnapshot F
      → Act (Service F) (Option (SignalGenerated F))
  unfolding gate_signal
  evaluate_rule env rule symbol ranked raw price portfolio s =
      let decision = rule.generate ranked raw (get rule.name s.rule_params) in
      let levels = protective_levels s.fallback_stop_pct decision price raw in
      if is_hold decision.signal
      then (done none, s)
      else if not (is_signal_valid decision.confidence price levels.0 levels.1)
      then (raised, s)
      else gate_signal env rule decision symbol price levels portfolio s

  evaluate_rules :
      Env F
      → List String
      → String
      → Dict String F
      → Dict String F
      → F
      → PortfolioSnapshot F
      → Act (Service F) (List (SignalGenerated F))
  unfolding evaluate_rule
  evaluate_rules env [] symbol ranked raw price portfolio = pure []
  evaluate_rules env (name ∷ rest) symbol ranked raw price portfolio = do
    rules ← gets (λ s. s.rules)
    rule ← lift_option (get name rules)
    first ← evaluate_rule env rule symbol ranked raw price portfolio
    events ← evaluate_rules env rest symbol ranked raw price portfolio
    pure (append_some first events)

  snapshot_of : PortfolioSnapshot F → Option (PortfolioAnswer F) → PortfolioSnapshot F
  snapshot_of placeholder none = placeholder
  snapshot_of placeholder (some answer) = record {
    value = or_default answer.value placeholder.value;
    exposure_pct = or_default answer.exposure_pct nought;
    drawdown_pct = or_default answer.drawdown_pct nought;
    daily_loss_pct = or_default answer.daily_loss_pct nought;
  }

  pub current_portfolio : Env F → Act (Service F) (PortfolioSnapshot F)
  unfolding snapshot_of
  current_portfolio env s =
      if not env.has_portfolio_client
      then (done s.portfolio, s)
      else (do answer ← from_outcome env.get_portfolio; pure (snapshot_of s.portfolio answer)) s

  evaluate_at :
      Env F
      → List String
      → String
      → Dict String F
      → Dict String F
      → Option F
      → Act (Service F) (List (SignalGenerated F))
  unfolding evaluate_rules current_portfolio
  evaluate_at env active symbol ranked raw none s = (done [], s)
  evaluate_at env active symbol ranked raw (some price) s =
      if le price nought
      then (done [], s)
      else (do
        portfolio ← current_portfolio env
        evaluate_rules env active symbol ranked raw price portfolio)
          s

  evaluate_vectors :
      Env F
      → List String
      → String
      → Option (Dict String F)
      → Option (Dict String F)
      → Act (Service F) (List (SignalGenerated F))
  unfolding evaluate_at
  evaluate_vectors env active symbol (some ranked) (some raw) =
      evaluate_at env active symbol ranked raw (get "close" raw)
  evaluate_vectors env active symbol _ _ = pure []

  evaluate_active : Env F → List String → String → Act (Service F) (List (SignalGenerated F))
  unfolding evaluate_vectors
  evaluate_active env [] symbol = pure []
  evaluate_active env (name ∷ rest) symbol = do
    ranked ← from_outcome (env.get_ranked symbol)
    raw ← from_outcome (env.get_features symbol)
    evaluate_vectors env (name ∷ rest) symbol ranked raw

  pub evaluate_symbol : Env F → String → Act (Service F) (List (SignalGenerated F))
  unfolding evaluate_active names
  evaluate_symbol env symbol s =
      evaluate_active env (keep (active_in s.health) (names s.rules)) symbol s

  abbrev pub decay_change : StrategyHealth F → Option Status → Option (StatusChanged F)
  decay_change health none = none
  decay_change health (some old) = some (record {
    strategy_name = health.strategy_name;
    old_status = old;
    new_status = health.status;
    reason = decay health.reason;
    sharpe_90d = health.metrics.sharpe_90d;
    profit_factor_30d = some health.metrics.profit_factor_30d;
  })

  -- An unknown name raises KeyError.
  pub update_health : Env F → String → HealthMetrics F → Act (Service F) (Option (StatusChanged F))
  unfolding announce_change
  update_health env name m = do
    health ← gets (λ s. s.health)
    tracker ← lift_option (get name health)
    modify (λ s. record s { health = put name (evaluate tracker m).2 s.health })
    announce_change env (decay_change (evaluate tracker m).0 (evaluate tracker m).1)
