-- ===== src/Strategy/Service/Signals.antt =====
-- services/strategy/src/core/service.py: which signals go out.
use market_app.Prelude.{
  String, ◌≡◌, ◌⊎◌, inl, inr, refl, Bool, true, false, Option, none, some, List, [], ◌∷◌, ◌++◌,
  arith, Bool-cases, Option-cases, All, map, sym, String_eq,
}
use mathlib.Core.List.{append-nil, append_assoc}
use market_app.Prelude.Act.{done, Outcome-cases}
use market_app.Prelude.Dict.{Dict, get}
use market_app.Float.{Float, le, mul, nought}
use market_app.Gates.Cost.{is_profitable_after_costs}
use market_app.Gates.Envelope.{check_signal}
use market_app.Strategy.Events.{
  StrategyRule, PortfolioSnapshot, SignalGenerated, generated, Service, Env,
}
use market_app.Strategy.Service.{
  publish, names, keep, active_in, evaluate_rule, gate_signal, announce_signal, is_hold,
  is_signal_valid, evaluate_rules, evaluate_active, evaluate_symbol, evaluate_vectors, evaluate_at,
  current_portfolio, append_some,
}

All-keep : (p : String → Bool) (xs : List String) → All (λ n. p n ≡ true) (keep p xs)
All-keep p [] = tt
All-keep p (x ∷ xs) = ground (arith, All-keep p xs)

module _ {F : Type 0} ⦃fl : Float F⦄ where
  -- What is known of a signal that goes out for a rule.
  pub record IsGated (s : Service F) (rule : StrategyRule F) (price : F)
      (portfolio : PortfolioSnapshot F) (e : SignalGenerated F) : Type 0 where
    pub of_rule : e.strategy_name ≡ rule.name
    pub acts : is_hold e.signal ≡ false
    pub valid : is_signal_valid e.confidence price e.stop_loss e.take_profit ≡ true
    pub approved :
        (check_signal s.limits
          (record { signal = e.signal; confidence = e.confidence; stop_loss = some e.stop_loss })
          portfolio.exposure_pct
          portfolio.drawdown_pct
          portfolio.daily_loss_pct
          []
          none).0
        ≡ true
    pub profitable :
        (is_profitable_after_costs s.cost (mul s.edge_bps e.confidence) s.cap_tier).0 ≡ true

  -- A rule's signal goes out only if it is not HOLD, its price, stop and target are positive, the
  -- envelope approves it on the portfolio and its edge covers the costs; it is the one new
  -- publication and nothing else of the service changes.
  pub evaluate_rule_lem :
      (env : Env F) (rule : StrategyRule F) (symbol : String) (ranked raw : Dict String F)
      (price : F) (portfolio : PortfolioSnapshot F) (s s' : Service F) (e : SignalGenerated F)
      → evaluate_rule env rule symbol ranked raw price portfolio s ≡ (done (some e), s')
      → IsGated s rule price portfolio e
        × (s' ≡ record s { published = s.published ++ generated e ∷ [] })
  unfolding evaluate_rule gate_signal announce_signal publish
  evaluate_rule_lem env rule symbol ranked raw price portfolio s s' e h = ground arith

  -- Every strategy runs under its own name.
  abbrev pub IsNamed : Service F → Type 0
  IsNamed s =
      (name : String) (rule : StrategyRule F) → get name s.rules ≡ some rule → rule.name ≡ name

  evaluate_rule-none :
      (env : Env F) (rule : StrategyRule F) (symbol : String) (ranked raw : Dict String F)
      (price : F) (portfolio : PortfolioSnapshot F) (s s' : Service F)
      → evaluate_rule env rule symbol ranked raw price portfolio s ≡ (done none, s')
      → s' ≡ s
  unfolding evaluate_rule gate_signal announce_signal publish
  evaluate_rule-none env rule symbol ranked raw price portfolio s s' h = ground arith

  abbrev pub Keeps : Service F → Service F → List (SignalGenerated F) → Type 0
  Keeps s s' events =
      (s'.published ≡ s.published ++ map generated events)
      × (s'.health ≡ s.health)
      × (s'.rules ≡ s.rules)

  -- One round of the loop, seen from its result.
  evaluate_rules-cons :
      (env : Env F) (name : String) (rest : List String) (symbol : String)
      (ranked raw : Dict String F) (price : F) (portfolio : PortfolioSnapshot F) (s s' : Service F)
      (events : List (SignalGenerated F))
      → evaluate_rules env (name ∷ rest) symbol ranked raw price portfolio s ≡ (done events, s')
      → (rule : StrategyRule F) × (first : Option (SignalGenerated F)) × (mid : Service F)
        × (more : List (SignalGenerated F)) × (get name s.rules ≡ some rule)
        × (evaluate_rule env rule symbol ranked raw price portfolio s ≡ (done first, mid))
        × (evaluate_rules env rest symbol ranked raw price portfolio mid ≡ (done more, s'))
        × (events ≡ append_some first more)
  unfolding evaluate_rules
  evaluate_rules-cons env name rest symbol ranked raw price portfolio s s' events h =
      elim (Option-cases (get name s.rules)) [
        | inl missing ↦ absurd (ground arith)
        | inr (rule, known) ↦
            let c = evaluate_rule env rule symbol ranked raw price portfolio s in
            elim (Outcome-cases c.0) [
              | inl failed ↦ absurd (ground arith)
              | inr (first, ok) ↦
                  let d = evaluate_rules env rest symbol ranked raw price portfolio c.1 in
                  elim (Outcome-cases d.0) [
                    | inl failed ↦ absurd (ground arith)
                    | inr (more, ok') ↦
                        (rule, first, c.1, more, known, ground arith, ground arith, ground arith)
                  ]
            ]
      ]

  -- What the first round leaves to be said of the others.
  abbrev Round : (String → Bool) → Option (SignalGenerated F) → Service F → Service F → Type 0
  Round p none s mid = mid ≡ s
  Round p (some e) s mid =
      (p e.strategy_name ≡ true) × (mid ≡ record s { published = s.published ++ generated e ∷ [] })

  rounds :
      (p : String → Bool) (first : Option (SignalGenerated F)) (s mid s' : Service F)
      (more : List (SignalGenerated F))
      → Round p first s mid
      → All (λ e. p e.strategy_name ≡ true) more × Keeps mid s' more
      → All (λ e. p e.strategy_name ≡ true) (append_some first more)
        × Keeps s s' (append_some first more)
  rounds p none s mid s' more same rest = rw (sym same) rest
  rounds p (some e) s mid s' more (q, moved) (all, (sent, health, rules)) = (
    (q, all),
    ground (arith, moved, append_assoc s.published (generated e ∷ []) (map generated more)),
  )

  Round-first :
      (env : Env F) (p : String → Bool) (rule : StrategyRule F) (symbol : String)
      (ranked raw : Dict String F) (price : F) (portfolio : PortfolioSnapshot F) (s mid : Service F)
      (first : Option (SignalGenerated F))
      → evaluate_rule env rule symbol ranked raw price portfolio s ≡ (done first, mid)
      → p rule.name ≡ true
      → Round p first s mid
  Round-first env p rule symbol ranked raw price portfolio s mid none h q =
      evaluate_rule-none env rule symbol ranked raw price portfolio s mid h
  Round-first env p rule symbol ranked raw price portfolio s mid (some e) h q =
      let (gated, moved) = evaluate_rule_lem env rule symbol ranked raw price portfolio s mid e h in
      (rw gated.of_rule q, moved)

  IsNamed-mid :
      (env : Env F) (rule : StrategyRule F) (symbol : String) (ranked raw : Dict String F)
      (price : F) (portfolio : PortfolioSnapshot F) (s mid : Service F)
      (first : Option (SignalGenerated F))
      → IsNamed s
      → evaluate_rule env rule symbol ranked raw price portfolio s ≡ (done first, mid)
      → IsNamed mid
  IsNamed-mid env rule symbol ranked raw price portfolio s mid none named h =
      rw (evaluate_rule-none env rule symbol ranked raw price portfolio s mid h) named
  IsNamed-mid env rule symbol ranked raw price portfolio s mid (some e) named h =
      rw ((evaluate_rule_lem env rule symbol ranked raw price portfolio s mid e h).1) named

  evaluate_rules_lem :
      (env : Env F) (p : String → Bool) (ns : List String) (symbol : String)
      (ranked raw : Dict String F) (price : F) (portfolio : PortfolioSnapshot F) (s s' : Service F)
      (events : List (SignalGenerated F))
      → IsNamed s
      → All (λ n. p n ≡ true) ns
      → evaluate_rules env ns symbol ranked raw price portfolio s ≡ (done events, s')
      → All (λ e. p e.strategy_name ≡ true) events × Keeps s s' events
  unfolding evaluate_rules
  evaluate_rules_lem env p [] symbol ranked raw price portfolio s s' events named all h =
      let nothing : events ≡ [] = ground arith in
      let same : s' ≡ s = ground arith in
      rw (nothing, same) (tt, (sym (append-nil s.published), refl, refl))
  evaluate_rules_lem env p (name ∷ rest) symbol ranked raw price portfolio s s' events named
        (q, all) h =
      let (rule, first, mid, more, known, one, others, listed) =
        evaluate_rules-cons env name rest symbol ranked raw price portfolio s s' events h in
      let all_rest =
        evaluate_rules_lem env p rest symbol ranked raw price portfolio mid s' more
          (IsNamed-mid env rule symbol ranked raw price portfolio s mid first named one) all
          others in
      rw listed (
        rounds p first s mid s' more
          (Round-first env p rule symbol ranked raw price portfolio s mid first one
            (rw (named name rule known) q))
          all_rest)

  -- Either nothing came of a symbol, or the loop over the strategies ran on it.
  abbrev Ran :
      Env F → List String → String → Service F → Service F → List (SignalGenerated F) → Type 0
  Ran env ns symbol s s' events =
      ((events ≡ []) × (s' ≡ s))
      ⊎ ((ranked : Dict String F) × (raw : Dict String F) × (price : F)
          × (portfolio : PortfolioSnapshot F) × (evaluate_rules env ns symbol ranked raw price
                portfolio s
              ≡ (done events, s')))

  current_portfolio-same : (env : Env F) (s : Service F) → (current_portfolio env s).1 ≡ s
  unfolding current_portfolio
  current_portfolio-same env s = ground arith

  evaluate_at-Ran :
      (env : Env F) (ns : List String) (symbol : String) (ranked raw : Dict String F)
      (close : Option F) (s s' : Service F) (events : List (SignalGenerated F))
      → evaluate_at env ns symbol ranked raw close s ≡ (done events, s')
      → Ran env ns symbol s s' events
  unfolding evaluate_at
  evaluate_at-Ran env ns symbol ranked raw none s s' events h = inl (ground arith, ground arith)
  evaluate_at-Ran env ns symbol ranked raw (some price) s s' events h =
      elim (Bool-cases (le price nought)) [
        | inl low ↦ inl (ground arith, ground arith)
        | inr high ↦ elim (Outcome-cases (current_portfolio env s).0) [
          | inl failed ↦ absurd (ground arith)
          | inr (portfolio, ok) ↦
              inr (ranked, raw, price, portfolio, ground (arith, current_portfolio-same env s))
        ]
      ]

  evaluate_vectors-Ran :
      (env : Env F) (ns : List String) (symbol : String) (ranked raw : Option (Dict String F))
      (s s' : Service F) (events : List (SignalGenerated F))
      → evaluate_vectors env ns symbol ranked raw s ≡ (done events, s')
      → Ran env ns symbol s s' events
  unfolding evaluate_vectors
  evaluate_vectors-Ran env ns symbol (some ranked) (some raw) s s' events h =
      evaluate_at-Ran env ns symbol ranked raw (get "close" raw) s s' events h
  evaluate_vectors-Ran env ns symbol (some ranked) none s s' events h =
      inl (ground arith, ground arith)
  evaluate_vectors-Ran env ns symbol none raw s s' events h = inl (ground arith, ground arith)

  evaluate_active-Ran :
      (env : Env F) (ns : List String) (symbol : String) (s s' : Service F)
      (events : List (SignalGenerated F))
      → evaluate_active env ns symbol s ≡ (done events, s')
      → Ran env ns symbol s s' events
  unfolding evaluate_active
  evaluate_active-Ran env [] symbol s s' events h = inl (ground arith, ground arith)
  evaluate_active-Ran env (n ∷ ns) symbol s s' events h =
      elim (Outcome-cases (env.get_ranked symbol)) [
        | inl failed ↦ absurd (ground arith)
        | inr (ranked, ok) ↦ elim (Outcome-cases (env.get_features symbol)) [
          | inl failed ↦ absurd (ground arith)
          | inr (raw, ok') ↦
              evaluate_vectors-Ran env (n ∷ ns) symbol ranked raw s s' events (ground arith)
        ]
      ]

  -- Where every strategy runs under its own name, an evaluation of a symbol that returns does so
  -- with signals of active strategies only; they are exactly what is published, in that order, and
  -- no strategy's status moves.
  pub signals_of_active :
      (env : Env F) (symbol : String) (s s' : Service F) (events : List (SignalGenerated F))
      → IsNamed s
      → evaluate_symbol env symbol s ≡ (done events, s')
      → All (λ e. active_in s.health e.strategy_name ≡ true) events
        × (s'.published ≡ s.published ++ map generated events)
        × (s'.health ≡ s.health)
  unfolding evaluate_symbol
  signals_of_active env symbol s s' events named h =
      let active = keep (active_in s.health) (names s.rules) in
      elim (evaluate_active-Ran env active symbol s s' events h) [
        | inl (nothing, same) ↦ rw (nothing, same) (tt, sym (append-nil s.published), refl)
        | inr (ranked, raw, price, portfolio, run) ↦
            let (all, (sent, health, _)) =
              evaluate_rules_lem env (active_in s.health) active symbol ranked raw price portfolio s
                s' events named (All-keep (active_in s.health) (names s.rules)) run in
            (all, sent, health)
      ]
