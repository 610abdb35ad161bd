-- ===== src/RiskMgmt/Service/Updates.antt =====
-- services/risk-mgmt/src/core/service.py: portfolio updates and the human reset.
use market_app.Prelude.{
  ◌≡◌, refl, Bool, true, false, Option, none, some, List, [], ◌∷◌, ◌++◌, arith, if◌then◌else◌,
  Option-cases, ◌⊎◌, inl, inr, ℕ_eq,
}
use mathlib.Core.List.{append-nil}
use mathlib.Core.Option
use market_app.Prelude.Act.{done, raised}
use market_app.Float.{Float, IsIeee}
use market_app.RiskMgmt.Breaker
use market_app.RiskMgmt.Breaker.{
  Breaker, BreakerResult, Level, is_tripped, evaluate, same_level, level_trips,
}
use market_app.RiskMgmt.Breaker.Latch.{evaluate_lem, flattens, halts, reset_accepts}
use market_app.RiskMgmt.Portfolio.{PortfolioUpdate, update}
use market_app.RiskMgmt.Events.{Service, Env, Snapshot, Published, BreakerTriggered, triggered}
use market_app.RiskMgmt.Service.{triggered_of, snapshot, announce, update_portfolio, reset_breaker}

module _ {F : Type 0} ⦃fl : Float F⦄ where
  -- The breaker that an update of the portfolio leads to, and the result of its evaluation.
  abbrev pub evaluated : Env F → PortfolioUpdate F → Service F → Breaker F × BreakerResult F
  evaluated env u s =
      let p = update s.portfolio u in evaluate s.breaker p.drawdown_pct p.daily_loss_pct env.today

  -- What an update announces: a level that is not the one before, and not the return to none.
  abbrev pub announcement : BreakerResult F → Option (BreakerTriggered F)
  announcement result = elim result.level [
    | none ↦ none
    | some level ↦ if result.changed then some (triggered_of result level) else none
  ]

  abbrev pub announced : BreakerResult F → List (Published F)
  announced result = elim (announcement result) [ none ↦ [] | some t ↦ triggered t ∷ [] ]

  announce_lem :
      (env : Env F) (result : BreakerResult F) (s : Service F)
      → ((event : Published F) → env.publishes event ≡ true)
      → announce env result result.changed result.level s
        ≡ (done (announcement result), record s { published = s.published ++ announced result })
  unfolding announce
  announce_lem env result s publishes = elim (Option-cases result.level) [
    | inl e ↦ ground (arith, append-nil s.published)
    | inr (level, e) ↦
        ground (arith, append-nil s.published, publishes (triggered (triggered_of result level)))
  ]

  -- Where writes and publications go through, an update stores the new portfolio and the breaker
  -- evaluated on it, persists both, announces a change to a level, and nothing else, and leaves the
  -- ledger.
  pub update_portfolio_lem :
      (env : Env F) (u : PortfolioUpdate F) (s : Service F)
      → ((snap : Snapshot F) → env.saves snap ≡ true)
      → ((event : Published F) → env.publishes event ≡ true)
      → let (b, result) = evaluated env u s in
        let (returned, s') = update_portfolio env u s in
        (returned ≡ done (announcement result))
        × (s'.portfolio ≡ update s.portfolio u)
        × (s'.breaker ≡ b)
        × (s'.persisted ≡ some (snapshot s'))
        × (s'.published ≡ s.published ++ announced result)
        × (s'.ledger ≡ s.ledger)
  unfolding update_portfolio snapshot
  update_portfolio_lem env u s saves publishes =
      let (b, result) = evaluated env u s in
      let s' = record s { portfolio = update s.portfolio u; breaker = b } in
      ground (
        arith,
        saves (snapshot s'),
        announce_lem env result (record s' { persisted = some (snapshot s') }) publishes,
      )

  breaker-announce :
      (env : Env F) (result : BreakerResult F) (changed : Bool) (level : Option Level)
      (s : Service F)
      → (announce env result changed level s).1.breaker ≡ s.breaker
  unfolding announce
  breaker-announce env result true (some level) s = ground arith
  breaker-announce env result true none s = refl
  breaker-announce env result false (some level) s = refl
  breaker-announce env result false none s = refl

  -- Whatever fails on the way, the breaker has been evaluated on the updated portfolio.
  breaker-update_portfolio :
      (env : Env F) (u : PortfolioUpdate F) (s : Service F)
      → (update_portfolio env u s).1.breaker ≡ (evaluated env u s).0
  unfolding update_portfolio
  breaker-update_portfolio env u s =
      let (b, result) = evaluated env u s in
      let s' = record s { portfolio = update s.portfolio u; breaker = b } in
      ground (
        arith,
        breaker-announce env result result.changed result.level
            (record s' { persisted = some (snapshot s') }),
      )

  -- A breach of the flatten or the halt threshold stops new orders whatever the repository and the
  -- publisher do: the breaker is tripped also where the update raises.
  pub breach_trips :
      (env : Env F) (u : PortfolioUpdate F) (s : Service F)
      → let p = update s.portfolio u in
        (flattens s.breaker p.drawdown_pct ≡ true) ⊎ (halts s.breaker p.daily_loss_pct ≡ true)
        → is_tripped (update_portfolio env u s).1.breaker ≡ true
  unfolding is_tripped
  breach_trips env u s h =
      let p = update s.portfolio u in
      let b = (evaluated env u s).0 in
      let tripped : level_trips b.level ≡ true = ground (
        arith,
        evaluate_lem s.breaker p.drawdown_pct p.daily_loss_pct env.today,
        ℕ_eq.beq_iff env.today env.today,
      ) in
      rw (breaker-update_portfolio env u s) tripped

  -- An update whose write fails announces nothing and raises.
  pub update_unsaved :
      (env : Env F) (u : PortfolioUpdate F) (s : Service F)
      → ((snap : Snapshot F) → env.saves snap ≡ false)
      → let (returned, s') = update_portfolio env u s in
        (returned ≡ raised) × (s'.published ≡ s.published) × (s'.persisted ≡ s.persisted)
  unfolding update_portfolio
  update_unsaved env u s refused =
      let s' = record s { portfolio = update s.portfolio u; breaker = (evaluated env u s).0 } in
      ground (arith, refused (snapshot s'))

  -- Where writes go through, a human reset of a latched breaker whose drawdown is back inside the
  -- flatten threshold persists the state it leaves, in which nothing is latched, and publishes
  -- nothing.
  pub reset_breaker_persists :
      IsIeee F
      → (env : Env F) (s : Service F) → s.breaker.latched_black ≡ true
      → flattens s.breaker s.portfolio.drawdown_pct ≡ false
      → ((snap : Snapshot F) → env.saves snap ≡ true)
      → let s' = (reset_breaker env s).1 in
        (s'.persisted ≡ some (snapshot s'))
        × (Option.map (λ snap. snap.breaker.latched_black) s'.persisted ≡ some false)
        × (s'.published ≡ s.published)
  unfolding reset_breaker snapshot Breaker.snapshot
  reset_breaker_persists laws env s latched inside saves =
      let d = s.portfolio.drawdown_pct in
      let l = s.portfolio.daily_loss_pct in
      let b = (Breaker.reset s.breaker d l env.today).0 in
      ground (
        arith,
        reset_accepts laws s.breaker d l env.today latched inside,
        saves (snapshot (record s { breaker = b })),
      )
