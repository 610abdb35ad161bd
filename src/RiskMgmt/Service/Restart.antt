-- ===== src/RiskMgmt/Service/Restart.antt =====
-- services/risk-mgmt/src/core/service.py: `restore` after a restart of the container.
use market_app.Prelude.{◌≡◌, ◌∙◌, ◌⊎◌, true, none, some, [], arith, ℕ_eq}
use market_app.Prelude.Dict.{put}
use market_app.Prelude.Act.{done}
use market_app.Float.{Float}
use market_app.RiskMgmt.Breaker
use market_app.RiskMgmt.Breaker.{Breaker, is_tripped, level_trips}
use market_app.RiskMgmt.Breaker.Latch.{evaluate_lem}
use market_app.RiskMgmt.Ledger.{Key_eq}
use market_app.RiskMgmt.Ledger.Memory.{
  IsValid, IsBounded, is_recent, restore-snapshot, record_order-IsBounded, order_remembered,
}
use market_app.RiskMgmt.Events.{Service, Env, SignalAggregated, OrderRequested}
use market_app.RiskMgmt.Service.{key_of, snapshot, process_aggregated, restore}
use market_app.RiskMgmt.Service.Orders.{
  process_aggregated_places, process_aggregated-ledger, known_blocks,
}

module _ {F : Type 0} ⦃fl : Float F⦄ where
  -- A service as the constructor leaves it: no orders on record, and the depth of `other`.
  pub record IsFresh (fresh other : Service F) : Type 0 where
    pub no_orders : fresh.ledger.placed ≡ []
    pub same_depth : fresh.ledger.keep_sessions ≡ other.ledger.keep_sessions

  ledger-restore :
      (env : Env F) (s fresh : Service F)
      → IsBounded s.ledger
      → IsFresh fresh s
      → (restore env (some (snapshot s)) fresh).ledger ≡ s.ledger
  unfolding restore snapshot
  ledger-restore env s fresh b f = restore-snapshot s.ledger fresh.ledger b f.no_orders f.same_depth

  -- In a ledger with one entry per key, a decision that has become an order is not acted on again
  -- after a restart from the repository with the same depth: the restarted service answers a
  -- redelivery for the same symbol, side and session with no order, and is unchanged by it,
  -- provided the session is among the `keep_sessions` newest on record.
  pub redelivery_after_restart :
      (env restart_env env' : Env F) (e e' : SignalAggregated F) (s s' fresh : Service F)
      (o : OrderRequested F)
      → IsValid s.ledger
      → process_aggregated env e s ≡ (done (some o), s')
      → IsFresh fresh s'
      → key_of e' ≡ key_of e
      → is_recent s.ledger.keep_sessions
          (put (key_of e) (key_of e).session s.ledger.placed)
          (key_of e).session
        ≡ true
      → let restarted = restore restart_env s'.persisted fresh in
        process_aggregated env' e' restarted ≡ (done none, restarted)
  redelivery_after_restart env restart_env env' e e' s s' fresh o v h f k recent =
      let recorded = process_aggregated-ledger env e s s' o h in
      let (_, _, _, _, _, _, _, _, saved, _, _) = process_aggregated_places env e s s' o v h in
      let bounded : IsBounded s'.ledger =
        rw recorded (record_order-IsBounded s.ledger (key_of e)) in
      let same = ledger-restore restart_env s' fresh bounded f in
      known_blocks env' e' (restore restart_env s'.persisted fresh)
        (rw (saved, same, recorded, k) (order_remembered s.ledger (key_of e) v ∙ recent))

  -- A restart does not reset the breaker: a latched BLACK, and a daily halt of the day of the
  -- restart, are in force as soon as the snapshot is restored.
  pub restart_keeps_halt :
      (env : Env F) (s fresh : Service F)
      → (s.breaker.latched_black ≡ true) ⊎ (s.breaker.halted_session ≡ some env.today)
      → is_tripped (restore env (some (snapshot s)) fresh).breaker ≡ true
  unfolding restore snapshot is_tripped Breaker.restore Breaker.snapshot
  restart_keeps_halt env s fresh h =
      let p = s.portfolio in
      let b = Breaker.restore fresh.breaker (some (Breaker.snapshot s.breaker)) in
      ground (
        arith,
        evaluate_lem b p.drawdown_pct p.daily_loss_pct env.today,
        ℕ_eq.beq_iff env.today env.today,
        h,
      )
