-- ===== src/Strategy/Health/Verdicts.antt =====
-- services/strategy/src/core/decay_monitor.py: which status the metrics lead to.
use market_app.Prelude.{◌≡◌, not, ◌&&◌, ◌||◌, if◌then◌else◌, arith, none, some, []}
use market_app.Prelude.Int.{pos, ltb_ℤ}
use market_app.Float.{Float, IsIeee, IsNumber, lt, le, literal, nought}
use market_app.Strategy.Health.{
  probation, deactivated, HealthMetrics, weak, Tracker, is_active, same_status, verdict, evaluate,
  evaluate_health,
}

module _ {F : Type 0} ⦃fl : Float F⦄ where
  -- A strategy may publish after an evaluation exactly if no deactivation trigger fires and all three
  -- metrics reach their active thresholds; it is deactivated exactly if a trigger fires; and the
  -- tracker reports the old status exactly if the status moved.
  pub evaluate_health_lem :
      (t : Tracker F) (m : HealthMetrics F)
      → let (health, old, t') = evaluate t m in
        let triggered =
          lt m.sharpe_30d nought
          || lt m.profit_factor_30d (literal 8 1)
          || ltb_ℤ (pos 30) m.days_in_probation in
        (is_active t' ≡ (
          not triggered
          && (le (literal 5 1) m.sharpe_30d
              && le (literal 12 1) m.profit_factor_30d
              && le (literal 4 1) m.win_rate_30d)))
        × (same_status t'.status deactivated ≡ triggered)
        × (t'.status ≡ health.status)
        × (old ≡ (if same_status t.status t'.status then none else some t.status))
        × (t'.health ≡ some health)
        × (t'.name ≡ t.name)
  unfolding evaluate evaluate_health verdict
  evaluate_health_lem t m = ground arith

  -- Where the three metrics and their thresholds are numbers, the reason of a probation names at
  -- least one weak metric.
  pub probation_has_reason :
      IsIeee F
      → (t : Tracker F) (m : HealthMetrics F) → IsNumber m.sharpe_30d
      → IsNumber m.profit_factor_30d
      → IsNumber m.win_rate_30d
      → IsNumber {F = F} (literal 5 1)
      → IsNumber {F = F} (literal 12 1)
      → IsNumber {F = F} (literal 4 1)
      → (evaluate t m).0.status ≡ probation
      → ¬ ((evaluate t m).0.reason ≡ weak [])
  unfolding evaluate evaluate_health verdict
  probation_has_reason laws t m s p w s' p' w' h k = ground (
    arith,
    laws.lt-not-le m.sharpe_30d (literal 5 1) s s',
    laws.lt-not-le m.profit_factor_30d (literal 12 1) p p',
    laws.lt-not-le m.win_rate_30d (literal 4 1) w w',
  )
