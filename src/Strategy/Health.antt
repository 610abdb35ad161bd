-- ===== src/Strategy/Health.antt =====
-- services/strategy/src/core/decay_monitor.py and health.py. The date of a check is not modelled.
pub mod Verdicts
use market_app.Prelude.{
  ℕ, String, Bool, true, false, not, ◌&&◌, Option, none, some, List, [], ◌∷◌, ◌++◌, if◌then◌else◌,
  ◌==◌, String_eq,
}
use market_app.Prelude.Int.{ℤ, pos, ltb_ℤ}
use market_app.Float.{Float, lt, le, literal, nought}

pub data Status : Type 0 where
  active probation deactivated : Status

abbrev pub same_status : Status → Status → Bool
same_status active active = true
same_status probation probation = true
same_status deactivated deactivated = true
same_status _ _ = false

-- The members of `VALID_STATUSES`.
unfoldable pub status_of : String → Option Status
status_of text =
    if text == "active"
    then some active
    else if text == "probation"
    then some probation
    else if text == "deactivated"
    then some deactivated
    else none

-- The parts of the reason of a probation.
pub data Weakness : Type 0 where
  low_sharpe low_pf low_win_rate : Weakness

pub data HealthReason : Type 0 where
  negative_sharpe low_profit_factor probation_timeout all_metrics_healthy : HealthReason
  weak : List Weakness → HealthReason

-- The arguments of `evaluate`.
pub record HealthMetrics (F : Type 0) : Type 0 where
  pub sharpe_30d : F
  pub sharpe_90d : F
  pub sharpe_180d : F
  pub win_rate_30d : F
  pub profit_factor_30d : F
  pub excess_return_vs_spy_30d : F
  pub days_in_probation : ℤ

pub record StrategyHealth (F : Type 0) : Type 0 where
  pub strategy_name : String
  pub metrics : HealthMetrics F
  pub status : Status
  pub reason : HealthReason

-- `StrategyHealthTracker`.
pub record Tracker (F : Type 0) : Type 0 where
  pub name : String
  pub status : Status
  pub health : Option (StrategyHealth F)

abbrev pub is_active : {F : Type 0} → Tracker F → Bool
is_active t = same_status t.status active

-- The old status where it changed.
abbrev pub changed_from : Status → Status → Option Status
changed_from old now = if same_status old now then none else some old

unfoldable pub new_tracker : {F : Type 0} → String → Tracker F
new_tracker name = record { name = name; status = active; health = none }

-- `none` is the ValueError of an unknown status.
unfoldable pub apply_status : {F : Type 0} → Tracker F → String → Option (Option Status × Tracker F)
apply_status t status = elim (status_of status) [
  | none ↦ none
  | some now ↦ some (changed_from t.status now, record t { status = now })
]

abbrev weakness : Bool → Weakness → List Weakness
weakness true w = w ∷ []
weakness false w = []

module _ {F : Type 0} ⦃fl : Float F⦄ where
  -- The verdict of `StrategyDecayMonitor.evaluate`.
  unfoldable pub verdict : HealthMetrics F → Status × HealthReason
  verdict m =
      if lt m.sharpe_30d nought
      then (deactivated, negative_sharpe)
      else if lt m.profit_factor_30d (literal 8 1)
      then (deactivated, low_profit_factor)
      else if ltb_ℤ (pos 30) m.days_in_probation
      then (deactivated, probation_timeout)
      else if le (literal 5 1) m.sharpe_30d
          && le (literal 12 1) m.profit_factor_30d
          && le (literal 4 1) m.win_rate_30d
      then (active, all_metrics_healthy)
      else (
        probation,
        weak (
            weakness (lt m.sharpe_30d (literal 5 1)) low_sharpe
            ++ weakness (lt m.profit_factor_30d (literal 12 1)) low_pf
            ++ weakness (lt m.win_rate_30d (literal 4 1)) low_win_rate),
      )

  unfoldable pub evaluate_health : String → HealthMetrics F → StrategyHealth F
  evaluate_health name m = record {
    strategy_name = name;
    metrics = m;
    status = (verdict m).0;
    reason = (verdict m).1;
  }

  -- `StrategyHealthTracker.evaluate`.
  unfoldable pub evaluate :
      Tracker F → HealthMetrics F → StrategyHealth F × Option Status × Tracker F
  evaluate t m =
      let health = evaluate_health t.name m in
      (
        health,
        changed_from t.status health.status,
        record t { status = health.status; health = some health },
      )
