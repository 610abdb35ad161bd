-- ===== src/RiskMgmt/Breaker.antt =====
-- services/risk-mgmt/src/core/circuit_breaker.py. A date is its ordinal, and the reading of the
-- clock is an argument.
pub mod Latch
pub mod Severity
pub mod Restart
use market_app.Prelude.{
  ℕ, String, Bool, true, false, not, ◌==◌, Option, none, some, if◌then◌else◌, ℕ_eq,
}
use market_app.Float.{Float, le, abs, literal}

-- `CircuitBreakerLevel` of events.py.
pub data Level : Type 0 where
  yellow red black : Level

abbrev pub same_level : Option Level → Option Level → Bool
same_level none none = true
same_level (some yellow) (some yellow) = true
same_level (some red) (some red) = true
same_level (some black) (some black) = true
same_level _ _ = false

abbrev pub same_day : Option ℕ → ℕ → Bool
same_day none today = false
same_day (some day) today = day == today

pub data Metric : Type 0 where
  drawdown daily_loss no_metric : Metric

pub data Action : Type 0 where
  flatten_all halt_trading reduce_risk no_action : Action

pub record BreakerResult (F : Type 0) : Type 0 where
  pub level : Option Level
  pub changed : Bool
  pub trigger_metric : Metric
  pub current_value : F
  pub threshold : F
  pub action : Action

-- The three texts of `reason`.
pub data ResetReason : Type 0 where
  nothing_latched still_past_threshold reset_accepted : ResetReason

pub record ResetResult : Type 0 where
  pub cleared : Bool
  pub level : Option Level
  pub reason : ResetReason

pub record Breaker (F : Type 0) : Type 0 where
  pub warn_dd : F
  pub halt_daily : F
  pub flatten_dd : F
  pub level : Option Level
  pub latched_black : Bool
  pub halted_session : Option ℕ

-- What `snapshot` persists.
pub record BreakerSnapshot : Type 0 where
  pub latched_black : Bool
  pub halted_session : Option ℕ

abbrev pub level_trips : Option Level → Bool
level_trips (some red) = true
level_trips (some black) = true
level_trips _ = false

module _ {F : Type 0} where
  unfoldable pub is_tripped : Breaker F → Bool
  is_tripped b = level_trips b.level

  set_level : Breaker F → Option Level → Metric → F → F → Action → Breaker F × BreakerResult F
  set_level b new metric current threshold action = (
    record b { level = new },
    record {
      level = new;
      changed = not (same_level new b.level);
      trigger_metric = metric;
      current_value = current;
      threshold = threshold;
      action = action;
    },
  )

  unfoldable pub snapshot : Breaker F → BreakerSnapshot
  snapshot b = record { latched_black = b.latched_black; halted_session = b.halted_session }

  unfoldable pub restore : Breaker F → Option BreakerSnapshot → Breaker F
  restore b none = b
  restore b (some s) = record b {
    latched_black = s.latched_black;
    halted_session = s.halted_session;
  }

module _ {F : Type 0} ⦃fl : Float F⦄ where
  -- The two assignments at the head of `evaluate`.
  arm : Breaker F → F → F → ℕ → Breaker F
  arm b dd dl today = record b {
    latched_black = if le b.flatten_dd dd then true else b.latched_black;
    halted_session = if le b.halt_daily dl then some today else b.halted_session;
  }

  unfoldable pub evaluate : Breaker F → F → F → ℕ → Breaker F × BreakerResult F
  unfolding arm set_level
  evaluate b drawdown_pct daily_loss_pct today =
      let dd = abs drawdown_pct in
      let dl = abs daily_loss_pct in
      let b' = arm b dd dl today in
      if b'.latched_black
      then set_level b' (some black) drawdown dd b'.flatten_dd flatten_all
      else if same_day b'.halted_session today
      then set_level b' (some red) daily_loss dl b'.halt_daily halt_trading
      else if le b'.warn_dd dd
      then set_level b' (some yellow) drawdown dd b'.warn_dd reduce_risk
      else set_level b' none no_metric dd b'.warn_dd no_action

  unfoldable pub reset : Breaker F → F → F → ℕ → Breaker F × ResetResult
  unfolding evaluate
  reset b drawdown_pct daily_loss_pct today =
      let dd = abs drawdown_pct in
      if not b.latched_black
      then (b, record { cleared = false; level = b.level; reason = nothing_latched })
      else if le b.flatten_dd dd
      then (b, record { cleared = false; level = b.level; reason = still_past_threshold })
      else let (b', result) =
          evaluate (record b { latched_black = false }) dd daily_loss_pct today in
        (b', record { cleared = true; level = result.level; reason = reset_accepted })

  -- A breaker as the constructor leaves it.
  unfoldable pub new_breaker : F → F → F → Breaker F
  new_breaker drawdown_warn_pct daily_loss_halt_pct drawdown_flatten_pct = record {
    warn_dd = drawdown_warn_pct;
    halt_daily = daily_loss_halt_pct;
    flatten_dd = drawdown_flatten_pct;
    level = none;
    latched_black = false;
    halted_session = none;
  }

  -- The defaults of the constructor's arguments.
  abbrev pub default_breaker : Breaker F
  default_breaker = new_breaker (literal 8 2) (literal 5 2) (literal 15 2)
