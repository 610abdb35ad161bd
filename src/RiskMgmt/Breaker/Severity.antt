-- ===== src/RiskMgmt/Breaker/Severity.antt =====
-- services/risk-mgmt/src/core/circuit_breaker.py: the order of readings and of levels.
use market_app.Prelude.{ℕ, ◌≤◌, ◌≡◌, Bool, true, ◌||◌, Option, none, some, arith}
use market_app.Float.{Float, IsIeee, ◌≼◌, abs}
use market_app.RiskMgmt.Breaker.{Breaker, Level, yellow, red, black, same_day, evaluate}
use market_app.RiskMgmt.Breaker.Latch.{expected_level, flattens, halts, warns, evaluate_lem}

abbrev pub severity : Option Level → ℕ
severity none = 0
severity (some yellow) = 1
severity (some red) = 2
severity (some black) = 3

-- A level is no milder where each of its three conditions still holds.
severity-expected_level :
    (latched halted warned latched' halted' warned' : Bool)
    → (latched ≡ true → latched' ≡ true)
    → (halted ≡ true → halted' ≡ true)
    → (warned ≡ true → warned' ≡ true)
    → severity (expected_level latched halted warned)
      ≤ severity (expected_level latched' halted' warned')
severity-expected_level latched halted warned latched' halted' warned' f g h =
    ground (arith, f, g, h)

module _ {F : Type 0} ⦃fl : Float F⦄ where
  -- Of two readings of the same breaker on the same day, the one with a drawdown and a daily loss of
  -- at least the size of the other's never leaves a milder level.
  pub worse_reading_not_milder :
      IsIeee F
      → (b : Breaker F) (drawdown loss drawdown' loss' : F) (today : ℕ)
      → abs drawdown ≼ abs drawdown'
      → abs loss ≼ abs loss'
      → severity (evaluate b drawdown loss today).0.level
        ≤ severity (evaluate b drawdown' loss' today).0.level
  worse_reading_not_milder laws b drawdown loss drawdown' loss' today h k =
      let (_, _, level, _, _, _, _, _) = evaluate_lem b drawdown loss today in
      let (_, _, level', _, _, _, _, _) = evaluate_lem b drawdown' loss' today in
      rw (level, level')
        (severity-expected_level (b.latched_black || flattens b drawdown)
          (halts b loss || same_day b.halted_session today) (warns b drawdown)
          (b.latched_black || flattens b drawdown')
          (halts b loss' || same_day b.halted_session today) (warns b drawdown')
          (λ e. ground (arith, e, laws.le_trans b.flatten_dd (abs drawdown) (abs drawdown')))
          (λ e. ground (arith, e, laws.le_trans b.halt_daily (abs loss) (abs loss')))
          (λ e. laws.le_trans b.warn_dd (abs drawdown) (abs drawdown') e h))
