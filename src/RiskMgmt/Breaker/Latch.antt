-- ===== src/RiskMgmt/Breaker/Latch.antt =====
-- services/risk-mgmt/src/core/circuit_breaker.py: what holds a tripped breaker, over any sequence
-- of readings, and what a human reset does.
use market_app.Prelude.{
  ℕ, ◌≡◌, Bool, true, false, not, ◌&&◌, ◌||◌, Option, none, some, List, [], ◌∷◌, arith,
  if◌then◌else◌, All, ℕ_eq,
}
use market_app.Float.{Float, IsIeee, le, abs}
use market_app.RiskMgmt.Breaker.{
  Breaker, Level, yellow, red, black, level_trips, same_level, same_day, is_tripped, evaluate,
  reset,
}

-- One reading of the portfolio: drawdown, daily loss and the day of the clock.
pub record Reading (F : Type 0) : Type 0 where
  pub drawdown_pct : F
  pub daily_loss_pct : F
  pub day : ℕ

-- The rules of the module's docstring: the worst level wins.
abbrev pub expected_level : Bool → Bool → Bool → Option Level
expected_level true halted warned = some black
expected_level false true warned = some red
expected_level false false true = some yellow
expected_level false false false = none

module _ {F : Type 0} ⦃fl : Float F⦄ where
  unfoldable pub evaluate_all : Breaker F → List (Reading F) → Breaker F
  evaluate_all b [] = b
  evaluate_all b (r ∷ rs) = evaluate_all (evaluate b r.drawdown_pct r.daily_loss_pct r.day).0 rs

  -- Whether a reading breaches the flatten, the halt and the warning threshold.
  abbrev pub flattens : Breaker F → F → Bool
  flattens b dd = le b.flatten_dd (abs dd)

  abbrev pub halts : Breaker F → F → Bool
  halts b dl = le b.halt_daily (abs dl)

  abbrev pub warns : Breaker F → F → Bool
  warns b dd = le b.warn_dd (abs dd)

  -- Every evaluation latches on a flatten breach, holds a daily halt for its day, sets the worst
  -- level that applies, reports it, reports a change exactly when the level differs from the
  -- level before, and keeps the thresholds.
  pub evaluate_lem :
      (b : Breaker F) (dd dl : F) (today : ℕ)
      → let (b', result) = evaluate b dd dl today in
        let latched = b.latched_black || flattens b dd in
        let halted = halts b dl || same_day b.halted_session today in
        (b'.latched_black ≡ latched)
        × (b'.halted_session ≡ (if halts b dl then some today else b.halted_session))
        × (b'.level ≡ expected_level latched halted (warns b dd))
        × (result.level ≡ b'.level)
        × (result.changed ≡ not (same_level b'.level b.level))
        × (b'.warn_dd ≡ b.warn_dd)
        × (b'.halt_daily ≡ b.halt_daily)
        × (b'.flatten_dd ≡ b.flatten_dd)
  unfolding evaluate
  evaluate_lem b dd dl today = ground (arith, ℕ_eq.beq_iff today today)

  latched_step :
      (b : Breaker F) (dd dl : F) (today : ℕ)
      → b.latched_black ≡ true
      → let b' = (evaluate b dd dl today).0 in (b'.latched_black ≡ true) × (b'.level ≡ some black)
  latched_step b dd dl today h = ground (arith, evaluate_lem b dd dl today)

  latched_all :
      (b : Breaker F) (rs : List (Reading F))
      → b.latched_black ≡ true
      → b.level ≡ some black
      → let b' = evaluate_all b rs in (b'.latched_black ≡ true) × (b'.level ≡ some black)
  unfolding evaluate_all
  latched_all b [] h k = (h, k)
  latched_all b (r ∷ rs) h k =
      let (h', k') = latched_step b r.drawdown_pct r.daily_loss_pct r.day h in
      latched_all (evaluate b r.drawdown_pct r.daily_loss_pct r.day).0 rs h' k'

  -- Once a drawdown reaches the flatten threshold the breaker is latched at BLACK after any further
  -- readings, however far the drawdown recovers and however many days pass.
  pub black_latches :
      (b : Breaker F) (r : Reading F) (rs : List (Reading F))
      → flattens b r.drawdown_pct ≡ true
      → let b' = evaluate_all b (r ∷ rs) in
        (b'.latched_black ≡ true) × (b'.level ≡ some black) × (is_tripped b' ≡ true)
  unfolding evaluate_all is_tripped
  black_latches b r rs h =
      let first = evaluate_lem b r.drawdown_pct r.daily_loss_pct r.day in
      let b' = (evaluate b r.drawdown_pct r.daily_loss_pct r.day).0 in
      ground (arith, first, latched_all b' rs)

  halted_step :
      (b : Breaker F) (dd dl : F) (today : ℕ)
      → b.halted_session ≡ some today
      → let b' = (evaluate b dd dl today).0 in
        (b'.halted_session ≡ some today) × (level_trips b'.level ≡ true)
  halted_step b dd dl today h = ground (arith, evaluate_lem b dd dl today, ℕ_eq.beq_iff today today)

  halted-All :
      (b : Breaker F) (today : ℕ) (rs : List (Reading F))
      → All (λ r. r.day ≡ today) rs
      → b.halted_session ≡ some today
      → level_trips b.level ≡ true
      → level_trips (evaluate_all b rs).level ≡ true
  unfolding evaluate_all
  halted-All b today [] d h k = k
  halted-All b today (r ∷ rs) (e, d) h k =
      let b' = (evaluate b r.drawdown_pct r.daily_loss_pct r.day).0 in
      ground (arith, halted_step b r.drawdown_pct r.daily_loss_pct r.day, halted-All b' today rs d)

  -- A daily loss at the halt threshold keeps the breaker tripped for the rest of that day, whatever
  -- the later readings of the day are.
  pub halt_holds_for_session :
      (b : Breaker F) (r : Reading F) (rs : List (Reading F))
      → halts b r.daily_loss_pct ≡ true
      → All (λ s. s.day ≡ r.day) rs
      → is_tripped (evaluate_all b (r ∷ rs)) ≡ true
  unfolding evaluate_all is_tripped
  halt_holds_for_session b r rs h d =
      let b' = (evaluate b r.drawdown_pct r.daily_loss_pct r.day).0 in
      ground (
        arith,
        evaluate_lem b r.drawdown_pct r.daily_loss_pct r.day,
        ℕ_eq.beq_iff r.day r.day,
        halted-All b' r.day rs d,
      )

  -- On a later day a halt is over: with nothing latched and a reading inside the flatten and the
  -- halt thresholds, new orders are allowed again.
  pub halt_lifts_next_day :
      (b : Breaker F) (dd dl : F) (day today : ℕ)
      → b.halted_session ≡ some day
      → ¬ (day ≡ today)
      → b.latched_black ≡ false
      → flattens b dd ≡ false
      → halts b dl ≡ false
      → is_tripped (evaluate b dd dl today).0 ≡ false
  unfolding is_tripped
  halt_lifts_next_day b dd dl day today h n l f k =
      ground (arith, evaluate_lem b dd dl today, ℕ_eq.beq_iff day today)

  -- A human reset is refused, and changes nothing, unless BLACK is latched and the drawdown is back
  -- inside the flatten threshold.
  pub reset_refused :
      (b : Breaker F) (dd dl : F) (today : ℕ)
      → (b.latched_black && not (flattens b dd)) ≡ false
      → let (b', result) = reset b dd dl today in
        (b' ≡ b) × (result.cleared ≡ false) × (result.level ≡ b.level)
  unfolding reset
  reset_refused b dd dl today h = ground arith

  -- A human reset of a latched breaker whose drawdown is back inside the flatten threshold drops the
  -- latch and evaluates the level anew, so that a daily halt of today still stands.
  pub reset_accepts :
      IsIeee F
      → (b : Breaker F) (dd dl : F) (today : ℕ) → b.latched_black ≡ true
      → flattens b dd ≡ false
      → let (b', result) = reset b dd dl today in
        let halted = halts b dl || same_day b.halted_session today in
        (result.cleared ≡ true)
        × (result.level ≡ b'.level)
        × (b'.latched_black ≡ false)
        × (b'.level ≡ expected_level false halted (warns b dd))
  unfolding reset
  reset_accepts laws b dd dl today h k =
      let open_b = record b { latched_black = false } in
      ground (arith, evaluate_lem open_b (abs dd) dl today, laws.abs_abs dd)
