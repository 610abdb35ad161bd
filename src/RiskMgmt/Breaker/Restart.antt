-- ===== src/RiskMgmt/Breaker/Restart.antt =====
-- services/risk-mgmt/src/core/circuit_breaker.py: `snapshot` and `restore`.
use market_app.Prelude.{ℕ, ◌≡◌, refl, some, List, ◌∷◌, arith}
use market_app.Float.{Float}
use market_app.RiskMgmt.Breaker.{Breaker, evaluate, snapshot, restore, new_breaker}
use market_app.RiskMgmt.Breaker.Latch.{Reading, evaluate_all}

module _ {F : Type 0} ⦃fl : Float F⦄ where
  -- The breaker of a container that restarts with the same thresholds.
  abbrev pub restarted : Breaker F → Breaker F
  restarted b = restore (new_breaker b.warn_dd b.halt_daily b.flatten_dd) (some (snapshot b))

  restarted-evaluate :
      (b : Breaker F) (dd dl : F) (today : ℕ)
      → (evaluate (restarted b) dd dl today).0 ≡ (evaluate b dd dl today).0
  unfolding evaluate snapshot restore new_breaker
  restarted-evaluate b dd dl today = ground arith

  -- A restart is not a reset: from the first reading on, a breaker that is restored from its
  -- snapshot is in the very state that it would have reached without the restart.
  pub restart_transparent :
      (b : Breaker F) (r : Reading F) (rs : List (Reading F))
      → evaluate_all (restarted b) (r ∷ rs) ≡ evaluate_all b (r ∷ rs)
  unfolding evaluate_all
  restart_transparent b r rs = rw (restarted-evaluate b r.drawdown_pct r.daily_loss_pct r.day) refl
